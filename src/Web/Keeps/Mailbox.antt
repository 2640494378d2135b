-- ===== src/Web/Keeps/Mailbox.antt =====
-- The handlers for folders and messages.
use cloudpost.Prelude.{
  List, [], if_both, if◌then◌else◌, is_nil, ltb, not, option_both, ℕ, ◌&&◌, ◌∷◌,
}
use cloudpost.Text.{Text, codes, eqb}
use cloudpost.Mailstore.Filters.{move_to_folder_name}
use cloudpost.Mailstore.Flags.{add, deleted_flag, seen_flag}
use cloudpost.Mailstore.History.Others.{
  cancel_scheduled-IsWellFormed, move_to_folder_name-IsWellFormed,
}
use cloudpost.Mailstore.Invariant.{IsWellFormed}
use cloudpost.Mailstore.Invariant.Moves.{expunge_folder-IsWellFormed, move_messages-IsWellFormed}
use cloudpost.Mailstore.Invariant.Removal.{delete_messages-IsWellFormed}
use cloudpost.Mailstore.Invariant.Rows.{set_flags-IsWellFormed}
use cloudpost.Mailstore.Messages.{
  expunge_folder, get_message, get_message_raw, mark_seen, move_messages,
}
use cloudpost.Mailstore.Schema.{Account, Message}
use cloudpost.Web.Api.{cancel_path, folder_paths, folders_path}
use cloudpost.Web.Http.{Outside, Request, Site, done, failure, get, id_of, is_method, post, success}
use cloudpost.Web.Keeps.{Keeps, on_store-Keeps, result_both, stays}
use cloudpost.Web.Mailbox.{
  mail_attachment, mail_cid, mail_list_messages, mail_message, mail_read_all, mail_search,
  message_action, message_delete, message_flags, message_move, message_raw, mode_of, on_store,
  read_flags, read_message, read_move, show_message,
}

module _ {low : ℕ → ℕ} (w : Site) (h : IsWellFormed low w.store) where
  message_flags-Keeps : (r : Request) (account id : ℕ) → Keeps low (message_flags w r account id)
  unfolding message_flags
  message_flags-Keeps r account id =
      option_both (Keeps low) (read_flags r.body) _ _ (stays w _ h) (λ p. record {
        formed = set_flags-IsWellFormed w.store account (id ∷ []) (mode_of p.0) p.1 h;
      })

  message_move-Keeps : (r : Request) (account id : ℕ) → Keeps low (message_move w r account id)
  unfolding message_move
  message_move-Keeps r account id =
      option_both (Keeps low) (read_move r.body) _ _ (stays w _ h) (λ p. moved p.0 p.1)
    where
      moved :
          (name : Text) (to : ℕ)
          → Keeps low (
              if not (is_nil name)
              then on_store w (move_to_folder_name w.store account id name) done 400
              else if ltb 0 to
              then (record w { store = move_messages w.store account to (id ∷ []) }, success done)
              else (w, failure 400))
      moved name to =
          if_both (Keeps low) (not (is_nil name)) _ _
            (on_store-Keeps w _ done 400
              (move_to_folder_name-IsWellFormed w.store account id name h))
            (if_both (Keeps low) (ltb 0 to) _ _
              (record { formed = move_messages-IsWellFormed w.store account to (id ∷ []) h })
              (stays w _ h))

  message_delete-Keeps : (account id : ℕ) → Keeps low (message_delete w account id)
  unfolding message_delete
  message_delete-Keeps account id = record {
    formed =
        delete_messages-IsWellFormed _ account (id ∷ [])
          (set_flags-IsWellFormed w.store account (id ∷ []) add (deleted_flag ∷ []) h);
  }

  show_message-Keeps :
      (o : Outside) (r : Request) (account id : ℕ) (m : Message)
      → Keeps low (show_message o w r account id m)
  unfolding show_message mark_seen
  show_message-Keeps o r account id m =
      result_both (Keeps low) (get_message_raw w.store account id) _ _ (λ e. stays w _ h)
        (λ p. record {
          formed = set_flags-IsWellFormed w.store account (id ∷ []) add (seen_flag ∷ []) h;
        })

  read_message-Keeps :
      (o : Outside) (r : Request) (account id : ℕ) → Keeps low (read_message o w r account id)
  unfolding read_message
  read_message-Keeps o r account id =
      result_both (Keeps low) (get_message w.store account id) _ _ (λ e. stays w _ h)
        (show_message-Keeps o r account id)

  message_action-Keeps :
      (o : Outside) (r : Request) (account id : ℕ) (action : Text)
      → Keeps low (message_action o w r account id action)
  unfolding message_action
  message_action-Keeps o r account id action =
      if_both (Keeps low) (eqb action (codes "raw")) _ _ (stays w (message_raw w account id) h) (
        if_both (Keeps low) (eqb action (codes "flags") && is_method r.method post) _ _
          (message_flags-Keeps r account id)
          (if_both (Keeps low) (eqb action (codes "move") && is_method r.method post) _ _
            (message_move-Keeps r account id)
            (if_both (Keeps low) (eqb action (codes "delete") && is_method r.method post) _ _
              (message_delete-Keeps account id)
              (if_both (Keeps low) (not (is_nil action)) _ _ (stays w (failure 404) h)
                (read_message-Keeps o r account id)))))

  mail_message-Keeps :
      (o : Outside) (r : Request) (account : ℕ) (id_text action : Text)
      → Keeps low (mail_message o w r account id_text action)
  unfolding mail_message
  mail_message-Keeps o r account id_text action =
      option_both (Keeps low) (id_of id_text) _ _ (stays w _ h)
        (λ id. message_action-Keeps o r account id action)

  mail_read_all-Keeps : (account folder : ℕ) → Keeps low (mail_read_all w account folder)
  unfolding mail_read_all
  mail_read_all-Keeps account folder = record {
    formed = set_flags-IsWellFormed w.store account _ add (seen_flag ∷ []) h;
  }

  folder_paths-Keeps :
      (o : Outside) (r : Request) (a : Account) (folder : ℕ) (segs : List Text)
      → Keeps low (folder_paths o w r a folder segs)
  unfolding folder_paths
  folder_paths-Keeps o r a folder [] = if_both (Keeps low) _ _ _ (stays w _ h) (stays w _ h)
  folder_paths-Keeps o r a folder (x ∷ []) =
      if_both (Keeps low) (eqb x (codes "messages") && is_method r.method get) _ _
        (stays w (mail_list_messages w r folder) h)
        (if_both (Keeps low) (eqb x (codes "messages") && is_method r.method post) _ _
          (stays w (mail_search w r folder) h)
          (if_both (Keeps low) (eqb x (codes "expunge") && is_method r.method post) _ _
            (stays (record w { store = (expunge_folder w.store folder).0 }) _
              (expunge_folder-IsWellFormed w.store folder h))
            (if_both (Keeps low) (eqb x (codes "readall") && is_method r.method post) _ _
              (mail_read_all-Keeps a.id folder) (stays w (failure 404) h))))
  folder_paths-Keeps o r a folder (x ∷ id ∷ []) =
      if_both (Keeps low) _ _ _ (mail_message-Keeps o r a.id id []) (stays w _ h)
  folder_paths-Keeps o r a folder (x ∷ id ∷ y ∷ []) =
      if_both (Keeps low) _ _ _ (mail_message-Keeps o r a.id id (codes "raw")) (stays w _ h)
  folder_paths-Keeps o r a folder (x ∷ id ∷ y ∷ z ∷ []) =
      if_both (Keeps low) (eqb x (codes "messages") && eqb y (codes "attachments")) _ _
        (stays w (mail_attachment o w a.id id z) h)
        (if_both (Keeps low) (eqb x (codes "messages") && eqb y (codes "cid")) _ _
          (stays w (mail_cid o w a.id id z) h) (stays w (failure 404) h))
  folder_paths-Keeps o r a folder (x ∷ id ∷ y ∷ z ∷ u ∷ segs) = stays w _ h

  pub folders_path-Keeps :
      (o : Outside) (r : Request) (a : Account) (segs : List Text)
      → Keeps low (folders_path o w r a segs)
  unfolding folders_path
  folders_path-Keeps o r a [] = stays w _ h
  folders_path-Keeps o r a (f ∷ rest) =
      option_both (Keeps low) (id_of f) _ _ (stays w _ h) (λ n. folder_paths-Keeps o r a n rest)

  pub cancel_path-Keeps : (a : Account) (id : Text) → Keeps low (cancel_path w a id)
  unfolding cancel_path
  cancel_path-Keeps a id =
      option_both (Keeps low) (id_of id) _ _ (stays w _ h)
        (λ n. on_store-Keeps w _ done 404 (cancel_scheduled-IsWellFormed w.store a.id n h))
