-- ===== src/Web/Keeps/Routes.antt =====
-- The invariant of the store under what the routers lead to.
use cloudpost.Prelude.{
  List, [], if_both, if◌then◌else◌, none, option_both, some, ℕ, ◌&&◌, ◌||◌, ◌∷◌,
}
use cloudpost.Text.{Text, codes, contains, eqb, has_prefix, split}
use cloudpost.Mailstore.Accounts.{list_accounts}
use cloudpost.Mailstore.Folders.{list_folders}
use cloudpost.Mailstore.Invariant.{IsWellFormed}
use cloudpost.Mailstore.Scheduled.{list_scheduled}
use cloudpost.Mailstore.Schema.{Account}
use cloudpost.Sender.Queue.{Network}
use cloudpost.Web.Admin.Accounts.{admin_revoke_token}
use cloudpost.Web.Admin.Reset.{admin_reset_prepare}
use cloudpost.Web.Admin.Routes.{
  account_methods, account_routes, admin_dkim_status, admin_status, admin_test_remote, filter_paths,
  filter_routes, folder_routes, handle_admin, numbered, settings_answer, single_paths, token_routes,
}
use cloudpost.Web.Admin.Rules.{admin_flush, admin_queue}
use cloudpost.Web.Api.{mail_paths}
use cloudpost.Web.Http.{
  Outside, Request, Response, Site, account_row, account_rows, delayed_rows, delete, failure,
  folder_rows, get, id_of, is_method, number_or_zero, path_id, post, put, success, trim_prefix,
}
use cloudpost.Web.Keeps.{Keeps, stays}
use cloudpost.Web.Keeps.Admin.{
  account_methods-Keeps, admin_create_account-Keeps, admin_create_filter-Keeps,
  admin_create_folder-Keeps, admin_create_token-Keeps, admin_delete_filter-Keeps,
  admin_delete_folder-Keeps, admin_rename_folder-Keeps, admin_revoke_token-Keeps,
  admin_update_filter-Keeps,
}
use cloudpost.Web.Keeps.Compose.{mail_compose-Keeps}
use cloudpost.Web.Keeps.Mailbox.{cancel_path-Keeps, folders_path-Keeps}
use cloudpost.Web.Keeps.Settings.{
  change_password-Keeps, dkim_generate-Keeps, dkim_save-Keeps, reset_confirm-Keeps, settings-Keeps,
}

module _ {low : ℕ → ℕ} (w : Site) (h : IsWellFormed low w.store) where
  folder_routes-Keeps :
      (r : Request) (account : ℕ) (segs : List Text) → Keeps low (folder_routes w r account segs)
  unfolding folder_routes
  folder_routes-Keeps r account [] = stays w _ h
  folder_routes-Keeps r account (kind ∷ []) =
      if_both (Keeps low) _ _ _ (stays w _ h)
        (if_both (Keeps low) _ _ _ (admin_create_folder-Keeps w h r account) (stays w _ h))
  folder_routes-Keeps r account (x ∷ y ∷ []) = stays w _ h
  folder_routes-Keeps r account (x ∷ kind ∷ id ∷ []) = if_both (Keeps low) _ _ _ (stays w _ h) (
      if_both (Keeps low) _ _ _ (admin_delete_folder-Keeps w h account (number_or_zero id)) (
        if_both (Keeps low) _ _ _ (admin_rename_folder-Keeps w h r account (number_or_zero id))
          (stays w _ h)))
  folder_routes-Keeps r account (x ∷ y ∷ z ∷ u ∷ segs) = stays w _ h

  filter_routes-Keeps :
      (r : Request) (account : ℕ) (segs : List Text) → Keeps low (filter_routes w r account segs)
  unfolding filter_routes
  filter_routes-Keeps r account [] = stays w _ h
  filter_routes-Keeps r account (kind ∷ []) =
      if_both (Keeps low) _ _ _ (stays w _ h)
        (if_both (Keeps low) _ _ _ (admin_create_filter-Keeps w h r account) (stays w _ h))
  filter_routes-Keeps r account (x ∷ y ∷ segs) = stays w _ h

  revoke_asked-Keeps :
      (account : ℕ) (id : Text)
      → Keeps low
          (elim (id_of id) [ none ↦ (w, failure 400) | some n ↦ admin_revoke_token w account n ])
  revoke_asked-Keeps account id =
      option_both (Keeps low) (id_of id) _ _ (stays w _ h) (admin_revoke_token-Keeps w h account)

  token_routes-Keeps :
      (o : Outside) (r : Request) (account : ℕ) (segs : List Text)
      → Keeps low (token_routes o w r account segs)
  unfolding token_routes
  token_routes-Keeps o r account [] = stays w _ h
  token_routes-Keeps o r account (kind ∷ []) =
      if_both (Keeps low) _ _ _ (stays w _ h)
        (if_both (Keeps low) _ _ _ (admin_create_token-Keeps w h o r account _) (stays w _ h))
  token_routes-Keeps o r account (kind ∷ id ∷ []) =
      if_both (Keeps low) _ _ _ (stays w _ h) (revoke_asked-Keeps account id)
  token_routes-Keeps o r account (x ∷ y ∷ z ∷ segs) = stays w _ h

  numbered-Keeps :
      (segs : List Text) (go : ℕ → List Text → Site × Response)
      → ((n : ℕ) (rest : List Text) → Keeps low (go n rest))
      → Keeps low (numbered w segs go)
  numbered-Keeps [] go k = stays w _ h
  numbered-Keeps (id ∷ rest) go k =
      option_both (Keeps low) (id_of id) _ _ (stays w _ h) (λ n. k n rest)

  tokens_or_account-Keeps :
      (o : Outside) (r : Request) (rest : Text) (id : ℕ)
      → Keeps low (
          if contains rest (codes "/tokens")
          then numbered w (split b'/' rest) (token_routes o w r)
          else account_methods o w r id)
  tokens_or_account-Keeps o r rest id =
      if_both (Keeps low) (contains rest (codes "/tokens")) _ _
        (numbered-Keeps (split b'/' rest) _ (token_routes-Keeps o r))
        (account_methods-Keeps w h o r id)

  account_routes-Keeps :
      (o : Outside) (r : Request) (rest : Text) → Keeps low (account_routes o w r rest)
  unfolding account_routes
  account_routes-Keeps o r rest = if_both (Keeps low) _ _ _ (stays w _ h) (
      if_both (Keeps low) _ _ _ (numbered-Keeps (split b'/' rest) _ (folder_routes-Keeps r)) (
        if_both (Keeps low) _ _ _ (numbered-Keeps (split b'/' rest) _ (filter_routes-Keeps r)) (
          option_both (Keeps low) (path_id rest) _ _ (stays w _ h)
            (tokens_or_account-Keeps o r rest))))

  filter_paths-Keeps : (r : Request) (segs : List Text) → Keeps low (filter_paths w r segs)
  unfolding filter_paths
  filter_paths-Keeps r [] = stays w _ h
  filter_paths-Keeps r (x ∷ []) = stays w _ h
  filter_paths-Keeps r (account ∷ id ∷ []) =
      if_both (Keeps low) _ _ _ (admin_update_filter-Keeps w h r _ _)
        (if_both (Keeps low) _ _ _ (admin_delete_filter-Keeps w h _ _) (stays w _ h))
  filter_paths-Keeps r (x ∷ y ∷ z ∷ segs) = stays w _ h

  admin_flush-Keeps : (net : Network) → Keeps low (admin_flush net w)
  unfolding admin_flush
  admin_flush-Keeps net = record { formed = h }

  reset_prepare-Keeps : Keeps low (admin_reset_prepare w)
  unfolding admin_reset_prepare
  reset_prepare-Keeps = record { formed = h }

  single_paths-Keeps :
      (o : Outside) (net : Network) (r : Request) → Keeps low (single_paths o net w r)
  unfolding single_paths
  single_paths-Keeps o net r =
      if_both (Keeps low) (eqb r.path (codes "/api/remote/test") && is_method r.method post) _ _
        (stays w (admin_test_remote r) h)
        (if_both (Keeps low) (eqb r.path (codes "/api/dkim") && is_method r.method get) _ _
          (stays w (admin_dkim_status w) h)
          (if_both (Keeps low) (eqb r.path (codes "/api/dkim/generate") && is_method r.method post)
            _ _ (dkim_generate-Keeps w h o r)
            (if_both (Keeps low) (eqb r.path (codes "/api/dkim") && is_method r.method post) _ _
              (dkim_save-Keeps w h o r)
              (if_both (Keeps low) (eqb r.path (codes "/api/queue") && is_method r.method get) _ _
                (stays w (admin_queue w) h)
                (if_both (Keeps low)
                  (eqb r.path (codes "/api/queue/flush") && is_method r.method post) _ _
                  (admin_flush-Keeps net)
                  (if_both (Keeps low)
                    (eqb r.path (codes "/api/settings") && is_method r.method get) _ _
                    (stays w (settings_answer w.state.cfg) h)
                    (if_both (Keeps low)
                      (eqb r.path (codes "/api/settings")
                        && (is_method r.method put || is_method r.method post))
                      _ _ (settings-Keeps w h o r)
                      (if_both (Keeps low)
                        (eqb r.path (codes "/api/password") && is_method r.method post) _ _
                        (change_password-Keeps w h o r)
                        (if_both (Keeps low)
                          (eqb r.path (codes "/api/reset/prepare") && is_method r.method post) _ _
                          (reset_prepare-Keeps)
                          (if_both (Keeps low)
                            (eqb r.path (codes "/api/reset/confirm") && is_method r.method post) _ _
                            (reset_confirm-Keeps w h r) (stays w (failure 404) h)))))))))))

  pub handle_admin-Keeps :
      (o : Outside) (net : Network) (r : Request) → Keeps low (handle_admin o net w r)
  unfolding handle_admin
  handle_admin-Keeps o net r =
      if_both (Keeps low) (eqb r.path (codes "/api/status")) _ _ (stays w (admin_status w) h) (
        if_both (Keeps low) (eqb r.path (codes "/api/accounts") && is_method r.method get) _ _
          (stays w (success (account_rows (list_accounts w.store))) h)
          (if_both (Keeps low) (eqb r.path (codes "/api/accounts") && is_method r.method post) _ _
            (admin_create_account-Keeps w h o r)
            (if_both (Keeps low) (has_prefix r.path (codes "/api/accounts/")) _ _
              (account_routes-Keeps o r (trim_prefix r.path (codes "/api/accounts/")))
              (if_both (Keeps low) (has_prefix r.path (codes "/api/filters/")) _ _
                (filter_paths-Keeps r (split b'/' (trim_prefix r.path (codes "/api/filters/"))))
                (single_paths-Keeps o net r)))))

  pub mail_paths-Keeps :
      (o : Outside) (r : Request) (a : Account) (p : Text) → Keeps low (mail_paths o w r a p)
  unfolding mail_paths
  mail_paths-Keeps o r a p =
      if_both (Keeps low) (eqb p (codes "/me") && is_method r.method get) _ _
        (stays w (success (account_row a)) h)
        (if_both (Keeps low) (eqb p (codes "/folders") && is_method r.method get) _ _
          (stays w (success (folder_rows (list_folders w.store a.id))) h)
          (if_both (Keeps low) (eqb p (codes "/compose") && is_method r.method post) _ _
            (mail_compose-Keeps o w h a r)
            (if_both (Keeps low) (eqb p (codes "/scheduled") && is_method r.method get) _ _
              (stays w (success (delayed_rows (list_scheduled w.store a.id))) h)
              (if_both (Keeps low) (has_prefix p (codes "/scheduled/") && is_method r.method delete)
                _ _ (cancel_path-Keeps w h a (trim_prefix p (codes "/scheduled/")))
                (if_both (Keeps low) (has_prefix p (codes "/folders/")) _ _
                  (folders_path-Keeps w h o r a (split b'/' (trim_prefix p (codes "/folders/"))))
                  (stays w (failure 404) h))))))
