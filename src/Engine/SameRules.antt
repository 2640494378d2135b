-- ===== src/Engine/SameRules.antt =====
-- The actions of the rules leave the table of the rules alone.
use cloudpost.Prelude.{
  Bool-cases, List, Option, Option-cases, [], any, find_first, if_both, if◌then◌else◌, inl, inr,
  is_nil, none, refl, some, subst, sym, ℕ, ◌==◌, ◌∙◌, ◌∷◌, ◌≡◌,
}
use cloudpost.Text.{Text, codes, eqb, lower, trim_space}
use cloudpost.Engine.FirstMatch.{act_of, apply-first}
use cloudpost.Engine.Rules.{
  Mail, act, after_copy, apply, copy_over, hits, into_inbox, move_account, to_account,
}
use cloudpost.Mailstore.Accounts.{get_account_by_address_any}
use cloudpost.Mailstore.Filters.{list_filters, move_after, move_to_folder_name}
use cloudpost.Mailstore.Flags.{FlagMode, add, flagged_flag, seen_flag}
use cloudpost.Mailstore.Folders.{
  account_id_is, ensure_folder, folder_by_name, folder_id_is, inbox_name, named,
}
use cloudpost.Mailstore.Kept.{deliver-Grown}
use cloudpost.Mailstore.Messages.{
  delete_messages, delete_one, deliver, get_message_raw, move_messages, move_one, move_to, no_opts,
  row_is, set_each, set_flags, set_one, uid_taken,
}
use cloudpost.Mailstore.Schema.{
  Account, External, Filter, Folder, Listed, Message, Result, Store, err, ok,
}
use cloudpost.Smtpd.Session.{mail}

set_one-filters :
    (s : Store) (owner k : ℕ) (mode : FlagMode) (flags : List Text)
    → (set_one s owner mode flags k).filters ≡ s.filters
unfolding set_one
set_one-filters s owner k mode flags =
    elim (Option-cases (find_first (row_is owner k) s.messages)) [
      | inl e ↦ rw (e, set_one) refl
      | inr (m, e) ↦ rw (e, set_one) refl
    ]

set_flags-filters :
    (s : Store) (owner k : ℕ) (mode : FlagMode) (flag : Text)
    → (set_flags s owner (k ∷ []) mode (flag ∷ [])).filters ≡ s.filters
unfolding set_flags set_each
set_flags-filters s owner k mode flag = set_one-filters s owner k mode (flag ∷ [])

move_to-filters : (s : Store) (k to : ℕ) (f : Folder) → (move_to s k to f).filters ≡ s.filters
unfolding move_to
move_to-filters s k to f = elim (Bool-cases (uid_taken to f.next_uid s.messages)) [
  | inl b ↦ rw b refl
  | inr b ↦ rw b refl
]

move_one-filters : (s : Store) (owner to k : ℕ) → (move_one s owner to k).filters ≡ s.filters
unfolding move_one
move_one-filters s owner to k = elim (Option-cases (find_first (row_is owner k) s.messages)) [
  | inl e ↦ rw (e, move_one) refl
  | inr (m, e) ↦
      rw (e, move_one)
        (elim (Bool-cases (m.folder_id == to)) [
          | inl b ↦ rw b refl
          | inr b ↦ rw b (elim (Option-cases (find_first (folder_id_is to) s.folders)) [
            | inl e' ↦ rw e' refl
            | inr (f, e') ↦ rw e' (move_to-filters s k to f)
          ])
        ])
]

ensure_folder-filters :
    (s : Store) (owner : ℕ) (name special : Text)
    → (ensure_folder s owner name special).0.filters ≡ s.filters
unfolding ensure_folder
ensure_folder-filters s owner name special =
    elim (Option-cases (find_first (named owner name) s.folders)) [
      | inr (f, e) ↦ rw (e, ensure_folder) refl
      | inl e ↦
          rw (e, ensure_folder)
            (elim (Bool-cases (any (account_id_is owner) s.accounts)) [
              | inl b ↦ rw b refl
              | inr b ↦ rw b refl
            ])
    ]

move_to_folder_name-filters :
    (s : Store) (owner k : ℕ) (name : Text)
    → (move_to_folder_name s owner k name).0.filters ≡ s.filters
unfolding move_to_folder_name move_after move_messages
move_to_folder_name-filters s owner k name =
    moved_then (ensure_folder s owner name []) (ensure_folder-filters s owner name [])
  where
    moved_then :
        (made : Store × Result ℕ)
        → made.0.filters ≡ s.filters
        → (move_after owner k made).0.filters ≡ s.filters
    moved_then (s1, ok to) e = move_one-filters s1 owner to k ∙ e
    moved_then (s1, err x) e = e

module _ (ext : External) (s : Store) (owner k : ℕ) where
  after_copy-filters : (p : Store × Result (ℕ × ℕ)) → (after_copy owner k p).filters ≡ p.0.filters
  unfolding after_copy delete_messages delete_one
  after_copy-filters (t, err e) = refl
  after_copy-filters (t, ok ids) = refl

  copy_over-filters :
      (target inbox : ℕ) (r : Result (Text × Message))
      → (copy_over ext s owner k target inbox r).filters ≡ s.filters
  unfolding copy_over
  copy_over-filters target inbox (err e) = refl
  copy_over-filters target inbox (ok (text, n)) =
      after_copy-filters (deliver ext s target inbox text no_opts)
      ∙ (deliver-Grown ext s target inbox text no_opts).rules

  into_inbox-filters :
      (target : ℕ) (r : Result Listed) → (into_inbox ext s owner k target r).filters ≡ s.filters
  into_inbox-filters target (err e) = refl
  into_inbox-filters target (ok f) = copy_over-filters target f.id (get_message_raw s owner k)

  to_account-filters : (r : Result Account) → (to_account ext s owner k r).filters ≡ s.filters
  to_account-filters (err e) = refl
  to_account-filters (ok t) = into_inbox-filters t.id (folder_by_name s t.id inbox_name)

  act-filters : (f : Filter) → (act ext s owner k f).filters ≡ s.filters
  unfolding act move_account delete_messages delete_one
  act-filters f =
      pick _ _ (codes "move")
        (if_both (λ (t : Store). t.filters ≡ s.filters) (is_nil f.action_arg) _ _ refl
          (move_to_folder_name-filters s owner k f.action_arg))
        (pick _ _ (codes "move_account")
          (if_both (λ (t : Store). t.filters ≡ s.filters) (is_nil f.action_arg) _ _ refl
            (to_account-filters (get_account_by_address_any s (lower (trim_space f.action_arg)))))
          (pick _ _ (codes "markread") (set_flags-filters s owner k add seen_flag) (
            pick _ _ (codes "star") (set_flags-filters s owner k add flagged_flag) (
              pick _ _ (codes "trash") (move_to_folder_name-filters s owner k (codes "Trash"))
                (pick _ _ (codes "discard") refl refl)))))
    where
      pick :
          (x y : Store) (name : Text)
          → x.filters ≡ s.filters
          → y.filters ≡ s.filters
          → (if eqb f.action name then x else y).filters ≡ s.filters
      pick x y name = if_both (λ (t : Store). t.filters ≡ s.filters) (eqb f.action name) x y

  pub apply-filters : (mail : Mail) → (apply ext s owner k mail).filters ≡ s.filters
  apply-filters mail =
      subst (λ (t : Store). t.filters ≡ s.filters) (sym (apply-first ext s owner k mail))
        (chosen (find_first (hits ext mail) (list_filters s owner)))
    where
      chosen : (o : Option Filter) → (act_of ext s owner k o).filters ≡ s.filters
      chosen none = refl
      chosen (some f) = act-filters f
