-- ===== src/Web/Keeps/Admin.antt =====
-- The admin's handlers for accounts, folders, filters and tokens, and the reset.
use cloudpost.Prelude.{[], if_both, if◌then◌else◌, is_nil, none, not, option_both, some, ℕ, ◌||◌}
use cloudpost.Text.{Text, codes, eqb, trim_space}
use cloudpost.Mailstore.Accounts.{
  create_local_account, create_remote_account, get_account, update_account,
}
use cloudpost.Mailstore.Filters.{create_filter, delete_filter, get_filter, update_filter}
use cloudpost.Mailstore.Folders.{ensure_folder}
use cloudpost.Mailstore.History.Others.{
  create_api_token-IsWellFormed, create_filter-IsWellFormed, revoke_api_token-IsWellFormed,
  same_mail,
}
use cloudpost.Mailstore.Invariant.{IsWellFormed}
use cloudpost.Mailstore.Invariant.Accounts.{
  create_local_account-IsWellFormed, create_remote_account-IsWellFormed,
  delete_account-IsWellFormed, update_account-IsWellFormed,
}
use cloudpost.Mailstore.Invariant.Removal.{delete_folder-IsWellFormed}
use cloudpost.Mailstore.Invariant.Steps.{ensure_folder-IsWellFormed, rename_folder-IsWellFormed}
use cloudpost.Mailstore.Schema.{Account, ApiToken, Filter, Kind, Result, Store, err, kind_eqb, ok}
use cloudpost.Mailstore.Tokens.{create_api_token}
use cloudpost.Web.Admin.Accounts.{
  AccountReq, account_answer, admin_create_account, admin_create_folder, admin_create_token,
  admin_delete_account, admin_delete_folder, admin_rename_folder, admin_revoke_token,
  admin_update_account, edits, folder_answer, label_of, read_account, remote_draft, token_answer,
  updated_answer,
}
use cloudpost.Web.Admin.Routes.{account_methods}
use cloudpost.Web.Admin.Rules.{
  admin_create_filter, admin_delete_filter, admin_update_filter, filter_answer, merged, read_filter,
}
use cloudpost.Web.Auth.{read_one}
use cloudpost.Web.Http.{Outside, Request, Site, done, failure, filter_row, success}
use cloudpost.Web.Keeps.{Keeps, on_store-Keeps, result_both, stays}

module _ {low : ℕ → ℕ} (w : Site) (h : IsWellFormed low w.store) where
  account_answer-Keeps :
      (r : Store × Result Account) → IsWellFormed low r.0 → Keeps low (account_answer w r)
  account_answer-Keeps (s, ok a) v = record { formed = v }
  account_answer-Keeps (s, err e) v = record { formed = v }

  create_asked-Keeps :
      (o : Outside) (q : AccountReq)
      → Keeps low (
          if is_nil q.kind || eqb q.kind (codes "local")
          then account_answer w
              (create_local_account o.ext w.store q.address q.password q.display_name)
          else account_answer w (create_remote_account w.store (remote_draft q)))
  create_asked-Keeps o q =
      if_both (Keeps low) (is_nil q.kind || eqb q.kind (codes "local")) _ _
        (account_answer-Keeps _
          (create_local_account-IsWellFormed o.ext w.store q.address q.password q.display_name h))
        (account_answer-Keeps _ (create_remote_account-IsWellFormed w.store (remote_draft q) h))

  pub admin_create_account-Keeps :
      (o : Outside) (r : Request) → Keeps low (admin_create_account o w r)
  unfolding admin_create_account
  admin_create_account-Keeps o r =
      option_both (Keeps low) (read_account r.body) _ _ (stays w _ h) (create_asked-Keeps o)

  updated_answer-Keeps :
      (id : ℕ) (r : Store × Result (Unit {0}))
      → IsWellFormed low r.0
      → Keeps low (updated_answer w id r)
  updated_answer-Keeps id (s, ok u) v = record { formed = v }
  updated_answer-Keeps id (s, err e) v = record { formed = v }

  update_asked-Keeps :
      (o : Outside) (r : Request) (id : ℕ) (a : Account)
      → Keeps low (elim (read_account r.body) [
        | none ↦ (w, failure 400)
        | some q ↦ updated_answer w id (update_account o.ext w.store (edits q a) q.password)
      ])
  update_asked-Keeps o r id a =
      option_both (Keeps low) (read_account r.body) _ _ (stays w _ h) (λ q.
        updated_answer-Keeps id (update_account o.ext w.store (edits q a) q.password)
          (update_account-IsWellFormed o.ext w.store (edits q a) q.password h))

  admin_update_account-Keeps :
      (o : Outside) (r : Request) (id : ℕ) → Keeps low (admin_update_account o w r id)
  unfolding admin_update_account
  admin_update_account-Keeps o r id =
      result_both (Keeps low) (get_account w.store id) _ _ (λ e. stays w _ h)
        (update_asked-Keeps o r id)

  admin_delete_account-Keeps : (id : ℕ) → Keeps low (admin_delete_account w id)
  unfolding admin_delete_account
  admin_delete_account-Keeps id = record { formed = delete_account-IsWellFormed w.store id h }

  pub account_methods-Keeps :
      (o : Outside) (r : Request) (id : ℕ) → Keeps low (account_methods o w r id)
  unfolding account_methods
  account_methods-Keeps o r id = if_both (Keeps low) _ _ _ (stays w _ h) (
      if_both (Keeps low) _ _ _ (admin_update_account-Keeps o r id)
        (if_both (Keeps low) _ _ _ (admin_delete_account-Keeps id) (stays w _ h)))

  token_answer-Keeps :
      (r : Store × Result (ApiToken × Text)) → IsWellFormed low r.0 → Keeps low (token_answer w r)
  token_answer-Keeps (s, ok (t, x)) v = record { formed = v }
  token_answer-Keeps (s, err e) v = record { formed = v }

  label_asked-Keeps :
      (o : Outside) (r : Request) (account : ℕ) (secret : Text)
      → Keeps low (elim (label_of r) [
        | none ↦ (w, failure 400)
        | some label ↦ token_answer w (create_api_token o.ext w.store account label secret)
      ])
  label_asked-Keeps o r account secret =
      option_both (Keeps low) (label_of r) _ _ (stays w _ h) (λ label.
        token_answer-Keeps (create_api_token o.ext w.store account label secret)
          (create_api_token-IsWellFormed o.ext w.store account label secret h))

  token_asked-Keeps :
      (o : Outside) (r : Request) (account : ℕ) (secret : Text) (a : Account)
      → Keeps low (
          if not (kind_eqb a.kind Kind.local) then (w, failure 404) else elim (label_of r) [
            | none ↦ (w, failure 400)
            | some label ↦ token_answer w (create_api_token o.ext w.store account label secret)
          ])
  token_asked-Keeps o r account secret a =
      if_both (Keeps low) (not (kind_eqb a.kind Kind.local)) _ _ (stays w _ h)
        (label_asked-Keeps o r account secret)

  pub admin_create_token-Keeps :
      (o : Outside) (r : Request) (account : ℕ) (secret : Text)
      → Keeps low (admin_create_token o w r account secret)
  unfolding admin_create_token
  admin_create_token-Keeps o r account secret =
      result_both (Keeps low) (get_account w.store account) _ _ (λ e. stays w _ h)
        (token_asked-Keeps o r account secret)

  pub admin_revoke_token-Keeps : (account id : ℕ) → Keeps low (admin_revoke_token w account id)
  unfolding admin_revoke_token
  admin_revoke_token-Keeps account id =
      on_store-Keeps w _ done 400 (revoke_api_token-IsWellFormed w.store account id h)

  folder_answer-Keeps :
      (r : Store × Result ℕ) → IsWellFormed low r.0 → Keeps low (folder_answer w r)
  folder_answer-Keeps (s, ok id) v = record { formed = v }
  folder_answer-Keeps (s, err e) v = record { formed = v }

  named_folder-Keeps :
      (account : ℕ) (name : Text)
      → Keeps low (
          if is_nil (trim_space name)
          then (w, failure 400)
          else folder_answer w (ensure_folder w.store account (trim_space name) []))
  named_folder-Keeps account name =
      if_both (Keeps low) (is_nil (trim_space name)) _ _ (stays w _ h) (
        folder_answer-Keeps (ensure_folder w.store account (trim_space name) [])
          (ensure_folder-IsWellFormed w.store account (trim_space name) [] h))

  pub admin_create_folder-Keeps :
      (r : Request) (account : ℕ) → Keeps low (admin_create_folder w r account)
  unfolding admin_create_folder
  admin_create_folder-Keeps r account =
      option_both (Keeps low) (read_one r.body (codes "name")) _ _ (stays w _ h)
        (named_folder-Keeps account)

  pub admin_rename_folder-Keeps :
      (r : Request) (account folder : ℕ) → Keeps low (admin_rename_folder w r account folder)
  unfolding admin_rename_folder
  admin_rename_folder-Keeps r account folder =
      option_both (Keeps low) (read_one r.body (codes "name")) _ _ (stays w _ h) (λ name.
        on_store-Keeps w _ done 400
          (rename_folder-IsWellFormed w.store account folder (trim_space name) h))

  pub admin_delete_folder-Keeps :
      (account folder : ℕ) → Keeps low (admin_delete_folder w account folder)
  unfolding admin_delete_folder
  admin_delete_folder-Keeps account folder =
      on_store-Keeps w _ done 400 (delete_folder-IsWellFormed w.store account folder h)

  filter_answer-Keeps :
      (r : Store × Result Filter) → IsWellFormed low r.0 → Keeps low (filter_answer w r)
  filter_answer-Keeps (s, ok f) v = record { formed = v }
  filter_answer-Keeps (s, err e) v = record { formed = v }

  filter_asked-Keeps :
      (account : ℕ) (f : Filter)
      → Keeps low (
          if is_nil f.name || (is_nil f.cond_field || (is_nil f.cond_op || is_nil f.action))
          then (w, failure 400)
          else filter_answer w (create_filter w.store (record f { account_id = account })))
  filter_asked-Keeps account f =
      if_both (Keeps low)
        (is_nil f.name || (is_nil f.cond_field || (is_nil f.cond_op || is_nil f.action))) _ _
        (stays w _ h)
        (filter_answer-Keeps (create_filter w.store (record f { account_id = account }))
          (create_filter-IsWellFormed w.store (record f { account_id = account }) h))

  pub admin_create_filter-Keeps :
      (r : Request) (account : ℕ) → Keeps low (admin_create_filter w r account)
  unfolding admin_create_filter
  admin_create_filter-Keeps r account =
      option_both (Keeps low) (read_filter r.body) _ _ (stays w _ h) (filter_asked-Keeps account)

  update_filter-IsWellFormed : (f : Filter) → IsWellFormed low (update_filter w.store f)
  unfolding update_filter
  update_filter-IsWellFormed f = same_mail w.store _ _ _ _ _ _ _ _ _ _ h

  filter_changed-Keeps :
      (r : Request) (f : Filter)
      → Keeps low (elim (read_filter r.body) [
        | none ↦ (w, failure 400)
        | some q ↦ (
          record w { store = update_filter w.store (merged q f) },
          success (filter_row (merged q f)),
        )
      ])
  filter_changed-Keeps r f =
      option_both (Keeps low) (read_filter r.body) _ _ (stays w _ h)
        (λ q. record { formed = update_filter-IsWellFormed (merged q f) })

  pub admin_update_filter-Keeps :
      (r : Request) (account id : ℕ) → Keeps low (admin_update_filter w r account id)
  unfolding admin_update_filter
  admin_update_filter-Keeps r account id =
      option_both (Keeps low) (get_filter w.store account id) _ _ (stays w _ h)
        (filter_changed-Keeps r)

  pub admin_delete_filter-Keeps : (account id : ℕ) → Keeps low (admin_delete_filter w account id)
  unfolding admin_delete_filter delete_filter
  admin_delete_filter-Keeps account id = record { formed = same_mail w.store _ _ _ _ _ _ _ _ _ _ h }
