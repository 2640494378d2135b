-- ===== src/Web/Admin/Routes.antt =====
-- handleAdmin: which handler a method and a path come to.
use cloudpost.Prelude.{
  Bool, List, Option, [], false, if◌then◌else◌, keep, length, none, not, some, true, ℕ, ◌&&◌, ◌||◌,
  ◌∷◌,
}
use cloudpost.Text.{Text, codes, contains, eqb, has_prefix, has_suffix, split}
use cloudpost.Installation.Config.{Config}
use cloudpost.Mailstore.Accounts.{list_accounts}
use cloudpost.Mailstore.Filters.{list_filters}
use cloudpost.Mailstore.Folders.{list_folders}
use cloudpost.Mailstore.Schema.{Account, Kind, kind_eqb}
use cloudpost.Mailstore.Tokens.{list_api_tokens}
use cloudpost.Sender.Queue.{Network, QueueItem, failed, is_pending}
use cloudpost.Web.Admin.Accounts.{
  admin_create_account, admin_create_folder, admin_create_token, admin_delete_account,
  admin_delete_folder, admin_fetch_now, admin_get_account, admin_rename_folder, admin_revoke_token,
  admin_update_account, read_account,
}
use cloudpost.Web.Admin.Dkim.{admin_dkim_generate, admin_dkim_save}
use cloudpost.Web.Admin.Reset.{admin_reset_confirm, admin_reset_prepare}
use cloudpost.Web.Admin.Rules.{
  admin_create_filter, admin_delete_filter, admin_flush, admin_queue, admin_update_filter,
}
use cloudpost.Web.Admin.Settings.{admin_change_password, admin_update_settings}
use cloudpost.Web.Http.{
  Outside, Request, Response, Site, account_rows, delete, done, failure, filter_rows, folder_rows,
  get, id_of, is_method, number_or_zero, overview, patch, path_id, post, put, settings, success,
  token_rows, trim_prefix,
}

abbrev not_found : Site → Site × Response
not_found w = (w, failure 404)

-- The segments behind /api/accounts/ that name folders.
unfoldable pub folder_routes : Site → Request → ℕ → List Text → Site × Response
unfolding eqb is_method number_or_zero
folder_routes w r account (kind ∷ []) =
    if eqb kind (codes "folders") && is_method r.method get
    then (w, success (folder_rows (list_folders w.store account)))
    else if eqb kind (codes "folders") && is_method r.method post
    then admin_create_folder w r account
    else not_found w
folder_routes w r account (x ∷ kind ∷ id ∷ []) =
    if not (eqb kind (codes "folders"))
    then not_found w
    else if is_method r.method delete
    then admin_delete_folder w account (number_or_zero id)
    else if is_method r.method put
    then admin_rename_folder w r account (number_or_zero id)
    else (w, failure 405)
folder_routes w r account _ = not_found w

unfoldable pub filter_routes : Site → Request → ℕ → List Text → Site × Response
unfolding eqb is_method
filter_routes w r account (kind ∷ []) =
    if eqb kind (codes "filters") && is_method r.method get
    then (w, success (filter_rows (list_filters w.store account)))
    else if eqb kind (codes "filters") && is_method r.method post
    then admin_create_filter w r account
    else not_found w
filter_routes w r account _ = not_found w

unfoldable pub token_routes : Outside → Site → Request → ℕ → List Text → Site × Response
unfolding eqb is_method id_of
token_routes o w r account (kind ∷ []) =
    if eqb kind (codes "tokens") && is_method r.method get
    then (w, success (token_rows (list_api_tokens w.store account)))
    else if eqb kind (codes "tokens") && is_method r.method post
    then admin_create_token o w r account (o.token_secret_of w.store.next_token)
    else not_found w
token_routes o w r account (kind ∷ id ∷ []) =
    if not (eqb kind (codes "tokens") && is_method r.method delete)
    then not_found w
    else elim (id_of id) [ none ↦ (w, failure 400) | some n ↦ admin_revoke_token w account n ]
token_routes o w r account _ = not_found w

-- The first segment is an account's id; what follows goes to the routes given.
abbrev pub numbered : Site → List Text → (ℕ → List Text → Site × Response) → Site × Response
numbered w [] go = (w, failure 400)
numbered w (id ∷ rest) go = elim (id_of id) [ none ↦ (w, failure 400) | some n ↦ go n rest ]

unfoldable pub account_methods : Outside → Site → Request → ℕ → Site × Response
unfolding is_method
account_methods o w r id =
    if is_method r.method get
    then (w, admin_get_account w id)
    else if is_method r.method put || is_method r.method patch
    then admin_update_account o w r id
    else if is_method r.method delete
    then admin_delete_account w id
    else (w, failure 405)

abbrev id_or_zero : Option ℕ → ℕ
id_or_zero none = 0
id_or_zero (some n) = n

-- The paths below /api/accounts/.
unfoldable pub account_routes : Outside → Site → Request → Text → Site × Response
unfolding has_suffix contains split folder_routes filter_routes token_routes path_id account_methods
    id_of is_method
account_routes o w r rest =
    let segs = split b'/' rest in
    if has_suffix r.path (codes "/fetch") && is_method r.method post
    then (w, admin_fetch_now w (id_or_zero (path_id rest)))
    else if contains r.path (codes "/folders")
    then numbered w segs (folder_routes w r)
    else if contains r.path (codes "/filters")
    then numbered w segs (filter_routes w r)
    else elim (path_id rest) [
      | none ↦ (w, failure 400)
      | some id ↦
          if contains rest (codes "/tokens")
          then numbered w segs (token_routes o w r)
          else account_methods o w r id
    ]

-- The paths below /api/filters/: the account and the filter.
unfoldable pub filter_paths : Site → Request → List Text → Site × Response
unfolding is_method number_or_zero
filter_paths w r (account ∷ id ∷ []) =
    if is_method r.method put || is_method r.method patch
    then admin_update_filter w r (number_or_zero account) (number_or_zero id)
    else if is_method r.method delete
    then admin_delete_filter w (number_or_zero account) (number_or_zero id)
    else (w, failure 405)
filter_paths w r _ = not_found w

abbrev is_local_row : Account → Bool
is_local_row a = kind_eqb a.kind Kind.local

abbrev has_failed : QueueItem → Bool
has_failed it = elim it.status [ failed ↦ true | _ ↦ false ]

-- adminStatus
unfoldable pub admin_status : Site → Response
unfolding kind_eqb
admin_status w = success (
    overview (length (keep is_local_row w.store.accounts))
      (length (keep (λ a. not (is_local_row a)) w.store.accounts)) (length w.store.messages)
      (length (keep (λ it. is_pending it.status) w.outbound.items))
      (length (keep has_failed w.outbound.items)))

abbrev pub settings_answer : Option Config → Response
settings_answer none = failure 400
settings_answer (some c) = success (settings c)

-- adminTestRemote and adminDKIMStatus only look; what they report is not modelled.
unfoldable pub admin_test_remote : Request → Response
unfolding read_account
admin_test_remote r = elim (read_account r.body) [ none ↦ failure 400 | some q ↦ success done ]

unfoldable pub admin_dkim_status : Site → Response
admin_dkim_status w = elim w.state.cfg [ none ↦ failure 400 | some c ↦ success done ]

-- The paths that stand for themselves.
unfoldable pub single_paths : Outside → Network → Site → Request → Site × Response
unfolding eqb is_method
single_paths o net w r =
    if eqb r.path (codes "/api/remote/test") && is_method r.method post
    then (w, admin_test_remote r)
    else if eqb r.path (codes "/api/dkim") && is_method r.method get
    then (w, admin_dkim_status w)
    else if eqb r.path (codes "/api/dkim/generate") && is_method r.method post
    then admin_dkim_generate o w r
    else if eqb r.path (codes "/api/dkim") && is_method r.method post
    then admin_dkim_save o w r
    else if eqb r.path (codes "/api/queue") && is_method r.method get
    then (w, admin_queue w)
    else if eqb r.path (codes "/api/queue/flush") && is_method r.method post
    then admin_flush net w
    else if eqb r.path (codes "/api/settings") && is_method r.method get
    then (w, settings_answer w.state.cfg)
    else if eqb r.path (codes "/api/settings")
        && (is_method r.method put || is_method r.method post)
    then admin_update_settings o w r
    else if eqb r.path (codes "/api/password") && is_method r.method post
    then admin_change_password o w r
    else if eqb r.path (codes "/api/reset/prepare") && is_method r.method post
    then admin_reset_prepare w
    else if eqb r.path (codes "/api/reset/confirm") && is_method r.method post
    then admin_reset_confirm w r
    else not_found w

unfoldable pub handle_admin : Outside → Network → Site → Request → Site × Response
unfolding eqb has_prefix is_method trim_prefix account_routes filter_paths split single_paths
handle_admin o net w r =
    if eqb r.path (codes "/api/status")
    then (w, admin_status w)
    else if eqb r.path (codes "/api/accounts") && is_method r.method get
    then (w, success (account_rows (list_accounts w.store)))
    else if eqb r.path (codes "/api/accounts") && is_method r.method post
    then admin_create_account o w r
    else if has_prefix r.path (codes "/api/accounts/")
    then account_routes o w r (trim_prefix r.path (codes "/api/accounts/"))
    else if has_prefix r.path (codes "/api/filters/")
    then filter_paths w r (split b'/' (trim_prefix r.path (codes "/api/filters/")))
    else single_paths o net w r
