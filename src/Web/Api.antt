-- ===== src/Web/Api.antt =====
-- The routers: handleMail of internal/web/handlers_mail.go, and handleAPI of internal/web/web.go.
use cloudpost.Prelude.{
  Bool, List, Option, [], any, false, if◌then◌else◌, none, some, true, ℕ, ◌&&◌, ◌∷◌,
}
use cloudpost.Text.{Text, codes, eqb, has_prefix, split}
use cloudpost.Mailstore.Folders.{list_folders}
use cloudpost.Mailstore.Messages.{expunge_folder}
use cloudpost.Mailstore.Scheduled.{cancel_scheduled, list_scheduled}
use cloudpost.Mailstore.Schema.{Account}
use cloudpost.Sender.Queue.{Network}
use cloudpost.Web.Admin.Routes.{handle_admin}
use cloudpost.Web.Auth.{
  admin_auth, handle_login, handle_logout, handle_mail_login, handle_mail_logout, handle_whoami,
  mail_account, setup_status,
}
use cloudpost.Web.Compose.{mail_compose}
use cloudpost.Web.Http.{
  Outside, Request, Response, Site, account_row, count, delayed_rows, delete, done, failure,
  folder_rows, get, id_of, is_method, post, success, trim_prefix,
}
use cloudpost.Web.Mailbox.{
  mail_attachment, mail_cid, mail_list_messages, mail_message, mail_read_all, mail_search, on_store,
}
use cloudpost.Web.Setup.{handle_setup}

-- What follows the folder's id.
unfoldable pub folder_paths : Outside → Site → Request → Account → ℕ → List Text → Site × Response
unfolding eqb is_method
folder_paths o w r a folder [] =
    if is_method r.method get then (w, mail_list_messages w r folder) else (w, failure 404)
folder_paths o w r a folder (x ∷ []) =
    if eqb x (codes "messages") && is_method r.method get
    then (w, mail_list_messages w r folder)
    else if eqb x (codes "messages") && is_method r.method post
    then (w, mail_search w r folder)
    else if eqb x (codes "expunge") && is_method r.method post
    then (
      record w { store = (expunge_folder w.store folder).0 },
      success (count (expunge_folder w.store folder).1),
    )
    else if eqb x (codes "readall") && is_method r.method post
    then mail_read_all w a.id folder
    else (w, failure 404)
folder_paths o w r a folder (x ∷ id ∷ []) =
    if eqb x (codes "messages") then mail_message o w r a.id id [] else (w, failure 404)
folder_paths o w r a folder (x ∷ id ∷ y ∷ []) =
    if eqb x (codes "messages") && eqb y (codes "raw")
    then mail_message o w r a.id id (codes "raw")
    else (w, failure 404)
folder_paths o w r a folder (x ∷ id ∷ y ∷ z ∷ []) =
    if eqb x (codes "messages") && eqb y (codes "attachments")
    then (w, mail_attachment o w a.id id z)
    else if eqb x (codes "messages") && eqb y (codes "cid")
    then (w, mail_cid o w a.id id z)
    else (w, failure 404)
folder_paths o w r a folder _ = (w, failure 404)

unfoldable pub folders_path : Outside → Site → Request → Account → List Text → Site × Response
unfolding id_of folder_paths
folders_path o w r a [] = (w, failure 400)
folders_path o w r a (f ∷ rest) = elim (id_of f) [
  | none ↦ (w, failure 400)
  | some folder ↦ folder_paths o w r a folder rest
]

unfoldable pub cancel_path : Site → Account → Text → Site × Response
unfolding id_of cancel_scheduled
cancel_path w a id = elim (id_of id) [
  | none ↦ (w, failure 400)
  | some n ↦ on_store w (cancel_scheduled w.store a.id n) done 404
]

-- The paths of an account that has logged in, without /api/mail.
unfoldable pub mail_paths : Outside → Site → Request → Account → Text → Site × Response
unfolding eqb is_method has_prefix trim_prefix split folders_path cancel_path mail_compose
mail_paths o w r a p =
    if eqb p (codes "/me") && is_method r.method get
    then (w, success (account_row a))
    else if eqb p (codes "/folders") && is_method r.method get
    then (w, success (folder_rows (list_folders w.store a.id)))
    else if eqb p (codes "/compose") && is_method r.method post
    then mail_compose o w r a
    else if eqb p (codes "/scheduled") && is_method r.method get
    then (w, success (delayed_rows (list_scheduled w.store a.id)))
    else if has_prefix p (codes "/scheduled/") && is_method r.method delete
    then cancel_path w a (trim_prefix p (codes "/scheduled/"))
    else if has_prefix p (codes "/folders/")
    then folders_path o w r a (split b'/' (trim_prefix p (codes "/folders/")))
    else (w, failure 404)

abbrev pub for_account : Outside → Request → Site × Option Account → Site × Response
for_account o r (w, none) = (w, failure 401)
for_account o r (w, some a) = mail_paths o w r a (trim_prefix r.path (codes "/api/mail"))

-- handleMail
unfoldable pub handle_mail : Outside → Site → Request → Site × Response
unfolding mail_account mail_paths trim_prefix
handle_mail o w r = for_account o r (mail_account o w r)

-- The prefixes that handleAPI hands to handleAdmin.
abbrev pub admin_prefixes : List Text
admin_prefixes =
    codes "/api/accounts"
    ∷ codes "/api/filters"
    ∷ codes "/api/folders"
    ∷ codes "/api/queue"
    ∷ codes "/api/settings"
    ∷ codes "/api/status"
    ∷ codes "/api/remote"
    ∷ codes "/api/users"
    ∷ codes "/api/dkim"
    ∷ codes "/api/reset/"
    ∷ []

unfoldable pub is_admin_path : Text → Bool
unfolding has_prefix
is_admin_path p = any (has_prefix p) admin_prefixes

abbrev pub for_admin : Outside → Network → Request → Site × Bool → Site × Response
for_admin o net r (w, false) = (w, failure 401)
for_admin o net r (w, true) = handle_admin o net w r

unfoldable pub admin_or_none : Outside → Network → Site → Request → Site × Response
unfolding is_admin_path admin_auth handle_admin
admin_or_none o net w r =
    if is_admin_path r.path
    then for_admin o net r (admin_auth w r.admin_cookie)
    else (w, failure 404)

-- handleAPI
unfoldable pub handle_api : Outside → Network → Site → Request → Site × Response
unfolding eqb is_method has_prefix setup_status handle_whoami handle_setup handle_login
    handle_logout handle_mail_login handle_mail_logout handle_mail admin_or_none
handle_api o net w r =
    if eqb r.path (codes "/api/setup/status")
    then (w, setup_status w)
    else if eqb r.path (codes "/api/whoami")
    then handle_whoami w r
    else if eqb r.path (codes "/api/setup") && is_method r.method post
    then handle_setup o w r
    else if eqb r.path (codes "/api/login")
    then handle_login o w r
    else if eqb r.path (codes "/api/logout")
    then handle_logout w r
    else if eqb r.path (codes "/api/mail/login")
    then handle_mail_login o w r
    else if eqb r.path (codes "/api/mail/logout")
    then handle_mail_logout w r
    else if has_prefix r.path (codes "/api/mail/")
    then handle_mail o w r
    else admin_or_none o net w r
