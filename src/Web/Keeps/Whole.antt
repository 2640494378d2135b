-- ===== src/Web/Keeps/Whole.antt =====
-- The invariant of the store over a whole request of handleAPI in internal/web/web.go.
use cloudpost.Prelude.{
  Bool, Option, false, find_first, if_both, if◌then◌else◌, none, some, subst, sym, true, ℕ, ◌&&◌,
}
use cloudpost.Text.{Text, has_prefix, trim_space}
use cloudpost.Mailstore.History.Others.{account_by_api_token-IsWellFormed}
use cloudpost.Mailstore.Invariant.{IsWellFormed}
use cloudpost.Mailstore.Schema.{Account}
use cloudpost.Mailstore.Tokens.{token_prefix}
use cloudpost.Sender.Queue.{Network}
use cloudpost.Web.Api.{admin_or_none, for_account, for_admin, handle_api, handle_mail}
use cloudpost.Web.Auth.{
  admin_auth, bearer, by_session, by_token, header_or_cookie, mail_account, session_is,
}
use cloudpost.Web.Http.{Outside, Request, Site, trim_prefix}
use cloudpost.Web.Keeps.{Keeps, stays}
use cloudpost.Web.Keeps.Logins.{
  admin_auth-IsWellFormed, handle_login-Keeps, handle_logout-Keeps, handle_mail_login-Keeps,
  handle_mail_logout-Keeps, handle_setup-Keeps, handle_whoami-Keeps,
}
use cloudpost.Web.Keeps.Routes.{handle_admin-Keeps, mail_paths-Keeps}
use cloudpost.Web.Sessions.Refines.{session_account-store}

mail_account-IsWellFormed :
    {low : ℕ → ℕ} (o : Outside) (w : Site) (r : Request)
    → IsWellFormed low w.store
    → IsWellFormed low (mail_account o w r).0.store
unfolding mail_account by_token by_session
mail_account-IsWellFormed {low = low} o w r h =
    pick
      (has_prefix r.authorization bearer
        && has_prefix (trim_space (trim_prefix r.authorization bearer)) token_prefix)
      (header_or_cookie r)
  where
    bare : Text
    bare = trim_space (trim_prefix r.authorization bearer)

    pick :
        (b : Bool) (c : Option ℕ)
        → IsWellFormed low (if b then by_token o.ext w bare else by_session w c).0.store
    pick true c = account_by_api_token-IsWellFormed o.ext w.store bare h
    pick false none = h
    pick false (some t) =
        subst (IsWellFormed low)
          (sym (session_account-store w t (find_first (session_is t) w.mail_sessions))) h

for_account-Keeps :
    {low : ℕ → ℕ} (o : Outside) (r : Request) (p : Site × Option Account)
    → IsWellFormed low p.0.store
    → Keeps low (for_account o r p)
for_account-Keeps o r (v, none) h = record { formed = h }
for_account-Keeps o r (v, some a) h = mail_paths-Keeps v h o r a _

for_admin-Keeps :
    {low : ℕ → ℕ} (o : Outside) (net : Network) (r : Request) (p : Site × Bool)
    → IsWellFormed low p.0.store
    → Keeps low (for_admin o net r p)
for_admin-Keeps o net r (v, false) h = record { formed = h }
for_admin-Keeps o net r (v, true) h = handle_admin-Keeps v h o net r

admin_or_none-Keeps :
    {low : ℕ → ℕ} (o : Outside) (net : Network) (w : Site) (r : Request)
    → IsWellFormed low w.store
    → Keeps low (admin_or_none o net w r)
unfolding admin_or_none
admin_or_none-Keeps {low = low} o net w r h =
    if_both (Keeps low) _ _ _
      (for_admin-Keeps o net r (admin_auth w r.admin_cookie)
        (admin_auth-IsWellFormed w r.admin_cookie h))
      (stays w _ h)

-- No request breaks the store, whoever sends it: on a well-formed store the store after the answer
-- is well-formed, and no folder's next UID falls below `low`, which is below the next UID of each.
pub handle_api-IsWellFormed :
    {low : ℕ → ℕ} (o : Outside) (net : Network) (w : Site) (r : Request)
    → IsWellFormed low w.store
    → IsWellFormed low (handle_api o net w r).0.store
unfolding handle_api handle_mail
handle_api-IsWellFormed {low = low} o net w r h = (all_routes).formed
  where
    all_routes : Keeps low (handle_api o net w r)
    all_routes = if_both (Keeps low) _ _ _ (stays w _ h) (
        if_both (Keeps low) _ _ _ (handle_whoami-Keeps w h r) (
          if_both (Keeps low) _ _ _ (handle_setup-Keeps w h o r) (
            if_both (Keeps low) _ _ _ (handle_login-Keeps w h o r) (
              if_both (Keeps low) _ _ _ (handle_logout-Keeps w h r) (
                if_both (Keeps low) _ _ _ (handle_mail_login-Keeps w h o r) (
                  if_both (Keeps low) _ _ _ (handle_mail_logout-Keeps w h r) (
                    if_both (Keeps low) _ _ _
                      (for_account-Keeps o r (mail_account o w r)
                        (mail_account-IsWellFormed o w r h))
                      (admin_or_none-Keeps o net w r h))))))))
