-- ===== src/Web/Auth.antt =====
-- Sessions, logins and the setup wizard of internal/web/web.go.
use cloudpost.Prelude.{
  Bool, Option, [], false, find_first, if◌then◌else◌, is_nil, is_some, keep, ltb, none, not, some,
  ℕ, ◌&&◌, ◌*◌, ◌+◌, ◌==◌, ◌>>=◌, ◌∷◌,
}
use cloudpost.Text.{Text, codes, has_prefix, lower, trim_space}
use cloudpost.Installation.Config.{Config}
use cloudpost.Installation.Runtime.{drop_session, new_session, valid_session}
use cloudpost.Mailstore.Accounts.{get_account, get_account_by_address_any, verify_local_login}
use cloudpost.Mailstore.Schema.{Account, ApiToken, External, Result, err, ok}
use cloudpost.Mailstore.Tokens.{account_by_api_token, token_prefix}
use cloudpost.Web.Http.{
  MailSession, Outside, Request, Response, Site, admin_token, done, failure, mail_token,
  setup_state, success, trim_prefix, whoami,
}
use cloudpost.Web.Json.{Json, fields_of, text_in}

abbrev pub day_seconds : ℕ
day_seconds = 24 * 3600

-- mailSessionTTL, and the time an admin session is given.
abbrev pub week : ℕ
week = 7 * day_seconds

-- ValidSession on the cookie; an expired session is dropped on the way.
unfoldable pub admin_auth : Site → Option ℕ → Site × Bool
unfolding valid_session
admin_auth w none = (w, false)
admin_auth w (some t) = let r = valid_session w.state t in (record w { state = r.0 }, is_some r.1)

abbrev pub session_is : ℕ → MailSession → Bool
session_is t x = x.token == t

abbrev pub account_of : Result Account → Option Account
account_of (ok a) = some a
account_of (err e) = none

-- On the session that a token names.
unfoldable pub session_account : Site → ℕ → Option MailSession → Site × Option Account
unfolding get_account
session_account w t none = (w, none)
session_account w t (some sess) =
    if ltb sess.exp w.state.clock
    then (record w { mail_sessions = keep (λ x. not (session_is t x)) w.mail_sessions }, none)
    else (w, account_of (get_account w.store sess.acc_id))

abbrev pub header_or_cookie : Request → Option ℕ
header_or_cookie r = elim r.mail_header [ none ↦ r.mail_cookie | some t ↦ some t ]

unfoldable pub by_session : Site → Option ℕ → Site × Option Account
unfolding session_account
by_session w none = (w, none)
by_session w (some t) = session_account w t (find_first (session_is t) w.mail_sessions)

abbrev pub bearer_account : Result (Option (Account × ApiToken)) → Option Account
bearer_account (ok (some (a, t))) = some a
bearer_account _ = none

unfoldable pub by_token : External → Site → Text → Site × Option Account
unfolding account_by_api_token
by_token ext w bare =
    let r = account_by_api_token ext w.store bare in (record w { store = r.0 }, bearer_account r.1)

abbrev pub bearer : Text
bearer = codes "Bearer "

-- mailAccount: an API token in the Authorization header, or else the session of the header or of
-- the cookie.
unfoldable pub mail_account : Outside → Site → Request → Site × Option Account
unfolding by_session by_token has_prefix trim_space trim_prefix
mail_account o w r =
    let bare = trim_space (trim_prefix r.authorization bearer) in
    if has_prefix r.authorization bearer && has_prefix bare token_prefix
    then by_token o.ext w bare
    else by_session w (header_or_cookie r)

-- handleSetupStatus
unfoldable pub setup_status : Site → Response
setup_status w = elim w.state.cfg [
  | none ↦ success (setup_state false [] [])
  | some cfg ↦ success (setup_state cfg.installed cfg.primary_domain cfg.hostname)
]

abbrev pub live : Site → Option ℕ → Bool
live w none = false
live w (some t) = elim (find_first (session_is t) w.mail_sessions) [
  | none ↦ false
  | some x ↦ ltb w.state.clock x.exp
]

-- handleWhoami
unfoldable pub handle_whoami : Site → Request → Site × Response
unfolding admin_auth
handle_whoami w r =
    let a = admin_auth w r.admin_cookie in (a.0, success (whoami a.1 (live a.0 r.mail_cookie)))

unfoldable pub login_with_hash : Outside → Site → Text → Text → Site × Response
unfolding new_session
login_with_hash o w hash password =
    if is_nil hash
    then (w, failure 400)
    else if not (o.ext.password_matches hash password)
    then (w, failure 401)
    else let r = new_session w.state week in
      (record w { state = r.0 }, success (admin_token r.1.token))

abbrev pub admin_hash_of : Option Config → Text
admin_hash_of none = []
admin_hash_of (some cfg) = cfg.admin_hash

unfoldable pub read_one : Option Json → Text → Option Text
unfolding text_in
read_one b k = do fs ← fields_of b; text_in fs k

unfoldable pub read_two : Option Json → Text → Text → Option (Text × Text)
unfolding text_in
read_two b k l = do fs ← fields_of b; x ← text_in fs k; y ← text_in fs l; some (x, y)

-- handleLogin
unfoldable pub handle_login : Outside → Site → Request → Site × Response
unfolding login_with_hash read_one
handle_login o w r = elim (read_one r.body (codes "password")) [
  | none ↦ (w, failure 400)
  | some p ↦ login_with_hash o w (admin_hash_of w.state.cfg) p
]

-- handleLogout
unfoldable pub handle_logout : Site → Request → Site × Response
unfolding drop_session
handle_logout w r = elim r.admin_cookie [
  | none ↦ (w, success done)
  | some t ↦ (record w { state = drop_session w.state t }, success done)
]

unfoldable pub start_mail_session : Site → Account → Site × Response
start_mail_session w a = (
  record w {
    mail_sessions =
        record { token = w.next_mail_token; acc_id = a.id; exp = w.state.clock + week }
        ∷ w.mail_sessions;
    next_mail_token = w.next_mail_token + 1;
  },
  success (mail_token w.next_mail_token a),
)

abbrev pub open_any : Site → Result Account → Site × Response
open_any w (ok a) = start_mail_session w a
open_any w (err e) = (w, failure 404)

abbrev pub open_own : Site → Option Account → Site × Response
open_own w none = (w, failure 401)
open_own w (some a) = start_mail_session w a

-- An admin opens any mailbox; anyone else one whose password is right.
unfoldable pub mail_login : Outside → Site → Option ℕ → Text → Text → Site × Response
unfolding admin_auth start_mail_session get_account_by_address_any verify_local_login lower
    trim_space
mail_login o w cookie address password =
    let a = admin_auth w cookie in
    if a.1
    then open_any a.0 (get_account_by_address_any a.0.store (lower (trim_space address)))
    else open_own a.0 (verify_local_login o.ext a.0.store address password)

-- handleMailLogin
unfoldable pub handle_mail_login : Outside → Site → Request → Site × Response
unfolding mail_login read_two
handle_mail_login o w r = elim (read_two r.body (codes "address") (codes "password")) [
  | none ↦ (w, failure 400)
  | some (address, password) ↦ mail_login o w r.admin_cookie address password
]

-- handleMailLogout
unfoldable pub handle_mail_logout : Site → Request → Site × Response
handle_mail_logout w r = elim r.mail_cookie [
  | none ↦ (w, success done)
  | some t ↦
      (record w { mail_sessions = keep (λ x. not (session_is t x)) w.mail_sessions }, success done)
]
