-- ===== src/Web/Gate.antt =====
-- What a client without credentials can do.
use cloudpost.Prelude.{
  Bool, Bool-cases, Option, arith, false, find_first, if_both, if◌then◌else◌, inl, inr, is_nil,
  none, not, option_both, refl, some, subst, true, ℕ, ◌&&◌, ◌==◌, ◌≡◌,
}
use cloudpost.Text.{Text, codes, eqb, has_prefix, trim_space}
use cloudpost.Installation.Runtime.{
  Session, State, checked, drop_session, installed_now, new_session, valid_session,
}
use cloudpost.Mailstore.Accounts.{get_account, verify_local_login}
use cloudpost.Mailstore.Schema.{Account, ApiToken, External, Result, Store, err, ok}
use cloudpost.Mailstore.Tokens.{
  account_by_api_token, looked_up, token_prefix, touched_by, use_token,
}
use cloudpost.Sender.Queue.{Network}
use cloudpost.Web.Api.{
  admin_or_none, for_account, for_admin, handle_api, handle_mail, is_admin_path,
}
use cloudpost.Web.Auth.{
  admin_auth, admin_hash_of, bearer, bearer_account, by_session, by_token, handle_login,
  handle_logout, handle_mail_login, handle_mail_logout, handle_whoami, header_or_cookie,
  login_with_hash, mail_account, mail_login, open_own, read_one, read_two, session_account,
  session_is, start_mail_session,
}
use cloudpost.Web.Http.{MailSession, Outside, Request, Response, Site, trim_prefix}
use cloudpost.Web.Setup.{handle_setup}

-- The mail, the outbound queue and the configuration with its file are as before.
abbrev Untouched : Site → Site → Type 0
Untouched w v =
    (v.store ≡ w.store)
    × (v.outbound ≡ w.outbound)
    × (v.state.cfg ≡ w.state.cfg)
    × (v.state.file ≡ w.state.file)

same : (w : Site) → Untouched w w
same w = (refl, refl, refl, refl)

valid_session-cfg :
    (st : State) (t : ℕ)
    → ((valid_session st t).0.cfg ≡ st.cfg) × ((valid_session st t).0.file ≡ st.file)
unfolding valid_session drop_session
valid_session-cfg st t = found (find_first (λ s. s.token == t) st.sessions)
  where
    found :
        (o : Option Session)
        → ((checked st t o).0.cfg ≡ st.cfg) × ((checked st t o).0.file ≡ st.file)
    found none = (refl, refl)
    found (some x) = ground arith

pub admin_auth-Untouched : (w : Site) (c : Option ℕ) → Untouched w (admin_auth w c).0
unfolding admin_auth
admin_auth-Untouched w none = same w
admin_auth-Untouched w (some t) = let (c, f) = valid_session-cfg w.state t in (refl, refl, c, f)

use_token-none :
    (s : Store) (t : ApiToken) → bearer_account (use_token s t).1 ≡ none → (use_token s t).0 ≡ s
unfolding use_token touched_by
use_token-none s t h = pick t.revoked h
  where
    owner :
        (r : Result Account) → bearer_account (touched_by s t r).1 ≡ none → (touched_by s t r).0 ≡ s
    owner (err e) q = refl
    owner (ok a) q = cc

    pick :
        (b : Bool)
        → bearer_account (if b then (s, ok none) else touched_by s t (get_account s t.account_id)).1
          ≡ none
        → (if b then (s, ok none) else touched_by s t (get_account s t.account_id)).0 ≡ s
    pick true q = refl
    pick false q = owner (get_account s t.account_id) q

by_token-none :
    (ext : External) (s : Store) (text : Text)
    → bearer_account (account_by_api_token ext s text).1 ≡ none
    → (account_by_api_token ext s text).0 ≡ s
unfolding account_by_api_token
by_token-none ext s text h = elim (Bool-cases (not (has_prefix (trim_space text) token_prefix))) [
  | inl e ↦ rw e refl
  | inr e ↦ rw e (row (find_first _ s.tokens) refl (rw e at h))
]
  where
    row :
        (o : Option ApiToken)
        → find_first (λ t. eqb t.token_hash (ext.token_hash (trim_space text))) s.tokens ≡ o
        → bearer_account (looked_up s o).1 ≡ none
        → (looked_up s o).0 ≡ s
    row none e q = refl
    row (some t) e q = use_token-none s t q

session_account-Untouched :
    (w : Site) (t : ℕ) (o : Option MailSession) → Untouched w (session_account w t o).0
unfolding session_account
session_account-Untouched w t none = same w
session_account-Untouched w t (some x) = ground arith

by_session-Untouched : (w : Site) (o : Option ℕ) → Untouched w (by_session w o).0
unfolding by_session
by_session-Untouched w none = same w
by_session-Untouched w (some t) =
    session_account-Untouched w t (find_first (session_is t) w.mail_sessions)

mail_account-Untouched :
    (o : Outside) (w : Site) (r : Request)
    → (mail_account o w r).1 ≡ none
    → Untouched w (mail_account o w r).0
unfolding mail_account by_token
mail_account-Untouched o w r h =
    pick
      (has_prefix r.authorization bearer
        && has_prefix (trim_space (trim_prefix r.authorization bearer)) token_prefix)
      h
  where
    bare : Text
    bare = trim_space (trim_prefix r.authorization bearer)

    pick :
        (b : Bool)
        → (if b then by_token o.ext w bare else by_session w (header_or_cookie r)).1 ≡ none
        → Untouched w (if b then by_token o.ext w bare else by_session w (header_or_cookie r)).0
    pick true q = (by_token-none o.ext w.store bare q, refl, refl, refl)
    pick false q = by_session-Untouched w (header_or_cookie r)

record Leaves (w : Site) (p : Site × Response) : Type 0 where
  kept : Untouched w p.0

stays : (w : Site) (b : Response) → Leaves w (w, b)
stays w b = record { kept = same w }

Untouched-Leaves : {w v : Site} (b : Response) → Untouched w v → Leaves w (v, b)
Untouched-Leaves b h = record { kept = h }

login_with_hash-Leaves :
    (o : Outside) (w : Site) (hash password : Text) → Leaves w (login_with_hash o w hash password)
unfolding login_with_hash new_session
login_with_hash-Leaves o w hash password = if_both (Leaves w) (is_nil hash) _ _ (stays w _) (
    if_both (Leaves w) (not (o.ext.password_matches hash password)) _ _ (stays w _)
      (record { kept = (refl, refl, refl, refl) }))

handle_login-Untouched : (o : Outside) (w : Site) (r : Request) → Leaves w (handle_login o w r)
unfolding handle_login
handle_login-Untouched o w r =
    option_both (Leaves w) (read_one r.body (codes "password")) _ _ (stays w _)
      (login_with_hash-Leaves o w (admin_hash_of w.state.cfg))

handle_mail_login-Untouched :
    (o : Outside) (w : Site) (r : Request)
    → (admin_auth w r.admin_cookie).1 ≡ false
    → Leaves w (handle_mail_login o w r)
unfolding handle_mail_login mail_login start_mail_session
handle_mail_login-Untouched o w r out =
    option_both (Leaves w) (read_two r.body (codes "address") (codes "password")) _ _ (stays w _)
      (λ p. mail_login-Leaves p.0 p.1)
  where
    own : (a : Option Account) → Leaves w (open_own (admin_auth w r.admin_cookie).0 a)
    own none = Untouched-Leaves _ (admin_auth-Untouched w r.admin_cookie)
    own (some a) = record { kept = admin_auth-Untouched w r.admin_cookie }

    mail_login-Leaves :
        (address password : Text) → Leaves w (mail_login o w r.admin_cookie address password)
    mail_login-Leaves address password =
        rw out
          (own (verify_local_login o.ext (admin_auth w r.admin_cookie).0.store address password))

handle_setup-Leaves :
    (o : Outside) (w : Site) (r : Request)
    → installed_now w.state ≡ true
    → Leaves w (handle_setup o w r)
unfolding handle_setup
handle_setup-Leaves o w r inst = rw inst (stays w _)

-- The client has no admin session, no webmail session and no API token that is good.
module _ (o : Outside) (net : Network) (w : Site) (r : Request)
    (out : (admin_auth w r.admin_cookie).1 ≡ false) (anon : (mail_account o w r).1 ≡ none) where
  handle_mail-Untouched : Leaves w (handle_mail o w r)
  unfolding handle_mail
  handle_mail-Untouched = go (mail_account o w r) refl anon
    where
      go :
          (p : Site × Option Account)
          → mail_account o w r ≡ p
          → p.1 ≡ none
          → Leaves w (for_account o r p)
      go (v, none) e q =
          Untouched-Leaves _ (subst (λ p. Untouched w p.0) e (mail_account-Untouched o w r anon))
      go (v, some a) e q = cc

  admin-Untouched : Leaves w (admin_or_none o net w r)
  unfolding admin_or_none
  admin-Untouched =
      if_both (Leaves w) (is_admin_path r.path) _ _ (go (admin_auth w r.admin_cookie) refl out)
        (stays w _)
    where
      go :
          (p : Site × Bool)
          → admin_auth w r.admin_cookie ≡ p
          → p.1 ≡ false
          → Leaves w (for_admin o net r p)
      go (v, false) e q =
          Untouched-Leaves _
            (subst (λ p. Untouched w p.0) e (admin_auth-Untouched w r.admin_cookie))
      go (v, true) e q = cc

-- On an installed site, a request whose client has no good admin session, webmail session or API
-- token changes neither the mail, nor the outbound queue, nor the configuration and its file,
-- whatever its method, path and body are.
pub handle_api-outsider :
    (o : Outside) (net : Network) (w : Site) (r : Request)
    → installed_now w.state ≡ true
    → (admin_auth w r.admin_cookie).1 ≡ false
    → (mail_account o w r).1 ≡ none
    → let v = (handle_api o net w r).0 in
      (v.store ≡ w.store)
      × (v.outbound ≡ w.outbound)
      × (v.state.cfg ≡ w.state.cfg)
      × (v.state.file ≡ w.state.file)
unfolding handle_api handle_whoami handle_logout handle_mail_logout drop_session
handle_api-outsider o net w r inst out anon = (handle_api-Leaves).kept
  where
    cookie : Untouched w (admin_auth w r.admin_cookie).0
    cookie = admin_auth-Untouched w r.admin_cookie

    handle_api-Leaves : Leaves w (handle_api o net w r)
    handle_api-Leaves = if_both (Leaves w) _ _ _ (stays w _) (
        if_both (Leaves w) _ _ _ (Untouched-Leaves _ cookie) (
          if_both (Leaves w) _ _ _ (handle_setup-Leaves o w r inst) (
            if_both (Leaves w) _ _ _ (handle_login-Untouched o w r) (
              if_both (Leaves w) _ _ _
                (option_both (Leaves w) r.admin_cookie _ _ (stays w _)
                  (λ t. record { kept = (refl, refl, refl, refl) }))
                (if_both (Leaves w) _ _ _ (handle_mail_login-Untouched o w r out) (
                  if_both (Leaves w) _ _ _
                    (option_both (Leaves w) r.mail_cookie _ _ (stays w _)
                      (λ t. record { kept = (refl, refl, refl, refl) }))
                    (if_both (Leaves w) _ _ _ (handle_mail-Untouched o net w r out anon)
                      (admin-Untouched o net w r out anon))))))))
