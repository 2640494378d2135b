-- ===== src/Web/Keeps/Logins.antt =====
-- The invariant of the store under the logins and the wizard.
use cloudpost.Prelude.{
  Option, if_both, is_nil, length, ltb, none, not, option_both, refl, some, subst, sym, ℕ, ◌≡◌,
}
use cloudpost.Text.{Text, codes}
use cloudpost.Installation.Runtime.{new_session, set_config}
use cloudpost.Mailstore.Invariant.{IsWellFormed}
use cloudpost.Mailstore.Schema.{Account, Result, err, ok}
use cloudpost.Web.Auth.{
  admin_auth, admin_hash_of, handle_login, handle_logout, handle_mail_login, handle_mail_logout,
  handle_whoami, live, login_with_hash, mail_login, open_any, open_own, read_one, read_two,
  start_mail_session, week,
}
use cloudpost.Web.Http.{Outside, Request, Site, failure, success, whoami}
use cloudpost.Web.Keeps.{Keeps, stays}
use cloudpost.Web.Ports.{PortManager}
use cloudpost.Web.Setup.{SetupReq, first_config, handle_setup, read_setup, run_setup, setup_ports}

pub admin_auth-IsWellFormed :
    {low : ℕ → ℕ} (w : Site) (c : Option ℕ)
    → IsWellFormed low w.store
    → IsWellFormed low (admin_auth w c).0.store
unfolding admin_auth
admin_auth-IsWellFormed w none h = h
admin_auth-IsWellFormed w (some t) h = h

module _ {low : ℕ → ℕ} (w : Site) (h : IsWellFormed low w.store) where
  pub handle_whoami-Keeps : (r : Request) → Keeps low (handle_whoami w r)
  unfolding handle_whoami admin_auth
  handle_whoami-Keeps r = pick r.admin_cookie
    where
      pick :
          (c : Option ℕ)
          → Keeps low
              (let a = admin_auth w c in (a.0, success (whoami a.1 (live a.0 r.mail_cookie))))
      pick none = record { formed = h }
      pick (some t) = record { formed = h }

  setup_ports-Keeps :
      (o : Outside) (v : Site) (q : SetupReq) (p : Option PortManager)
      → v.store ≡ w.store
      → Keeps low (setup_ports o v q p)
  unfolding setup_ports
  setup_ports-Keeps o v q none e = record { formed = subst (IsWellFormed low) (sym e) h }
  setup_ports-Keeps o v q (some pm) e = record { formed = subst (IsWellFormed low) (sym e) h }

  run_setup-Keeps : (o : Outside) (q : SetupReq) → Keeps low (run_setup o w q)
  unfolding run_setup
  run_setup-Keeps o q =
      let r = set_config w.state (first_config o q) in
      let w1 = record w { state = r.0 } in
      if_both (Keeps low) (ltb (length q.password) 6) _ _ (stays w (failure 400) h) (
        if_both (Keeps low) (is_nil q.domain) _ _ (stays w (failure 400) h) (
          if_both (Keeps low) r.1 _ _ (setup_ports-Keeps o w1 q w1.ports refl)
            (stays w1 (failure 500) h)))

  pub handle_setup-Keeps : (o : Outside) (r : Request) → Keeps low (handle_setup o w r)
  unfolding handle_setup
  handle_setup-Keeps o r =
      if_both (Keeps low) _ _ _ (stays w _ h)
        (option_both (Keeps low) (read_setup r.body) _ _ (stays w _ h) (run_setup-Keeps o))

  login_with_hash-Keeps :
      (o : Outside) (hash password : Text) → Keeps low (login_with_hash o w hash password)
  unfolding login_with_hash
  login_with_hash-Keeps o hash password =
      if_both (Keeps low) (is_nil hash) _ _ (stays w (failure 400) h) (
        if_both (Keeps low) (not (o.ext.password_matches hash password)) _ _
          (stays w (failure 401) h) (stays (record w { state = (new_session w.state week).0 }) _ h))

  pub handle_login-Keeps : (o : Outside) (r : Request) → Keeps low (handle_login o w r)
  unfolding handle_login
  handle_login-Keeps o r =
      option_both (Keeps low) (read_one r.body (codes "password")) _ _ (stays w _ h)
        (login_with_hash-Keeps o (admin_hash_of w.state.cfg))

  pub handle_logout-Keeps : (r : Request) → Keeps low (handle_logout w r)
  unfolding handle_logout
  handle_logout-Keeps r =
      option_both (Keeps low) r.admin_cookie _ _ (stays w _ h) (λ t. record { formed = h })

  pub handle_mail_logout-Keeps : (r : Request) → Keeps low (handle_mail_logout w r)
  unfolding handle_mail_logout
  handle_mail_logout-Keeps r =
      option_both (Keeps low) r.mail_cookie _ _ (stays w _ h) (λ t. record { formed = h })

module _ {low : ℕ → ℕ} (w : Site) (h : IsWellFormed low w.store) where
  open_any-Keeps : (r : Result Account) → Keeps low (open_any w r)
  unfolding start_mail_session
  open_any-Keeps (ok a) = record { formed = h }
  open_any-Keeps (err e) = record { formed = h }

  open_own-Keeps : (r : Option Account) → Keeps low (open_own w r)
  unfolding start_mail_session
  open_own-Keeps (some a) = record { formed = h }
  open_own-Keeps none = record { formed = h }

module _ {low : ℕ → ℕ} (w : Site) (h : IsWellFormed low w.store) where
  mail_login-Keeps :
      (o : Outside) (c : Option ℕ) (p : Text × Text) → Keeps low (mail_login o w c p.0 p.1)
  unfolding mail_login
  mail_login-Keeps o c (address, password) =
      let v = admin_auth-IsWellFormed w c h in
      if_both (Keeps low) _ _ _ (open_any-Keeps (admin_auth w c).0 v _)
        (open_own-Keeps (admin_auth w c).0 v _)

  pub handle_mail_login-Keeps : (o : Outside) (r : Request) → Keeps low (handle_mail_login o w r)
  unfolding handle_mail_login
  handle_mail_login-Keeps o r =
      option_both (Keeps low) (read_two r.body (codes "address") (codes "password")) _ _
        (stays w _ h) (mail_login-Keeps o r.admin_cookie)
