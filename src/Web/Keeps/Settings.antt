-- ===== src/Web/Keeps/Settings.antt =====
-- The invariant of the store under the settings' handlers and the reset.
use cloudpost.Prelude.{
  Bool, [], false, if_both, if◌then◌else◌, length, ltb, none, not, option_both, refl, some, subst,
  sym, true, ℕ,
}
use cloudpost.Text.{Text, codes, eqb}
use cloudpost.Installation.Config.{Config}
use cloudpost.Installation.Runtime.{State, factory_reset}
use cloudpost.Mailstore.Invariant.{IsWellFormed}
use cloudpost.Web.Admin.Dkim.{admin_dkim_generate, admin_dkim_save}
use cloudpost.Web.Admin.Reset.{
  admin_reset_confirm, confirm, do_full_reset, reset_tables, token_valid, wipe_blobs,
}
use cloudpost.Web.Admin.Settings.{
  admin_change_password, admin_update_settings, answer_ok, store_config,
}
use cloudpost.Web.Auth.{read_two}
use cloudpost.Web.Http.{Outside, Request, Response, Site, failure}
use cloudpost.Web.Keeps.{Keeps, stays}
use cloudpost.Web.Keeps.Dkim.{admin_dkim_generate-SameStore, admin_dkim_save-SameStore}
use cloudpost.Web.Keeps.Same.{
  SameStore, admin_update_settings-SameStore, answer_ok-SameStore, store_config-store,
}

-- A handler that leaves the store alone keeps it well-formed.
SameStore-Keeps :
    {low : ℕ → ℕ} (w : Site) (p : Site × Response)
    → IsWellFormed low w.store
    → SameStore w p
    → Keeps low p
SameStore-Keeps {low = low} w p h k = record { formed = subst (IsWellFormed low) (sym k.same) h }

module _ {low : ℕ → ℕ} (w : Site) (h : IsWellFormed low w.store) where
  pub settings-Keeps : (o : Outside) (r : Request) → Keeps low (admin_update_settings o w r)
  settings-Keeps o r =
      SameStore-Keeps w (admin_update_settings o w r) h (admin_update_settings-SameStore o w r)

  pub dkim_save-Keeps : (o : Outside) (r : Request) → Keeps low (admin_dkim_save o w r)
  dkim_save-Keeps o r =
      SameStore-Keeps w (admin_dkim_save o w r) h (admin_dkim_save-SameStore o w r)

  pub dkim_generate-Keeps : (o : Outside) (r : Request) → Keeps low (admin_dkim_generate o w r)
  dkim_generate-Keeps o r =
      SameStore-Keeps w (admin_dkim_generate o w r) h (admin_dkim_generate-SameStore o w r)

  -- The counters of the tables stay, so that an empty store continues them.
  reset_tables-IsWellFormed : IsWellFormed low (wipe_blobs (reset_tables w)).store
  unfolding reset_tables wipe_blobs
  reset_tables-IsWellFormed = record {
    folder_ids = _;
    low_fresh = h.low_fresh;
    folders_apart = _;
    placed = _;
    stored = _;
    apart = _;
  }

  full_reset-IsWellFormed : IsWellFormed low (do_full_reset w).0.store
  unfolding do_full_reset
  full_reset-IsWellFormed = pick (factory_reset (wipe_blobs (reset_tables w)).state)
    where
      pick :
          (r : State × Bool)
          → let w1 = wipe_blobs (reset_tables w) in
            IsWellFormed low
              (if◌then◌else◌ {A = Site × Bool} r.1
                (record w1 { state = r.0; mail_sessions = [] }, true)
                (record w1 { state = r.0 }, false)).0.store
      pick (st, true) = reset_tables-IsWellFormed
      pick (st, false) = reset_tables-IsWellFormed

module _ {low : ℕ → ℕ} (w : Site) (h : IsWellFormed low w.store) where
  confirm-Keeps : (p : Text × Text) → Keeps low (confirm w p.0 p.1)
  unfolding confirm
  confirm-Keeps (text, phrase) =
      let w1 = record w { reset_token = none; reset_exp = 0 } in
      if_both (Keeps low) (not (token_valid w text)) _ _ (record { formed = h })
        (if_both (Keeps low) (not (eqb phrase (codes "RESET"))) _ _ (record { formed = h })
          (record { formed = full_reset-IsWellFormed w1 h }))

  pub reset_confirm-Keeps : (r : Request) → Keeps low (admin_reset_confirm w r)
  unfolding admin_reset_confirm
  reset_confirm-Keeps r =
      option_both (Keeps low) (read_two r.body (codes "token") (codes "phrase")) _ _ (stays w _ h)
        confirm-Keeps

changed_password-SameStore :
    (o : Outside) (w : Site) (c : Config) (p : Text × Text)
    → SameStore w (
        if not (o.ext.password_matches c.admin_hash p.0)
        then (w, failure 401)
        else answer_ok (store_config w (record c { admin_hash = o.ext.hash_password p.1 })))
changed_password-SameStore o w c p =
    if_both (SameStore w) (not (o.ext.password_matches c.admin_hash p.0)) _ _
      (record { same = refl }) (answer_ok-SameStore w _ (store_config-store w _))

password_asked-SameStore :
    (o : Outside) (w : Site) (p : Text × Text)
    → SameStore w (
        if ltb (length p.1) 6 then (w, failure 400) else elim w.state.cfg [
          | none ↦ (w, failure 500)
          | some c ↦
              if not (o.ext.password_matches c.admin_hash p.0)
              then (w, failure 401)
              else answer_ok (store_config w (record c { admin_hash = o.ext.hash_password p.1 }))
        ])
password_asked-SameStore o w p =
    if_both (SameStore w) (ltb (length p.1) 6) _ _ (record { same = refl })
      (option_both (SameStore w) w.state.cfg _ _ (record { same = refl })
        (λ c. changed_password-SameStore o w c p))

admin_change_password-SameStore :
    (o : Outside) (w : Site) (r : Request) → SameStore w (admin_change_password o w r)
unfolding admin_change_password
admin_change_password-SameStore o w r =
    option_both (SameStore w) (read_two r.body (codes "old") (codes "new")) _ _
      (record { same = refl }) (password_asked-SameStore o w)

pub change_password-Keeps :
    {low : ℕ → ℕ} (w : Site) (h : IsWellFormed low w.store) (o : Outside) (r : Request)
    → Keeps low (admin_change_password o w r)
change_password-Keeps w h o r =
    SameStore-Keeps w (admin_change_password o w r) h (admin_change_password-SameStore o w r)
