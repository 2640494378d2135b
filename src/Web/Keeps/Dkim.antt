-- ===== src/Web/Keeps/Dkim.antt =====
-- The store under the handlers for DKIM.
use cloudpost.Prelude.{Bool, if_both, if◌then◌else◌, none, not, option_both, refl, some}
use cloudpost.Text.{Text, codes, trim_space}
use cloudpost.Installation.Config.{Config}
use cloudpost.Web.Admin.Dkim.{
  admin_dkim_generate, admin_dkim_save, dkim_key, dkim_save, dkim_switch, read_dkim, valid_selector,
}
use cloudpost.Web.Admin.Settings.{answer_ok, store_config}
use cloudpost.Web.Auth.{read_one}
use cloudpost.Web.Http.{Outside, Request, Site, failure}
use cloudpost.Web.Keeps.Same.{SameStore, answer_ok-SameStore, store_config-store}

dkim_switch-SameStore : (w : Site) (c : Config) (on : Bool) → SameStore w (dkim_switch w c on)
unfolding dkim_switch
dkim_switch-SameStore w c on =
    if_both (SameStore w) _ _ _ (record { same = refl })
      (answer_ok-SameStore w _ (store_config-store w (record c { dkim_enabled = on })))

dkim_key-SameStore :
    (o : Outside) (w : Site) (c : Config) (on : Bool) (key : Text)
    → SameStore w (dkim_key o w c on key)
unfolding dkim_key
dkim_key-SameStore o w c on key = if_both (SameStore w) _ _ _ (dkim_switch-SameStore w c on) (
    if_both (SameStore w) _ _ _ (record { same = refl })
      (dkim_switch-SameStore w (record c { dkim_key_pem = trim_space key }) on))

dkim_save-SameStore :
    (o : Outside) (w : Site) (c : Config) (q : Bool × Text × Text)
    → SameStore w (dkim_save o w c q.0 q.1 q.2)
unfolding dkim_save
dkim_save-SameStore o w c (on, sel, key) =
    if_both (SameStore w) _ _ _ (dkim_key-SameStore o w c on key) (
      if_both (SameStore w) _ _ _ (record { same = refl })
        (dkim_key-SameStore o w (record c { dkim_selector = sel }) on key))

dkim_asked-SameStore :
    (o : Outside) (w : Site) (r : Request) (c : Config)
    → SameStore w (elim (read_dkim r.body) [
      | none ↦ (w, failure 400)
      | some (on, sel, key) ↦ dkim_save o w c on sel key
    ])
dkim_asked-SameStore o w r c =
    option_both (SameStore w) (read_dkim r.body) _ _ (record { same = refl })
      (dkim_save-SameStore o w c)

pub admin_dkim_save-SameStore :
    (o : Outside) (w : Site) (r : Request) → SameStore w (admin_dkim_save o w r)
unfolding admin_dkim_save
admin_dkim_save-SameStore o w r =
    option_both (SameStore w) w.state.cfg _ _ (record { same = refl }) (dkim_asked-SameStore o w r)

generated-SameStore :
    (o : Outside) (w : Site) (c : Config) (sel : Text)
    → SameStore w (
        if not (valid_selector sel)
        then (w, failure 400)
        else answer_ok (
            store_config w
              (record c { dkim_selector = sel; dkim_key_pem = o.new_dkim_key w.state.clock })))
generated-SameStore o w c sel =
    if_both (SameStore w) (not (valid_selector sel)) _ _ (record { same = refl })
      (answer_ok-SameStore w _ (
        store_config-store w
          (record c { dkim_selector = sel; dkim_key_pem = o.new_dkim_key w.state.clock })))

generate_asked-SameStore :
    (o : Outside) (w : Site) (r : Request) (c : Config)
    → SameStore w (elim (read_one r.body (codes "selector")) [
      | none ↦ (w, failure 400)
      | some sel ↦
          if not (valid_selector sel)
          then (w, failure 400)
          else answer_ok (
              store_config w
                (record c { dkim_selector = sel; dkim_key_pem = o.new_dkim_key w.state.clock }))
    ])
generate_asked-SameStore o w r c =
    option_both (SameStore w) (read_one r.body (codes "selector")) _ _ (record { same = refl })
      (generated-SameStore o w c)

pub admin_dkim_generate-SameStore :
    (o : Outside) (w : Site) (r : Request) → SameStore w (admin_dkim_generate o w r)
unfolding admin_dkim_generate
admin_dkim_generate-SameStore o w r =
    option_both (SameStore w) w.state.cfg _ _ (record { same = refl })
      (generate_asked-SameStore o w r)
