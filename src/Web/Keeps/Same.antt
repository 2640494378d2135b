-- ===== src/Web/Keeps/Same.antt =====
-- The store under the handler of the settings.
use cloudpost.Prelude.{
  Bool, List, Option, false, if_both, if◌then◌else◌, is_nil, none, not, option_both, refl, some,
  true, ℕ, ◌==◌, ◌∙◌, ◌≡◌,
}
use cloudpost.Text.{codes, eqb}
use cloudpost.Installation.Config.{Config}
use cloudpost.Web.Admin.Settings.{
  Changed, admin_update_settings, after_ports, all_errors, answer_ok, change_settings,
  nothing_changed, plain_settings, put_routes, rebind_ports, reverted_config, set_ports,
  store_config, switch_web, web_bound, with_body,
}
use cloudpost.Web.Http.{Outside, Request, Response, Site}
use cloudpost.Web.Json.{Fields, fields_of, member}
use cloudpost.Web.Ports.{
  Address, PortError, PortManager, apply_protocol_ports, bind_new_web_listener,
}

-- What a handler that only looks at the configuration gives.
pub record SameStore (w : Site) (p : Site × Response) : Type 0 where
  pub same : p.0.store ≡ w.store

pub answer_ok-SameStore :
    (w : Site) (r : Site × Bool) → r.0.store ≡ w.store → SameStore w (answer_ok r)
answer_ok-SameStore w (v, true) e = record { same = e }
answer_ok-SameStore w (v, false) e = record { same = e }

pub store_config-store : (w : Site) (c : Config) → (store_config w c).0.store ≡ w.store
unfolding store_config
store_config-store w c = refl

web_bound-SameStore :
    (w v : Site) (errs : List PortError) (b : PortManager × Option Address)
    → v.store ≡ w.store
    → SameStore w (web_bound v errs b)
web_bound-SameStore w v errs (pm, none) e = record { same = e }
web_bound-SameStore w v errs (pm, some a) e = record { same = e }

switch_web-SameStore :
    (o : Outside) (w v : Site) (errs : List PortError) (pm : PortManager) (p : ℕ)
    → v.store ≡ w.store
    → SameStore w (switch_web o v errs pm p)
unfolding switch_web
switch_web-SameStore o w v errs pm p e =
    if_both (SameStore w) (p == 0) _ _ (record { same = e })
      (web_bound-SameStore w v errs (bind_new_web_listener o.binds pm p) e)

either_store : (b : Bool) (w v : Site) → v.store ≡ w.store → (if b then w else v).store ≡ w.store
either_store true w v e = refl
either_store false w v e = e

rebind_ports-SameStore :
    (o : Outside) (w v : Site) (c : Config) (d : Changed) (pm : PortManager)
    → v.store ≡ w.store
    → SameStore w (rebind_ports o v c d pm)
unfolding rebind_ports
rebind_ports-SameStore o w v c d pm e =
    let a = apply_protocol_ports o.binds pm d.smtp d.pop3 d.imap in
    let w1 = if is_nil (all_errors a) then v else (store_config v (reverted_config a c)).0 in
    switch_web-SameStore o w w1 (all_errors a) a.manager d.web (
      either_store (is_nil (all_errors a)) v (store_config v (reverted_config a c)).0
        (store_config-store v (reverted_config a c))
      ∙ e)

after_ports-SameStore :
    (o : Outside) (w : Site) (c : Config) (d : Option Changed) → SameStore w (after_ports o w c d)
unfolding after_ports
after_ports-SameStore o w c none = record { same = refl }
after_ports-SameStore o w c (some d) =
    let e = store_config-store w c in
    if_both (SameStore w) (not (store_config w c).1) _ _ (record { same = e })
      (if_both (SameStore w) (nothing_changed d) _ _ (record { same = e })
        (option_both (SameStore w) (store_config w c).0.ports _ _ (record { same = e })
          (λ pm. rebind_ports-SameStore o w (store_config w c).0 c d pm e)))

change_settings-SameStore :
    (o : Outside) (w : Site) (c : Config) (fs : Fields) → SameStore w (change_settings o w c fs)
unfolding change_settings
change_settings-SameStore o w c fs =
    option_both (SameStore w)
      (put_routes (member eqb (codes "relay_routes") fs) (plain_settings fs c)) _ _
      (record { same = refl })
      (λ c2. after_ports-SameStore o w (set_ports fs c2).0 (set_ports fs c2).1)

with_body-SameStore :
    (w : Site) (fs : Option Fields) (go : Fields → Site × Response)
    → ((x : Fields) → SameStore w (go x))
    → SameStore w (with_body w fs go)
with_body-SameStore w none go h = record { same = refl }
with_body-SameStore w (some fs) go h = h fs

pub admin_update_settings-SameStore :
    (o : Outside) (w : Site) (r : Request) → SameStore w (admin_update_settings o w r)
unfolding admin_update_settings
admin_update_settings-SameStore o w r =
    option_both (SameStore w) w.state.cfg _ _ (record { same = refl })
      (λ c. with_body-SameStore w (fields_of r.body) _ (change_settings-SameStore o w c))
