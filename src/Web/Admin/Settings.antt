-- ===== src/Web/Admin/Settings.antt =====
-- The settings, the admin password and DKIM. State.Config returns the configuration itself, so
-- that a handler that gives up has already changed what it wrote to, in memory.
use cloudpost.Prelude.{
  Bool, List, Option, [], false, if◌then◌else◌, is_nil, leb, length, ltb, none, not, some, true, ℕ,
  ◌&&◌, ◌++◌, ◌==◌, ◌>>=◌, ◌∷◌,
}
use cloudpost.Text.{Text, codes, eqb, lower, negsuc, pos, trim_space, ℤ}
use cloudpost.Installation.Config.{Config, RelayRoute}
use cloudpost.Installation.Runtime.{set_config}
use cloudpost.Web.Auth.{read_two}
use cloudpost.Web.Http.{Outside, Request, Response, Site, done, failure, saved, success}
use cloudpost.Web.Json.{
  Fields, Items, Json, arr, cons, fields_of, member, minus, nil, num, obj, str,
}
use cloudpost.Web.Ports.{
  Address, Applied, PortError, PortManager, apply_protocol_ports, bind_new_web_listener,
  cannot_bind, close_previous_web_listener, current_ports,
}

-- The configuration as a handler has changed it in place.
abbrev pub in_place : Site → Config → Site
in_place w c = record w { state = record w.state { cfg = some c } }

-- SetConfig, with the answers for a success and for a file that cannot be written.
unfoldable pub store_config : Site → Config → Site × Bool
unfolding set_config
store_config w c = let r = set_config w.state c in (record w { state = r.0 }, r.1)

abbrev put_text : Option Json → Text → Text
put_text (some (str t)) cur = t
put_text _ cur = cur

abbrev put_filled : (Text → Text) → Option Json → Text → Text
put_filled f (some (str t)) cur = if is_nil t then cur else f t
put_filled f _ cur = cur

abbrev put_number : Option Json → ℤ → ℤ
put_number (some (num n)) cur = pos n
put_number (some (minus n)) cur = negsuc n
put_number _ cur = cur

abbrev text_or_nil : Option Json → Text
text_or_nil o = put_text o []

abbrev in_range : Option Json → Bool
in_range (some (num n)) = leb n 65535
in_range (some (minus n)) = false
in_range _ = true

abbrev route_from : Fields → RelayRoute
route_from fs = record {
  domain = lower (trim_space (text_or_nil (member eqb (codes "domain") fs)));
  host = trim_space (text_or_nil (member eqb (codes "host") fs));
  port = put_number (member eqb (codes "port") fs) (pos 0);
  user = text_or_nil (member eqb (codes "user") fs);
  pass = text_or_nil (member eqb (codes "pass") fs);
}

-- normalizeRelayRoutes
unfoldable pub normalize_relay_routes : Items → Option (List RelayRoute)
unfolding member eqb lower trim_space
normalize_relay_routes nil = some []
normalize_relay_routes (cons (obj fs) js) =
    let rest = normalize_relay_routes js in
    let r = route_from fs in
    if is_nil r.domain
    then none
    else if not (is_nil r.host) && not (in_range (member eqb (codes "port") fs))
    then none
    else rest >>= λ rs. some (r ∷ rs)
normalize_relay_routes (cons _ js) = none

-- The members that are not ports.
unfoldable pub plain_settings : Fields → Config → Config
unfolding member eqb lower trim_space
plain_settings fs c = record c {
  primary_domain =
      put_filled (λ t. lower (trim_space t)) (member eqb (codes "primary_domain") fs)
        c.primary_domain;
  hostname = put_filled (λ t. t) (member eqb (codes "hostname") fs) c.hostname;
  relay_host = put_text (member eqb (codes "relay_host") fs) c.relay_host;
  relay_port = put_number (member eqb (codes "relay_port") fs) c.relay_port;
  relay_user = put_text (member eqb (codes "relay_user") fs) c.relay_user;
  relay_pass = put_text (member eqb (codes "relay_pass") fs) c.relay_pass;
}

abbrev pub put_routes : Option Json → Config → Option Config
put_routes (some (arr js)) c =
    normalize_relay_routes js >>= λ rs. some (record c { relay_routes = rs })
put_routes _ c = some c

-- A port member: the new value of the field, and the port if it changed; none is a bad port.
abbrev pub set_port : Option Json → ℕ → Option (ℕ × ℕ)
set_port (some (num p)) cur =
    if p == 0
    then some (cur, 0)
    else if ltb 65535 p
    then none
    else if p == cur
    then some (cur, 0)
    else some (p, p)
set_port (some (minus p)) cur = none
set_port _ cur = some (cur, 0)

-- The ports that changed; 0 stands for one that did not.
pub record Changed : Type 0 where
  pub web : ℕ
  pub smtp : ℕ
  pub pop3 : ℕ
  pub imap : ℕ

-- The loop over the four ports, in one of the orders that the map may give: the configuration as
-- far as it was changed, and the changes unless a port was bad.
unfoldable pub set_ports : Fields → Config → Config × Option Changed
unfolding member eqb
set_ports fs c = elim (set_port (member eqb (codes "web_port") fs) c.web_port) [
  | none ↦ (c, none)
  | some (w, dw) ↦
      let c1 = record c { web_port = w } in
      elim (set_port (member eqb (codes "smtp_port") fs) c.smtp_port) [
        | none ↦ (c1, none)
        | some (s, ds) ↦
            let c2 = record c1 { smtp_port = s } in
            elim (set_port (member eqb (codes "pop3_port") fs) c.pop3_port) [
              | none ↦ (c2, none)
              | some (p, dp) ↦
                  let c3 = record c2 { pop3_port = p } in
                  elim (set_port (member eqb (codes "imap_port") fs) c.imap_port) [
                    | none ↦ (c3, none)
                    | some (i, di) ↦ (
                      record c3 { imap_port = i },
                      some (record { web = dw; smtp = ds; pop3 = dp; imap = di }),
                    )
                  ]
            ]
      ]
]

abbrev pub nothing_changed : Changed → Bool
nothing_changed d = d.web == 0 && d.smtp == 0 && d.pop3 == 0 && d.imap == 0

-- The entries whose rebind failed go back to the live ports.
unfoldable pub reverted_config : Applied → Config → Config
unfolding current_ports
reverted_config a c =
    let (lw, ls, lp, li) = current_ports a.manager in
    record c {
      smtp_port = if is_nil a.smtp_errors then c.smtp_port else ls;
      pop3_port = if is_nil a.pop3_errors then c.pop3_port else lp;
      imap_port = if is_nil a.imap_errors then c.imap_port else li;
    }

abbrev pub all_errors : Applied → List PortError
all_errors a = a.smtp_errors ++ (a.pop3_errors ++ a.imap_errors)

abbrev pub web_bound : Site → List PortError → PortManager × Option Address → Site × Response
web_bound w errs (pm, none) =
    (record w { ports = some pm }, success (saved (errs ++ cannot_bind ∷ [])))
web_bound w errs (pm, some a) = (
  record w { ports = some (close_previous_web_listener pm); web_swap = some a },
  success (saved errs),
)

-- The new web listener is published before the old one is closed.
unfoldable pub switch_web : Outside → Site → List PortError → PortManager → ℕ → Site × Response
unfolding bind_new_web_listener close_previous_web_listener
switch_web o w errs pm p =
    if p == 0
    then (record w { ports = some pm }, success (saved errs))
    else web_bound w errs (bind_new_web_listener o.binds pm p)

unfoldable pub rebind_ports : Outside → Site → Config → Changed → PortManager → Site × Response
unfolding apply_protocol_ports reverted_config store_config switch_web
rebind_ports o w c d pm =
    let a = apply_protocol_ports o.binds pm d.smtp d.pop3 d.imap in
    let errs = all_errors a in
    let w1 = if is_nil errs then w else (store_config w (reverted_config a c)).0 in
    switch_web o w1 errs a.manager d.web

unfoldable pub after_ports : Outside → Site → Config → Option Changed → Site × Response
unfolding store_config rebind_ports
after_ports o w c none = (in_place w c, failure 400)
after_ports o w c (some d) =
    let r = store_config w c in
    if not r.1
    then (r.0, failure 500)
    else if nothing_changed d
    then (r.0, success (saved []))
    else elim r.0.ports [ none ↦ (r.0, success (saved [])) | some pm ↦ rebind_ports o r.0 c d pm ]

unfoldable pub change_settings : Outside → Site → Config → Fields → Site × Response
unfolding plain_settings normalize_relay_routes set_ports after_ports member eqb
change_settings o w c fs =
    let c1 = plain_settings fs c in
    elim (put_routes (member eqb (codes "relay_routes") fs) c1) [
      | none ↦ (in_place w c1, failure 400)
      | some c2 ↦ let r = set_ports fs c2 in after_ports o w r.0 r.1
    ]

abbrev pub with_body : Site → Option Fields → (Fields → Site × Response) → Site × Response
with_body w none go = (w, failure 400)
with_body w (some fs) go = go fs

-- adminUpdateSettings
unfoldable pub admin_update_settings : Outside → Site → Request → Site × Response
unfolding change_settings
admin_update_settings o w r = elim w.state.cfg [
  | none ↦ (w, failure 400)
  | some c ↦ with_body w (fields_of r.body) (change_settings o w c)
]

abbrev pub answer_ok : Site × Bool → Site × Response
answer_ok (w, true) = (w, success done)
answer_ok (w, false) = (w, failure 500)

-- adminChangePassword. Without a configuration the handler panics, which the server answers by
-- closing the connection.
unfoldable pub admin_change_password : Outside → Site → Request → Site × Response
unfolding read_two store_config
admin_change_password o w r = elim (read_two r.body (codes "old") (codes "new")) [
  | none ↦ (w, failure 400)
  | some (old, new) ↦ if ltb (length new) 6 then (w, failure 400) else elim w.state.cfg [
    | none ↦ (w, failure 500)
    | some c ↦
        if not (o.ext.password_matches c.admin_hash old)
        then (w, failure 401)
        else answer_ok (store_config w (record c { admin_hash = o.ext.hash_password new }))
  ]
]
