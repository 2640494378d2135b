-- ===== src/Web/Setup.antt =====
-- The setup wizard of internal/web/web.go.
use cloudpost.Prelude.{
  Option, [], false, if◌then◌else◌, is_nil, length, ltb, none, some, true, ℕ, ◌++◌, ◌==◌, ◌>>=◌,
}
use cloudpost.Text.{Text, codes, lower, trim_space, ℤ}
use cloudpost.Installation.Config.{Config}
use cloudpost.Installation.Runtime.{installed_now, set_config}
use cloudpost.Web.Http.{Outside, Request, Response, Site, failure, setup_done, success}
use cloudpost.Web.Json.{Json, fields_of, int_in, nat_in, text_in}
use cloudpost.Web.Ports.{PortManager, apply_protocol_ports}

unfoldable pub or_default : ℕ → ℕ → ℕ
or_default v d = if v == 0 then d else v

pub record SetupReq : Type 0 where
  pub password : Text
  pub domain : Text
  pub hostname : Text
  pub web_port : ℕ
  pub smtp_port : ℕ
  pub pop3_port : ℕ
  pub imap_port : ℕ
  pub relay_host : Text
  pub relay_port : ℤ
  pub relay_user : Text
  pub relay_pass : Text

unfoldable pub read_setup : Option Json → Option SetupReq
unfolding text_in nat_in int_in
read_setup b = do
  fs ← fields_of b
  pw ← text_in fs (codes "admin_password")
  dom ← text_in fs (codes "domain")
  hn ← text_in fs (codes "hostname")
  wp ← nat_in fs (codes "web_port")
  sp ← nat_in fs (codes "smtp_port")
  pp ← nat_in fs (codes "pop3_port")
  ip ← nat_in fs (codes "imap_port")
  rh ← text_in fs (codes "relay_host")
  rp ← int_in fs (codes "relay_port")
  ru ← text_in fs (codes "relay_user")
  rs ← text_in fs (codes "relay_pass")
  some (record {
    password = pw;
    domain = lower (trim_space dom);
    hostname = hn;
    web_port = wp;
    smtp_port = sp;
    pop3_port = pp;
    imap_port = ip;
    relay_host = rh;
    relay_port = rp;
    relay_user = ru;
    relay_pass = rs;
  })

-- The configuration that the wizard writes.
unfoldable pub first_config : Outside → SetupReq → Config
unfolding or_default
first_config o q = record {
  installed = true;
  primary_domain = q.domain;
  hostname = if is_nil q.hostname then o.host_name else q.hostname;
  admin_hash = o.ext.hash_password q.password;
  smtp_port = or_default q.smtp_port 2525;
  smtp_ssl_port = 0;
  pop3_port = or_default q.pop3_port 1110;
  pop3_ssl_port = 0;
  imap_port = or_default q.imap_port 1143;
  imap_ssl_port = 0;
  web_port = or_default q.web_port 8080;
  relay_host = q.relay_host;
  relay_port = q.relay_port;
  relay_user = q.relay_user;
  relay_pass = q.relay_pass;
  relay_routes = [];
  dkim_enabled = false;
  dkim_selector = [];
  dkim_key_pem = [];
}

unfoldable pub setup_ports : Outside → Site → SetupReq → Option PortManager → Site × Response
unfolding apply_protocol_ports or_default
setup_ports o w q none = (w, success (setup_done []))
setup_ports o w q (some pm) =
    let a =
      apply_protocol_ports o.binds pm (or_default q.smtp_port 2525) (or_default q.pop3_port 1110)
        (or_default q.imap_port 1143) in
    (
      record w { ports = some a.manager },
      success (setup_done (a.smtp_errors ++ a.pop3_errors ++ a.imap_errors)),
    )

-- The wizard on a request that could be decoded.
unfoldable pub run_setup : Outside → Site → SetupReq → Site × Response
unfolding set_config first_config setup_ports
run_setup o w q =
    if ltb (length q.password) 6
    then (w, failure 400)
    else if is_nil q.domain
    then (w, failure 400)
    else let r = set_config w.state (first_config o q) in
      let w1 = record w { state = r.0 } in
      if r.1 then setup_ports o w1 q w1.ports else (w1, failure 500)

-- handleSetup
unfoldable pub handle_setup : Outside → Site → Request → Site × Response
unfolding installed_now read_setup run_setup
handle_setup o w r =
    if installed_now w.state
    then (w, failure 409)
    else elim (read_setup r.body) [ none ↦ (w, failure 400) | some q ↦ run_setup o w q ]
