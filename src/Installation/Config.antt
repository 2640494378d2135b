-- ===== src/Installation/Config.antt =====
-- The configuration record of internal/state/state.go.
use cloudpost.Prelude.{Bool, List, ℕ}
use cloudpost.Text.{Text, ℤ}

pub record RelayRoute : Type 0 where
  pub domain : Text
  pub host : Text
  pub port : ℤ
  pub user : Text
  pub pass : Text

pub record Config : Type 0 where
  pub installed : Bool
  pub primary_domain : Text
  pub hostname : Text
  pub admin_hash : Text
  pub smtp_port : ℕ
  pub smtp_ssl_port : ℕ
  pub pop3_port : ℕ
  pub pop3_ssl_port : ℕ
  pub imap_port : ℕ
  pub imap_ssl_port : ℕ
  pub web_port : ℕ
  pub relay_host : Text
  pub relay_port : ℤ
  pub relay_user : Text
  pub relay_pass : Text
  pub relay_routes : List RelayRoute
  pub dkim_enabled : Bool
  pub dkim_selector : Text
  pub dkim_key_pem : Text
