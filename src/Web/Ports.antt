-- ===== src/Web/Ports.antt =====
-- The port manager of internal/web/ports.go. An address is its host and its port; whether a bind
-- succeeds is told by a parameter, which counts the attempts.
use cloudpost.Prelude.{
  Bool, List, Option, [], if◌then◌else◌, is_nil, keep, none, not, some, ℕ, ◌&&◌, ◌+◌, ◌==◌, ◌||◌,
  ◌∷◌,
}
use cloudpost.Text.{Text, codes, eqb}

pub record Address : Type 0 where
  pub host : Text
  pub port : ℕ

unfoldable pub same_address : Address → Address → Bool
unfolding eqb
same_address a b = eqb a.host b.host && a.port == b.port

-- A protocol server: wired, and the address that it serves, if it is up.
pub record Service : Type 0 where
  pub wired : Bool
  pub serving : Option Address

-- The attempt and the address.
abbrev pub Binds : Type 0
Binds = ℕ → Address → Bool

pub record PortManager : Type 0 where
  pub tries : ℕ
  pub smtp : Service
  pub pop3 : Service
  pub imap : Service
  pub smtp_addr : Option Address
  pub pop3_addr : Option Address
  pub imap_addr : Option Address
  pub web : Option Address
  pub prev_web : Option Address
  pub listening : List Address

pub data PortError : Type 0 where
  not_wired cannot_bind reverted rebind_failed : PortError

-- What a rebind leaves: the attempts, the service, the address to track, and the error.
pub record Rebound : Type 0 where
  pub tries : ℕ
  pub service : Service
  pub address : Address
  pub error : Option PortError

abbrev up : Service → Address → Service
up srv a = record srv { serving = some a }

abbrev down : Service → Service
down srv = record srv { serving = none }

-- Listen on the new address failed: back to the old one if it can be bound.
unfoldable pub fall_back : Binds → ℕ → Service → Address → Rebound
fall_back binds k srv old =
    if binds k old
    then record {
      tries = k + 2;
      service = if binds (k + 1) old then up srv old else down srv;
      address = old;
      error = some reverted;
    }
    else record { tries = k + 1; service = down srv; address = old; error = some rebind_failed }

-- The probe comes before the old listener is closed.
unfoldable pub rebind : Binds → ℕ → Service → Address → Address → Rebound
unfolding same_address fall_back
rebind binds k srv old new =
    if same_address new old
    then record { tries = k; service = srv; address = old; error = none }
    else if not srv.wired
    then record { tries = k; service = srv; address = old; error = some not_wired }
    else if not (binds k new)
    then record { tries = k + 1; service = srv; address = old; error = some cannot_bind }
    else if binds (k + 1) new
    then record { tries = k + 2; service = up srv new; address = new; error = none }
    else fall_back binds (k + 2) srv old

-- net.JoinHostPort(hostOf(old), port)
abbrev pub with_port : Address → ℕ → Address
with_port a p = record { host = if is_nil a.host then codes "0.0.0.0" else a.host; port = p }

-- One round of ApplyProtocolPorts; port 0, a missing server and an untracked address are passed by.
unfoldable pub apply_port : Binds → ℕ → Service → Option Address → ℕ → Option Rebound
unfolding rebind
apply_port binds k srv none want = none
apply_port binds k srv (some old) want =
    if not srv.wired || want == 0 then none else some (rebind binds k srv old (with_port old want))

abbrev pub tries_after : ℕ → Option Rebound → ℕ
tries_after k none = k
tries_after k (some r) = r.tries

abbrev pub service_after : Service → Option Rebound → Service
service_after srv none = srv
service_after srv (some r) = r.service

abbrev pub address_after : Option Address → Option Rebound → Option Address
address_after a none = a
address_after a (some r) = some r.address

abbrev pub errors_of : Option Rebound → List PortError
errors_of none = []
errors_of (some r) = elim r.error [ none ↦ [] | some e ↦ e ∷ [] ]

-- The new manager and the errors of each of the three services.
pub record Applied : Type 0 where
  pub manager : PortManager
  pub smtp_errors : List PortError
  pub pop3_errors : List PortError
  pub imap_errors : List PortError

unfoldable pub apply_protocol_ports : Binds → PortManager → ℕ → ℕ → ℕ → Applied
unfolding apply_port
apply_protocol_ports binds pm smtp_port pop3_port imap_port =
    let r1 = apply_port binds pm.tries pm.smtp pm.smtp_addr smtp_port in
    let k1 = tries_after pm.tries r1 in
    let r2 = apply_port binds k1 pm.pop3 pm.pop3_addr pop3_port in
    let k2 = tries_after k1 r2 in
    let r3 = apply_port binds k2 pm.imap pm.imap_addr imap_port in
    record {
      manager = record pm {
        tries = tries_after k2 r3;
        smtp = service_after pm.smtp r1;
        pop3 = service_after pm.pop3 r2;
        imap = service_after pm.imap r3;
        smtp_addr = address_after pm.smtp_addr r1;
        pop3_addr = address_after pm.pop3_addr r2;
        imap_addr = address_after pm.imap_addr r3;
      };
      smtp_errors = errors_of r1;
      pop3_errors = errors_of r2;
      imap_errors = errors_of r3;
    }

-- A new web listener beside the old one; none is an error.
unfoldable pub bind_new_web_listener : Binds → PortManager → ℕ → PortManager × Option Address
bind_new_web_listener binds pm p = elim pm.web [
  | none ↦ (pm, none)
  | some cur ↦
      if p == cur.port
      then (pm, some cur)
      else if binds pm.tries (with_port cur p)
      then (
        record pm {
          tries = pm.tries + 1;
          web = some (with_port cur p);
          prev_web = some cur;
          listening = with_port cur p ∷ pm.listening;
        },
        some (with_port cur p),
      )
      else (record pm { tries = pm.tries + 1 }, none)
]

-- Closes the listener that was replaced; nothing when there is none.
unfoldable pub close_previous_web_listener : PortManager → PortManager
unfolding same_address
close_previous_web_listener pm = elim pm.prev_web [
  | none ↦ pm
  | some a ↦ record pm {
    prev_web = none;
    listening = keep (λ b. not (same_address a b)) pm.listening;
  }
]

abbrev port_of : Option Address → ℕ
port_of none = 0
port_of (some a) = a.port

unfoldable pub current_ports : PortManager → ℕ × ℕ × ℕ × ℕ
current_ports pm =
    (port_of pm.web, port_of pm.smtp_addr, port_of pm.pop3_addr, port_of pm.imap_addr)
