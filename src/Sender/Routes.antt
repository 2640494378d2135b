-- ===== src/Sender/Routes.antt =====
-- The choice of the next hop in internal/sender/sender.go.
use cloudpost.Prelude.{
  Bool, List, Option, [], drop, if◌then◌else◌, is_nil, none, not, some, ◌&&◌, ◌+◌, ◌||◌, ◌∷◌,
}
use cloudpost.Text.{Text, eqb, has_suffix, last_index_byte, lower, trim_space, trim_suffix}
use cloudpost.Installation.Config.{Config, RelayRoute}

-- The domain behind the last @, if there is one and something follows it.
unfoldable pub rcpt_host : Text → Text
unfolding last_index_byte
rcpt_host addr = elim (last_index_byte b'@' addr) [ none ↦ [] | some i ↦ drop (i + 1) addr ]

abbrev pub route_domain : RelayRoute → Text
route_domain r = lower (trim_space r.domain)

-- The domain itself or one below it; an empty domain matches nothing.
unfoldable pub route_matches : Text → RelayRoute → Bool
unfolding lower trim_space eqb has_suffix
route_matches domain r =
    not (is_nil (route_domain r))
    && (eqb domain (route_domain r) || has_suffix domain (b'.' ∷ route_domain r))

abbrev pub first_route : Text → List RelayRoute → Option RelayRoute
first_route domain [] = none
first_route domain (r ∷ rs) =
    let later = first_route domain rs in if route_matches domain r then some r else later

unfoldable pub resolve_route : Option Config → Text → Option RelayRoute
unfolding lower trim_suffix route_matches
resolve_route none domain = none
resolve_route (some cfg) domain = first_route (lower (trim_suffix b'.' domain)) cfg.relay_routes

-- How a message leaves: straight to the recipient's MX, or by a smarthost.
pub data Hop : Type 0 where
  direct : Hop
  via_relay : Config → Hop
  via_route : RelayRoute → Hop

abbrev pub global_hop : Option Config → Hop
global_hop none = direct
global_hop (some cfg) = if is_nil cfg.relay_host then direct else via_relay cfg

abbrev pub route_hop : Option Config → Option RelayRoute → Hop
route_hop cfg none = global_hop cfg
route_hop cfg (some r) = if is_nil r.host then direct else via_route r

unfoldable pub next_hop : Option Config → Text → Hop
unfolding resolve_route
next_hop cfg host = route_hop cfg (resolve_route cfg host)
