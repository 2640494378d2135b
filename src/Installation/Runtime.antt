-- ===== src/Installation/Runtime.antt =====
-- The process-wide state of internal/state/state.go: the configuration and its file, and the admin
-- sessions. A token is the number of the draw that gave it, so no token comes up twice; the file
-- holds a configuration, something that is no JSON, or is not there.
use cloudpost.Prelude.{
  Bool, List, Option, [], false, find_first, if◌then◌else◌, is_nil, keep, ltb, none, not, some,
  true, ℕ, ◌&&◌, ◌+◌, ◌==◌, ◌∷◌,
}
use cloudpost.Text.{Text}
use cloudpost.Installation.Config.{Config}

pub data ConfigFile : Type 0 where
  absent corrupt : ConfigFile
  written : Config → ConfigFile

pub record Session : Type 0 where
  pub token : ℕ
  pub created : ℕ
  pub expires : ℕ

-- `path_fails` is a directory in which no file can be written or removed.
pub record State : Type 0 where
  pub cfg : Option Config
  pub file : ConfigFile
  pub path_fails : Bool
  pub sessions : List Session
  pub next_token : ℕ
  pub clock : ℕ

abbrev pub healed : Config → Config
healed cfg =
    if cfg.installed && is_nil cfg.admin_hash then record cfg { installed = false } else cfg

abbrev pub read_config : ConfigFile → Option Config → Option Config
read_config absent old = old
read_config corrupt old = old
read_config (written cfg) old = some (healed cfg)

-- Reads config.json; an installed configuration without an admin hash goes back to the wizard.
unfoldable pub load : State → State
load st = record st { cfg = read_config st.file st.cfg }

abbrev pub save_config : State → Option Config → State × Bool
save_config st none = (st, true)
save_config st (some cfg) =
    if st.path_fails then (st, false) else (record st { file = written cfg }, true)

-- Save: nothing to do before the installation; false is an error.
unfoldable pub save : State → State × Bool
save st = save_config st st.cfg

unfoldable pub set_config : State → Config → State × Bool
unfolding save
set_config st cfg = save (record st { cfg = some cfg })

abbrev pub is_installed : Option Config → Bool
is_installed none = false
is_installed (some cfg) = cfg.installed

unfoldable pub installed_now : State → Bool
installed_now st = is_installed st.cfg

abbrev pub issued : State → ℕ → Session
issued st ttl = record { token = st.next_token; created = st.clock; expires = st.clock + ttl }

-- A new token and its session.
unfoldable pub new_session : State → ℕ → State × Session
new_session st ttl = (
  record st { sessions = issued st ttl ∷ st.sessions; next_token = st.next_token + 1 },
  issued st ttl,
)

abbrev pub without : ℕ → List Session → List Session
without token = keep (λ s. not (s.token == token))

unfoldable pub drop_session : State → ℕ → State
drop_session st token = record st { sessions = without token st.sessions }

abbrev pub checked : State → ℕ → Option Session → State × Option Session
checked st token none = (st, none)
checked st token (some sess) =
    if ltb sess.expires st.clock then (drop_session st token, none) else (st, some sess)

-- The session of a token; one that has expired is dropped.
unfoldable pub valid_session : State → ℕ → State × Option Session
unfolding drop_session
valid_session st token = checked st token (find_first (λ s. s.token == token) st.sessions)

abbrev pub with_hash : State → Text → Option Config → State × Bool
with_hash st hash none = (st, false)
with_hash st hash (some cfg) = save (record st { cfg = some (record cfg { admin_hash = hash }) })

unfoldable pub set_admin_hash : State → Text → State × Bool
unfolding save
set_admin_hash st hash = with_hash st hash st.cfg

unfoldable pub drop_all_sessions : State → State
drop_all_sessions st = record st { sessions = [] }

abbrev pub removed : State → ConfigFile → State × Bool
removed st absent = (st, true)
removed st other = if st.path_fails then (st, false) else (record st { file = absent }, true)

-- Back to the state before the installation.
unfoldable pub factory_reset : State → State × Bool
factory_reset st = let reset = record st { cfg = none; sessions = [] } in removed reset reset.file

-- A new process on the same directory: the sessions are gone.
unfoldable pub restart : State → State
unfolding load
restart st = load (record st { cfg = none; sessions = [] })
