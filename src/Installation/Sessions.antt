-- ===== src/Installation/Sessions.antt =====
-- How long an admin session is good.
use cloudpost.Prelude.{
  Bool-cases, List, Option, [], ap, arith, false, find_first, if◌then◌else◌, inl, inr, is_nil, leb,
  none, refl, some, true, ℕ, ◌+◌, ◌==◌, ◌∷◌, ◌≡◌, ◌≢◌,
}
use cloudpost.Installation.Config.{Config}
use cloudpost.Installation.Runtime.{
  ConfigFile, Session, State, absent, checked, corrupt, drop_session, factory_reset, healed,
  installed_now, is_installed, load, new_session, read_config, removed, restart, save, set_config,
  valid_session, without, written,
}

abbrev pub at_later : State → ℕ → State
at_later st d = record st { clock = st.clock + d }

-- A new session is found under its token for as many seconds as it was given, and never after.
valid_session-new_session :
    (st : State) (ttl d : ℕ)
    → let (st', sess) = new_session st ttl in
      (valid_session (at_later st' d) sess.token).1 ≡ (if leb d ttl then some sess else none)
unfolding new_session valid_session
valid_session-new_session st ttl d = ground arith

find-without_self :
    (token : ℕ) (xs : List Session) → find_first (λ s. s.token == token) (without token xs) ≡ none
find-without_self token [] = refl
find-without_self token (x ∷ xs) = ground (arith, find-without_self token xs)

find-without_other :
    (token other : ℕ) (xs : List Session)
    → other ≢ token
    → find_first (λ s. s.token == other) (without token xs) ≡ find_first (λ s. s.token == other) xs
find-without_other token other [] ne = refl
find-without_other token other (x ∷ xs) ne = ground (arith, find-without_other token other xs ne)

checked-same :
    (st st' : State) (token : ℕ) (o : Option Session)
    → st.clock ≡ st'.clock
    → (checked st token o).1 ≡ (checked st' token o).1
checked-same st st' token none e = refl
checked-same st st' token (some sess) e = ground arith

-- After DropSession the token is refused, and any other token is answered as before.
valid_session-drop_session :
    (st : State) (token other : ℕ)
    → other ≢ token
    → ((valid_session (drop_session st token) token).1 ≡ none)
      × ((valid_session (drop_session st token) other).1 ≡ (valid_session st other).1)
unfolding valid_session drop_session
valid_session-drop_session st token other ne = (
  rw (find-without_self token st.sessions) refl,
  rw (find-without_other token other st.sessions ne)
      (checked-same _ st other (find_first (λ s. s.token == other) st.sessions) refl),
)

healed-hash :
    (cfg : Config) → (healed cfg).installed ≡ true → is_nil (healed cfg).admin_hash ≡ false
healed-hash cfg h = ground arith

-- After a restart an instance that counts as installed has an admin hash, so that a login can
-- succeed, whatever the file holds.
restart_installed :
    (st : State)
    → installed_now (restart st) ≡ true
    → (cfg : Config) × ((restart st).cfg ≡ some cfg) × (is_nil cfg.admin_hash ≡ false)
unfolding installed_now restart load
restart_installed st h = go st.file h
  where
    go :
        (file : ConfigFile)
        → is_installed (read_config file none) ≡ true
        → (cfg : Config) × (read_config file none ≡ some cfg) × (is_nil cfg.admin_hash ≡ false)
    go absent q = cc
    go corrupt q = cc
    go (written cfg) q = (healed cfg, refl, healed-hash cfg q)

-- A configuration that was saved without an error is there after a restart, healed.
pub restart-set_config :
    (st : State) (cfg : Config)
    → (set_config st cfg).1 ≡ true
    → (restart (set_config st cfg).0).cfg ≡ some (healed cfg)
unfolding restart load set_config save
restart-set_config st cfg h = elim (Bool-cases st.path_fails) [
  | inl e ↦ absurd (failed (rw e at h))
  | inr e ↦ rw e refl
]
  where
    failed : false ≡ true → ⊥
    failed q = cc

reset_file :
    (st : State) (file : ConfigFile)
    → (removed st file).1 ≡ true
    → st.file ≡ file
    → (removed st file).0.file ≡ absent
reset_file st absent h e = e
reset_file st corrupt h e = ground arith
reset_file st (written cfg) h e = ground arith

reset_rest :
    (st : State) (file : ConfigFile)
    → ((removed st file).0.cfg ≡ st.cfg) × ((removed st file).0.sessions ≡ st.sessions)
reset_rest st absent = (refl, refl)
reset_rest st corrupt = ground arith
reset_rest st (written cfg) = ground arith

no_session : (st : State) (token : ℕ) → st.sessions ≡ [] → (valid_session st token).1 ≡ none
unfolding valid_session
no_session st token e = rw e refl

-- After FactoryReset no token is good and the instance is not installed; if it reported no error,
-- the instance is not installed after a restart either.
pub factory_reset_lem :
    (st : State) (token : ℕ)
    → (factory_reset st).1 ≡ true
    → ((valid_session (factory_reset st).0 token).1 ≡ none)
      × (installed_now (factory_reset st).0 ≡ false)
      × (installed_now (restart (factory_reset st).0) ≡ false)
unfolding factory_reset valid_session installed_now restart load
factory_reset_lem st token h =
    let reset = record st { cfg = none; sessions = [] } in
    (
      no_session (factory_reset st).0 token (reset_rest reset st.file).1,
      ap is_installed (reset_rest reset st.file).0,
      ap (λ f. is_installed (read_config f none)) (reset_file reset st.file h refl),
    )
