-- ===== src/Engine/FirstMatch.antt =====
-- Which rule is applied.
use cloudpost.Prelude.{
  Bool-cases, List, Option, [], find_first, inl, inr, none, refl, some, ℕ, ◌∷◌, ◌≡◌,
}
use cloudpost.Engine.Rules.{Mail, act, apply, apply_rules, haystack, hits, matches}
use cloudpost.Mailstore.Filters.{list_filters}
use cloudpost.Mailstore.Schema.{External, Filter, Store}

abbrev pub act_of : External → Store → ℕ → ℕ → Option Filter → Store
act_of ext s account id none = s
act_of ext s account id (some f) = act ext s account id f

apply_rules-first :
    (ext : External) (s : Store) (account id : ℕ) (m : Mail) (fs : List Filter)
    → apply_rules ext s account id m fs ≡ act_of ext s account id (find_first (hits ext m) fs)
unfolding apply_rules hits
apply_rules-first ext s account id m [] = refl
apply_rules-first ext s account id m (f ∷ fs) = elim (Bool-cases f.enabled) [
  | inr e ↦ rw e (apply_rules-first ext s account id m fs)
  | inl e ↦ elim (Bool-cases (matches ext f.cond_op f.cond_value (haystack f.cond_field m))) [
    | inl h ↦ rw (e, h) refl
    | inr h ↦ rw (e, h) (apply_rules-first ext s account id m fs)
  ]
]

-- Apply performs the action of the first enabled rule of the account, in order of position, whose
-- condition holds, and of no other; with none, the store stays as it is.
pub apply-first :
    (ext : External) (s : Store) (account id : ℕ) (m : Mail)
    → apply ext s account id m
      ≡ act_of ext s account id (find_first (hits ext m) (list_filters s account))
unfolding apply
apply-first ext s account id m = apply_rules-first ext s account id m (list_filters s account)
