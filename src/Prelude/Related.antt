-- ===== src/Prelude/Related.antt =====
-- A relation that holds between each member of a list and all behind it, and what selection,
-- rewriting and appending do to it.
use mathlib.Core.Path.{◌≡◌}
use mathlib.Core.Logic.{inl, inr}
use mathlib.Core.Bool.{Bool, true, false}
use mathlib.Core.List.{List, [], ◌∷◌, ◌++◌}
use cloudpost.Prelude.Tests.{if◌then◌else◌, Bool-cases}
use cloudpost.Prelude.Lists.{All, All-keep, All-append, keep, update_where}

module _ {ℓ} {A : Type ℓ} (R : A → A → Type 0) where
  abbrev pub Pairs : List A → Type 0
  Pairs [] = Unit
  Pairs (x ∷ xs) = All (R x) xs × Pairs xs

module _ {ℓ} {A : Type ℓ} (R : A → A → Type 0) where
  pub Pairs-keep : (p : A → Bool) (xs : List A) → Pairs R xs → Pairs R (keep p xs)
  Pairs-keep p [] h = tt
  Pairs-keep p (x ∷ xs) h = elim (Bool-cases (p x)) [
    | inl e ↦ rw e (All-keep (R x) p xs h.0, Pairs-keep p xs h.1)
    | inr e ↦ rw e (Pairs-keep p xs h.1)
  ]

  pub Pairs-concat :
      (y : A) (xs : List A) → Pairs R xs → All (λ x. R x y) xs → Pairs R (xs ++ y ∷ [])
  Pairs-concat y [] h hy = (tt, tt)
  Pairs-concat y (x ∷ xs) h hy =
      (All-append (R x) xs (y ∷ []) h.0 (hy.0, tt), Pairs-concat y xs h.1 hy.1)

module _ {ℓ κ} {A : Type ℓ} {P Q : A → Type κ} (p : A → Bool) (f : A → A) where
  pub All-update_where :
      ((x : A) → P x → p x ≡ true → Q (f x))
      → ((x : A) → P x → p x ≡ false → Q x)
      → (xs : List A) → All P xs
      → All Q (update_where p f xs)
  All-update_where hit miss [] h = tt
  All-update_where hit miss (x ∷ xs) h = elim (Bool-cases (p x)) [
    | inl e ↦ rw e (hit x h.0 e, All-update_where hit miss xs h.1)
    | inr e ↦ rw e (miss x h.0 e, All-update_where hit miss xs h.1)
  ]

module _ {ℓ} {A : Type ℓ} (P : A → Type 0) (R : A → A → Type 0) (p : A → Bool) (f : A → A) where
  -- What a rewritten member is.
  abbrev pub updated : A → A
  updated x = if p x then f x else x

  All-updated :
      (g : (x y : A) → P x → P y → R x y → R (updated x) (updated y)) (x : A) (xs : List A)
      → P x
      → All P xs
      → All (R x) xs
      → All (R (updated x)) (update_where p f xs)
  All-updated g x [] px ps h = tt
  All-updated g x (y ∷ ys) px ps h = (g x y px ps.0 h.0, All-updated g x ys px ps.1 h.1)

  pub Pairs-update_where :
      ((x y : A) → P x → P y → R x y → R (updated x) (updated y))
      → (xs : List A) → All P xs
      → Pairs R xs
      → Pairs R (update_where p f xs)
  Pairs-update_where g [] ps h = tt
  Pairs-update_where g (x ∷ xs) ps h =
      (All-updated g x xs ps.0 ps.1 h.0, Pairs-update_where g xs ps.1 h.1)

-- A conjunction over a list, and a fact that holds of everything.
module _ {ℓ κ μ} {A : Type ℓ} (P : A → Type κ) (Q : A → Type μ) where
  pub All-zip : (xs : List A) → All P xs → All Q xs → All (λ x. P x × Q x) xs
  All-zip [] h k = tt
  All-zip (x ∷ xs) h k = ((h.0, k.0), All-zip xs h.1 k.1)

module _ {ℓ κ} {A : Type ℓ} {P : A → Type κ} where
  pub All-forall : ((x : A) → P x) → (xs : List A) → All P xs
  All-forall f [] = tt
  All-forall f (x ∷ xs) = (f x, All-forall f xs)
