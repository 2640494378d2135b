-- ===== src/Mailstore/LikeFlags.antt =====
-- The LIKE test finds each flag that a column was joined from.
use cloudpost.Prelude.{
  ==_refl, Bool-cases, List, Option-cases, [], ap, append-nil, false, inl, inr, refl, subst, sym,
  true, ℕ, ◌++◌, ◌∙◌, ◌∷◌, ◌≡◌,
}
use cloudpost.Text.{Text, codes, contains, eqb, eqb_iff, has_prefix, index, lower, to_lower}
use cloudpost.Mailstore.Flags.{has_text, join_flags, like}

has_prefix-append : (t q : Text) → has_prefix (t ++ q) t ≡ true
unfolding has_prefix
has_prefix-append [] q = refl
has_prefix-append (c ∷ t) q = rw (==_refl c, has_prefix-append t q) refl

prefix_found : (s t : Text) → has_prefix s t ≡ true → contains s t ≡ true
unfolding contains index has_prefix
prefix_found [] [] h = refl
prefix_found [] (c ∷ t) h = cc
prefix_found (a ∷ s) t h = rw h refl

found_behind : (c : ℕ) (s t : Text) → contains s t ≡ true → contains (c ∷ s) t ≡ true
unfolding contains index
found_behind c s t h = elim (Bool-cases (has_prefix (c ∷ s) t)) [
  | inl e ↦ rw e refl
  | inr e ↦ elim (Option-cases (index s t)) [
    | inl n ↦ absurd (missing (rw n at h))
    | inr (k, n) ↦ rw (e, n) refl
  ]
]
  where
    missing : false ≡ true → ⊥
    missing q = cc

contains-append_left : (p s t : Text) → contains s t ≡ true → contains (p ++ s) t ≡ true
contains-append_left [] s t h = h
contains-append_left (c ∷ p) s t h = found_behind c (p ++ s) t (contains-append_left p s t h)

lower-append : (s t : Text) → lower (s ++ t) ≡ lower s ++ lower t
unfolding lower
lower-append [] t = refl
lower-append (c ∷ s) t = ap (◌∷◌ (to_lower c)) (lower-append s t)

like-append_left : (f p s : Text) → like f s ≡ true → like f (p ++ s) ≡ true
unfolding like
like-append_left f p s h =
    subst (λ x. contains x (lower f) ≡ true) (sym (lower-append p s))
      (contains-append_left (lower p) (lower s) (lower f) h)

like-here : (f q : Text) → like f (f ++ q) ≡ true
unfolding like
like-here f q =
    subst (λ x. contains x (lower f) ≡ true) (sym (lower-append f q))
      (prefix_found (lower f ++ lower q) (lower f) (has_prefix-append (lower f) (lower q)))

pub like-join_flags :
    (f : Text) (fs : List Text) → has_text f fs ≡ true → like f (join_flags fs) ≡ true
unfolding join_flags has_text
like-join_flags f [] h = cc
like-join_flags f (g ∷ []) h = elim (Bool-cases (eqb f g)) [
  | inl e ↦ subst (λ x. like f x ≡ true) (append-nil f ∙ (eqb_iff f g).0 e) (like-here f [])
  | inr e ↦ absurd (missing (rw e at h))
]
  where
    missing : false ≡ true → ⊥
    missing q = cc
like-join_flags f (g ∷ k ∷ fs) h = elim (Bool-cases (eqb f g)) [
  | inl e ↦
      subst (λ x. like f (x ++ (codes " " ++ join_flags (k ∷ fs))) ≡ true) ((eqb_iff f g).0 e)
        (like-here f (codes " " ++ join_flags (k ∷ fs)))
  | inr e ↦ like-append_left f g (codes " " ++ join_flags (k ∷ fs)) (
      like-append_left f (codes " ") (join_flags (k ∷ fs)) (like-join_flags f (k ∷ fs) (rw e at h)))
]
