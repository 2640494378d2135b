-- ===== src/Mailstore/FlagSets.antt =====
-- Flag lists as sets: merging is union, removing is difference, and a merged list is sorted.
use cloudpost.Prelude.{
  Bool, Bool-cases, IsSortedBy, List, [], ap, arith, false, inl, inr, insert_by, not, refl, sort_by,
  sort_by-IsSortedBy, true, ◌&&◌, ◌||◌, ◌∙◌, ◌∷◌, ◌≡◌,
}
use cloudpost.Text.{Text, eqb, eqb_iff, lex_leb}
use cloudpost.Mailstore.Flags.{add_once, has_text, merge_flags, remove_flag, remove_flags}

has_text-insert_by :
    (b : Text → Text → Bool) (f g : Text) (xs : List Text)
    → has_text f (insert_by b g xs) ≡ (eqb f g || has_text f xs)
unfolding has_text insert_by
has_text-insert_by b f g [] = refl
has_text-insert_by b f g (x ∷ xs) = ground (arith, has_text-insert_by b f g xs)

has_text-sort_by :
    (b : Text → Text → Bool) (f : Text) (xs : List Text) → has_text f (sort_by b xs) ≡ has_text f xs
unfolding has_text sort_by
has_text-sort_by b f [] = refl
has_text-sort_by b f (x ∷ xs) =
    ground (arith, has_text-insert_by b f x (sort_by b xs), has_text-sort_by b f xs)

has_text-add_once :
    (f : Text) (kept fs : List Text)
    → has_text f (add_once kept fs) ≡ (has_text f kept || has_text f fs)
unfolding has_text add_once
has_text-add_once f kept [] = ground arith
has_text-add_once f kept (g ∷ fs) = elim (Bool-cases (has_text g kept)) [
  | inl old ↦ rw old (has_text-add_once f kept fs ∙ ground (arith, eqb_iff f g, old))
  | inr new ↦ rw new (has_text-add_once f (g ∷ kept) fs ∙ ground arith)
]

-- A flag is in a merged list exactly when it is in one of the two.
pub has_text-merge_flags :
    (f : Text) (cur flags : List Text)
    → has_text f (merge_flags cur flags) ≡ (has_text f cur || has_text f flags)
unfolding merge_flags
has_text-merge_flags f cur flags =
    has_text-sort_by lex_leb f _
    ∙ has_text-add_once f (add_once [] cur) flags
    ∙ ap (λ b. b || has_text f flags) (has_text-add_once f [] cur ∙ unfold has_text in refl)

has_text-remove_flag :
    (f g : Text) (cur : List Text)
    → has_text f (remove_flag cur g) ≡ (has_text f cur && not (eqb f g))
unfolding has_text remove_flag
has_text-remove_flag f g [] = refl
has_text-remove_flag f g (x ∷ xs) =
    ground (arith, has_text-remove_flag f g xs, eqb_iff f x, eqb_iff x g, eqb_iff f g)

-- A flag is left by a removal exactly when it was there and is none of those removed.
pub has_text-remove_flags :
    (f : Text) (cur flags : List Text)
    → has_text f (remove_flags cur flags) ≡ (has_text f cur && not (has_text f flags))
unfolding remove_flags
has_text-remove_flags f cur [] = unfold has_text in ground arith
has_text-remove_flags f cur (g ∷ fs) =
    has_text-remove_flags f (remove_flag cur g) fs
    ∙ unfold has_text in ground (arith, has_text-remove_flag f g cur)

lex_leb-total : (s t : Text) → lex_leb s t ≡ false → lex_leb t s ≡ true
unfolding lex_leb
lex_leb-total [] t h = cc
lex_leb-total (a ∷ s) [] h = refl
lex_leb-total (a ∷ s) (b ∷ t) h = ground (arith, lex_leb-total s t)

lex_leb_trans : (s t u : Text) → lex_leb s t ≡ true → lex_leb t u ≡ true → lex_leb s u ≡ true
unfolding lex_leb
lex_leb_trans [] t u h k = refl
lex_leb_trans (a ∷ s) [] u h k = cc
lex_leb_trans (a ∷ s) (b ∷ t) [] h k = cc
lex_leb_trans (a ∷ s) (b ∷ t) (c ∷ u) h k = ground (arith, lex_leb_trans s t u)

-- A merged list is in the order of sort.Strings.
pub merge_flags-IsSortedBy : (cur flags : List Text) → IsSortedBy lex_leb (merge_flags cur flags)
unfolding merge_flags
merge_flags-IsSortedBy cur flags =
    sort_by-IsSortedBy lex_leb lex_leb-total lex_leb_trans (add_once (add_once [] cur) flags)
