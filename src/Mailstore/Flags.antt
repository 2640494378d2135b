-- ===== src/Mailstore/Flags.antt =====
-- The flags helpers of internal/mailstore/store.go, and the `LIKE` test on the flags column.
use cloudpost.Prelude.{
  Bool, List, [], any, if◌then◌else◌, is_nil, keep, not, refl, sort_by, ◌∷◌, ◌≡◌,
}
use cloudpost.Text.{Text, codes, contains, eqb, fields, join, lex_leb, lower, trim_space}

abbrev pub seen_flag : Text
seen_flag = codes "\\Seen"

abbrev pub deleted_flag : Text
deleted_flag = codes "\\Deleted"

abbrev pub flagged_flag : Text
flagged_flag = codes "\\Flagged"

-- flags LIKE '%pattern%': SQLite compares ASCII letters without case.
unfoldable pub like : Text → Text → Bool
unfolding lower contains
like pattern flags = contains (lower flags) (lower pattern)

unfoldable pub split_flags : Text → List Text
unfolding trim_space fields sort_by lex_leb
split_flags s = if is_nil (trim_space s) then [] else sort_by lex_leb (fields s)

unfoldable pub join_flags : List Text → Text
unfolding join
join_flags = join (codes " ")

unfoldable pub has_text : Text → List Text → Bool
unfolding eqb
has_text f = any (λ g. eqb f g)

-- The keys of the map `set`, each once: a flag that is there is not put in again.
unfoldable pub add_once : List Text → List Text → List Text
unfolding has_text
add_once set [] = set
add_once set (f ∷ fs) = add_once (if has_text f set then set else f ∷ set) fs

unfoldable pub merge_flags : List Text → List Text → List Text
unfolding add_once sort_by lex_leb
merge_flags cur add = sort_by lex_leb (add_once (add_once [] cur) add)

unfoldable pub remove_flag : List Text → Text → List Text
unfolding eqb
remove_flag cur flag = keep (λ f. not (eqb f flag)) cur

unfoldable pub remove_flags : List Text → List Text → List Text
unfolding remove_flag
remove_flags cur [] = cur
remove_flags cur (f ∷ fs) = remove_flags (remove_flag cur f) fs

-- The `mode` of SetFlags; any other text leaves the flags as they were read.
pub data FlagMode : Type 0 where
  set add remove other_mode : FlagMode

unfoldable pub apply_mode : FlagMode → List Text → List Text → List Text
unfolding merge_flags remove_flags
apply_mode set cur flags = flags
apply_mode add cur flags = merge_flags cur flags
apply_mode remove cur flags = remove_flags cur flags
apply_mode other_mode cur flags = cur

flags_test :
    join_flags (merge_flags (split_flags (codes " \\Seen  \\Answered")) (deleted_flag ∷ []))
    ≡ codes "\\Answered \\Deleted \\Seen"
unfolding join_flags merge_flags split_flags
flags_test = refl
