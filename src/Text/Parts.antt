-- ===== src/Text/Parts.antt =====
-- Splitting and joining.
use cloudpost.Prelude.{ℕ, Bool, false, ◌&&◌, List, [], ◌∷◌, ◌++◌, ◌==◌, if◌then◌else◌, is_nil}
use cloudpost.Text.Bytes.{Text, is_space}

abbrev pub onto_head : ℕ → List Text → List Text
onto_head c [] = (c ∷ []) ∷ []
onto_head c (p ∷ ps) = (c ∷ p) ∷ ps

-- strings.Split by a text of one byte: never empty
unfoldable pub split : ℕ → Text → List Text
split b [] = [] ∷ []
split b (c ∷ s) = let rest = split b s in if c == b then [] ∷ rest else onto_head c rest

unfoldable pub join : Text → List Text → Text
join sep [] = []
join sep (p ∷ []) = p
join sep (p ∷ q ∷ ps) = p ++ (sep ++ join sep (q ∷ ps))

abbrev drop_empty : List Text → List Text
drop_empty [] = []
drop_empty (p ∷ ps) = let rest = drop_empty ps in if is_nil p then rest else p ∷ rest

split_space : Text → List Text
unfolding is_space
split_space [] = [] ∷ []
split_space (c ∷ s) = let rest = split_space s in if is_space c then [] ∷ rest else onto_head c rest

-- strings.Fields
unfoldable pub fields : Text → List Text
unfolding split_space
fields s = drop_empty (split_space s)

-- The text before the first byte `b` and the text behind it; all of it and nothing if there is none.
unfoldable pub before_byte : ℕ → Text → Text
before_byte b [] = []
before_byte b (c ∷ s) = let rest = before_byte b s in if c == b then [] else c ∷ rest

unfoldable pub after_byte : ℕ → Text → Text
after_byte b [] = []
after_byte b (c ∷ s) = let rest = after_byte b s in if c == b then s else rest

abbrev starts_lf : Text → Bool
starts_lf [] = false
starts_lf (c ∷ s) = c == 10

-- strings.ReplaceAll(s, "\r\n", "\n")
unfoldable pub replace_crlf : Text → Text
replace_crlf [] = []
replace_crlf (c ∷ s) =
    let rest = replace_crlf s in if c == 13 && starts_lf s then rest else c ∷ rest
