-- ===== src/Text/Bytes.antt =====
-- Comparison, case, trimming and searching.
use Prim.Native.Char.{code}
use Prim.Native.String.{String}
use cloudpost.Prelude.{
  ℕ, suc, ◌+◌, ◌-◌, ◌≡◌, refl, ◌↔◌, Bool, true, false, ◌&&◌, ◌||◌, Option, none, some, List, [],
  ◌∷◌, map, arith, leb, ltb, ◌==◌, if◌then◌else◌, any, is_nil, length, drop, ◌>>=◌, is_some,
}

abbrev pub Text : Type 0
Text = List ℕ

-- The bytes of a literal, which is ASCII wherever it is used.
abbrev pub codes : String → Text
codes String.[] = []
codes (String.◌∷◌ c s) = code c ∷ codes s

-- s == t
unfoldable pub eqb : Text → Text → Bool
eqb [] [] = true
eqb (a ∷ s) (b ∷ t) = a == b && eqb s t
eqb _ _ = false

pub eqb_iff : (s t : Text) → (eqb s t ≡ true) ↔ (s ≡ t)
unfolding eqb
eqb_iff (a ∷ s) (b ∷ t) = ground (arith, eqb_iff s t)
eqb_iff _ _ = ground arith

pub eqb_refl : (s : Text) → eqb s s ≡ true
eqb_refl s = (eqb_iff s s).1 refl

unfoldable pub to_lower : ℕ → ℕ
to_lower c = if leb b'A' c && leb c b'Z' then c + 32 else c

unfoldable pub to_upper : ℕ → ℕ
to_upper c = if leb b'a' c && leb c b'z' then c - 32 else c

-- strings.ToLower, strings.ToUpper, strings.EqualFold
unfoldable pub lower : Text → Text
unfolding to_lower
lower = map to_lower

unfoldable pub upper : Text → Text
unfolding to_upper
upper = map to_upper

unfoldable pub equal_fold : Text → Text → Bool
unfolding lower eqb
equal_fold s t = eqb (lower s) (lower t)

unfoldable pub is_space : ℕ → Bool
is_space c = c == 32 || (leb 9 c && leb c 13)

unfoldable pub trim_left : (ℕ → Bool) → Text → Text
trim_left p [] = []
trim_left p (c ∷ s) = let rest = trim_left p s in if p c then rest else c ∷ s

unfoldable pub trim_right : (ℕ → Bool) → Text → Text
trim_right p [] = []
trim_right p (c ∷ s) = let rest = trim_right p s in if is_nil rest && p c then [] else c ∷ rest

-- The cut set of strings.Trim, as a test.
abbrev pub in_set : Text → ℕ → Bool
in_set set c = any (λ d. c == d) set

unfoldable pub trim : (ℕ → Bool) → Text → Text
unfolding trim_left trim_right
trim p s = trim_right p (trim_left p s)

unfoldable pub trim_space : Text → Text
unfolding trim is_space
trim_space = trim is_space

-- strings.TrimSuffix by a text of one byte
unfoldable pub trim_suffix : ℕ → Text → Text
trim_suffix b [] = []
trim_suffix b (c ∷ []) = if c == b then [] else c ∷ []
trim_suffix b (c ∷ d ∷ s) = c ∷ trim_suffix b (d ∷ s)

unfoldable pub has_prefix : Text → Text → Bool
has_prefix s [] = true
has_prefix [] (b ∷ t) = false
has_prefix (a ∷ s) (b ∷ t) = a == b && has_prefix s t

unfoldable pub has_suffix : Text → Text → Bool
unfolding eqb
has_suffix s t = leb (length t) (length s) && eqb (drop (length s - length t) s) t

-- strings.Index: the first place at which `t` begins.
unfoldable pub index : Text → Text → Option ℕ
unfolding has_prefix
index [] t = if is_nil t then some 0 else none
index (a ∷ s) t =
    let later = index s t in if has_prefix (a ∷ s) t then some 0 else later >>= λ n. some (suc n)

unfoldable pub contains : Text → Text → Bool
unfolding index
contains s t = is_some (index s t)

unfoldable pub index_byte : ℕ → Text → Option ℕ
index_byte b [] = none
index_byte b (c ∷ s) =
    let later = index_byte b s in if c == b then some 0 else later >>= λ n. some (suc n)

unfoldable pub last_index_byte : ℕ → Text → Option ℕ
last_index_byte b [] = none
last_index_byte b (c ∷ s) = elim (last_index_byte b s) [
  | some n ↦ some (suc n)
  | none ↦ if c == b then some 0 else none
]

-- The order of sort.Strings: byte by byte.
unfoldable pub lex_leb : Text → Text → Bool
lex_leb [] t = true
lex_leb (a ∷ s) [] = false
lex_leb (a ∷ s) (b ∷ t) = let later = lex_leb s t in if a == b then later else ltb a b
