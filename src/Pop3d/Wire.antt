-- ===== src/Pop3d/Wire.antt =====
-- The lines and the dot-stuffed blocks of internal/pop3d/pop3.go.
use cloudpost.Prelude.{
  Bool, List, Option, [], drop, false, if◌then◌else◌, is_nil, length, min, none, some, take, ℕ,
  ◌++◌, ◌+◌, ◌==◌, ◌>>=◌, ◌||◌, ◌∷◌,
}
use cloudpost.Text.{
  Text, after_byte, before_byte, has_suffix, index, join, replace_crlf, split, trim_right,
  trim_space, trim_suffix,
}

abbrev pub crlf : Text
crlf = 13 ∷ 10 ∷ []

-- The cut set of strings.TrimRight(line, "\r\n")
abbrev pub is_crlf : ℕ → Bool
is_crlf c = c == 13 || c == 10

unfoldable pub write_line : Text → Text
unfolding has_suffix
write_line s = if has_suffix s crlf then s else s ++ crlf

-- ReadString('\n'): the first line with its end, and the rest of the input.
unfoldable pub cut_line : Text → Option (Text × Text)
cut_line [] = none
cut_line (c ∷ s) =
    let later = cut_line s in
    if c == 10 then some (c ∷ [], s) else later >>= λ p. some (c ∷ p.0, p.1)

unfoldable pub read_line : Text → Option (Text × Text)
unfolding cut_line trim_right
read_line input = cut_line input >>= λ p. some (trim_right is_crlf p.0, p.1)

-- The command word and its argument.
unfoldable pub split_cmd : Text → Text × Text
unfolding before_byte after_byte trim_space
split_cmd line = (before_byte b' ' line, trim_space (after_byte b' ' line))

abbrev pub ends_lf : Text → Bool
ends_lf [] = false
ends_lf (c ∷ []) = c == 10
ends_lf (c ∷ d ∷ s) = ends_lf (d ∷ s)

-- A text that is not empty ends with a line feed.
abbrev pub ended : Text → Text
ended raw = if is_nil raw || ends_lf raw then raw else raw ++ 10 ∷ []

abbrev pub dotted : Text → Text
dotted [] = []
dotted (c ∷ s) = if c == 46 then 46 ∷ c ∷ s else c ∷ s

abbrev pub stuffed : Text → Text
stuffed line = dotted (trim_suffix 13 line) ++ crlf

unfoldable pub stuff_all : List Text → Text
unfolding trim_suffix
stuff_all [] = []
stuff_all (line ∷ lines) = stuffed line ++ stuff_all lines

-- The block of a text: a dot is put before a line that begins with one, and a lone dot ends it.
unfoldable pub write_data : Text → Text
unfolding stuff_all split
write_data raw = stuff_all (split 10 (ended raw)) ++ 46 ∷ crlf

-- The place behind the blank line that ends the header.
abbrev header_end : Text → Option ℕ
header_end text = elim (index text (crlf ++ crlf)) [
  | some n ↦ some (n + 4)
  | none ↦ index text (10 ∷ 10 ∷ []) >>= λ n. some (n + 2)
]

abbrev first_lines : ℕ → Text → Text
first_lines k body =
    join crlf (take k (split 10 (replace_crlf body))) ++ (if k == 0 then [] else crlf)

-- The header and the first lines of the body; a text with no blank line goes whole.
unfoldable pub write_top : Text → ℕ → Text
unfolding index join split replace_crlf write_data
write_top raw k = elim (header_end raw) [
  | none ↦ write_data raw
  | some n ↦ write_data (
      take n raw
      ++ first_lines (min k (length (split 10 (replace_crlf (drop n raw))))) (drop n raw))
]
