-- ===== src/Web/Mime.antt =====
-- The header words, the base64 lines and the recipients of internal/web/mime.go.
use cloudpost.Prelude.{
  Bool, List, [], all, drop, false, if◌then◌else◌, is_nil, keep, leb, length, ltb, map, none, some,
  suc, take, zero, ℕ, ◌&&◌, ◌++◌, ◌+◌, ◌==◌, ◌||◌, ◌∷◌,
}
use cloudpost.Text.{
  Text, codes, contains, has_prefix, has_suffix, in_set, last_index_byte, lower, split, trim_space,
}
use cloudpost.Web.Http.{Outside}

unfoldable pub is_ascii : Text → Bool
is_ascii = all (λ c. leb c 127)

unfoldable pub mime_word_encode : Outside → Text → Text
unfolding is_ascii
mime_word_encode o s =
    if is_nil s || is_ascii s then s else codes "=?utf-8?B?" ++ (o.b64_encode s ++ codes "?=")

abbrev pub crlf : Text
crlf = 13 ∷ 10 ∷ []

-- The loop of b64Wrap over the encoded text: each round writes 76 bytes, so a round for each byte
-- is enough.
unfoldable pub wrap_lines : ℕ → Text → Text
wrap_lines zero enc = enc ++ crlf
wrap_lines (suc rounds) enc =
    let rest = wrap_lines rounds (drop 76 enc) in
    if ltb 76 (length enc) then take 76 enc ++ (crlf ++ rest) else enc ++ crlf

unfoldable pub b64_wrap : Outside → Text → Text
unfolding wrap_lines
b64_wrap o s = let enc = o.b64_encode s in wrap_lines (length enc) enc

abbrev pub is_alphanumeric : ℕ → Bool
is_alphanumeric c =
    (leb b'a' c && leb c b'z') || ((leb b'A' c && leb c b'Z') || (leb b'0' c && leb c b'9'))

unfoldable pub ok_chars : Text → Text → Bool
ok_chars s extra = all (λ c. is_alphanumeric c || in_set extra c) s

unfoldable pub valid_parts : Text → Text → Bool
unfolding ok_chars contains has_prefix has_suffix
valid_parts name_part domain =
    if contains domain (codes "..")
      || (has_prefix domain (codes ".") || has_suffix domain (codes "."))
    then false
    else ok_chars name_part (codes "._%+=-") && ok_chars domain (codes ".-")

unfoldable pub valid_addr : Text → Bool
unfolding last_index_byte valid_parts
valid_addr a = elim (last_index_byte b'@' a) [
  | none ↦ false
  | some i ↦ if i == 0 || i + 1 == length a then false else valid_parts (take i a) (drop (i + 1) a)
]

abbrev pub tidy : Text → Text
tidy x = lower (trim_space x)

unfoldable pub is_recipient : Text → Bool
unfolding contains valid_addr
is_recipient x = contains x (codes "@") && valid_addr x

-- parseRcpts
unfoldable pub parse_rcpts : List Text → List Text
unfolding is_recipient split lower trim_space
parse_rcpts [] = []
parse_rcpts (p ∷ ps) = keep is_recipient (map tidy (split b',' p)) ++ parse_rcpts ps
