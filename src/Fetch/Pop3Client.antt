-- ===== src/Fetch/Pop3Client.antt =====
-- The reader of internal/fetch/pop3_client.go, over the bytes that the server sent. An input that
-- ends too early is the read error.
use cloudpost.Prelude.{
  List, Option, [], drop, false, if◌then◌else◌, length, none, some, suc, true, zero, ℕ, ◌++◌, ◌>>=◌,
  ◌∷◌,
}
use cloudpost.Text.{Text, codes, eqb, has_prefix, join}
use cloudpost.Pop3d.Wire.{crlf, read_line}

abbrev pub lone_dot : Text
lone_dot = 46 ∷ []

-- A line that begins with two dots loses one.
abbrev pub unstuffed : Text → Text
unstuffed line = if has_prefix line (46 ∷ 46 ∷ []) then drop 1 line else line

-- The lines up to the lone dot, on fuel: each round reads a byte at least.
unfoldable pub read_lines : ℕ → Text → Option (List Text × Text)
unfolding read_line eqb has_prefix
read_lines zero input = none
read_lines (suc fuel) input = read_line input >>= λ p. elim (eqb p.0 lone_dot) [
  | true ↦ some ([], p.1)
  | false ↦ read_lines fuel p.1 >>= λ q. some (unstuffed p.0 ∷ q.0, q.1)
]

unfoldable pub read_multiline : Text → Option (List Text × Text)
unfolding read_lines
read_multiline input = read_lines (suc (length input)) input

-- The raw message that fetchPOP3 delivers.
unfoldable pub joined_lines : List Text → Text
unfolding join
joined_lines lines = join crlf lines ++ crlf

-- The status_error line of an answer to a command: nothing is the success.
unfoldable pub status_error : Text → Option Text
unfolding has_prefix
status_error line =
    if has_prefix line (codes "-ERR")
    then some (if has_prefix line (codes "-ERR ") then drop 5 line else line)
    else if has_prefix line (codes "+OK")
    then none
    else some (codes "unexpected: " ++ line)
