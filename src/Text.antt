-- ===== src/Text.antt =====
-- The parts of Go's `strings`, `bytes` and `strconv` packages that the program calls, over byte
-- lists. Case mapping, white space and character sets are those of ASCII: a byte above 127 is
-- left as it is, so texts with other letters are compared without case folding.
mod Bytes
mod Parts
mod Number
unfoldable pub use Bytes.{
  Text, codes, eqb, to_lower, to_upper, lower, upper, equal_fold, is_space, trim_left, trim_right,
  trim, trim_space, trim_suffix, has_prefix, has_suffix, contains, index, index_byte,
  last_index_byte, in_set, lex_leb,
}
pub use Bytes.{eqb_iff, eqb_refl}
unfoldable pub use Parts.{split, join, fields, before_byte, after_byte, replace_crlf}
pub use Parts.{onto_head}
pub use Number.{ℤ, pos, negsuc}
unfoldable pub use Number.{decimal, atoi, digits_value}
