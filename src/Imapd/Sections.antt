-- ===== src/Imapd/Sections.antt =====
-- The parts of a raw message that FETCH returns: internal/imapd/fetch.go and the MIME cutter of
-- imap.go.
use cloudpost.Prelude.{
  Bool, List, Option, [], any, drop, false, get_elem?, if◌then◌else◌, is_nil, leb, length, none,
  not, reverse, some, suc, take, true, zero, ℕ, ◌&&◌, ◌++◌, ◌+◌, ◌==◌, ◌>>=◌, ◌∷◌,
}
use cloudpost.Text.{
  Text, after_byte, codes, eqb, equal_fold, fields, has_prefix, index, index_byte, join, lower,
  split, trim, trim_right, trim_space, trim_suffix,
}
use cloudpost.Web.Source.{line}

abbrev pub blank_crlf : Text
blank_crlf = 13 ∷ 10 ∷ 13 ∷ 10 ∷ []

abbrev pub blank_lf : Text
blank_lf = 10 ∷ 10 ∷ []

abbrev pub cut_lf : Text → Option ℕ → Text × Text
cut_lf raw (some n) = (take (n + 2) raw, drop (n + 2) raw)
cut_lf raw none = (raw, [])

abbrev pub cut_crlf : Text → Option ℕ → Text × Text
cut_crlf raw (some n) = (take (n + 4) raw, drop (n + 4) raw)
cut_crlf raw none = cut_lf raw (index raw blank_lf)

-- The header ends with the first blank line, between line ends of either kind.
unfoldable pub split_header_body : Text → Text × Text
unfolding index
split_header_body raw = cut_crlf raw (index raw blank_crlf)

abbrev pub no_cr : Text → Text
no_cr line = trim_right (λ c. c == 13) line

-- The name before the first colon of a line, unless the line begins with it.
abbrev pub field_name : Text → Option ℕ → Option Text
field_name line none = none
field_name line (some zero) = none
field_name line (some (suc i)) = some (trim_space (take (suc i) line))

abbrev pub names : Text → Option Text → Bool
names name none = false
names name (some t) = equal_fold t name

unfoldable pub value_in : List Text → Text → Text
unfolding trim_right trim_space index_byte equal_fold after_byte
value_in [] name = []
value_in (l ∷ ls) name =
    let line = no_cr l in
    let rest = value_in ls name in
    if names name (field_name line (index_byte b':' line))
    then trim_space (after_byte b':' line)
    else rest

unfoldable pub header_value : Text → Text → Text
unfolding value_in split
header_value header name = value_in (split 10 header) name

abbrev pub boundary_word : Text
boundary_word = codes "boundary="

unfoldable pub boundary_in : List Text → Text
unfolding trim_space has_prefix lower trim
boundary_in [] = []
boundary_in (p ∷ ps) =
    let kv = trim_space p in
    let rest = boundary_in ps in
    if has_prefix (lower kv) boundary_word
    then trim (λ c. c == 34) (drop (length boundary_word) kv)
    else rest

unfoldable pub boundary_of : Text → Text
unfolding boundary_in split
boundary_of ct = boundary_in (split b';' ct)

-- The parts between the delimiter lines; `cur` is the part that is being read.
unfoldable pub parts_in : Text → List Text → Text → Bool → List Text
unfolding trim_suffix has_prefix eqb
parts_in delim [] cur inside = if inside && not (is_nil cur) then cur ∷ [] else []
parts_in delim (l ∷ ls) cur inside =
    let line = trim_suffix 13 l in
    let closed = parts_in delim ls [] (not (eqb line (delim ++ codes "--"))) in
    let more = parts_in delim ls (if inside then cur ++ (line ++ 10 ∷ []) else cur) inside in
    if has_prefix line delim
    then (if inside && not (is_nil cur) then cur ∷ closed else closed)
    else more

unfoldable pub split_multipart : Text → Text → List Text
unfolding parts_in split
split_multipart body boundary = parts_in (codes "--" ++ boundary) (split 10 body) [] false

abbrev pub nth_part : List Text → ℕ → Option Text
nth_part parts zero = none
nth_part parts (suc i) = get_elem? parts i

unfoldable pub is_multipart : Text → Bool
unfolding has_prefix lower
is_multipart ct = has_prefix (lower ct) (codes "multipart/")

abbrev pub multipart_of : Text → Text → List Text
multipart_of body ct =
    if is_multipart ct && not (is_nil (boundary_of ct))
    then split_multipart body (boundary_of ct)
    else []

-- The part at a path of numbers that count from 1.
unfoldable pub extract_part : Text → List ℕ → Option Text
unfolding split_header_body header_value is_multipart boundary_of split_multipart
extract_part raw [] = some raw
extract_part raw (n ∷ path) =
    let halves = split_header_body raw in
    nth_part (multipart_of halves.1 (header_value halves.0 (codes "Content-Type"))) n >>= λ part.
    extract_part part path

pub data Specifier : Type 0 where
  whole header_part text_part mime_part : Specifier

-- A window of octets: where it begins and how long it is.
pub record Section : Type 0 where
  pub part : List ℕ
  pub specifier : Specifier
  pub fields_only : List Text
  pub fields_not : List Text
  pub window : Option (ℕ × ℕ)
  pub peek : Bool

abbrev pub or_body : Text → List ℕ → Option Text → Text
or_body raw path (some t) = t
or_body raw (n ∷ []) none = (split_header_body raw).1
or_body raw _ none = []

unfoldable pub part_content : Text → List ℕ → Specifier → Text
unfolding extract_part split_header_body
part_content raw (n ∷ path) sp = or_body raw (n ∷ path) (extract_part raw (n ∷ path))
part_content raw [] header_part = (split_header_body raw).0
part_content raw [] text_part = (split_header_body raw).1
part_content raw [] whole = raw
part_content raw [] mime_part = raw

-- A continuation goes to the line before, if one was kept.
abbrev pub fold_on : List Text → Text → List Text
fold_on [] line = []
fold_on (k ∷ ks) line = (k ++ (13 ∷ 10 ∷ 32 ∷ trim_space line)) ∷ ks

abbrev pub wanted : List Text → Text → Bool
wanted fields name = any (λ f. eqb (lower f) name) fields

-- The kept lines, the last first.
unfoldable pub keep_fields : List Text → List Text → Bool → List Text → List Text
unfolding trim_right trim_space index_byte eqb lower
keep_fields [] fields exclude kept = kept
keep_fields (l ∷ ls) fields exclude kept =
    let line = no_cr l in
    keep_fields ls fields exclude (elim (field_name line (index_byte b':' line)) [
      | none ↦ if is_nil line then kept else fold_on kept line
      | some name ↦
          if wanted fields (lower name)
          then (if exclude then kept else line ∷ kept)
          else if exclude
          then line ∷ kept
          else kept
    ])

unfoldable pub filter_header_fields : Text → List Text → Bool → Text
unfolding keep_fields split join
filter_header_fields header fields exclude =
    join (13 ∷ 10 ∷ []) (reverse (keep_fields (split 10 header) fields exclude [])) ++ 13 ∷ 10 ∷ []

abbrev pub is_header : Specifier → Bool
is_header header_part = true
is_header _ = false

abbrev pub filtered : Section → Text → Text
filtered sec t =
    if is_header sec.specifier && not (is_nil sec.fields_only)
    then filter_header_fields t sec.fields_only false
    else if is_header sec.specifier && not (is_nil sec.fields_not)
    then filter_header_fields t sec.fields_not true
    else t

-- The octets of a window that the text has.
abbrev pub windowed : Option (ℕ × ℕ) → Text → Text
windowed none t = t
windowed (some (offset, size)) t = if leb (length t) offset then [] else take size (drop offset t)

unfoldable pub section_content : Text → Section → Text
unfolding part_content filter_header_fields
section_content raw sec =
    windowed sec.window (filtered sec (part_content raw sec.part sec.specifier))
