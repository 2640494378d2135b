-- ===== src/Pop3d/Stuffing.antt =====
-- The blocks that the POP3 service writes, read by the POP3 client of the fetcher.
use cloudpost.Prelude.{
  ==_iff, All, Bool-cases, List, [], ap, append_assoc, arith, false, if◌then◌else◌, inl, inr,
  is_nil, length, length-append, map, refl, some, subst, suc, sym, zero, ℕ, ◌&&◌, ◌++◌, ◌<◌, ◌==◌,
  ◌>>=◌, ◌∙◌, ◌∷◌, ◌≡◌, ◌≤◌, ◌⊎◌,
}
use cloudpost.Text.{Text, eqb, has_prefix, onto_head, split, trim_right, trim_suffix}
use cloudpost.Fetch.Pop3Client.{lone_dot, read_lines, read_multiline, unstuffed}
use cloudpost.Pop3d.Wire.{
  crlf, cut_line, dotted, ended, is_crlf, read_line, stuff_all, stuffed, write_data,
}

abbrev NoLf : Text → Type 0
NoLf = All (λ c. (c == 10) ≡ false)

cut_line-append : (p rest : Text) → NoLf p → cut_line (p ++ 10 ∷ rest) ≡ some (p ++ 10 ∷ [], rest)
unfolding cut_line
cut_line-append [] rest h = refl
cut_line-append (c ∷ p) rest h = rw (h.0, cut_line-append p rest h.1) refl

trim_right-crlf : (s : Text) → trim_right is_crlf (s ++ 13 ∷ 10 ∷ []) ≡ trim_right is_crlf s
unfolding trim_right
trim_right-crlf [] = refl
trim_right-crlf (c ∷ s) = rw (trim_right-crlf s) refl

trim_right-trim_suffix : (s : Text) → trim_right is_crlf (trim_suffix 13 s) ≡ trim_right is_crlf s
unfolding trim_right trim_suffix
trim_right-trim_suffix [] = refl
trim_right-trim_suffix (c ∷ []) = ground arith
trim_right-trim_suffix (c ∷ d ∷ s) = rw (trim_right-trim_suffix (d ∷ s)) refl

trim_suffix-NoLf : (s : Text) → NoLf s → NoLf (trim_suffix 13 s)
unfolding trim_suffix
trim_suffix-NoLf [] h = tt
trim_suffix-NoLf (c ∷ []) h = ground arith
trim_suffix-NoLf (c ∷ d ∷ s) h = (h.0, trim_suffix-NoLf (d ∷ s) h.1)

dotted-NoLf : (s : Text) → NoLf s → NoLf (dotted s)
dotted-NoLf [] h = tt
dotted-NoLf (c ∷ s) h = ground arith

append-cr-NoLf : (s : Text) → NoLf s → NoLf (s ++ 13 ∷ [])
append-cr-NoLf [] h = (refl, tt)
append-cr-NoLf (c ∷ s) h = (h.0, append-cr-NoLf s h.1)

append-crlf : (s rest : Text) → (s ++ crlf) ++ rest ≡ (s ++ 13 ∷ []) ++ 10 ∷ rest
append-crlf [] rest = refl
append-crlf (c ∷ s) rest = ap (◌∷◌ c) (append-crlf s rest)

append-cr-lf : (s : Text) → (s ++ 13 ∷ []) ++ 10 ∷ [] ≡ s ++ 13 ∷ 10 ∷ []
append-cr-lf [] = refl
append-cr-lf (c ∷ s) = ap (◌∷◌ c) (append-cr-lf s)

-- The line that the client reads from a line written.
read_line-stuffed :
    (line rest : Text)
    → NoLf line
    → read_line (stuffed line ++ rest)
      ≡ some (trim_right is_crlf (dotted (trim_suffix 13 line)), rest)
unfolding read_line
read_line-stuffed line rest h =
    let x = dotted (trim_suffix 13 line) in
    rw
      (
        append-crlf x rest,
        cut_line-append (x ++ 13 ∷ []) rest
            (append-cr-NoLf x (dotted-NoLf _ (trim_suffix-NoLf line h))),
        append-cr-lf x,
        trim_right-crlf x,
      )
      refl

trim_right-dot : (x : Text) → trim_right is_crlf (46 ∷ x) ≡ 46 ∷ trim_right is_crlf x
unfolding trim_right
trim_right-dot x = ground arith

trim_right-head :
    (c : ℕ) (x : Text)
    → (trim_right is_crlf (c ∷ x) ≡ []) ⊎ (trim_right is_crlf (c ∷ x) ≡ c ∷ trim_right is_crlf x)
unfolding trim_right
trim_right-head c x = elim (Bool-cases (is_nil (trim_right is_crlf x) && is_crlf c)) [
  | inl e ↦ inl (rw e refl)
  | inr e ↦ inr (rw e refl)
]

other_head :
    (c : ℕ) (t : Text)
    → (c == 46) ≡ false
    → (eqb (c ∷ t) lone_dot ≡ false) × (unstuffed (c ∷ t) ≡ c ∷ t)
unfolding eqb has_prefix
other_head c t e = rw e (refl, refl)

abbrev ReadsBack : Text → Text → Type 0
ReadsBack line x = (eqb line lone_dot ≡ false) × (unstuffed line ≡ x)

-- It is no lone dot, and without its extra dot it is the line without its carriage returns.
dotted_read :
    (x : Text)
    → (eqb (trim_right is_crlf (dotted x)) lone_dot ≡ false)
      × (unstuffed (trim_right is_crlf (dotted x)) ≡ trim_right is_crlf x)
unfolding eqb trim_right has_prefix
dotted_read [] = (refl, refl)
dotted_read (c ∷ x) = elim (Bool-cases (c == 46)) [
  | inl e ↦
      subst
        (λ d.
          ReadsBack (trim_right is_crlf (if d == 46 then 46 ∷ d ∷ x else d ∷ x))
            (trim_right is_crlf (d ∷ x)))
        (sym ((==_iff c 46).0 e)) (rw (trim_right-dot (46 ∷ x), trim_right-dot x) (refl, refl))
  | inr e ↦ rw e (elim (trim_right-head c x) [
    | inl t ↦ rw t (refl, refl)
    | inr t ↦ rw t (other_head c (trim_right is_crlf x) e)
  ])
]

abbrev read_back : List Text → List Text
read_back = map (trim_right is_crlf)

read_lines-stuff_all :
    (lines : List Text) (rest : Text) (fuel : ℕ)
    → All NoLf lines
    → length lines < fuel
    → read_lines fuel (stuff_all lines ++ 46 ∷ 13 ∷ 10 ∷ rest) ≡ some (read_back lines, rest)
unfolding stuff_all read_lines
read_lines-stuff_all lines rest zero h k = absurd (omega arith)
read_lines-stuff_all [] rest (suc fuel) h k =
    unfold read_line in unfold cut_line in unfold trim_right in unfold eqb in refl
read_lines-stuff_all (line ∷ lines) rest (suc fuel) h k =
    let x = trim_suffix 13 line in
    let later = stuff_all lines ++ 46 ∷ 13 ∷ 10 ∷ rest in
    ap (read_lines (suc fuel)) (append_assoc (stuffed line) (stuff_all lines) (46 ∷ 13 ∷ 10 ∷ rest))
    ∙ rw
        (
          read_line-stuffed line later h.0,
          read_lines,
          ◌>>=◌,
          (dotted_read x).0,
          read_lines-stuff_all lines rest fuel h.1 (omega arith),
        )
        (ap (λ l. some (l ∷ read_back lines, rest))
          ((dotted_read x).1 ∙ trim_right-trim_suffix line))

onto_head-NoLf :
    (c : ℕ) (ps : List Text) → (c == 10) ≡ false → All NoLf ps → All NoLf (onto_head c ps)
onto_head-NoLf c [] e h = ((e, tt), tt)
onto_head-NoLf c (p ∷ ps) e h = ((e, h.0), h.1)

split-NoLf : (s : Text) → All NoLf (split 10 s)
unfolding split
split-NoLf [] = (tt, tt)
split-NoLf (c ∷ s) = elim (Bool-cases (c == 10)) [
  | inl e ↦ rw e (tt, split-NoLf s)
  | inr e ↦ rw e (onto_head-NoLf c (split 10 s) e (split-NoLf s))
]

length-stuff_all : (lines : List Text) → length lines ≤ length (stuff_all lines)
unfolding stuff_all
length-stuff_all [] = omega arith
length-stuff_all (line ∷ lines) = omega (
  arith,
  length-stuff_all lines,
  length-append (stuffed line) (stuff_all lines),
  length-append (dotted (trim_suffix 13 line)) crlf,
)

-- What the service writes for a text, whatever bytes it has and whatever follows, the client reads
-- back as the lines of the text, each without the carriage returns at its end, and it stops right
-- behind the block.
pub read_multiline-write_data :
    (raw rest : Text)
    → read_multiline (write_data raw ++ rest)
      ≡ some (map (trim_right is_crlf) (split 10 (ended raw)), rest)
unfolding write_data read_multiline
read_multiline-write_data raw rest =
    let lines = split 10 (ended raw) in
    let sent = stuff_all lines ++ 46 ∷ 13 ∷ 10 ∷ rest in
    ap (λ t. read_lines (suc (length t)) t) (append_assoc (stuff_all lines) (46 ∷ crlf) rest)
    ∙ read_lines-stuff_all lines rest (suc (length sent)) (split-NoLf (ended raw)) (
        omega
          (arith, length-stuff_all lines, length-append (stuff_all lines) (46 ∷ 13 ∷ 10 ∷ rest)))
