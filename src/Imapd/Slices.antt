-- ===== src/Imapd/Slices.antt =====
-- What the sections of a message are together.
use cloudpost.Prelude.{
  Bool, Bool-cases, [], ap, append-nil, arith, drop, false, inl, inr, leb, leb→le, length,
  length-drop, length-take, min, none, refl, some, subst, suc, sym, take, take-append-drop, true,
  zero, ℕ, ◌++◌, ◌+◌, ◌-◌, ◌<◌, ◌∙◌, ◌∷◌, ◌≡◌, ◌≤◌, ◌⊎◌,
}
use cloudpost.Text.{Text, has_prefix, index}
use cloudpost.Imapd.Sections.{
  Section, blank_crlf, blank_lf, cut_crlf, cut_lf, filtered, header_part, part_content,
  section_content, split_header_body, text_part, whole, windowed,
}

-- Where a text begins in another.
abbrev pub begins_at : Text → ℕ → Text → Bool
begins_at t k raw = has_prefix (drop k raw) t

-- The first place at which a text begins.
pub record IsFirst (t : Text) (raw : Text) (k : ℕ) : Type 0 where
  pub begins : begins_at t k raw ≡ true
  pub first : (j : ℕ) → j < k → begins_at t j raw ≡ false

abbrev pub Lacks : Text → Text → Type 0
Lacks t raw = (j : ℕ) → begins_at t j raw ≡ false

index_lem :
    (s t : Text)
    → ((index s t ≡ none) × Lacks t s) ⊎ ((k : ℕ) × (index s t ≡ some k) × IsFirst t s k)
unfolding index
index_lem [] [] = inr (
  0,
  refl,
  record { begins = unfold has_prefix in refl; first = λ j h. absurd (omega (arith, h)) },
)
index_lem [] (b ∷ t) = inl (refl, λ j. unfold has_prefix in empty j)
  where
    empty : (j : ℕ) → has_prefix (drop j []) (b ∷ t) ≡ false
    empty zero = unfold has_prefix in refl
    empty (suc j) = unfold has_prefix in refl
index_lem (a ∷ s) t = elim (Bool-cases (has_prefix (a ∷ s) t)) [
  | inl hit ↦
      inr (0, rw hit refl, record { begins = hit; first = λ j h. absurd (omega (arith, h)) })
  | inr miss ↦ later miss (index_lem s t)
]
  where
    later :
        has_prefix (a ∷ s) t ≡ false
        → ((index s t ≡ none) × Lacks t s) ⊎ ((k : ℕ) × (index s t ≡ some k) × IsFirst t s k)
        → ((index (a ∷ s) t ≡ none) × Lacks t (a ∷ s))
          ⊎ ((k : ℕ) × (index (a ∷ s) t ≡ some k) × IsFirst t (a ∷ s) k)
    later miss (inl (e, lacks)) = inl (rw (miss, e) refl, none_at)
      where
        none_at : (j : ℕ) → begins_at t j (a ∷ s) ≡ false
        none_at zero = miss
        none_at (suc j) = lacks j
    later miss (inr (k, e, f)) =
        inr (suc k, rw (miss, e) refl, record { begins = f.begins; first = before })
      where
        before : (j : ℕ) → j < suc k → begins_at t j (a ∷ s) ≡ false
        before zero h = miss
        before (suc j) h = f.first j (omega (arith, h))

length-has_prefix : (s t : Text) → has_prefix s t ≡ true → length t ≤ length s
unfolding has_prefix
length-has_prefix s [] h = omega arith
length-has_prefix [] (b ∷ t) h = cc
length-has_prefix (a ∷ s) (b ∷ t) h = ground (arith, length-has_prefix s t)

length-cut :
    (t raw : Text) (k : ℕ)
    → begins_at t k raw ≡ true
    → 0 < length t
    → length (take (k + length t) raw) ≡ k + length t
length-cut t raw k h some_text =
    length-take (k + length t) raw
    ∙ omega (arith, length-has_prefix (drop k raw) t h, length-drop k raw, some_text)

-- A message cut behind its first blank line: the one between two CRLF, or, without such a line,
-- the one between two LF; without either all of it is header.
abbrev pub IsCut : Text → Text → Text → Type 0
IsCut raw header text =
    (header ++ text ≡ raw)
    × (((k : ℕ) × IsFirst blank_crlf raw k × (length header ≡ k + 4))
        ⊎ (Lacks blank_crlf raw
            × (((k : ℕ) × IsFirst blank_lf raw k × (length header ≡ k + 2))
                ⊎ (Lacks blank_lf raw × (text ≡ [])))))

split_header_body-IsCut :
    (raw : Text) → IsCut raw (split_header_body raw).0 (split_header_body raw).1
split_header_body-IsCut raw = by_crlf (index_lem raw blank_crlf)
  where
    cut :
        (p : Text × Text)
        → split_header_body raw ≡ p
        → IsCut raw p.0 p.1
        → IsCut raw (split_header_body raw).0 (split_header_body raw).1
    cut p e h = subst (λ q. IsCut raw q.0 q.1) (sym e) h

    by_lf :
        index raw blank_crlf ≡ none
        → Lacks blank_crlf raw
        → ((index raw blank_lf ≡ none) × Lacks blank_lf raw)
          ⊎ ((k : ℕ) × (index raw blank_lf ≡ some k) × IsFirst blank_lf raw k)
        → IsCut raw (split_header_body raw).0 (split_header_body raw).1
    by_lf e lacks (inr (k, e2, f)) =
        cut (take (k + 2) raw, drop (k + 2) raw)
          (unfold split_header_body in ap (cut_crlf raw) e ∙ ap (cut_lf raw) e2)
          (
            take-append-drop (k + 2) raw,
            inr (lacks, inl (k, f, length-cut blank_lf raw k f.begins (omega arith))),
          )
    by_lf e lacks (inl (e2, lacks2)) =
        cut (raw, []) (unfold split_header_body in ap (cut_crlf raw) e ∙ ap (cut_lf raw) e2)
          (append-nil raw, inr (lacks, inr (lacks2, refl)))

    by_crlf :
        ((index raw blank_crlf ≡ none) × Lacks blank_crlf raw)
          ⊎ ((k : ℕ) × (index raw blank_crlf ≡ some k) × IsFirst blank_crlf raw k)
        → IsCut raw (split_header_body raw).0 (split_header_body raw).1
    by_crlf (inr (k, e, f)) =
        cut (take (k + 4) raw, drop (k + 4) raw) (unfold split_header_body in ap (cut_crlf raw) e)
          (
            take-append-drop (k + 4) raw,
            inl (k, f, length-cut blank_crlf raw k f.begins (omega arith)),
          )
    by_crlf (inl (e, lacks)) = by_lf e lacks (index_lem raw blank_lf)

-- BODY[HEADER] and BODY[TEXT] of a message make up the whole message, and the header ends with the
-- first blank line between two CRLF, without one with the first between two LF, and without either
-- it is the whole message.
pub section_content-whole :
    (raw : Text) (sec : Section)
    → sec.part ≡ []
    → sec.fields_only ≡ []
    → sec.fields_not ≡ []
    → sec.window ≡ none
    → IsCut
        (section_content raw (record sec { specifier = whole }))
        (section_content raw (record sec { specifier = header_part }))
        (section_content raw (record sec { specifier = text_part }))
unfolding section_content part_content
section_content-whole raw sec p f n w = simp (p, f, n, w) (split_header_body-IsCut raw)

length-windowed :
    (offset size : ℕ) (t : Text)
    → length (windowed (some (offset, size)) t) ≡ min size (length t - offset)
length-windowed offset size t = elim (Bool-cases (leb (length t) offset)) [
  | inl e ↦ rw e (omega (arith, leb→le (length t) offset e))
  | inr e ↦ rw e (length-take size (drop offset t) ∙ ap (min size) (length-drop offset t))
]

-- A partial fetch returns the octets from the offset on, as many as asked for or as there are.
length-section_content :
    (raw : Text) (sec : Section) (offset size : ℕ)
    → length (section_content raw (record sec { window = some (offset, size) }))
      ≡ min size (length (section_content raw (record sec { window = none })) - offset)
unfolding section_content
length-section_content raw sec offset size =
    length-windowed offset size (filtered sec (part_content raw sec.part sec.specifier))
