-- ===== src/Web/Outgoing.antt =====
-- What the compose handler sends, and to whom.
use cloudpost.Prelude.{
  Bool, Bool-cases, Option, [], ap, arith, drop, false, if◌then◌else◌, inl, inr, is_nil, length,
  ltb, none, refl, some, suc, true, zero, ℕ, ◌*◌, ◌++◌, ◌+◌, ◌-◌, ◌==◌, ◌||◌, ◌∙◌, ◌∷◌, ◌≡◌,
}
use cloudpost.Text.{Text, codes, last_index_byte}
use cloudpost.Web.Http.{Outside}
use cloudpost.Web.Mime.{crlf, is_ascii, mime_word_encode}
use cloudpost.Web.Source.{from_domain_of, heading, line, sanitize_header}

abbrev is_break : ℕ → Bool
is_break c = c == 13 || c == 10

-- How many carriage returns and line feeds a text has.
unfoldable pub breaks : Text → ℕ
breaks [] = 0
breaks (c ∷ s) = (if is_break c then 1 else 0) + breaks s

breaks-append : (s t : Text) → breaks (s ++ t) ≡ breaks s + breaks t
unfolding breaks
breaks-append [] t = omega arith
breaks-append (c ∷ s) t = omega (arith, breaks-append s t)

breaks-sanitize_header : (s : Text) → breaks (sanitize_header s) ≡ 0
unfolding sanitize_header breaks
breaks-sanitize_header [] = refl
breaks-sanitize_header (c ∷ s) = ground (arith, breaks-sanitize_header s)

-- What a word encoded in base64 has of breaks.
breaks-mime_word_encode :
    (o : Outside) (s : Text)
    → breaks s ≡ 0
    → ((t : Text) → breaks (o.b64_encode t) ≡ 0)
    → breaks (mime_word_encode o s) ≡ 0
unfolding mime_word_encode
breaks-mime_word_encode o s h enc = elim (Bool-cases (is_nil s || is_ascii s)) [
  | inl e ↦ rw e h
  | inr e ↦ rw e (
      breaks-append (codes "=?utf-8?B?") (o.b64_encode s ++ codes "?=")
      ∙ (ap (λ n. breaks (codes "=?utf-8?B?") + n) (breaks-append (o.b64_encode s) (codes "?="))
          ∙ (ap (λ n. breaks (codes "=?utf-8?B?") + (n + breaks (codes "?="))) (enc s) ∙ marks)))
]
  where
    marks : breaks (codes "=?utf-8?B?") + (0 + breaks (codes "?=")) ≡ 0
    marks = unfold breaks in refl

plain : (s t : Text) → breaks s ≡ 0 → breaks t ≡ 0 → breaks (s ++ t) ≡ 0
plain s t h k = breaks-append s t ∙ omega (arith, h, k)

breaks-line : (s : Text) → breaks s ≡ 0 → breaks (line s) ≡ 2
breaks-line s h = breaks-append s crlf ∙ (ap (λ n. n + breaks crlf) h ∙ unfold breaks in refl)

breaks-both : (s t : Text) (m n : ℕ) → breaks s ≡ m → breaks t ≡ n → breaks (s ++ t) ≡ m + n
breaks-both s t m n h k = breaks-append s t ∙ omega (arith, h, k)

breaks-drop : (n : ℕ) (s : Text) → breaks s ≡ 0 → breaks (drop n s) ≡ 0
unfolding breaks
breaks-drop zero s h = h
breaks-drop (suc n) [] h = refl
breaks-drop (suc n) (c ∷ s) h = breaks-drop n s (omega (arith, h))

breaks-from_domain_of : (addr : Text) → breaks addr ≡ 0 → breaks (from_domain_of addr) ≡ 0
unfolding from_domain_of
breaks-from_domain_of addr h = on (last_index_byte b'@' addr)
  where
    local : breaks (codes "localhost") ≡ 0
    local = unfold breaks in refl

    pick : (b : Bool) (i : ℕ) → breaks (if b then drop (i + 1) addr else codes "localhost") ≡ 0
    pick true i = breaks-drop (i + 1) addr h
    pick false i = local

    on :
        (x : Option ℕ)
        → breaks (elim x as (λ y. Text) [
          | none ↦ codes "localhost"
          | some i ↦ if ltb i (length addr - 1) then drop (i + 1) addr else codes "localhost"
        ])
          ≡ 0
    on none = local
    on (some i) = pick (ltb i (length addr - 1)) i

breaks-cc :
    (b : Bool) (cc : Text)
    → breaks cc ≡ 0
    → breaks (if b then [] else line (codes "Cc: " ++ cc)) ≡ (if b then 0 else 2)
breaks-cc true cc h = unfold breaks in refl
breaks-cc false cc h =
    breaks-line (codes "Cc: " ++ cc) (plain (codes "Cc: ") cc (unfold breaks in refl) h)

-- For an account whose address has no line end, and an encoder, a date and a number that write none,
-- the lines above the content type are the seven that the code writes, or six without a Cc: no
-- subject, name or recipient list that was cleaned adds a line, whatever it held before.
pub breaks-heading :
    (o : Outside) (now : ℕ) (name addr to cc title : Text)
    → breaks addr ≡ 0
    → ((t : Text) → breaks (o.b64_encode t) ≡ 0)
    → breaks (o.mail_date now) ≡ 0
    → breaks (o.message_stamp now) ≡ 0
    → breaks
        (heading o now name addr (sanitize_header to) (sanitize_header cc) (sanitize_header title))
      ≡ 2 * (if is_nil (sanitize_header cc) then 6 else 7)
unfolding heading breaks
breaks-heading o now name addr to cc title ha enc date id =
    let clean = breaks-sanitize_header in
    let from =
      plain (codes "From: ") (sanitize_header name ++ (codes " <" ++ (addr ++ codes ">"))) refl (
        plain (sanitize_header name) (codes " <" ++ (addr ++ codes ">")) (clean name)
          (plain (codes " <") (addr ++ codes ">") refl (plain addr (codes ">") ha refl))) in
    let mark = o.message_stamp now ++ (codes "@" ++ (from_domain_of addr ++ codes ">")) in
    let id_line = plain (codes "Message-ID: <") mark refl (
      plain (o.message_stamp now) (codes "@" ++ (from_domain_of addr ++ codes ">")) id (
        plain (codes "@") (from_domain_of addr ++ codes ">") refl
          (plain (from_domain_of addr) (codes ">") (breaks-from_domain_of addr ha) refl))) in
    let headed =
      λ (h s : Text) (f : breaks h ≡ 0) (k : breaks s ≡ 0). breaks-line (h ++ s) (plain h s f k) in
    let word = mime_word_encode o (sanitize_header title) in
    let t6 = line (codes "MIME-Version: 1.0") in
    let t5 = line (codes "Message-ID: <" ++ mark) in
    let t4 = line (codes "Date: " ++ o.mail_date now) in
    let t3 = line (codes "Subject: " ++ word) in
    let none_cc = is_nil (sanitize_header cc) in
    let t2 = if none_cc then [] else line (codes "Cc: " ++ sanitize_header cc) in
    let t1 = line (codes "To: " ++ sanitize_header to) in
    let t0 =
      line (codes "From: " ++ (sanitize_header name ++ (codes " <" ++ (addr ++ codes ">")))) in
    breaks-both t0 (t1 ++ (t2 ++ (t3 ++ (t4 ++ (t5 ++ t6))))) 2
      (2 + ((if none_cc then 0 else 2) + (2 + (2 + (2 + 2)))))
      (breaks-line (codes "From: " ++ (sanitize_header name ++ (codes " <" ++ (addr ++ codes ">"))))
        from)
      (breaks-both t1 (t2 ++ (t3 ++ (t4 ++ (t5 ++ t6)))) 2
        ((if none_cc then 0 else 2) + (2 + (2 + (2 + 2))))
        (headed (codes "To: ") (sanitize_header to) refl (clean to))
        (breaks-both t2 (t3 ++ (t4 ++ (t5 ++ t6))) (if none_cc then 0 else 2) (2 + (2 + (2 + 2)))
          (breaks-cc none_cc (sanitize_header cc) (clean cc))
          (breaks-both t3 (t4 ++ (t5 ++ t6)) 2 (2 + (2 + 2))
            (headed (codes "Subject: ") word refl
              (breaks-mime_word_encode o (sanitize_header title) (clean title) enc))
            (breaks-both t4 (t5 ++ t6) 2 (2 + 2)
              (headed (codes "Date: ") (o.mail_date now) refl date)
              (breaks-both t5 t6 2 2 (breaks-line (codes "Message-ID: <" ++ mark) id_line)
                (breaks-line (codes "MIME-Version: 1.0") refl))))))
    ∙ total (is_nil (sanitize_header cc))
  where
    total :
        (b : Bool)
        → 2 + (2 + ((if b then 0 else 2) + (2 + (2 + (2 + 2))))) ≡ 2 * (if b then 6 else 7)
    total true = refl
    total false = refl
