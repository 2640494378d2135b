-- ===== src/Web/Recipients.antt =====
-- The addresses that a message is sent to, and what the deliveries leave.
use cloudpost.Prelude.{
  ==_iff, All, All-append, All-keep_test, All-map, Bool, List, Option, [], all, ap, arith, drop,
  false, if◌then◌else◌, keep, length, map, none, refl, some, subst, suc, sym, take, true, ℕ, ◌&&◌,
  ◌++◌, ◌+◌, ◌==◌, ◌||◌, ◌∷◌, ◌≡◌,
}
use cloudpost.Text.{Text, codes, contains, has_prefix, has_suffix, in_set, last_index_byte, split}
use cloudpost.Web.Mime.{
  is_alphanumeric, is_recipient, ok_chars, parse_rcpts, tidy, valid_addr, valid_parts,
}
use cloudpost.Web.Wiped.{both_true}

abbrev extra_char : ℕ → Bool
extra_char = in_set (codes "._%+=-@")

-- The bytes of an address: letters, digits and a few signs.
unfoldable pub address_char : ℕ → Bool
address_char c = is_alphanumeric c || extra_char c

all_more :
    (p q : ℕ → Bool)
    → ((c : ℕ) → p c ≡ true → q c ≡ true)
    → (s : Text) → all p s ≡ true
    → all q s ≡ true
all_more p q f [] h = refl
all_more p q f (c ∷ s) h =
    let (a, b) = both_true (p c) (all p s) h in rw (f c a, all_more p q f s b) refl

one_more : (i : ℕ) → i + 1 ≡ suc i
one_more i = omega arith

injected : (m n : ℕ) → ◌≡◌ {A = Option ℕ} (some m) (some n) → m ≡ n
injected m n h = cc

-- A text is what stands before the last b, that b, and what stands behind it.
last_split :
    (b i : ℕ) (s : Text) → last_index_byte b s ≡ some i → take i s ++ b ∷ drop (suc i) s ≡ s
unfolding last_index_byte
last_split b i [] e = cc
last_split b i (c ∷ s) e = pick (last_index_byte b s) refl (λ n f. last_split b n s f) e
  where
    here :
        (x : Bool)
        → (c == b) ≡ x
        → (if x then some 0 else none) ≡ some i
        → take i (c ∷ s) ++ b ∷ drop i s ≡ c ∷ s
    here false f q = cc
    here true f q =
        subst (λ k. take k (c ∷ s) ++ b ∷ drop k s ≡ c ∷ s) (injected 0 i q)
          (ap (λ d. d ∷ s) (sym ((==_iff c b).0 f)))

    pick :
        (o : Option ℕ)
        → last_index_byte b s ≡ o
        → ((n : ℕ) → last_index_byte b s ≡ some n → take n s ++ b ∷ drop (suc n) s ≡ s)
        → (elim o as (λ x. Option ℕ) [
          | some n ↦ some (suc n)
          | none ↦ if c == b then some 0 else none
        ])
          ≡ some i
        → take i (c ∷ s) ++ b ∷ drop i s ≡ c ∷ s
    pick (some n) f go q =
        subst (λ k. take k (c ∷ s) ++ b ∷ drop k s ≡ c ∷ s) (injected (suc n) i q)
          (ap (λ r. c ∷ r) (go n f))
    pick none f go q = here (c == b) refl q

all-append : (p : ℕ → Bool) (s t : Text) → all p s ≡ true → all p t ≡ true → all p (s ++ t) ≡ true
all-append p [] t h k = k
all-append p (c ∷ s) t h k =
    let (a, b) = both_true (p c) (all p s) h in rw (a, all-append p s t b k) refl

or_more : (a b c : Bool) → (b ≡ true → c ≡ true) → (a || b) ≡ true → (a || c) ≡ true
or_more true b c f h = refl
or_more false b c f h = f h

ok_chars-address :
    (extra s : Text)
    → ((c : ℕ) → in_set extra c ≡ true → extra_char c ≡ true)
    → ok_chars s extra ≡ true
    → all address_char s ≡ true
unfolding ok_chars address_char
ok_chars-address extra s f h = all_more _ address_char each s h
  where
    each :
        (c : ℕ)
        → (is_alphanumeric c || in_set extra c) ≡ true
        → (is_alphanumeric c || extra_char c) ≡ true
    each c q = or_more (is_alphanumeric c) (in_set extra c) (extra_char c) (f c) q

valid_parts-address :
    (n d : Text)
    → valid_parts n d ≡ true
    → (all address_char n ≡ true) × (all address_char d ≡ true)
unfolding valid_parts
valid_parts-address n d h =
    let (a, b) =
      pick (contains d (codes "..") || (has_prefix d (codes ".") || has_suffix d (codes "."))) h in
    (
      ok_chars-address (codes "._%+=-") n (λ c q. ground arith) a,
      ok_chars-address (codes ".-") d (λ c q. ground arith) b,
    )
  where
    pick :
        (x : Bool)
        → (if x then false else ok_chars n (codes "._%+=-") && ok_chars d (codes ".-")) ≡ true
        → (ok_chars n (codes "._%+=-") ≡ true) × (ok_chars d (codes ".-") ≡ true)
    pick true q = cc
    pick false q = both_true (ok_chars n (codes "._%+=-")) (ok_chars d (codes ".-")) q

valid_addr-address : (a : Text) → valid_addr a ≡ true → all address_char a ≡ true
unfolding valid_addr
valid_addr-address a h = pick (last_index_byte b'@' a) refl h
  where
    pick :
        (o : Option ℕ)
        → last_index_byte b'@' a ≡ o
        → (elim o as (λ x. Bool) [
          | none ↦ false
          | some i ↦
              if i == 0 || i + 1 == length a then false else valid_parts (take i a) (drop (i + 1) a)
        ])
          ≡ true
        → all address_char a ≡ true
    pick none e q = cc
    pick (some i) e q =
        let parts =
          second (i == 0 || i + 1 == length a) (valid_parts (take i a) (drop (i + 1) a)) q in
        let (n, d) = valid_parts-address (take i a) (drop (i + 1) a) parts in
        subst (λ s. all address_char s ≡ true) (last_split b'@' i a e)
          (all-append address_char (take i a) (b'@' ∷ drop (suc i) a) n
            (behind (subst (λ j. all address_char (drop j a) ≡ true) (one_more i) d)))
      where
        second : (x y : Bool) → (if x then false else y) ≡ true → y ≡ true
        second true y z = cc
        second false y z = z

        behind :
            all address_char (drop (suc i) a) ≡ true
            → all address_char (b'@' ∷ drop (suc i) a) ≡ true
        behind z = unfold address_char in z

-- Every recipient that parseRcpts takes from the To and Cc fields has an @ and consists of letters,
-- digits and ._%+=-@ alone: no space, bracket, quote or line end gets into an SMTP command.
pub parse_rcpts-address :
    (texts : List Text)
    → All (λ r. (contains r (codes "@") ≡ true) × (all address_char r ≡ true)) (parse_rcpts texts)
unfolding parse_rcpts
parse_rcpts-address [] = _
parse_rcpts-address (p ∷ ps) =
    All-append _ (keep is_recipient (map tidy (split b',' p))) (parse_rcpts ps)
      (All-map each (keep is_recipient (map tidy (split b',' p)))
        (All-keep_test is_recipient (map tidy (split b',' p))))
      (parse_rcpts-address ps)
  where
    each :
        (r : Text)
        → is_recipient r ≡ true
        → (contains r (codes "@") ≡ true) × (all address_char r ≡ true)
    each r h =
        unfold is_recipient in
        let (a, b) = both_true (contains r (codes "@")) (valid_addr r) h in
        (a, valid_addr-address r b)
