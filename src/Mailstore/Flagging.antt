-- ===== src/Mailstore/Flagging.antt =====
-- What SetFlags does to the messages, and what it leaves.
use cloudpost.Prelude.{
  Bool, Bool-cases, List, Option, Option-cases, [], ap, arith, false, find_first, inl, inr, not,
  refl, some, true, update_where, ℕ, ◌&&◌, ◌||◌, ◌∙◌, ◌∷◌, ◌≡◌, ◌≢◌, ◌⊎◌,
}
use cloudpost.Text.{Text}
use cloudpost.Mailstore.FlagSets.{has_text-merge_flags, has_text-remove_flags}
use cloudpost.Mailstore.Flags.{
  FlagMode, add, apply_mode, has_text, join_flags, other_mode, remove, set, split_flags,
}
use cloudpost.Mailstore.Messages.{get_message, row_is, set_each, set_flags, set_one}
use cloudpost.Mailstore.Schema.{Message, Result, Store, err, from_option, no_rows, ok}

find-update_self :
    (p : Message → Bool) (f : Message → Message) (xs : List Message) (m : Message)
    → ((n : Message) → p (f n) ≡ p n)
    → find_first p xs ≡ some m
    → find_first p (update_where p f xs) ≡ some (f m)
find-update_self p f [] m keeps e = cc
find-update_self p f (x ∷ xs) m keeps e = elim (Bool-cases (p x)) [
  | inl hit ↦ rw (hit, keeps x, hit) (ap some (ap f (first (rw hit at e))))
  | inr miss ↦ rw (miss, miss) (find-update_self p f xs m keeps (rw miss at e))
]
  where
    first : ◌≡◌ {A = Option Message} (some x) (some m) → x ≡ m
    first q = cc

find-update_other :
    (p q : Message → Bool) (f : Message → Message) (xs : List Message)
    → ((n : Message) → q n ≡ true → (p n ≡ false) × (p (f n) ≡ false))
    → find_first p (update_where q f xs) ≡ find_first p xs
find-update_other p q f [] apart = refl
find-update_other p q f (x ∷ xs) apart = ground (arith, apart x, find-update_other p q f xs apart)

-- The flags column that a call of SetFlags writes over another.
abbrev new_column : FlagMode → List Text → Message → Text
new_column mode flags m = join_flags (apply_mode mode (split_flags m.flags) flags)

set_one_found :
    (s : Store) (account id : ℕ) (mode : FlagMode) (flags : List Text) (m : Message)
    → find_first (row_is account id) s.messages ≡ some m
    → set_one s account mode flags id ≡ (record s {
      messages =
          update_where
            (row_is account id)
            (λ n. record n { flags = new_column mode flags m })
            s.messages;
    })
unfolding set_one
set_one_found s account id mode flags m e = rw (e, set_one) refl

pub row_of-get_message :
    (s : Store) (account id : ℕ) (m : Message)
    → get_message s account id ≡ ok m
    → find_first (row_is account id) s.messages ≡ some m
unfolding get_message
row_of-get_message s account id m h =
    elim (Option-cases (find_first (row_is account id) s.messages)) [
      | inl e ↦ absurd (refused (rw (e, from_option) at h))
      | inr (n, e) ↦ e ∙ ap some (same n (rw (e, from_option) at h))
    ]
  where
    refused : ◌≡◌ {A = Result Message} (err no_rows) (ok m) → ⊥
    refused q = cc

    same : (n : Message) → ◌≡◌ {A = Result Message} (ok n) (ok m) → n ≡ m
    same n q = cc

-- The flags of a message after a call of SetFlags that names some.
abbrev pub IsFlagged : FlagMode → List Text → List Text → List Text → Type 0
IsFlagged add before flags after =
    (f : Text) → has_text f after ≡ (has_text f before || has_text f flags)
IsFlagged remove before flags after =
    (f : Text) → has_text f after ≡ (has_text f before && not (has_text f flags))
IsFlagged set before flags after = after ≡ flags
IsFlagged other_mode before flags after = after ≡ before

apply_mode-IsFlagged :
    (mode : FlagMode) (cur flags : List Text) → IsFlagged mode cur flags (apply_mode mode cur flags)
unfolding apply_mode
apply_mode-IsFlagged add cur flags = λ f. has_text-merge_flags f cur flags
apply_mode-IsFlagged remove cur flags = λ f. has_text-remove_flags f cur flags
apply_mode-IsFlagged set cur flags = refl
apply_mode-IsFlagged other_mode cur flags = refl

-- SetFlags on the id of a message of the account. Without flags it changes nothing, also where it
-- is to set them. With some, the message has, after an add, its flags and those given; after a
-- remove, its flags but those given; after a set, those given; and nothing else of it changes, no
-- message of another id, in any account, and no file.
pub get_message-set_flags :
    (s : Store) (account id : ℕ) (mode : FlagMode) (flags : List Text) (m : Message)
    → (account' id' : ℕ) → get_message s account id ≡ ok m
    → id' ≢ id
    → let t = set_flags s account (id ∷ []) mode flags in
      ((flags ≡ []) × (t ≡ s))
      ⊎ ((after : List Text) × IsFlagged mode (split_flags m.flags) flags after
          × (get_message t account id ≡ ok (record m { flags = join_flags after }))
          × (get_message t account' id' ≡ get_message s account' id')
          × (t.blobs ≡ s.blobs))
unfolding set_flags set_each
get_message-set_flags s account id mode [] m account' id' h apart = inl (refl, refl)
get_message-set_flags s account id mode (flag ∷ flags) m account' id' h apart = inr (
  apply_mode mode (split_flags m.flags) (flag ∷ flags),
  apply_mode-IsFlagged mode (split_flags m.flags) (flag ∷ flags),
  rw (set_one_found s account id mode (flag ∷ flags) m found) (
      unfold get_message in
      ap (from_option no_rows)
        (find-update_self (row_is account id) _ s.messages m (λ n. refl) found)),
  rw (set_one_found s account id mode (flag ∷ flags) m found) (
      unfold get_message in
      ap (from_option no_rows) (
        find-update_other (row_is account' id') (row_is account id) _ s.messages
          (λ n q. (ground arith, ground arith)))),
  ap (λ t. t.blobs) (set_one_found s account id mode (flag ∷ flags) m found),
)
  where
    found : find_first (row_is account id) s.messages ≡ some m
    found = row_of-get_message s account id m h
