-- ===== src/Mailstore/Marking.antt =====
-- Which messages are left when some are flagged \Deleted and their folder is expunged.
use cloudpost.Prelude.{
  Bool, List, Option-cases, [], any, ap, arith, false, find_first, inl, inr, keep, map, none, not,
  refl, true, update_where, ℕ, ◌&&◌, ◌==◌, ◌||◌, ◌∙◌, ◌∷◌, ◌≡◌,
}
use cloudpost.Text.{Text, eqb_refl}
use cloudpost.Mailstore.FlagSets.{has_text-merge_flags}
use cloudpost.Mailstore.Flags.{
  FlagMode, add, apply_mode, deleted_flag, has_text, join_flags, like, merge_flags, split_flags,
}
use cloudpost.Mailstore.LikeFlags.{like-join_flags}
use cloudpost.Mailstore.Messages.{expunged, row_is, set_each, set_flags, set_one}
use cloudpost.Mailstore.Schema.{Message, Store}

abbrev pub ids_of : List Message → List ℕ
ids_of = map (λ (m : Message). m.id)

-- The rows that are left once those of a folder that carry \Deleted or pass the test are gone.
abbrev pub left : ℕ → (Message → Bool) → List Message → List ℕ
left folder p ms =
    ids_of (keep (λ n. not (n.folder_id == folder && (like deleted_flag n.flags || p n))) ms)

left_update :
    (folder account id : ℕ) (p : Message → Bool) (column : Text) (ms : List Message)
    → like deleted_flag column ≡ true
    → ((n : Message) → p (record n { flags = column }) ≡ p n)
    → left folder p (update_where (row_is account id) (λ n. record n { flags = column }) ms)
      ≡ left folder (λ n. row_is account id n || p n) ms
left_update folder account id p column [] e k = refl
left_update folder account id p column (m ∷ ms) e k =
    ground (arith, e, k m, left_update folder account id p column ms e k)

left-none :
    (folder account id : ℕ) (p : Message → Bool) (ms : List Message)
    → find_first (row_is account id) ms ≡ none
    → left folder p ms ≡ left folder (λ n. row_is account id n || p n) ms
left-none folder account id p [] e = refl
left-none folder account id p (m ∷ ms) e = ground (arith, left-none folder account id p ms)

deleted_column :
    (cur : List Text)
    → like deleted_flag (join_flags (apply_mode add cur (deleted_flag ∷ []))) ≡ true
unfolding apply_mode has_text
deleted_column cur = like-join_flags deleted_flag (merge_flags cur (deleted_flag ∷ [])) (
    has_text-merge_flags deleted_flag cur (deleted_flag ∷ [])
    ∙ ground (arith, eqb_refl deleted_flag))

pub left-set_one :
    (s : Store) (folder account id : ℕ) (p : Message → Bool)
    → ((n : Message) (column : Text) → p (record n { flags = column }) ≡ p n)
    → left folder p (set_one s account add (deleted_flag ∷ []) id).messages
      ≡ left folder (λ n. row_is account id n || p n) s.messages
unfolding set_one
left-set_one s folder account id p k =
    elim (Option-cases (find_first (row_is account id) s.messages)) [
      | inl e ↦ rw (e, set_one) (left-none folder account id p s.messages e)
      | inr (m, e) ↦
          rw (e, set_one)
            (left_update folder account id p _ s.messages (deleted_column (split_flags m.flags))
              (λ n. k n _))
    ]

pub left_congr :
    (folder : ℕ) (p q : Message → Bool) (ms : List Message)
    → ((n : Message) → p n ≡ q n)
    → left folder p ms ≡ left folder q ms
left_congr folder p q [] h = refl
left_congr folder p q (m ∷ ms) h = ground (arith, h m, left_congr folder p q ms h)

pub set_flags_one :
    (s : Store) (account id : ℕ) (mode : FlagMode) (flag : Text)
    → set_flags s account (id ∷ []) mode (flag ∷ []) ≡ set_one s account mode (flag ∷ []) id
unfolding set_flags set_each
set_flags_one s account id mode flag = refl

pub left_plain :
    (folder : ℕ) (ms : List Message)
    → ids_of (keep (λ m. not (expunged folder m)) ms) ≡ left folder (λ _. false) ms
left_plain folder [] = refl
left_plain folder (m ∷ ms) = ground (arith, left_plain folder ms)

pub left-set_each :
    (folder account : ℕ) (p : Message → Bool) (ids : List ℕ) (s : Store)
    → ((n : Message) (column : Text) → p (record n { flags = column }) ≡ p n)
    → left folder p (set_each s account ids add (deleted_flag ∷ [])).messages
      ≡ left folder (λ n. any (λ id. row_is account id n) ids || p n) s.messages
unfolding set_each
left-set_each folder account p [] s k = refl
left-set_each folder account p (id ∷ ids) s k =
    left-set_each folder account p ids _ k
    ∙ (left-set_one s folder account id (λ n. any (λ i. row_is account i n) ids || p n)
          (λ n col. ap (λ b. any (λ i. row_is account i n) ids || b) (k n col))
        ∙ left_congr folder _ _ s.messages (λ n. ground arith))
