-- ===== src/Engine/Lossless.antt =====
-- The actions of the rules other than discard lose no message.
use cloudpost.Prelude.{
  Bool, Bool-cases, List, Option, Option-cases, [], any, ap, find_first, if_both, if◌then◌else◌,
  inl, inr, is_nil, none, not, refl, some, subst, sym, true, update_where, ℕ, ◌==◌, ◌∙◌, ◌∷◌, ◌≡◌,
  ◌⊎◌,
}
use cloudpost.Text.{Text, codes, eqb}
use cloudpost.Engine.FirstMatch.{act_of, apply-first}
use cloudpost.Engine.MoveAccount.{move_account-kept}
use cloudpost.Engine.Rules.{Mail, act, apply, hits, move_account}
use cloudpost.Mailstore.Delivered.{get_message_raw_found}
use cloudpost.Mailstore.Filters.{list_filters, move_after, move_to_folder_name}
use cloudpost.Mailstore.Flags.{FlagMode, add, flagged_flag, seen_flag}
use cloudpost.Mailstore.Folders.{account_id_is, ensure_folder, folder_id_is, named}
use cloudpost.Mailstore.Invariant.{IsWellFormed}
use cloudpost.Mailstore.Kept.{Reads, get_message_raw_row}
use cloudpost.Mailstore.Messages.{
  get_message_raw, move_messages, move_one, move_to, row_is, set_each, set_flags, set_one,
  uid_taken,
}
use cloudpost.Mailstore.Schema.{
  Account, External, Filter, Folder, Message, Result, Store, err, ok, read_file,
}
use cloudpost.Smtpd.Session.{mail}

abbrev rewritten : (Message → Bool) → (Message → Message) → Message → Message
rewritten q f m = if q m then f m else m

find-update_kept :
    (p q : Message → Bool) (f : Message → Message) (xs : List Message) (m : Message)
    → ((n : Message) → p (f n) ≡ p n)
    → find_first p xs ≡ some m
    → find_first p (update_where q f xs) ≡ some (rewritten q f m)
find-update_kept p q f [] m stays e = cc
find-update_kept p q f (x ∷ xs) m stays e = elim (Bool-cases (p x)) [
  | inl hit ↦ elim (Bool-cases (q x)) [
    | inl b ↦
        rw (b, stays x, hit)
          (subst (λ y. some (f x) ≡ some (rewritten q f y)) (first_row (rw hit at e)) (rw b refl))
    | inr b ↦
        rw (b, hit)
          (subst (λ y. some x ≡ some (rewritten q f y)) (first_row (rw hit at e)) (rw b refl))
  ]
  | inr miss ↦ elim (Bool-cases (q x)) [
    | inl b ↦ rw (b, stays x, miss) (find-update_kept p q f xs m stays (rw miss at e))
    | inr b ↦ rw (b, miss) (find-update_kept p q f xs m stays (rw miss at e))
  ]
]
  where
    first_row : ◌≡◌ {A = Option Message} (some x) (some m) → x ≡ m
    first_row eq = cc

module _ (account id : ℕ) (raw : Text) where
  -- Rows that keep their keys and their files can be read as before.
  update_where-Reads :
      (s t : Store) (q : Message → Bool) (f : Message → Message)
      → t.messages ≡ update_where q f s.messages
      → t.blobs ≡ s.blobs
      → ((n : Message) → row_is account id (f n) ≡ row_is account id n)
      → ((n : Message) → (f n).raw_path ≡ n.raw_path)
      → Reads s account id raw
      → Reads t account id raw
  update_where-Reads s t q f rows blobs keys paths (m, h) =
      let (row, file) = get_message_raw_row s account id raw m h in
      let same = if_both (λ n. n.raw_path ≡ m.raw_path) (q m) (f m) m (paths m) refl in
      (
        rewritten q f m,
        get_message_raw_found t account id (rewritten q f m) raw
            (ap (find_first (row_is account id)) rows
              ∙ find-update_kept (row_is account id) q f s.messages m keys row)
            (ap (read_file (rewritten q f m).raw_path) blobs
              ∙ ap (λ p. read_file p s.blobs) same
              ∙ file),
      )

  same-Reads :
      (s t : Store)
      → t.messages ≡ s.messages
      → t.blobs ≡ s.blobs
      → Reads s account id raw
      → Reads t account id raw
  same-Reads s t rows blobs (m, h) =
      let (row, file) = get_message_raw_row s account id raw m h in
      (
        m,
        get_message_raw_found t account id m raw (ap (find_first (row_is account id)) rows ∙ row)
            (ap (read_file m.raw_path) blobs ∙ file),
      )

  set_one-Reads :
      (s : Store) (owner k : ℕ) (mode : FlagMode) (flags : List Text)
      → Reads s account id raw
      → Reads (set_one s owner mode flags k) account id raw
  unfolding set_one
  set_one-Reads s owner k mode flags h =
      elim (Option-cases (find_first (row_is owner k) s.messages)) [
        | inl e ↦ rw (e, set_one) h
        | inr (m, e) ↦
            rw (e, set_one)
              (update_where-Reads s _ (row_is owner k) _ refl refl (λ n. refl) (λ n. refl) h)
      ]

  pub set_flags-Reads :
      (s : Store) (owner k : ℕ) (mode : FlagMode) (flag : Text)
      → Reads s account id raw
      → Reads (set_flags s owner (k ∷ []) mode (flag ∷ [])) account id raw
  unfolding set_flags set_each
  set_flags-Reads s owner k mode flag h = set_one-Reads s owner k mode (flag ∷ []) h

  move_to-Reads :
      (s : Store) (k to : ℕ) (f : Folder)
      → Reads s account id raw
      → Reads (move_to s k to f) account id raw
  unfolding move_to
  move_to-Reads s k to f h = elim (Bool-cases (uid_taken to f.next_uid s.messages)) [
    | inl b ↦ rw b (same-Reads s _ refl refl h)
    | inr b ↦ rw b (update_where-Reads s _ (λ n. n.id == k) _ refl refl (λ n. refl) (λ n. refl) h)
  ]

  move_one-Reads :
      (s : Store) (owner to k : ℕ)
      → Reads s account id raw
      → Reads (move_one s owner to k) account id raw
  unfolding move_one
  move_one-Reads s owner to k h = elim (Option-cases (find_first (row_is owner k) s.messages)) [
    | inl e ↦ rw (e, move_one) h
    | inr (m, e) ↦
        rw (e, move_one)
          (elim (Bool-cases (m.folder_id == to)) [
            | inl b ↦ rw b h
            | inr b ↦ rw b (elim (Option-cases (find_first (folder_id_is to) s.folders)) [
              | inl e' ↦ rw e' h
              | inr (f, e') ↦ rw e' (move_to-Reads s k to f h)
            ])
          ])
  ]

  ensure_folder-Reads :
      (s : Store) (owner : ℕ) (name special : Text)
      → Reads s account id raw
      → Reads (ensure_folder s owner name special).0 account id raw
  unfolding ensure_folder
  ensure_folder-Reads s owner name special h =
      elim (Option-cases (find_first (named owner name) s.folders)) [
        | inr (f, e) ↦ rw (e, ensure_folder) h
        | inl e ↦
            rw (e, ensure_folder)
              (elim (Bool-cases (any (account_id_is owner) s.accounts)) [
                | inl b ↦ rw b (same-Reads s _ refl refl h)
                | inr b ↦ rw b h
              ])
      ]

  pub move_to_folder_name-Reads :
      (s : Store) (owner k : ℕ) (name : Text)
      → Reads s account id raw
      → Reads (move_to_folder_name s owner k name).0 account id raw
  unfolding move_to_folder_name move_after move_messages
  move_to_folder_name-Reads s owner k name h =
      moved_then (ensure_folder s owner name []) (ensure_folder-Reads s owner name [] h)
    where
      moved_then :
          (made : Store × Result ℕ)
          → Reads made.0 account id raw
          → Reads (move_after owner k made).0 account id raw
      moved_then (s1, ok to) v = move_one-Reads s1 owner to k v
      moved_then (s1, err e) v = v

-- The rules that are applied: none that discards.
abbrev pub spares : Option Filter → Bool
spares none = true
spares (some f) = not (eqb f.action (codes "discard"))

module _ {low : ℕ → ℕ} (ext : External) (s : Store) (account id : ℕ) (raw : Text) (m : Message)
    (w : IsWellFormed low s) (h : get_message_raw s account id ≡ ok (raw, m)) where
  -- The message can be read where it was, or in another account.
  abbrev Safe : Store → Type 0
  Safe t =
      ((n : Message) × (get_message_raw t account id ≡ ok (raw, n)))
      ⊎ ((a : Account) × (new : ℕ) × ((n : Message) × (get_message_raw t a.id new ≡ ok (raw, n))))

  move_account-Safe : (target : Text) → Safe (move_account ext s account id target)
  move_account-Safe target = elim (move_account-kept ext s account id target raw m w h) [
    | inl stays ↦ inl stays
    | inr (a, _, new, there) ↦ inr (a, new, there)
  ]

  act-Safe : (f : Filter) → spares (some f) ≡ true → Safe (act ext s account id f)
  unfolding act
  act-Safe f spared =
      pick _ _ (codes "move")
        (if_both Safe (is_nil f.action_arg) _ _ (inl (m, h))
          (inl (move_to_folder_name-Reads account id raw s account id f.action_arg (m, h))))
        (pick _ _ (codes "move_account")
          (if_both Safe (is_nil f.action_arg) _ _ (inl (m, h)) (move_account-Safe f.action_arg))
          (pick _ _ (codes "markread")
            (inl (set_flags-Reads account id raw s account id add seen_flag (m, h)))
            (pick _ _ (codes "star")
              (inl (set_flags-Reads account id raw s account id add flagged_flag (m, h)))
              (pick _ _ (codes "trash")
                (inl (move_to_folder_name-Reads account id raw s account id (codes "Trash") (m, h)))
                (elim (Bool-cases (eqb f.action (codes "discard"))) [
                  | inl b ↦ cc
                  | inr b ↦ rw b (inl (m, h))
                ])))))
    where
      pick :
          (x y : Store) (name : Text) → Safe x → Safe y → Safe (if eqb f.action name then x else y)
      pick x y name = if_both Safe (eqb f.action name) x y

  chosen-Safe : (o : Option Filter) → spares o ≡ true → Safe (act_of ext s account id o)
  chosen-Safe none spared = inl (m, h)
  chosen-Safe (some f) spared = act-Safe f spared

-- In a well-formed store, when the first rule that hits does not discard, or no rule hits, Apply
-- loses no message: its text can be read afterwards in its own account under its id, or in some
-- account under some id, whatever fails on the way.
pub apply-kept :
    {low : ℕ → ℕ} (ext : External) (s : Store) (account id : ℕ) (mail : Mail) (raw : Text)
    (m : Message)
    → IsWellFormed low s
    → get_message_raw s account id ≡ ok (raw, m)
    → spares (find_first (hits ext mail) (list_filters s account)) ≡ true
    → let t = apply ext s account id mail in
      ((n : Message) × (get_message_raw t account id ≡ ok (raw, n)))
      ⊎ ((a : Account) × (new : ℕ) × ((n : Message) × (get_message_raw t a.id new ≡ ok (raw, n))))
apply-kept ext s account id mail raw m w h spared =
    subst (Safe ext s account id raw m w h) (sym (apply-first ext s account id mail)) (
      chosen-Safe ext s account id raw m w h (find_first (hits ext mail) (list_filters s account))
        spared)
