-- ===== src/Mailstore/Invariant/Rows.antt =====
-- SetFlags and MoveMessages keep a store well-formed.
use cloudpost.Prelude.{
  All-forall, All-update_where, Bool, Bool-cases, List, Option-cases, Pairs-update_where, [], arith,
  find_first, if◌then◌else◌, inl, inr, is_nil, update_where, ℕ, ◌||◌, ◌∷◌,
}
use cloudpost.Text.{Text}
use cloudpost.Mailstore.Flags.{FlagMode}
use cloudpost.Mailstore.Invariant.{Apart, IsWellFormed}
use cloudpost.Mailstore.Messages.{row_is, set_each, set_flags, set_one}
use cloudpost.Mailstore.Schema.{Message, Store}

Apart-column :
    (p : Message → Bool) (column : Text) (m n : Message)
    → Apart m n
    → Apart
        (if p m then record m { flags = column } else m)
        (if p n then record n { flags = column } else n)
Apart-column p column m n a = ground arith

module _ {low : ℕ → ℕ} (s : Store) (w : IsWellFormed low s) where
  -- A new flags column leaves all that the invariant speaks of.
  set_column-IsWellFormed :
      (p : Message → Bool) (column : Text)
      → IsWellFormed low
          (record s { messages = update_where p (λ m. record m { flags = column }) s.messages })
  set_column-IsWellFormed p column = record {
    folder_ids = w.folder_ids;
    low_fresh = w.low_fresh;
    folders_apart = w.folders_apart;
    placed =
        All-update_where p (λ m. record m { flags = column })
          (λ m h _. record { limit = h.limit; found = h.found; below = h.below }) (λ m h _. h)
          s.messages w.placed;
    stored =
        All-update_where p (λ m. record m { flags = column })
          (λ m h _. record {
            id_below = h.id_below;
            path_below = h.path_below;
            raw = h.raw;
            file = h.file;
          })
          (λ m h _. h) s.messages w.stored;
    apart =
        Pairs-update_where (λ _. Unit) Apart p (λ m. record m { flags = column })
          (λ m n _ _ a. Apart-column p column m n a) s.messages (All-forall (λ _. tt) s.messages)
          w.apart;
  }

pub set_one-IsWellFormed :
    {low : ℕ → ℕ}
    → (s : Store) (account : ℕ) (mode : FlagMode) (flags : List Text) (id : ℕ) → IsWellFormed low s
    → IsWellFormed low (set_one s account mode flags id)
unfolding set_one
set_one-IsWellFormed s account mode flags id w =
    elim (Option-cases (find_first (row_is account id) s.messages)) [
      | inl e ↦ rw (e, set_one) w
      | inr (m, e) ↦ rw (e, set_one) (set_column-IsWellFormed s w (row_is account id) _)
    ]

pub set_each-IsWellFormed :
    {low : ℕ → ℕ}
    → (s : Store) (account : ℕ) (ids : List ℕ) (mode : FlagMode) (flags : List Text)
    → IsWellFormed low s
    → IsWellFormed low (set_each s account ids mode flags)
unfolding set_each
set_each-IsWellFormed s account [] mode flags w = w
set_each-IsWellFormed s account (id ∷ ids) mode flags w =
    set_each-IsWellFormed (set_one s account mode flags id) account ids mode flags
      (set_one-IsWellFormed s account mode flags id w)

pub set_flags-IsWellFormed :
    {low : ℕ → ℕ}
    → (s : Store) (account : ℕ) (ids : List ℕ) (mode : FlagMode) (flags : List Text)
    → IsWellFormed low s
    → IsWellFormed low (set_flags s account ids mode flags)
unfolding set_flags
set_flags-IsWellFormed s account ids mode flags w = elim (Bool-cases (is_nil ids || is_nil flags)) [
  | inl b ↦ rw b w
  | inr b ↦ rw b (set_each-IsWellFormed s account ids mode flags w)
]
