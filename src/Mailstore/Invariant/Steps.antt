-- ===== src/Mailstore/Invariant/Steps.antt =====
-- The folder operations and the delivery keep a store well-formed.
use cloudpost.Prelude.{
  All-append, All-forall, All-map, All-update_where, Bool, Bool-cases, Option-cases, Pairs-concat,
  Pairs-update_where, [], any, arith, find_first, inl, inr, not, refl, update_where, ℕ, ◌&&◌, ◌++◌,
  ◌+◌, ◌==◌, ◌∷◌, ◌≡◌, ◌≢◌,
}
use cloudpost.Text.{Text, eqb}
use cloudpost.Mailstore.Folders.{account_id_is, ensure_folder, inbox_name, named, rename_folder}
use cloudpost.Mailstore.Invariant.{IsWellFormed}
use cloudpost.Mailstore.Invariant.Files.{Stored-later, Stored-write}
use cloudpost.Mailstore.Invariant.Uids.{Placed-append, Placed-rename}
use cloudpost.Mailstore.Messages.{store_blob}
use cloudpost.Mailstore.Schema.{Folder, Store}

-- Finding nothing and appending a folder under the next id.
ensure_folder-IsWellFormed_new :
    {low : ℕ → ℕ}
    → (s : Store) (f : Folder) → f.id ≡ s.next_folder
    → f.next_uid ≡ 1
    → IsWellFormed low s
    → IsWellFormed low (record s { folders = s.folders ++ f ∷ []; next_folder = s.next_folder + 1 })
ensure_folder-IsWellFormed_new s f e one w = record {
  folder_ids =
      All-append _ s.folders (f ∷ []) (All-map (λ g h. (omega arith, h.1)) s.folders w.folder_ids)
        ((omega arith, rw (e, one) (w.low_fresh s.next_folder (omega arith))), tt);
  low_fresh = λ j h. w.low_fresh j (omega arith);
  folders_apart =
      Pairs-concat (λ g h. g.id ≢ h.id) f s.folders w.folders_apart
        (All-map (λ g h. omega arith) s.folders w.folder_ids);
  placed = All-map (λ m h. Placed-append (f ∷ []) m h) s.messages w.placed;
  stored = w.stored;
  apart = w.apart;
}

pub ensure_folder-IsWellFormed :
    {low : ℕ → ℕ}
    → (s : Store) (account : ℕ) (name special : Text) → IsWellFormed low s
    → IsWellFormed low (ensure_folder s account name special).0
unfolding ensure_folder
ensure_folder-IsWellFormed s account name special w =
    elim (Option-cases (find_first (named account name) s.folders)) [
      | inr (f, e) ↦ rw (e, ensure_folder) w
      | inl e ↦
          rw (e, ensure_folder)
            (elim (Bool-cases (any (account_id_is account) s.accounts)) [
              | inl b ↦ rw b (ensure_folder-IsWellFormed_new s _ refl refl w)
              | inr b ↦ rw b w
            ])
    ]

-- The messages and the files stay as they are.
rename-IsWellFormed :
    {low : ℕ → ℕ}
    → (s : Store) (p : Folder → Bool) (name : Text) → IsWellFormed low s
    → IsWellFormed low
        (record s { folders = update_where p (λ f. record f { name = name }) s.folders })
rename-IsWellFormed s p name w = record {
  folder_ids =
      All-update_where p (λ f. record f { name = name }) (λ f h _. h) (λ f h _. h) s.folders
        w.folder_ids;
  low_fresh = w.low_fresh;
  folders_apart =
      Pairs-update_where (λ _. Unit) (λ f g. f.id ≢ g.id) p (λ f. record f { name = name })
        (λ f g _ _ ne. ground arith) s.folders (All-forall (λ _. tt) s.folders) w.folders_apart;
  placed = All-map (λ m h. Placed-rename p name m h) s.messages w.placed;
  stored = w.stored;
  apart = w.apart;
}

pub rename_folder-IsWellFormed :
    {low : ℕ → ℕ}
    → (s : Store) (account id : ℕ) (name : Text) → IsWellFormed low s
    → IsWellFormed low (rename_folder s account id name).0
unfolding rename_folder
rename_folder-IsWellFormed s account id name w = ground (
  arith,
  rename-IsWellFormed s
      (λ (f : Folder). f.id == id && (f.account_id == account && not (eqb f.name inbox_name))) name
      w,
)

-- A file under a fresh name.
pub store_blob-IsWellFormed :
    {low : ℕ → ℕ}
    → (s : Store) (raw : Text) → IsWellFormed low s
    → IsWellFormed low (store_blob s raw).0
unfolding store_blob
store_blob-IsWellFormed s raw w = elim (Bool-cases s.disk_full) [
  | inl full ↦ rw full (record {
    folder_ids = w.folder_ids;
    low_fresh = w.low_fresh;
    folders_apart = w.folders_apart;
    placed = w.placed;
    stored = All-map (λ m h. Stored-later m h) s.messages w.stored;
    apart = w.apart;
  })
  | inr room ↦ rw room (record {
    folder_ids = w.folder_ids;
    low_fresh = w.low_fresh;
    folders_apart = w.folders_apart;
    placed = w.placed;
    stored = All-map (λ m h. Stored-write raw m h) s.messages w.stored;
    apart = w.apart;
  })
]
