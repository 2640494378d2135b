-- ===== src/Mailstore/Invariant/Removal.antt =====
-- The operations that remove rows and files keep a store well-formed.
use cloudpost.Prelude.{
  All, All-keep, All-keep_if, All-map, All-zip, Bool, Bool-cases, List, Option-cases, Pairs,
  Pairs-keep, [], arith, false, find_first, inl, inr, keep, not, sym, true, ℕ, ◌&&◌, ◌==◌, ◌∙◌, ◌∷◌,
  ◌≡◌, ◌≢◌,
}
use cloudpost.Text.{Text, eqb}
use cloudpost.Mailstore.Folders.{delete_folder, inbox_name, remove_blobs}
use cloudpost.Mailstore.Invariant.{Apart, IsWellFormed, Stored}
use cloudpost.Mailstore.Invariant.Files.{read_file-remove_blobs}
use cloudpost.Mailstore.Invariant.Uids.{Placed-without}
use cloudpost.Mailstore.Messages.{delete_messages, delete_one, row_is}
use cloudpost.Mailstore.Schema.{Message, Store}

-- Files of rows that pass a test go, and so do at least those rows: a row that stays has a path
-- of its own, so its file stays.
Stored-remove_blobs :
    {ids names : ℕ} {files : List (ℕ × Text)} (gone : List Message) (m : Message)
    → Stored ids names files m
    → All (λ g. m.raw_path ≢ g.raw_path) gone
    → Stored ids names (remove_blobs gone files) m
Stored-remove_blobs {ids} {names} {files} gone m h ne = record {
  id_below = h.id_below;
  path_below = h.path_below;
  raw = h.raw;
  file = read_file-remove_blobs m.raw_path gone files ne ∙ h.file;
}

-- The rows that pass `p` have other paths than a row that does not.
Apart-from_kept :
    (p : Message → Bool) (m : Message) (xs : List Message)
    → All (Apart m) xs
    → All (λ g. m.raw_path ≢ g.raw_path) (keep p xs)
Apart-from_kept p m xs h =
    All-keep (λ g. m.raw_path ≢ g.raw_path) p xs (All-map (λ g a. a.paths) xs h)

-- A row x stays only if it fails the test.
module _ (p : Message → Bool) where
  stay-Apart :
      (x : Message) (xs : List Message)
      → p x ≡ true
      → All (Apart x) xs
      → All (λ m. p m ≡ false → All (λ g. m.raw_path ≢ g.raw_path) (keep p xs)) xs
      → All (λ m. p m ≡ false → All (λ g. m.raw_path ≢ g.raw_path) (keep p (x ∷ xs))) xs
  stay-Apart x xs e a h =
      All-map (λ m q f. rw e ((λ c. q.0.paths (sym c)), q.1 f)) xs (All-zip (Apart x) _ xs a h)

  paths-Apart :
      (xs : List Message)
      → Pairs Apart xs
      → All (λ m. p m ≡ false → All (λ g. m.raw_path ≢ g.raw_path) (keep p xs)) xs
  paths-Apart [] h = tt
  paths-Apart (x ∷ xs) h = elim (Bool-cases (p x)) [
    | inl e ↦ ((λ f. cc), stay-Apart x xs e h.0 (paths-Apart xs h.1))
    | inr e ↦ (
      (λ f. rw e (Apart-from_kept p x xs h.0)),
      All-map (λ m q f. rw e (q f)) xs (paths-Apart xs h.1),
    )
  ]

  -- `r` keeps no row whose file goes.
  pub remaining :
      (r : Message → Bool)
      → ((m : Message) → r m ≡ true → p m ≡ false)
      → (ids names : ℕ) (files : List (ℕ × Text)) (xs : List Message) → Pairs Apart xs
      → All (Stored ids names files) xs
      → All (Stored ids names (remove_blobs (keep p xs) files)) (keep r xs)
  remaining r spares ids names files xs a st = All-keep_if _ r xs (
      All-map (λ m q e. Stored-remove_blobs (keep p xs) m q.0 (q.1 (spares m e))) xs
        (All-zip _ _ xs st (paths-Apart xs a)))

-- The rows that pass the test go with their files.
pub remove_rows-IsWellFormed :
    {low : ℕ → ℕ}
    → (s : Store) (p : Message → Bool) → IsWellFormed low s
    → IsWellFormed low (record s {
      blobs = remove_blobs (keep p s.messages) s.blobs;
      messages = keep (λ m. not (p m)) s.messages;
    })
remove_rows-IsWellFormed s p w = record {
  folder_ids = w.folder_ids;
  low_fresh = w.low_fresh;
  folders_apart = w.folders_apart;
  placed = All-keep _ (λ m. not (p m)) s.messages w.placed;
  stored = remaining p (λ m. not (p m)) (λ m e. ground arith) _ _ _ s.messages w.apart w.stored;
  apart = Pairs-keep Apart (λ m. not (p m)) s.messages w.apart;
}

pub delete_one-IsWellFormed :
    {low : ℕ → ℕ}
    → (s : Store) (account id : ℕ) → IsWellFormed low s
    → IsWellFormed low (delete_one s account id)
unfolding delete_one
delete_one-IsWellFormed s account id w = remove_rows-IsWellFormed s (row_is account id) w

pub delete_messages-IsWellFormed :
    {low : ℕ → ℕ}
    → (s : Store) (account : ℕ) (ids : List ℕ) → IsWellFormed low s
    → IsWellFormed low (delete_messages s account ids)
unfolding delete_messages
delete_messages-IsWellFormed s account [] w = w
delete_messages-IsWellFormed s account (id ∷ ids) w =
    delete_messages-IsWellFormed (delete_one s account id) account ids
      (delete_one-IsWellFormed s account id w)

pub delete_folder-IsWellFormed :
    {low : ℕ → ℕ}
    → (s : Store) (account id : ℕ) → IsWellFormed low s
    → IsWellFormed low (delete_folder s account id).0
unfolding delete_folder
delete_folder-IsWellFormed s account id w =
    elim (Option-cases (find_first (λ f. f.id == id && f.account_id == account) s.folders)) [
      | inl e ↦ rw (e, delete_folder) w
      | inr (f, e) ↦
          rw (e, delete_folder)
            (elim (Bool-cases (eqb f.name inbox_name)) [
              | inl b ↦ rw b w
              | inr b ↦ rw b (
                  let v = remove_rows-IsWellFormed s (λ m. m.folder_id == id) w in
                  record {
                    folder_ids = All-keep _ (λ g. not (g.id == id)) s.folders w.folder_ids;
                    low_fresh = w.low_fresh;
                    folders_apart = Pairs-keep _ (λ g. not (g.id == id)) s.folders w.folders_apart;
                    placed =
                        All-keep_if _ (λ m. not (m.folder_id == id)) s.messages
                          (All-map (λ m h q. Placed-without id m h (ground arith)) s.messages
                            w.placed);
                    stored = v.stored;
                    apart = v.apart;
                  })
            ])
    ]
