-- ===== src/Mailstore/Invariant/Delivery.antt =====
-- Deliver keeps a store well-formed.
use cloudpost.Prelude.{
  All, All-append, All-forall, All-map, All-update_where, All-zip, Bool-cases, Option, Option-cases,
  Pairs-concat, Pairs-update_where, [], arith, false, find_first, inl, inr, refl, some, true, ℕ,
  ◌++◌, ◌+◌, ◌<◌, ◌∙◌, ◌∷◌, ◌≡◌, ◌≢◌,
}
use cloudpost.Text.{Text}
use cloudpost.Mailstore.Folders.{folder_id_is}
use cloudpost.Mailstore.Invariant.{Apart, IsWellFormed, Placed, Stored, next_uid_of}
use cloudpost.Mailstore.Invariant.Files.{Stored-counted}
use cloudpost.Mailstore.Invariant.Steps.{store_blob-IsWellFormed}
use cloudpost.Mailstore.Invariant.Uids.{Placed-below, Placed-bump, next_uid_of-bump}
use cloudpost.Mailstore.Messages.{
  DeliverOpts, bump_uid, deliver, insert_row, may_insert, new_row, store_blob,
}
use cloudpost.Mailstore.Schema.{
  External, Folder, Message, ParsedInfo, Store, err, no_space, ok, read_file,
}

-- The transaction: the folder's next UID goes up and a row under it comes in.
module _ {low : ℕ → ℕ} (s : Store) (r : Message) (f : Folder)
    (found : find_first (folder_id_is r.folder_id) s.folders ≡ some f)
    (id_is : r.id ≡ s.next_message) (uid_is : r.uid ≡ f.next_uid) (w : IsWellFormed low s)
    (raw : Text) (named_below : r.raw_path < s.next_blob)
    (written : read_file r.raw_path s.blobs ≡ some raw)
    (fresh : All (λ m. m.raw_path ≢ r.raw_path) s.messages) where
  new-Placed : Placed (bump_uid r.folder_id s.folders) r
  unfolding next_uid_of
  new-Placed = record {
    limit = f.next_uid + 1;
    found =
        next_uid_of-bump r.folder_id r.folder_id f.next_uid s.folders (ground (arith, found))
        ∙ ground arith;
    below = omega arith;
  }

  new-Apart :
      (m : Message)
      → Placed s.folders m × m.raw_path ≢ r.raw_path
      → m.id < s.next_message
      → Apart m r
  new-Apart m (h, ne) lt = record {
    ids = omega arith;
    paths = ne;
    uids = λ e. let b = Placed-below m h found e in omega (arith, b);
  }

  insertion-IsWellFormed : IsWellFormed low (record s {
    folders = bump_uid r.folder_id s.folders;
    messages = s.messages ++ r ∷ [];
    next_message = s.next_message + 1;
  })
  unfolding bump_uid
  insertion-IsWellFormed = record {
    folder_ids =
        All-update_where (folder_id_is r.folder_id) (λ g. record g { next_uid = g.next_uid + 1 })
          (λ g h _. (h.0, omega arith)) (λ g h _. h) s.folders w.folder_ids;
    low_fresh = w.low_fresh;
    folders_apart =
        Pairs-update_where (λ _. Unit) (λ g h. g.id ≢ h.id) (folder_id_is r.folder_id)
          (λ g. record g { next_uid = g.next_uid + 1 }) (λ g h _ _ ne. ground arith) s.folders
          (All-forall (λ _. tt) s.folders) w.folders_apart;
    placed =
        All-append (Placed _) s.messages (r ∷ [])
          (All-map (λ m h. Placed-bump r.folder_id m h) s.messages w.placed) (new-Placed, tt);
    stored =
        All-append (Stored _ _ _) s.messages (r ∷ [])
          (All-map (λ m h. Stored-counted m h) s.messages w.stored)
          (
            record { id_below = omega arith; path_below = named_below; raw = raw; file = written },
            tt,
          );
    apart = Pairs-concat Apart r s.messages w.apart (
        All-map (λ m h. new-Apart m h.0 h.1.id_below) s.messages
          (All-zip _ _ s.messages (All-zip _ _ s.messages w.placed fresh) w.stored));
  }

insert_row-IsWellFormed :
    {low : ℕ → ℕ}
    → (info : ParsedInfo) (opts : Option DeliverOpts) (s : Store) (account folder : ℕ) (raw : Text)
      (path : ℕ)
    → IsWellFormed low s
    → path < s.next_blob
    → read_file path s.blobs ≡ some raw
    → All (λ m. m.raw_path ≢ path) s.messages
    → IsWellFormed low (insert_row info opts s account folder raw path).0
unfolding insert_row new_row
insert_row-IsWellFormed info opts s account folder raw path w lt wr fresh =
    elim (Option-cases (find_first (folder_id_is folder) s.folders)) [
      | inl e ↦ rw e w
      | inr (f, e) ↦ rw e (elim (Bool-cases (may_insert s account folder f.next_uid)) [
        | inl b ↦ rw b (
            insertion-IsWellFormed s (new_row info opts s account folder f.next_uid raw path) f e
              refl refl w raw lt wr fresh)
        | inr b ↦ rw b w
      ])
    ]

pub store_blob_full :
    (s : Store) (raw : Text)
    → s.disk_full ≡ true
    → store_blob s raw ≡ (record s { next_blob = s.next_blob + 1 }, err no_space)
unfolding store_blob
store_blob_full s raw h = ground arith

pub store_blob_room :
    (s : Store) (raw : Text)
    → s.disk_full ≡ false
    → store_blob s raw ≡ (
      record s { blobs = (s.next_blob, raw) ∷ s.blobs; next_blob = s.next_blob + 1 },
      ok s.next_blob,
    )
unfolding store_blob
store_blob_room s raw h = ground arith

pub deliver-IsWellFormed :
    {low : ℕ → ℕ}
    → (ext : External) (s : Store) (account folder : ℕ) (raw : Text) (opts : Option DeliverOpts)
    → IsWellFormed low s
    → IsWellFormed low (deliver ext s account folder raw opts).0
unfolding deliver
deliver-IsWellFormed ext s account folder raw opts w = elim (Bool-cases s.disk_full) [
  | inl full ↦
      let e = store_blob_full s raw full in
      rw (e, deliver) (rw e at (store_blob-IsWellFormed s raw w))
  | inr room ↦
      let e = store_blob_room s raw room in
      rw (e, deliver)
        (insert_row-IsWellFormed (ext.parse_headers s.clock raw) opts
          (record s { blobs = (s.next_blob, raw) ∷ s.blobs; next_blob = s.next_blob + 1 }) account
          folder raw s.next_blob (rw e at (store_blob-IsWellFormed s raw w)) (omega arith)
          (unfold read_file in ground arith)
          (All-map (λ m h. omega (arith, h.path_below)) s.messages w.stored))
]
