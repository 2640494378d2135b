-- ===== src/Mailstore/Delivered.antt =====
-- What a successful Deliver has done: the row that it inserted, and the blob that can be read back.
use cloudpost.Prelude.{
  All, All-map, Bool-cases, List, Option, [], ap, arith, find_first, inl, inr, length, none, refl,
  some, subst, sym, ℕ, ◌%◌, ◌++◌, ◌+◌, ◌<◌, ◌^◌, ◌∙◌, ◌∷◌, ◌≡◌,
}
use cloudpost.Text.{Text}
use cloudpost.Mailstore.Folders.{folder_id_is}
use cloudpost.Mailstore.Invariant.{IsWellFormed, next_uid_of, uid_field}
use cloudpost.Mailstore.Invariant.Delivery.{store_blob_full, store_blob_room}
use cloudpost.Mailstore.Invariant.Uids.{next_uid_of-bump}
use cloudpost.Mailstore.Messages.{
  DeliverOpts, deliver, get_message, get_message_raw, insert_row, insert_under, may_insert, new_row,
  row_is, with_row,
}
use cloudpost.Mailstore.Schema.{
  External, Folder, Message, ParsedInfo, Result, Store, constraint, err, no_space, ok, read_file,
}

-- The row is the last one, under the folder's next UID, with its file.
pub record Delivered (s t : Store) (account folder : ℕ) (raw : Text) (id uid : ℕ) : Type 0 where
  pub given : ℕ
  pub row : Message
  pub before : next_uid_of folder s.folders ≡ some given
  pub reported : uid ≡ given % 2 ^ 32
  pub after : next_uid_of folder t.folders ≡ some (given + 1)
  pub messages : t.messages ≡ s.messages ++ row ∷ []
  pub id_is : id ≡ s.next_message
  pub row_id : row.id ≡ id
  pub row_account : row.account_id ≡ account
  pub row_folder : row.folder_id ≡ folder
  pub row_uid : row.uid ≡ given
  pub row_size : row.size ≡ length raw
  pub file : read_file row.raw_path t.blobs ≡ some raw

insert_under-Delivered :
    (info : ParsedInfo) (opts : Option DeliverOpts) (s t : Store) (account folder : ℕ) (raw : Text)
    (path : ℕ) (o : Option Folder) (id uid : ℕ)
    → read_file path s.blobs ≡ some raw
    → find_first (folder_id_is folder) s.folders ≡ o
    → insert_under info opts s account folder raw path o ≡ (t, ok (id, uid))
    → Delivered s t account folder raw id uid
unfolding insert_under
insert_under-Delivered info opts s t account folder raw path none id uid wr e h = cc
insert_under-Delivered info opts s t account folder raw path (some f) id uid wr e h =
    elim (Bool-cases (may_insert s account folder f.next_uid)) [
      | inl b ↦ inserted (rw b at h)
      | inr b ↦ absurd (refused (rw b at h))
    ]
  where
    row : Message
    row = new_row info opts s account folder f.next_uid raw path

    found : next_uid_of folder s.folders ≡ some f.next_uid
    found = unfold next_uid_of in ap uid_field e

    refused : ◌≡◌ {A = Store × Result (ℕ × ℕ)} (s, err constraint) (t, ok (id, uid)) → ⊥
    refused q = cc (ap (λ p. p.1) q)

    inserted :
        ◌≡◌ {A = Store × Result (ℕ × ℕ)}
          (with_row s folder row, ok (s.next_message, f.next_uid % 2 ^ 32))
          (t, ok (id, uid))
        → Delivered s t account folder raw id uid
    inserted q =
        subst (λ x. Delivered s x account folder raw id uid) (ap (λ p. p.0) q)
          (record {
            given = f.next_uid;
            row = row;
            before = found;
            reported = ground arith;
            after = next_uid_of-bump folder folder f.next_uid s.folders found ∙ ground arith;
            messages = refl;
            id_is = ground arith;
            row_id = unfold new_row in ground arith;
            row_account = unfold new_row in refl;
            row_folder = unfold new_row in refl;
            row_uid = unfold new_row in refl;
            row_size = unfold new_row in refl;
            file = unfold new_row in wr;
          })

pub deliver-Delivered :
    (ext : External) (s t : Store) (account folder : ℕ) (raw : Text) (opts : Option DeliverOpts)
    (id uid : ℕ)
    → deliver ext s account folder raw opts ≡ (t, ok (id, uid))
    → Delivered s t account folder raw id uid
unfolding deliver
deliver-Delivered ext s t account folder raw opts id uid h = elim (Bool-cases s.disk_full) [
  | inl full ↦ absurd (no_row (rw (store_blob_full s raw full, deliver) at h))
  | inr room ↦ widen (
      insert_under-Delivered (ext.parse_headers s.clock raw) opts written t account folder raw
        s.next_blob (find_first (folder_id_is folder) s.folders) id uid
        (unfold read_file in ground arith) refl
        (unfold insert_row in rw (store_blob_room s raw room, deliver) at h))
]
  where
    written : Store
    written = record s { blobs = (s.next_blob, raw) ∷ s.blobs; next_blob = s.next_blob + 1 }

    no_row :
        ◌≡◌ {A = Store × Result (ℕ × ℕ)}
          (record s { next_blob = s.next_blob + 1 }, err no_space)
          (t, ok (id, uid))
        → ⊥
    no_row q = cc (ap (λ p. p.1) q)

    widen : Delivered written t account folder raw id uid → Delivered s t account folder raw id uid
    widen d = record {
      given = d.given;
      row = d.row;
      before = d.before;
      reported = d.reported;
      after = d.after;
      messages = d.messages;
      id_is = d.id_is;
      row_id = d.row_id;
      row_account = d.row_account;
      row_folder = d.row_folder;
      row_uid = d.row_uid;
      row_size = d.row_size;
      file = d.file;
    }

-- A row behind rows with smaller ids is the one that its id finds.
find_last :
    (account : ℕ) (row : Message) (xs : List Message)
    → row.account_id ≡ account
    → All (λ m. m.id < row.id) xs
    → find_first (row_is account row.id) (xs ++ row ∷ []) ≡ some row
find_last account row [] e h = ground arith
find_last account row (x ∷ xs) e h = ground (arith, h.0, find_last account row xs e h.1)

pub get_message_found :
    (s : Store) (account id : ℕ) (m : Message)
    → find_first (row_is account id) s.messages ≡ some m
    → get_message s account id ≡ ok m
unfolding get_message
get_message_found s account id m e = rw e

pub get_message_raw_found :
    (s : Store) (account id : ℕ) (m : Message) (raw : Text)
    → find_first (row_is account id) s.messages ≡ some m
    → read_file m.raw_path s.blobs ≡ some raw
    → get_message_raw s account id ≡ ok (raw, m)
unfolding get_message_raw
get_message_raw_found s account id m raw e f =
    rw (get_message_found s account id m e, get_message_raw) (rw f)

row_found :
    (account id : ℕ) (row : Message) (xs ys : List Message)
    → ys ≡ xs ++ row ∷ []
    → row.id ≡ id
    → row.account_id ≡ account
    → All (λ m. m.id < id) xs
    → find_first (row_is account id) ys ≡ some row
row_found account id row xs ys e i a h =
    subst (λ zs. find_first (row_is account id) zs ≡ some row) (sym e)
      (subst (λ k. find_first (row_is account k) (xs ++ row ∷ []) ≡ some row) i
        (find_last account row xs a (All-map (λ m q. omega arith) xs h)))

-- In a well-formed store, a delivery that succeeds returns the id of a message of the account in
-- the folder, whose raw text is read back byte for byte, and whose size is that of the text.
pub get_message_raw-deliver :
    {low : ℕ → ℕ} (ext : External) (s t : Store) (account folder : ℕ) (raw : Text)
    (opts : Option DeliverOpts) (id uid : ℕ)
    → IsWellFormed low s
    → deliver ext s account folder raw opts ≡ (t, ok (id, uid))
    → (m : Message) × (get_message_raw t account id ≡ ok (raw, m))
      × (m.folder_id ≡ folder)
      × (m.size ≡ length raw)
get_message_raw-deliver ext s t account folder raw opts id uid w h =
    let d = deliver-Delivered ext s t account folder raw opts id uid h in
    let found =
      row_found account id d.row s.messages t.messages d.messages d.row_id d.row_account
        (All-map (λ m st. omega (arith, st.id_below, d.id_is)) s.messages w.stored) in
    (d.row, get_message_raw_found t account id d.row raw found d.file, d.row_folder, d.row_size)
