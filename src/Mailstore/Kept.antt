-- ===== src/Mailstore/Kept.antt =====
-- Which messages can still be read after a delivery or a deletion.
use cloudpost.Prelude.{
  All, All-keep_if, All-map, Bool, Bool-cases, List, Option, Option-cases, Pairs, [], ap,
  append-nil, arith, find_first, inl, inr, keep, none, not, refl, some, subst, sym, true, ℕ, ◌++◌,
  ◌+◌, ◌<◌, ◌∙◌, ◌∷◌, ◌≡◌, ◌≢◌, ◌≤◌, ◌⊎◌,
}
use cloudpost.Text.{Text}
use cloudpost.Mailstore.Delivered.{get_message_found, get_message_raw_found}
use cloudpost.Mailstore.Folders.{folder_id_is}
use cloudpost.Mailstore.Invariant.{Apart, IsWellFormed}
use cloudpost.Mailstore.Invariant.Delivery.{store_blob_full, store_blob_room}
use cloudpost.Mailstore.Invariant.Files.{read_file-remove_blobs}
use cloudpost.Mailstore.Messages.{
  DeliverOpts, delete_messages, delete_one, deliver, get_message, get_message_raw, insert_row,
  insert_under, may_insert, new_row, row_is,
}
use cloudpost.Mailstore.Schema.{
  Error, External, Folder, Message, ParsedInfo, Result, Store, err, no_file, no_rows, ok, read_file,
}

pub All-find {ℓ κ} :
    {A : Type ℓ} (P : A → Type κ) (p : A → Bool) (xs : List A) (x : A)
    → All P xs
    → find_first p xs ≡ some x
    → P x
All-find P p [] x h e = cc
All-find {A = A} P p (y ∷ xs) x h e = elim (Bool-cases (p y)) [
  | inl t ↦ subst P (same (rw t at e)) h.0
  | inr t ↦ All-find P p xs x h.1 (rw t at e)
]
  where
    same : ◌≡◌ {A = Option A} (some y) (some x) → y ≡ x
    same q = cc

find-append {ℓ} :
    {A : Type ℓ} (p : A → Bool) (xs ys : List A) (x : A)
    → find_first p xs ≡ some x
    → find_first p (xs ++ ys) ≡ some x
find-append p [] ys x e = cc
find-append p (y ∷ xs) ys x e = elim (Bool-cases (p y)) [
  | inl t ↦ rw t (rw t at e)
  | inr t ↦ rw t (find-append p xs ys x (rw t at e))
]

abbrev pub fst_of : Text → Result (Text × Message) → Text
fst_of t (ok p) = p.0
fst_of t (err e) = t

abbrev snd_of : Message → Result (Text × Message) → Message
snd_of m (ok p) = p.1
snd_of m (err e) = m

missing_row :
    (s : Store) (account id : ℕ)
    → find_first (row_is account id) s.messages ≡ none
    → get_message s account id ≡ err no_rows
unfolding get_message
missing_row s account id e = rw e refl

-- A message that can be read has a row and a file.
pub get_message_raw_row :
    (s : Store) (account id : ℕ) (raw : Text) (m : Message)
    → get_message_raw s account id ≡ ok (raw, m)
    → (find_first (row_is account id) s.messages ≡ some m)
      × (read_file m.raw_path s.blobs ≡ some raw)
unfolding get_message_raw
get_message_raw_row s account id raw m h =
    elim (Option-cases (find_first (row_is account id) s.messages)) [
      | inl e ↦ absurd (refused no_rows (rw (missing_row s account id e, get_message_raw) at h))
      | inr (n, e) ↦ row n e (Option-cases (read_file n.raw_path s.blobs))
    ]
  where
    refused : (x : Error) → ◌≡◌ {A = Result (Text × Message)} (err x) (ok (raw, m)) → ⊥
    refused x q = cc

    same :
        (n : Message) (t : Text)
        → ◌≡◌ {A = Result (Text × Message)} (ok (t, n)) (ok (raw, m))
        → (t ≡ raw) × (n ≡ m)
    same n t q = (ap (λ r. fst_of raw r) q, ap (λ r. snd_of m r) q)

    row :
        (n : Message)
        → find_first (row_is account id) s.messages ≡ some n
        → (read_file n.raw_path s.blobs ≡ none)
          ⊎ ((t : Text) × (read_file n.raw_path s.blobs ≡ some t))
        → (find_first (row_is account id) s.messages ≡ some m)
          × (read_file m.raw_path s.blobs ≡ some raw)
    row n e (inl f) =
        absurd (refused no_file (rw (get_message_found s account id n e, get_message_raw, f) at h))
    row n e (inr (t, f)) =
        let q = same n t (rw (get_message_found s account id n e, get_message_raw, f) at h) in
        (
          e ∙ ap some q.1,
          subst (λ k. read_file k.raw_path s.blobs ≡ some raw) q.1 (f ∙ ap some q.0),
        )

first_is : {x m : Message} → ◌≡◌ {A = Option Message} (some x) (some m) → x ≡ m
first_is q = cc

-- A file that a message has is no other message's.
own_file :
    (p : Message → Bool) (xs : List Message) (m : Message)
    → Pairs Apart xs
    → find_first p xs ≡ some m
    → All (λ n. n.id ≢ m.id → m.raw_path ≢ n.raw_path) xs
own_file p [] m h e = tt
own_file p (x ∷ xs) m h e = elim (Bool-cases (p x)) [
  | inl t ↦
      subst (λ y. All (λ n. n.id ≢ y.id → y.raw_path ≢ n.raw_path) (x ∷ xs)) (first_is (rw t at e))
        ((λ ne. absurd (ne refl)), All-map (λ n a _. a.paths) xs h.0)
  | inr t ↦
      let rest = rw t at e in
      (λ _ q. (All-find (Apart x) p xs m h.0 rest).paths (sym q), own_file p xs m h.1 rest)
]

-- Rows come behind, and the files that were there are still there.
pub record Grown (s t : Store) : Type 0 where
  pub more : List Message
  pub rows : t.messages ≡ s.messages ++ more
  pub counts : s.next_message ≤ t.next_message
  pub rules : t.filters ≡ s.filters
  pub files : (p : ℕ) → p < s.next_blob → read_file p t.blobs ≡ read_file p s.blobs

insert_under-Grown :
    (info : ParsedInfo) (opts : Option DeliverOpts) (s : Store) (account folder : ℕ) (raw : Text)
    (path : ℕ) (o : Option Folder)
    → Grown s (insert_under info opts s account folder raw path o).0
unfolding insert_under
insert_under-Grown info opts s account folder raw path none = record {
  more = [];
  rows = sym (append-nil s.messages);
  counts = omega arith;
  rules = refl;
  files = λ p h. refl;
}
insert_under-Grown info opts s account folder raw path (some f) =
    elim (Bool-cases (may_insert s account folder f.next_uid)) [
      | inl b ↦ rw b (record {
        more = new_row info opts s account folder f.next_uid raw path ∷ [];
        rows = refl;
        counts = omega arith;
        rules = refl;
        files = λ p h. refl;
      })
      | inr b ↦ rw b (record {
        more = [];
        rows = sym (append-nil s.messages);
        counts = omega arith;
        rules = refl;
        files = λ p h. refl;
      })
    ]

pub deliver-Grown :
    (ext : External) (s : Store) (account folder : ℕ) (raw : Text) (opts : Option DeliverOpts)
    → Grown s (deliver ext s account folder raw opts).0
unfolding deliver
deliver-Grown ext s account folder raw opts = elim (Bool-cases s.disk_full) [
  | inl full ↦
      rw (store_blob_full s raw full, deliver)
        (record {
          more = [];
          rows = sym (append-nil s.messages);
          counts = omega arith;
          rules = refl;
          files = λ p h. refl;
        })
  | inr room ↦
      rw (store_blob_room s raw room, deliver)
        (widen (
          unfold insert_row in
          insert_under-Grown (ext.parse_headers s.clock raw) opts written account folder raw
            s.next_blob (find_first (folder_id_is folder) s.folders)))
]
  where
    written : Store
    written = record s { blobs = (s.next_blob, raw) ∷ s.blobs; next_blob = s.next_blob + 1 }

    widen : {t : Store} → Grown written t → Grown s t
    widen g = record {
      more = g.more;
      rows = g.rows;
      counts = g.counts;
      rules = g.rules;
      files = λ p h. g.files p (omega arith) ∙ (unfold read_file in ground arith);
    }

-- In a well-formed store a delivery, whether it succeeds or not, leaves every message that could be
-- read as it was, with its text.
pub get_message_raw-deliver_kept :
    {low : ℕ → ℕ} (ext : External) (s : Store) (account folder : ℕ) (raw : Text)
    (opts : Option DeliverOpts) (owner id : ℕ) (text : Text) (m : Message)
    → IsWellFormed low s
    → get_message_raw s owner id ≡ ok (text, m)
    → get_message_raw (deliver ext s account folder raw opts).0 owner id ≡ ok (text, m)
get_message_raw-deliver_kept ext s account folder raw opts owner id text m w h =
    let (row, file) = get_message_raw_row s owner id text m h in
    let g = deliver-Grown ext s account folder raw opts in
    let st = All-find _ (row_is owner id) s.messages m w.stored row in
    get_message_raw_found (deliver ext s account folder raw opts).0 owner id m text
      (ap (find_first (row_is owner id)) g.rows
        ∙ find-append (row_is owner id) s.messages g.more m row)
      (g.files m.raw_path st.path_below ∙ file)

pub row_names :
    (account id : ℕ) (xs : List Message) (m : Message)
    → find_first (row_is account id) xs ≡ some m
    → (m.id ≡ id) × (m.account_id ≡ account)
row_names account id [] m e = cc
row_names account id (x ∷ xs) m e = elim (Bool-cases (row_is account id x)) [
  | inl t ↦
      subst (λ y. (y.id ≡ id) × (y.account_id ≡ account)) (first_is (rw t at e)) (ground arith)
  | inr t ↦ row_names account id xs m (rw t at e)
]

other_id :
    (account gone id : ℕ) (n m : Message)
    → id ≢ gone
    → m.id ≡ id
    → row_is account gone n ≡ true
    → n.id ≢ m.id
other_id account gone id n m ne e q = ground arith

find-without :
    (owner id account gone : ℕ) (xs : List Message)
    → id ≢ gone
    → find_first (row_is owner id) (keep (λ n. not (row_is account gone n)) xs)
      ≡ find_first (row_is owner id) xs
find-without owner id account gone [] ne = refl
find-without owner id account gone (x ∷ xs) ne =
    ground (arith, find-without owner id account gone xs ne)

-- In a well-formed store, deleting a message leaves every message with another id, of any account,
-- readable with its text.
pub get_message_raw-delete_kept :
    {low : ℕ → ℕ} (s : Store) (account gone owner id : ℕ) (text : Text) (m : Message)
    → IsWellFormed low s
    → id ≢ gone
    → get_message_raw s owner id ≡ ok (text, m)
    → get_message_raw (delete_messages s account (gone ∷ [])) owner id ≡ ok (text, m)
unfolding delete_messages delete_one
get_message_raw-delete_kept s account gone owner id text m w ne h =
    let (row, file) = get_message_raw_row s owner id text m h in
    get_message_raw_found _ owner id m text (find-without owner id account gone s.messages ne ∙ row)
      (read_file-remove_blobs m.raw_path (keep (row_is account gone) s.messages) s.blobs (
          All-keep_if _ (row_is account gone) s.messages (
            All-map
              (λ n apart q.
                apart (other_id account gone id n m ne (row_names owner id s.messages m row).0 q))
              s.messages (own_file (row_is owner id) s.messages m w.apart row)))
        ∙ file)

-- A text can be read as a message of the account with that id.
abbrev pub Reads : Store → ℕ → ℕ → Text → Type 0
Reads s account id raw = (m : Message) × (get_message_raw s account id ≡ ok (raw, m))

pub below_next :
    {low : ℕ → ℕ} (s : Store) (account id : ℕ) (raw : Text) (m : Message)
    → IsWellFormed low s
    → get_message_raw s account id ≡ ok (raw, m)
    → id < s.next_message
below_next s account id raw m w h =
    let row = (get_message_raw_row s account id raw m h).0 in
    let st = All-find _ (row_is account id) s.messages m w.stored row in
    omega (arith, st.id_below, (row_names account id s.messages m row).0)
