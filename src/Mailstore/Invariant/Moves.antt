-- ===== src/Mailstore/Invariant/Moves.antt =====
-- MoveMessages and ExpungeFolder keep a store well-formed.
use cloudpost.Prelude.{
  ==_refl, All, All-forall, All-map, All-update_where, All-zip, Bool, Bool-cases, List,
  Option-cases, Pairs, Pairs-update_where, [], any, ap, arith, false, find_first, if◌then◌else◌,
  inl, inr, keep, not, refl, some, subst, sym, update_where, ℕ, ◌+◌, ◌==◌, ◌∙◌, ◌∷◌, ◌≡◌, ◌≢◌,
}
use cloudpost.Mailstore.Folders.{folder_id_is, remove_blobs}
use cloudpost.Mailstore.Invariant.{Apart, IsWellFormed, Placed, Stored, next_uid_of}
use cloudpost.Mailstore.Invariant.Removal.{remove_rows-IsWellFormed}
use cloudpost.Mailstore.Invariant.Uids.{Placed-below, Placed-bump, next_uid_of-bump}
use cloudpost.Mailstore.Messages.{
  bump_uid, expunge_folder, expunged, move_messages, move_one, move_to, row_is, uid_taken,
}
use cloudpost.Mailstore.Schema.{Folder, Message, Store}

-- A row takes the UID that its new folder hands out.
module _ {low : ℕ → ℕ} (s : Store) (w : IsWellFormed low s) (id to : ℕ) (f : Folder)
    (found : find_first (folder_id_is to) s.folders ≡ some f) where
  abbrev moved : Message → Message
  moved n = record n { folder_id = to; uid = f.next_uid }

  moved-Placed : (m : Message) → Placed (bump_uid to s.folders) (moved m)
  unfolding next_uid_of
  moved-Placed m = record {
    limit = f.next_uid + 1;
    found = next_uid_of-bump to to f.next_uid s.folders (ground (arith, found)) ∙ ground arith;
    below = omega arith;
  }

  moved-Apart :
      (x y : Message)
      → Placed s.folders x
      → Placed s.folders y
      → Apart x y
      → Apart (if x.id == id then moved x else x) (if y.id == id then moved y else y)
  moved-Apart x y hx hy a =
      ground (arith, Placed-below x hx found, Placed-below y hy found, a.ids, a.paths, a.uids)

  move-IsWellFormed : IsWellFormed low (record s {
    folders = bump_uid to s.folders;
    messages = update_where (λ n. n.id == id) moved s.messages;
  })
  unfolding bump_uid
  move-IsWellFormed = record {
    folder_ids =
        All-update_where (folder_id_is to) (λ g. record g { next_uid = g.next_uid + 1 })
          (λ g h _. (h.0, omega arith)) (λ g h _. h) s.folders w.folder_ids;
    low_fresh = w.low_fresh;
    folders_apart =
        Pairs-update_where (λ _. Unit) (λ g h. g.id ≢ h.id) (folder_id_is to)
          (λ g. record g { next_uid = g.next_uid + 1 }) (λ g h _ _ ne. ground arith) s.folders
          (All-forall (λ _. tt) s.folders) w.folders_apart;
    placed =
        All-update_where (λ n. n.id == id) moved (λ m _ _. moved-Placed m)
          (λ m h _. Placed-bump to m h) s.messages w.placed;
    stored =
        All-update_where (λ n. n.id == id) moved
          (λ m h _. record {
            id_below = h.id_below;
            path_below = h.path_below;
            raw = h.raw;
            file = h.file;
          })
          (λ m h _. h) s.messages w.stored;
    apart =
        Pairs-update_where (Placed s.folders) Apart (λ n. n.id == id) moved moved-Apart s.messages
          w.placed w.apart;
  }

-- The UID of a failed update is passed over.
bump-IsWellFormed :
    {low : ℕ → ℕ}
    → (s : Store) (to : ℕ) → IsWellFormed low s
    → IsWellFormed low (record s { folders = bump_uid to s.folders })
unfolding bump_uid
bump-IsWellFormed s to w = record {
  folder_ids =
      All-update_where (folder_id_is to) (λ g. record g { next_uid = g.next_uid + 1 })
        (λ g h _. (h.0, omega arith)) (λ g h _. h) s.folders w.folder_ids;
  low_fresh = w.low_fresh;
  folders_apart =
      Pairs-update_where (λ _. Unit) (λ g h. g.id ≢ h.id) (folder_id_is to)
        (λ g. record g { next_uid = g.next_uid + 1 }) (λ g h _ _ ne. ground arith) s.folders
        (All-forall (λ _. tt) s.folders) w.folders_apart;
  placed = All-map (λ m h. Placed-bump to m h) s.messages w.placed;
  stored = w.stored;
  apart = w.apart;
}

move_to-IsWellFormed :
    {low : ℕ → ℕ}
    → (s : Store) (id to : ℕ) (f : Folder) → find_first (folder_id_is to) s.folders ≡ some f
    → IsWellFormed low s
    → IsWellFormed low (move_to s id to f)
unfolding move_to
move_to-IsWellFormed s id to f e w = elim (Bool-cases (uid_taken to f.next_uid s.messages)) [
  | inl b ↦ rw b (bump-IsWellFormed s to w)
  | inr b ↦ rw b (move-IsWellFormed s w id to f e)
]

pub move_one-IsWellFormed :
    {low : ℕ → ℕ}
    → (s : Store) (account to id : ℕ) → IsWellFormed low s
    → IsWellFormed low (move_one s account to id)
unfolding move_one
move_one-IsWellFormed s account to id w =
    elim (Option-cases (find_first (row_is account id) s.messages)) [
      | inl e ↦ rw (e, move_one) w
      | inr (m, e) ↦
          rw (e, move_one)
            (elim (Bool-cases (m.folder_id == to)) [
              | inl b ↦ rw b w
              | inr b ↦ rw b (elim (Option-cases (find_first (folder_id_is to) s.folders)) [
                | inl e' ↦ rw e' w
                | inr (f, e') ↦ rw e' (move_to-IsWellFormed s id to f e' w)
              ])
            ])
    ]

pub move_messages-IsWellFormed :
    {low : ℕ → ℕ}
    → (s : Store) (account to : ℕ) (ids : List ℕ) → IsWellFormed low s
    → IsWellFormed low (move_messages s account to ids)
unfolding move_messages
move_messages-IsWellFormed s account to [] w = w
move_messages-IsWellFormed s account to (id ∷ ids) w =
    move_messages-IsWellFormed (move_one s account to id) account to ids
      (move_one-IsWellFormed s account to id w)

-- With distinct ids, the rows whose id is among those of the chosen rows are the chosen rows.
module _ (q : Message → Bool) where
  none_of :
      (x : Message) (xs : List Message)
      → All (Apart x) xs
      → any (λ g. x.id == g.id) (keep q xs) ≡ false
  none_of x [] h = refl
  none_of x (y ∷ ys) h = ground (arith, none_of x ys h.1, h.0.ids)

  pub among_chosen :
      (xs : List Message) → Pairs Apart xs → All (λ m. any (λ g. m.id == g.id) (keep q xs) ≡ q m) xs
  among_chosen [] h = tt
  among_chosen (x ∷ xs) h = elim (Bool-cases (q x)) [
    | inl e ↦ (
      rw (e, ==_refl x.id),
      All-map (λ m k. rw e (ground (arith, k.0, k.1.ids))) xs
          (All-zip _ _ xs (among_chosen xs h.1) h.0),
    )
    | inr e ↦ (rw e (none_of x xs h.0), All-map (λ m k. rw e k) xs (among_chosen xs h.1))
  ]

pub keep_congr {ℓ} :
    {A : Type ℓ} (p q : A → Bool) (xs : List A) → All (λ x. p x ≡ q x) xs → keep p xs ≡ keep q xs
keep_congr p q [] h = refl
keep_congr p q (x ∷ xs) h = rw (h.0, keep_congr p q xs h.1)

-- In a well-formed store ExpungeFolder removes exactly the messages of the folder that carry the
-- \Deleted flag; all others stay, in their order.
pub expunge_folder-rows :
    {low : ℕ → ℕ}
    → (s : Store) (folder : ℕ) → IsWellFormed low s
    → (expunge_folder s folder).0.messages ≡ keep (λ m. not (expunged folder m)) s.messages
unfolding expunge_folder
expunge_folder-rows s folder w =
    keep_congr _ _ s.messages
      (All-map (λ m e. ap not e) s.messages (among_chosen (expunged folder) s.messages w.apart))

pub expunge_folder-IsWellFormed :
    {low : ℕ → ℕ}
    → (s : Store) (folder : ℕ) → IsWellFormed low s
    → IsWellFormed low (expunge_folder s folder).0
unfolding expunge_folder
expunge_folder-IsWellFormed s folder w =
    let v = remove_rows-IsWellFormed s (expunged folder) w in
    let e = expunge_folder-rows s folder w in
    record {
      folder_ids = w.folder_ids;
      low_fresh = w.low_fresh;
      folders_apart = w.folders_apart;
      placed = subst (All (Placed s.folders)) (sym e) v.placed;
      stored =
          subst
            (All (
              Stored s.next_message s.next_blob
                (remove_blobs (keep (expunged folder) s.messages) s.blobs)))
            (sym e) v.stored;
      apart = subst (Pairs Apart) (sym e) v.apart;
    }
