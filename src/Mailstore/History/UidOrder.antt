-- ===== src/Mailstore/History/UidOrder.antt =====
-- A folder's next UID never goes down while the folder exists, so that a UID is never handed out
-- twice, and a later delivery has a greater one.
use cloudpost.Prelude.{
  All, All-map, All-zip, Bool-cases, List, Option, Pairs, [], ap, arith, if◌then◌else◌, inl, inr,
  some, subst, ℕ, ◌+◌, ◌<◌, ◌==◌, ◌^◌, ◌∷◌, ◌≡◌, ◌≢◌, ◌≤◌,
}
use cloudpost.Text.{Text}
use cloudpost.Mailstore.Delivered.{deliver-Delivered}
use cloudpost.Mailstore.History.{Op, run}
use cloudpost.Mailstore.History.Keeps.{run-IsWellFormed}
use cloudpost.Mailstore.Invariant.{IsWellFormed, next_uid_of}
use cloudpost.Mailstore.Invariant.Delivery.{deliver-IsWellFormed}
use cloudpost.Mailstore.Messages.{DeliverOpts, deliver}
use cloudpost.Mailstore.Schema.{External, Folder, Store, ok}

found_among :
    (j n next : ℕ) (fs : List Folder)
    → All (λ f. f.id < next) fs
    → next_uid_of j fs ≡ some n
    → j < next
unfolding next_uid_of
found_among j n next [] h e = cc
found_among j n next (f ∷ fs) h e = ground (arith, h.0, found_among j n next fs h.1)

-- No other row has the id of the row that was found.
found_only :
    (j n : ℕ) (fs : List Folder)
    → Pairs (λ f g. f.id ≢ g.id) fs
    → next_uid_of j fs ≡ some n
    → All (λ f. f.id ≡ j → n ≤ f.next_uid) fs
unfolding next_uid_of
found_only j n [] a e = tt
found_only j n (f ∷ fs) a e = elim (Bool-cases (f.id == j)) [
  | inl hit ↦ ((λ q. ground arith), All-map (λ g ne q. absurd (ne (ground (arith, q)))) fs a.0)
  | inr miss ↦ ((λ q. ground arith), found_only j n fs a.1 (ground arith))
]

-- The next UID of a folder as the bound of the invariant.
abbrev bound_at : ℕ → ℕ → ℕ → ℕ
bound_at j n i = if i == j then n else 0

raised :
    {low : ℕ → ℕ} (s : Store) (j n : ℕ)
    → IsWellFormed low s
    → next_uid_of j s.folders ≡ some n
    → IsWellFormed (bound_at j n) s
raised s j n w e =
    let below = All-map (λ f h. h.0) s.folders w.folder_ids in
    let known = found_among j n s.next_folder s.folders below e in
    record {
      folder_ids =
          All-map (λ f h. (h.0, ground (arith, h.1))) s.folders
            (All-zip _ _ s.folders below (found_only j n s.folders w.folders_apart e));
      low_fresh = λ i h. ground (arith, h, known);
      folders_apart = w.folders_apart;
      placed = w.placed;
      stored = w.stored;
      apart = w.apart;
    }

bound_of :
    (j n k : ℕ) (fs : List Folder)
    → All (λ f. bound_at j n f.id ≤ f.next_uid) fs
    → next_uid_of j fs ≡ some k
    → n ≤ k
unfolding next_uid_of
bound_of j n k [] h e = cc
bound_of j n k (f ∷ fs) h e = ground (arith, h.0, bound_of j n k fs h.1)

-- While a folder exists its next UID does not go down, whatever calls are made.
pub next_uid-le-run :
    {low : ℕ → ℕ} (ext : External) (s : Store) (ops : List Op) (j n k : ℕ)
    → IsWellFormed low s
    → next_uid_of j s.folders ≡ some n
    → next_uid_of j (run ext s ops).folders ≡ some k
    → n ≤ k
next_uid-le-run ext s ops j n k w e e' =
    let v = run-IsWellFormed ext s ops (raised s j n w e) in
    bound_of j n k (run ext s ops).folders
      (All-map (λ f h. h.1) (run ext s ops).folders v.folder_ids) e'

-- UIDs grow. From a well-formed store, let a delivery into a folder succeed, then any calls of the
-- store happen, then another delivery into the folder succeed: the first UID is below the second, as
-- long as the folder's next UID has not reached 2^32.
pub uid_order :
    {low : ℕ → ℕ} (ext : External) (s t u v : Store) (ops : List Op) (account account' folder : ℕ)
    (raw raw' : Text) (opts opts' : Option DeliverOpts) (id id' uid uid' : ℕ)
    → IsWellFormed low s
    → deliver ext s account folder raw opts ≡ (t, ok (id, uid))
    → u ≡ run ext t ops
    → deliver ext u account' folder raw' opts' ≡ (v, ok (id', uid'))
    → ((n : ℕ) → next_uid_of folder u.folders ≡ some n → n < 2 ^ 32)
    → uid < uid'
uid_order ext s t u v ops account account' folder raw raw' opts opts' id id' uid uid' w d e d'
      small =
    let first = deliver-Delivered ext s t account folder raw opts id uid d in
    let later = deliver-Delivered ext u v account' folder raw' opts' id' uid' d' in
    let k = later.given in
    let le =
      next_uid-le-run ext t ops folder (first.given + 1) k
        (subst (IsWellFormed _) (ap (λ p. p.0) d)
          (deliver-IsWellFormed ext s account folder raw opts w))
        first.after (subst (λ x. next_uid_of folder x.folders ≡ some k) e later.before) in
    let lt = small k later.before in omega (arith, first.reported, later.reported)
