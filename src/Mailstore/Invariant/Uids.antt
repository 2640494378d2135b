-- ===== src/Mailstore/Invariant/Uids.antt =====
-- What the folder operations do to the next_uid of each folder.
use cloudpost.Prelude.{
  Bool, List, [], arith, false, find_first, if◌then◌else◌, keep, not, refl, some, update_where, ℕ,
  ◌++◌, ◌+◌, ◌<◌, ◌==◌, ◌∙◌, ◌∷◌, ◌≡◌, ◌≢◌,
}
use cloudpost.Text.{Text}
use cloudpost.Mailstore.Accounts.{in_folder_of}
use cloudpost.Mailstore.Folders.{folder_id_is}
use cloudpost.Mailstore.Invariant.{Placed, next_uid_of}
use cloudpost.Mailstore.Messages.{bump_uid}
use cloudpost.Mailstore.Schema.{Folder, Message}

pub next_uid_of-bump :
    (i j n : ℕ) (fs : List Folder)
    → next_uid_of j fs ≡ some n
    → next_uid_of j (bump_uid i fs) ≡ some (if j == i then n + 1 else n)
unfolding next_uid_of bump_uid
next_uid_of-bump i j n [] h = cc
next_uid_of-bump i j n (f ∷ fs) h = ground (arith, next_uid_of-bump i j n fs)

pub next_uid_of-append :
    (j n : ℕ) (fs gs : List Folder) → next_uid_of j fs ≡ some n → next_uid_of j (fs ++ gs) ≡ some n
unfolding next_uid_of
next_uid_of-append j n [] gs h = cc
next_uid_of-append j n (f ∷ fs) gs h = ground (arith, next_uid_of-append j n fs gs)

pub next_uid_of-without :
    (i j n : ℕ) (fs : List Folder)
    → j ≢ i
    → next_uid_of j fs ≡ some n
    → next_uid_of j (keep (λ f. not (f.id == i)) fs) ≡ some n
unfolding next_uid_of
next_uid_of-without i j n [] ne h = cc
next_uid_of-without i j n (f ∷ fs) ne h = ground (arith, next_uid_of-without i j n fs)

pub next_uid_of-rename :
    (j : ℕ) (name : Text) (p : Folder → Bool) (fs : List Folder)
    → next_uid_of j (update_where p (λ f. record f { name = name }) fs) ≡ next_uid_of j fs
unfolding next_uid_of
next_uid_of-rename j name p [] = refl
next_uid_of-rename j name p (f ∷ fs) = ground (arith, next_uid_of-rename j name p fs)

pub Placed-bump : {fs : List Folder} (i : ℕ) (m : Message) → Placed fs m → Placed (bump_uid i fs) m
Placed-bump {fs} i m h = record {
  limit = if m.folder_id == i then h.limit + 1 else h.limit;
  found = next_uid_of-bump i m.folder_id h.limit fs h.found;
  below = ground (arith, h.below);
}

pub Placed-append :
    {fs : List Folder} (gs : List Folder) (m : Message) → Placed fs m → Placed (fs ++ gs) m
Placed-append {fs} gs m h = record {
  limit = h.limit;
  found = next_uid_of-append m.folder_id h.limit fs gs h.found;
  below = h.below;
}

pub Placed-without :
    {fs : List Folder} (i : ℕ) (m : Message)
    → Placed fs m
    → m.folder_id ≢ i
    → Placed (keep (λ f. not (f.id == i)) fs) m
Placed-without {fs} i m h ne = record {
  limit = h.limit;
  found = next_uid_of-without i m.folder_id h.limit fs ne h.found;
  below = h.below;
}

pub Placed-rename :
    {fs : List Folder} (p : Folder → Bool) (name : Text) (m : Message)
    → Placed fs m
    → Placed (update_where p (λ f. record f { name = name }) fs) m
Placed-rename {fs} p name m h = record {
  limit = h.limit;
  found = next_uid_of-rename m.folder_id name p fs ∙ h.found;
  below = h.below;
}

-- A row of the folder that the code looked up has a UID below the one that it hands out.
pub Placed-below :
    {fs : List Folder} (m : Message) {f : Folder} {i : ℕ}
    → Placed fs m
    → find_first (folder_id_is i) fs ≡ some f
    → m.folder_id ≡ i
    → m.uid < f.next_uid
unfolding next_uid_of
Placed-below m h e q = ground (arith, h.found, h.below)

-- A folder of another account stays.
pub next_uid_of-other_account :
    (account : ℕ) (m : Message) (n : ℕ) (fs : List Folder)
    → in_folder_of account fs m ≡ false
    → next_uid_of m.folder_id fs ≡ some n
    → next_uid_of m.folder_id (keep (λ f. not (f.account_id == account)) fs) ≡ some n
unfolding next_uid_of
next_uid_of-other_account account m n [] h e = cc
next_uid_of-other_account account m n (f ∷ fs) h e =
    ground (arith, next_uid_of-other_account account m n fs)
