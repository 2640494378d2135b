-- ===== src/Mailstore/Invariant/Accounts.antt =====
-- The account operations keep a store well-formed.
use cloudpost.Prelude.{
  All-keep, All-keep_if, All-map, Bool, Bool-cases, List, Pairs-keep, [], arith, false, inl, inr,
  is_nil, not, ℕ, ◌++◌, ◌+◌, ◌==◌, ◌||◌, ◌∷◌, ◌≡◌,
}
use cloudpost.Text.{Text, codes, eqb}
use cloudpost.Mailstore.Accounts.{
  address_taken, create_local_account, create_remote_account, delete_account, in_folder_of,
  insert_account, mark_fetched, normalize_addr, update_account, update_clashes,
}
use cloudpost.Mailstore.Folders.{
  and_then, ensure_all, ensure_folder, ensure_system_folders, system_folders,
}
use cloudpost.Mailstore.Invariant.{Apart, IsWellFormed}
use cloudpost.Mailstore.Invariant.Removal.{remaining}
use cloudpost.Mailstore.Invariant.Steps.{ensure_folder-IsWellFormed}
use cloudpost.Mailstore.Invariant.Uids.{next_uid_of-other_account}
use cloudpost.Mailstore.Schema.{Account, External, Result, Store, err, ok}

and_then-IsWellFormed :
    {low : ℕ → ℕ}
    → (made : Store × Result ℕ) (later : Store × Result (Unit {0})) → IsWellFormed low made.0
    → IsWellFormed low later.0
    → IsWellFormed low (and_then made later).0
and_then-IsWellFormed (s, ok id) later w v = v
and_then-IsWellFormed (s, err e) later w v = w

ensure_all-IsWellFormed :
    {low : ℕ → ℕ}
    → (s : Store) (account : ℕ) (names : List (Text × Text)) → IsWellFormed low s
    → IsWellFormed low (ensure_all s account names).0
unfolding ensure_all
ensure_all-IsWellFormed s account [] w = w
ensure_all-IsWellFormed s account ((name, special) ∷ rest) w =
    let v = ensure_folder-IsWellFormed s account name special w in
    and_then-IsWellFormed (ensure_folder s account name special) _ v
      (ensure_all-IsWellFormed (ensure_folder s account name special).0 account rest v)

ensure_system_folders-store :
    (s : Store) (account : ℕ)
    → (ensure_system_folders s account).0 ≡ (ensure_all s account system_folders).0
unfolding ensure_system_folders
ensure_system_folders-store s account = ground arith

insert_account-store :
    (s : Store) (a : Account)
    → address_taken a.kind a.address s.accounts ≡ false
    → (insert_account s a).0
      ≡ (ensure_system_folders
          (record s { accounts = s.accounts ++ a ∷ []; next_account = s.next_account + 1 })
          a.id).0
unfolding insert_account
insert_account-store s a h = ground arith

-- No part of the invariant speaks of the accounts.
abbrev with_accounts : Store → List Account → ℕ → Store
with_accounts s accounts next = record s { accounts = accounts; next_account = next }

with_accounts-IsWellFormed :
    {low : ℕ → ℕ}
    → (s : Store) (accounts : List Account) (next : ℕ) → IsWellFormed low s
    → IsWellFormed low (with_accounts s accounts next)
with_accounts-IsWellFormed s accounts next w = record {
  folder_ids = w.folder_ids;
  low_fresh = w.low_fresh;
  folders_apart = w.folders_apart;
  placed = w.placed;
  stored = w.stored;
  apart = w.apart;
}

insert_account-IsWellFormed :
    {low : ℕ → ℕ}
    → (s : Store) (a : Account) → IsWellFormed low s
    → IsWellFormed low (insert_account s a).0
insert_account-IsWellFormed s a w = elim (Bool-cases (address_taken a.kind a.address s.accounts)) [
  | inl taken ↦ unfold insert_account in rw taken w
  | inr free ↦
      rw (insert_account-store s a free, ensure_system_folders-store)
        (ensure_all-IsWellFormed _ a.id system_folders
          (with_accounts-IsWellFormed s (s.accounts ++ a ∷ []) (s.next_account + 1) w))
]

pub create_local_account-IsWellFormed :
    {low : ℕ → ℕ}
    → (ext : External) (s : Store) (address password display : Text) → IsWellFormed low s
    → IsWellFormed low (create_local_account ext s address password display).0
unfolding create_local_account
create_local_account-IsWellFormed ext s address password display w =
    elim (Bool-cases (is_nil (normalize_addr address))) [
      | inl b ↦ rw b w
      | inr b ↦ rw b (insert_account-IsWellFormed s _ w)
    ]

pub create_remote_account-IsWellFormed :
    {low : ℕ → ℕ}
    → (s : Store) (a : Account) → IsWellFormed low s
    → IsWellFormed low (create_remote_account s a).0
unfolding create_remote_account
create_remote_account-IsWellFormed s a w =
    elim (Bool-cases (is_nil a.address || (is_nil a.remote_proto || is_nil a.remote_host))) [
      | inl b ↦ rw b w
      | inr b ↦
          rw b
            (elim (Bool-cases
              (not (eqb a.remote_proto (codes "imap") || eqb a.remote_proto (codes "pop3")))) [
                | inl c ↦ rw c w
                | inr c ↦ rw c (insert_account-IsWellFormed s _ w)
              ])
    ]

pub update_account-IsWellFormed :
    {low : ℕ → ℕ}
    → (ext : External) (s : Store) (a : Account) (pass : Text) → IsWellFormed low s
    → IsWellFormed low (update_account ext s a pass).0
unfolding update_account
update_account-IsWellFormed ext s a pass w = elim (Bool-cases (update_clashes s a)) [
  | inl b ↦ rw b (with_accounts-IsWellFormed s _ s.next_account w)
  | inr b ↦ rw b (with_accounts-IsWellFormed s _ s.next_account w)
]

pub mark_fetched-IsWellFormed :
    {low : ℕ → ℕ}
    → (s : Store) (id : ℕ) (fine : Bool) (message : Text) → IsWellFormed low s
    → IsWellFormed low (mark_fetched s id fine message)
unfolding mark_fetched
mark_fetched-IsWellFormed s id fine message w = with_accounts-IsWellFormed s _ s.next_account w

pub delete_account-IsWellFormed :
    {low : ℕ → ℕ}
    → (s : Store) (id : ℕ) → IsWellFormed low s
    → IsWellFormed low (delete_account s id)
unfolding delete_account
delete_account-IsWellFormed s id w = record {
  folder_ids = All-keep _ (λ f. not (f.account_id == id)) s.folders w.folder_ids;
  low_fresh = w.low_fresh;
  folders_apart = Pairs-keep _ (λ f. not (f.account_id == id)) s.folders w.folders_apart;
  placed =
      All-keep_if _ (λ m. not (m.account_id == id || in_folder_of id s.folders m)) s.messages
        (All-map
          (λ m h q. record {
            limit = h.limit;
            found = next_uid_of-other_account id m h.limit s.folders (ground arith) h.found;
            below = h.below;
          })
          s.messages w.placed);
  stored =
      remaining (λ m. m.account_id == id)
        (λ m. not (m.account_id == id || in_folder_of id s.folders m)) (λ m e. ground arith) _ _ _
        s.messages w.apart w.stored;
  apart =
      Pairs-keep Apart (λ m. not (m.account_id == id || in_folder_of id s.folders m)) s.messages
        w.apart;
}
