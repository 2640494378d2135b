-- ===== src/Mailstore/History/Others.antt =====
-- The operations by a folder's name, and those that leave the mail alone.
use cloudpost.Prelude.{
  Bool, Bool-cases, List, Option, Option-cases, [], any, find_first, inl, inr, leb, not, ℕ, ◌&&◌,
  ◌++◌, ◌-◌, ◌==◌, ◌||◌, ◌∷◌,
}
use cloudpost.Text.{Text, eqb, has_prefix, trim_space}
use cloudpost.Mailstore.Accounts.{get_account}
use cloudpost.Mailstore.Filters.{create_filter, move_after, move_to_folder_name}
use cloudpost.Mailstore.Folders.{account_id_is, ensure_folder}
use cloudpost.Mailstore.Invariant.{IsWellFormed}
use cloudpost.Mailstore.Invariant.Delivery.{deliver-IsWellFormed}
use cloudpost.Mailstore.Invariant.Moves.{move_messages-IsWellFormed}
use cloudpost.Mailstore.Invariant.Steps.{ensure_folder-IsWellFormed}
use cloudpost.Mailstore.Messages.{DeliverOpts, deliver_to_name, delivery_after}
use cloudpost.Mailstore.Scheduled.{cancel_scheduled, own_scheduled, schedule_send}
use cloudpost.Mailstore.Schema.{
  Account, ApiToken, External, Filter, Result, ScheduledMessage, Store, err, ok,
}
use cloudpost.Mailstore.Tokens.{
  account_by_api_token, create_api_token, revoke_api_token, token_is, token_prefix, touched_by,
  use_token,
}

-- The invariant speaks only of the folders, the messages and their files.
pub same_mail :
    {low : ℕ → ℕ}
    → (s : Store) (clock : ℕ) (full : Bool) (filters : List Filter) (next_filter : ℕ)
      (tokens : List ApiToken) (next_token : ℕ) (scheduled : List ScheduledMessage)
      (next_scheduled : ℕ) (files : List (ℕ × Text)) (next_file : ℕ)
    → IsWellFormed low s
    → IsWellFormed low (record s {
      clock = clock;
      disk_full = full;
      filters = filters;
      next_filter = next_filter;
      tokens = tokens;
      next_token = next_token;
      scheduled = scheduled;
      next_scheduled = next_scheduled;
      scheduled_files = files;
      next_scheduled_file = next_file;
    })
same_mail s clock full filters nf tokens nt scheduled ns files nfile w = record {
  folder_ids = w.folder_ids;
  low_fresh = w.low_fresh;
  folders_apart = w.folders_apart;
  placed = w.placed;
  stored = w.stored;
  apart = w.apart;
}

-- The two ways in by a folder's name: on an error of EnsureFolder nothing else happens.
pub deliver_to_name-IsWellFormed :
    {low : ℕ → ℕ}
    → (ext : External) (s : Store) (account : ℕ) (name raw : Text) (opts : Option DeliverOpts)
    → IsWellFormed low s
    → IsWellFormed low (deliver_to_name ext s account name raw opts).0
unfolding deliver_to_name
deliver_to_name-IsWellFormed {low = low} ext s account name raw opts w =
    named_then-IsWellFormed (ensure_folder s account name [])
      (ensure_folder-IsWellFormed s account name [] w)
  where
    named_then-IsWellFormed :
        (made : Store × Result ℕ)
        → IsWellFormed low made.0
        → IsWellFormed low (delivery_after ext account raw opts made).0
    named_then-IsWellFormed (s1, ok folder) v =
        deliver-IsWellFormed ext s1 account folder raw opts v
    named_then-IsWellFormed (s1, err e) v = v

pub move_to_folder_name-IsWellFormed :
    {low : ℕ → ℕ}
    → (s : Store) (account id : ℕ) (name : Text) → IsWellFormed low s
    → IsWellFormed low (move_to_folder_name s account id name).0
unfolding move_to_folder_name
move_to_folder_name-IsWellFormed {low = low} s account id name w =
    moved_then-IsWellFormed (ensure_folder s account name [])
      (ensure_folder-IsWellFormed s account name [] w)
  where
    moved_then-IsWellFormed :
        (made : Store × Result ℕ)
        → IsWellFormed low made.0
        → IsWellFormed low (move_after account id made).0
    moved_then-IsWellFormed (s1, ok to) v = move_messages-IsWellFormed s1 account to (id ∷ []) v
    moved_then-IsWellFormed (s1, err e) v = v

-- The filters, the tokens and the delayed messages leave the mail alone.
pub create_filter-IsWellFormed :
    {low : ℕ → ℕ}
    → (s : Store) (f : Filter) → IsWellFormed low s
    → IsWellFormed low (create_filter s f).0
unfolding create_filter
create_filter-IsWellFormed s f w = elim (Bool-cases (any (account_id_is f.account_id) s.accounts)) [
  | inl b ↦ rw b (same_mail s _ _ _ _ _ _ _ _ _ _ w)
  | inr b ↦ rw b w
]

pub create_api_token-IsWellFormed :
    {low : ℕ → ℕ}
    → (ext : External) (s : Store) (account : ℕ) (label secret : Text) → IsWellFormed low s
    → IsWellFormed low (create_api_token ext s account label secret).0
unfolding create_api_token
create_api_token-IsWellFormed ext s account label secret w =
    elim (Bool-cases (
      any (account_id_is account) s.accounts
      && not (any (λ t. eqb t.token_hash (ext.token_hash (token_prefix ++ secret))) s.tokens))) [
        | inl b ↦ rw b (same_mail s _ _ _ _ _ _ _ _ _ _ w)
        | inr b ↦ rw b w
      ]

pub revoke_api_token-IsWellFormed :
    {low : ℕ → ℕ}
    → (s : Store) (account id : ℕ) → IsWellFormed low s
    → IsWellFormed low (revoke_api_token s account id).0
unfolding revoke_api_token
revoke_api_token-IsWellFormed s account id w =
    elim (Bool-cases (any (token_is account id) s.tokens)) [
      | inl b ↦ rw b (same_mail s _ _ _ _ _ _ _ _ _ _ w)
      | inr b ↦ rw b w
    ]

-- Steps that do not touch the mail at all, seen from the operation's result.
pub use_token-IsWellFormed :
    {low : ℕ → ℕ}
    → (s : Store) (t : ApiToken) → IsWellFormed low s
    → IsWellFormed low (use_token s t).0
unfolding use_token
use_token-IsWellFormed {low = low} s t w = elim (Bool-cases t.revoked) [
  | inl b ↦ rw b w
  | inr b ↦ simp b (touched (get_account s t.account_id))
]
  where
    touched : (r : Result Account) → IsWellFormed low (touched_by s t r).0
    touched (err e) = w
    touched (ok a) = elim (Bool-cases (t.last_used_at == 0 || leb 60 (s.clock - t.last_used_at))) [
      | inl c ↦ rw c (same_mail s _ _ _ _ _ _ _ _ _ _ w)
      | inr c ↦ rw c w
    ]

pub account_by_api_token-IsWellFormed :
    {low : ℕ → ℕ}
    → (ext : External) (s : Store) (text : Text) → IsWellFormed low s
    → IsWellFormed low (account_by_api_token ext s text).0
unfolding account_by_api_token
account_by_api_token-IsWellFormed ext s text w =
    elim (Bool-cases (not (has_prefix (trim_space text) token_prefix))) [
      | inl b ↦ rw b w
      | inr b ↦
          rw b
            (elim (Option-cases
              (find_first (λ t. eqb t.token_hash (ext.token_hash (trim_space text))) s.tokens)) [
                | inl e ↦ rw e w
                | inr (t, e) ↦ rw e (use_token-IsWellFormed s t w)
              ])
    ]

pub schedule_send-IsWellFormed :
    {low : ℕ → ℕ}
    → (s : Store) (account : ℕ) (from : Text) (rcpts : List Text) (subject : Text) (send_at : ℕ)
      (raw : Text)
    → IsWellFormed low s
    → IsWellFormed low (schedule_send s account from rcpts subject send_at raw).0
unfolding schedule_send
schedule_send-IsWellFormed s account from rcpts subject send_at raw w =
    elim (Bool-cases s.disk_full) [
      | inl b ↦ simp b (same_mail s _ _ _ _ _ _ _ _ _ _ w)
      | inr b ↦ simp b (elim (Bool-cases (any (account_id_is account) s.accounts)) [
        | inl c ↦ rw c (same_mail s _ _ _ _ _ _ _ _ _ _ w)
        | inr c ↦ rw c (same_mail s _ _ _ _ _ _ _ _ _ _ w)
      ])
    ]

pub cancel_scheduled-IsWellFormed :
    {low : ℕ → ℕ}
    → (s : Store) (account id : ℕ) → IsWellFormed low s
    → IsWellFormed low (cancel_scheduled s account id).0
unfolding cancel_scheduled
cancel_scheduled-IsWellFormed s account id w =
    elim (Option-cases (find_first (own_scheduled account id) s.scheduled)) [
      | inl e ↦ rw (e, cancel_scheduled) w
      | inr (m, e) ↦ rw (e, cancel_scheduled) (same_mail s _ _ _ _ _ _ _ _ _ _ w)
    ]
