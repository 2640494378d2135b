-- ===== src/Tests/Store.antt =====
-- The theorems on the store.
use cloudpost.Prelude.{
  All, IsSortedBy, List, Option, [], arith, false, keep, not, refl, some, true, ℕ, ◌<◌, ◌^◌, ◌∷◌,
  ◌≡◌, ◌⊎◌,
}
use cloudpost.Text.{Text, codes}
use cloudpost.Mailstore.Delivered.{get_message_raw-deliver}
use cloudpost.Mailstore.Flagging.{IsFlagged, get_message-set_flags}
use cloudpost.Mailstore.Flags.{add, deleted_flag, join_flags, like, seen_flag, split_flags}
use cloudpost.Mailstore.History.{empty, expunging, run, step}
use cloudpost.Mailstore.History.Keeps.{run_from_empty-IsWellFormed, step-IsWellFormed}
use cloudpost.Mailstore.History.UidOrder.{uid_order}
use cloudpost.Mailstore.Invariant.{IsWellFormed, next_uid_of}
use cloudpost.Mailstore.Invariant.Moves.{expunge_folder-rows}
use cloudpost.Mailstore.Kept.{get_message_raw-delete_kept, get_message_raw-deliver_kept}
use cloudpost.Mailstore.Listing.{list_messages-IsSortedBy}
use cloudpost.Mailstore.Messages.{
  bump_uid, delete_messages, deliver, expunge_folder, expunged, get_message, get_message_raw,
  insert_row, list_messages, new_row, newer, no_opts, set_flags, store_blob,
}
use cloudpost.Mailstore.Schema.{Message, Store, ok}
use cloudpost.Tests.Fixtures.{
  first_row, home, home-IsWellFormed, home_message, sample_ext, sample_ops, sample_text,
}

run_from_empty-IsWellFormed_example : IsWellFormed (λ _. 1) (run sample_ext empty sample_ops)
run_from_empty-IsWellFormed_example = run_from_empty-IsWellFormed sample_ext sample_ops

step-IsWellFormed_example : IsWellFormed (λ _. 1) (step sample_ext home (expunging 1))
step-IsWellFormed_example = step-IsWellFormed sample_ext home (expunging 1) home-IsWellFormed

abbrev second : Store
second = (deliver sample_ext home 1 1 (codes "two") no_opts).0

abbrev third : Store
third = (deliver sample_ext second 1 1 (codes "three") no_opts).0

second_next : (n : ℕ) → next_uid_of 1 second.folders ≡ some n → n < 2 ^ 32
unfolding deliver store_blob insert_row new_row bump_uid next_uid_of
second_next n e = omega (arith, three e)
  where
    three : ◌≡◌ {A = Option ℕ} (some 3) (some n) → 3 ≡ n
    three q = cc

uid_order_example : 2 < 3
unfolding run deliver store_blob insert_row new_row bump_uid
uid_order_example =
    uid_order sample_ext home second second third [] 1 1 1 (codes "two") (codes "three") no_opts
      no_opts 2 3 2 3 home-IsWellFormed refl refl refl second_next

get_message_raw-deliver_example :
    (m : Message) × (get_message_raw second 1 2 ≡ ok (codes "two", m))
    × (m.folder_id ≡ 1)
    × (m.size ≡ 3)
unfolding deliver store_blob insert_row new_row bump_uid
get_message_raw-deliver_example =
    get_message_raw-deliver sample_ext home second 1 1 (codes "two") no_opts 2 2 home-IsWellFormed
      refl

get_message_raw-deliver_kept_example : get_message_raw second 1 1 ≡ ok (sample_text, first_row)
get_message_raw-deliver_kept_example =
    get_message_raw-deliver_kept sample_ext home 1 1 (codes "two") no_opts 1 1 sample_text first_row
      home-IsWellFormed home_message

get_message_raw-delete_kept_example :
    get_message_raw (delete_messages home 1 (2 ∷ [])) 1 1 ≡ ok (sample_text, first_row)
get_message_raw-delete_kept_example =
    get_message_raw-delete_kept home 1 2 1 1 sample_text first_row home-IsWellFormed
      (λ e. omega (arith, e)) home_message

expunge_folder-rows_example :
    (expunge_folder home 1).0.messages ≡ keep (λ m. not (expunged 1 m)) home.messages
expunge_folder-rows_example = expunge_folder-rows home 1 home-IsWellFormed

get_message-set_flags_example :
    let t = set_flags home 1 (1 ∷ []) add (seen_flag ∷ []) in
    ((seen_flag ∷ [] ≡ []) × (t ≡ home))
    ⊎ ((after : List Text) × IsFlagged add (split_flags first_row.flags) (seen_flag ∷ []) after
        × (get_message t 1 1 ≡ ok (record first_row { flags = join_flags after }))
        × (get_message t 1 2 ≡ get_message home 1 2)
        × (t.blobs ≡ home.blobs))
unfolding get_message
get_message-set_flags_example =
    get_message-set_flags home 1 1 add (seen_flag ∷ []) first_row 1 2 refl (λ e. omega (arith, e))

list_messages-IsSortedBy_example :
    IsSortedBy newer (list_messages home 1 0 50 false).0
    × All
        (λ m. (m.folder_id ≡ 1) × ((false ≡ true) ⊎ (like deleted_flag m.flags ≡ false)))
        (list_messages home 1 0 50 false).0
list_messages-IsSortedBy_example = list_messages-IsSortedBy home 1 0 50 false
