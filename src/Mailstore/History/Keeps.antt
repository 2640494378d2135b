-- ===== src/Mailstore/History/Keeps.antt =====
-- Every operation keeps the store well-formed, so every reachable store is.
use cloudpost.Prelude.{List, [], arith, ℕ, ◌∷◌}
use cloudpost.Mailstore.Filters.{delete_filter, update_filter}
use cloudpost.Mailstore.History.{
  Op, add_filter, add_token, cancel, change_filter, create_local, create_remote, deleting, delivery,
  delivery_to_name, disk, dispatched, drop_account, drop_filter, drop_folder, empty, expunging,
  fetched, flagging, make_folder, moving, moving_to_name, rename, revoke_token, run, schedule, step,
  tick, token_login, update,
}
use cloudpost.Mailstore.History.Others.{
  account_by_api_token-IsWellFormed, cancel_scheduled-IsWellFormed, create_api_token-IsWellFormed,
  create_filter-IsWellFormed, deliver_to_name-IsWellFormed, move_to_folder_name-IsWellFormed,
  revoke_api_token-IsWellFormed, same_mail, schedule_send-IsWellFormed,
}
use cloudpost.Mailstore.Invariant.{IsWellFormed}
use cloudpost.Mailstore.Invariant.Accounts.{
  create_local_account-IsWellFormed, create_remote_account-IsWellFormed,
  delete_account-IsWellFormed, mark_fetched-IsWellFormed, update_account-IsWellFormed,
}
use cloudpost.Mailstore.Invariant.Delivery.{deliver-IsWellFormed}
use cloudpost.Mailstore.Invariant.Moves.{expunge_folder-IsWellFormed, move_messages-IsWellFormed}
use cloudpost.Mailstore.Invariant.Removal.{delete_folder-IsWellFormed, delete_messages-IsWellFormed}
use cloudpost.Mailstore.Invariant.Rows.{set_flags-IsWellFormed}
use cloudpost.Mailstore.Invariant.Steps.{ensure_folder-IsWellFormed, rename_folder-IsWellFormed}
use cloudpost.Mailstore.Scheduled.{delete_scheduled_row}
use cloudpost.Mailstore.Schema.{External, Store}

-- Each call of the store keeps it well-formed, whatever it returns.
pub step-IsWellFormed :
    {low : ℕ → ℕ}
    → (ext : External) (s : Store) (op : Op) → IsWellFormed low s
    → IsWellFormed low (step ext s op)
unfolding step
step-IsWellFormed ext s (tick n) w = same_mail s _ _ _ _ _ _ _ _ _ _ w
step-IsWellFormed ext s (disk full) w = same_mail s _ _ _ _ _ _ _ _ _ _ w
step-IsWellFormed ext s (create_local a p d) w = create_local_account-IsWellFormed ext s a p d w
step-IsWellFormed ext s (create_remote a) w = create_remote_account-IsWellFormed s a w
step-IsWellFormed ext s (update a pass) w = update_account-IsWellFormed ext s a pass w
step-IsWellFormed ext s (fetched id fine msg) w = mark_fetched-IsWellFormed s id fine msg w
step-IsWellFormed ext s (drop_account id) w = delete_account-IsWellFormed s id w
step-IsWellFormed ext s (make_folder a n sp) w = ensure_folder-IsWellFormed s a n sp w
step-IsWellFormed ext s (rename a id n) w = rename_folder-IsWellFormed s a id n w
step-IsWellFormed ext s (drop_folder a id) w = delete_folder-IsWellFormed s a id w
step-IsWellFormed ext s (delivery a f raw opts) w = deliver-IsWellFormed ext s a f raw opts w
step-IsWellFormed ext s (delivery_to_name a n raw opts) w =
    deliver_to_name-IsWellFormed ext s a n raw opts w
step-IsWellFormed ext s (flagging a ids mode flags) w = set_flags-IsWellFormed s a ids mode flags w
step-IsWellFormed ext s (moving a to ids) w = move_messages-IsWellFormed s a to ids w
step-IsWellFormed ext s (moving_to_name a id n) w = move_to_folder_name-IsWellFormed s a id n w
step-IsWellFormed ext s (expunging f) w = expunge_folder-IsWellFormed s f w
step-IsWellFormed ext s (deleting a ids) w = delete_messages-IsWellFormed s a ids w
step-IsWellFormed ext s (add_filter f) w = create_filter-IsWellFormed s f w
step-IsWellFormed ext s (change_filter f) w =
    unfold update_filter in same_mail s _ _ _ _ _ _ _ _ _ _ w
step-IsWellFormed ext s (drop_filter a id) w =
    unfold delete_filter in same_mail s _ _ _ _ _ _ _ _ _ _ w
step-IsWellFormed ext s (add_token a l secret) w = create_api_token-IsWellFormed ext s a l secret w
step-IsWellFormed ext s (revoke_token a id) w = revoke_api_token-IsWellFormed s a id w
step-IsWellFormed ext s (token_login text) w = account_by_api_token-IsWellFormed ext s text w
step-IsWellFormed ext s (schedule a from rcpts subject at raw) w =
    schedule_send-IsWellFormed s a from rcpts subject at raw w
step-IsWellFormed ext s (cancel a id) w = cancel_scheduled-IsWellFormed s a id w
step-IsWellFormed ext s (dispatched id) w =
    unfold delete_scheduled_row in same_mail s _ _ _ _ _ _ _ _ _ _ w

pub run-IsWellFormed :
    {low : ℕ → ℕ}
    → (ext : External) (s : Store) (ops : List Op) → IsWellFormed low s
    → IsWellFormed low (run ext s ops)
unfolding run
run-IsWellFormed ext s [] w = w
run-IsWellFormed ext s (op ∷ ops) w =
    run-IsWellFormed ext (step ext s op) ops (step-IsWellFormed ext s op w)

pub empty-IsWellFormed : IsWellFormed (λ _. 1) empty
empty-IsWellFormed = record {
  folder_ids = tt;
  low_fresh = λ j h. omega arith;
  folders_apart = tt;
  placed = tt;
  stored = tt;
  apart = tt;
}

-- After any calls in any order from the empty store, the store is well-formed: every message lies
-- in a folder that exists, under a UID below the folder's next and borne by no other message of
-- the folder, with an id and a blob file of its own, and the file is there.
pub run_from_empty-IsWellFormed :
    (ext : External) (ops : List Op) → IsWellFormed (λ _. 1) (run ext empty ops)
run_from_empty-IsWellFormed ext ops = run-IsWellFormed ext empty ops empty-IsWellFormed
