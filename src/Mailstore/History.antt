-- ===== src/Mailstore/History.antt =====
-- Any sequence of calls of the store, and the passing of time, from the empty store on.
pub mod Others
pub mod Keeps
pub mod UidOrder
use cloudpost.Prelude.{Bool, List, Option, [], false, ℕ, ◌+◌, ◌∷◌}
use cloudpost.Text.{Text}
use cloudpost.Mailstore.Accounts.{
  create_local_account, create_remote_account, delete_account, mark_fetched, update_account,
}
use cloudpost.Mailstore.Filters.{create_filter, delete_filter, move_to_folder_name, update_filter}
use cloudpost.Mailstore.Flags.{FlagMode}
use cloudpost.Mailstore.Folders.{delete_folder, ensure_folder, rename_folder}
use cloudpost.Mailstore.Messages.{
  DeliverOpts, delete_messages, deliver, deliver_to_name, expunge_folder, move_messages, set_flags,
}
use cloudpost.Mailstore.Scheduled.{cancel_scheduled, delete_scheduled_row, schedule_send}
use cloudpost.Mailstore.Schema.{Account, External, Filter, Store}
use cloudpost.Mailstore.Tokens.{account_by_api_token, create_api_token, revoke_api_token}

-- The exported operations that change the store, with their arguments, but WipeBlobs: the factory
-- reset calls it after it has deleted the rows, and alone it would leave rows without their files.
pub data Op : Type 0 where
  tick : ℕ → Op
  disk : Bool → Op
  create_local : Text → Text → Text → Op
  create_remote : Account → Op
  update : Account → Text → Op
  fetched : ℕ → Bool → Text → Op
  drop_account : ℕ → Op
  make_folder : ℕ → Text → Text → Op
  rename : ℕ → ℕ → Text → Op
  drop_folder : ℕ → ℕ → Op
  delivery : ℕ → ℕ → Text → Option DeliverOpts → Op
  delivery_to_name : ℕ → Text → Text → Option DeliverOpts → Op
  flagging : ℕ → List ℕ → FlagMode → List Text → Op
  moving : ℕ → ℕ → List ℕ → Op
  moving_to_name : ℕ → ℕ → Text → Op
  expunging : ℕ → Op
  deleting : ℕ → List ℕ → Op
  add_filter change_filter : Filter → Op
  drop_filter : ℕ → ℕ → Op
  add_token : ℕ → Text → Text → Op
  revoke_token : ℕ → ℕ → Op
  token_login : Text → Op
  schedule : ℕ → Text → List Text → Text → ℕ → Text → Op
  cancel : ℕ → ℕ → Op
  dispatched : ℕ → Op

unfoldable pub step : External → Store → Op → Store
step ext s (tick n) = record s { clock = s.clock + n }
step ext s (disk full) = record s { disk_full = full }
step ext s (create_local address password display) =
    (create_local_account ext s address password display).0
step ext s (create_remote a) = (create_remote_account s a).0
step ext s (update a pass) = (update_account ext s a pass).0
step ext s (fetched id fine message) = mark_fetched s id fine message
step ext s (drop_account id) = delete_account s id
step ext s (make_folder account name special) = (ensure_folder s account name special).0
step ext s (rename account id name) = (rename_folder s account id name).0
step ext s (drop_folder account id) = (delete_folder s account id).0
step ext s (delivery account folder raw opts) = (deliver ext s account folder raw opts).0
step ext s (delivery_to_name account name raw opts) =
    (deliver_to_name ext s account name raw opts).0
step ext s (flagging account ids mode flags) = set_flags s account ids mode flags
step ext s (moving account to ids) = move_messages s account to ids
step ext s (moving_to_name account id name) = (move_to_folder_name s account id name).0
step ext s (expunging folder) = (expunge_folder s folder).0
step ext s (deleting account ids) = delete_messages s account ids
step ext s (add_filter f) = (create_filter s f).0
step ext s (change_filter f) = update_filter s f
step ext s (drop_filter account id) = delete_filter s account id
step ext s (add_token account label secret) = (create_api_token ext s account label secret).0
step ext s (revoke_token account id) = (revoke_api_token s account id).0
step ext s (token_login text) = (account_by_api_token ext s text).0
step ext s (schedule account from rcpts subject send_at raw) =
    (schedule_send s account from rcpts subject send_at raw).0
step ext s (cancel account id) = (cancel_scheduled s account id).0
step ext s (dispatched id) = delete_scheduled_row s id

unfoldable pub run : External → Store → List Op → Store
run ext s [] = s
run ext s (op ∷ ops) = run ext (step ext s op) ops

abbrev pub empty : Store
empty = record {
  clock = 1;
  disk_full = false;
  blobs = [];
  next_blob = 0;
  scheduled_files = [];
  next_scheduled_file = 0;
  accounts = [];
  next_account = 1;
  folders = [];
  next_folder = 1;
  messages = [];
  next_message = 1;
  filters = [];
  next_filter = 1;
  tokens = [];
  next_token = 1;
  scheduled = [];
  next_scheduled = 1;
}
