-- ===== src/Mailstore/Accounts.antt =====
-- The account operations of internal/mailstore/store.go.
use cloudpost.Prelude.{
  Bool, List, Option, [], any, find_first, if◌then◌else◌, is_nil, keep, leb, none, not, some,
  sort_by, true, update_where, ℕ, ◌&&◌, ◌++◌, ◌+◌, ◌==◌, ◌||◌, ◌∷◌,
}
use cloudpost.Text.{Text, codes, eqb, lower, trim_space}
use cloudpost.Mailstore.Folders.{account_id_is, ensure_system_folders, remove_blobs}
use cloudpost.Mailstore.Schema.{
  Account, External, Folder, Kind, Message, Result, Store, address_required, bad_proto, constraint,
  err, from_option, kind_eqb, local, no_rows, ok, remote, remote_fields_required,
}

unfoldable pub normalize_addr : Text → Text
unfolding lower trim_space
normalize_addr a = lower (trim_space a)

-- UNIQUE(address, kind)
abbrev pub address_taken : Kind → Text → List Account → Bool
address_taken kind address = any (λ a. kind_eqb a.kind kind && eqb a.address address)

-- hashPassword: no password, no hash.
abbrev hash_of : External → Text → Text
hash_of ext pw = if is_nil pw then [] else ext.hash_password pw

-- The columns that CreateLocalAccount leaves at their defaults.
abbrev local_row : External → Store → Text → Text → Text → Account
local_row ext s address password display = record {
  id = s.next_account;
  kind = local;
  address = address;
  display_name = display;
  password_hash = hash_of ext password;
  remote_proto = [];
  remote_host = [];
  remote_port = 0;
  remote_tls = codes "ssl";
  remote_user = [];
  remote_pass = [];
  remote_folder = codes "INBOX";
  remote_target = [];
  fetch_enabled = true;
  fetch_interval_min = 15;
  fetch_keep_on_server = true;
  signature = [];
  last_fetch_at = 0;
  last_fetch_ok = true;
  last_error = [];
  created_at = s.clock;
}

-- INSERT INTO accounts, then the system folders.
unfoldable pub insert_account : Store → Account → Store × Result Account
insert_account s a =
    if address_taken a.kind a.address s.accounts
    then (s, err constraint)
    else let (s1, r) =
        ensure_system_folders
          (record s { accounts = s.accounts ++ a ∷ []; next_account = s.next_account + 1 }) a.id in
      elim r [
        | ok _ ↦ (s1, from_option no_rows (find_first (account_id_is a.id) s1.accounts))
        | err e ↦ (s1, err e)
      ]

unfoldable pub create_local_account : External → Store → Text → Text → Text → Store × Result Account
create_local_account ext s address password display =
    if is_nil (normalize_addr address)
    then (s, err address_required)
    else insert_account s (local_row ext s (normalize_addr address) password display)

-- The defaults and the normalised addresses that CreateRemoteAccount writes.
abbrev remote_row : Store → Account → Account
remote_row s a = record a {
  id = s.next_account;
  kind = remote;
  address = normalize_addr a.address;
  password_hash = [];
  remote_tls = if is_nil a.remote_tls then codes "ssl" else a.remote_tls;
  remote_folder = if is_nil a.remote_folder then codes "INBOX" else a.remote_folder;
  remote_target = normalize_addr a.remote_target;
  fetch_interval_min = if a.fetch_interval_min == 0 then 15 else a.fetch_interval_min;
  signature = [];
  last_fetch_at = 0;
  last_fetch_ok = true;
  last_error = [];
  created_at = s.clock;
}

unfoldable pub create_remote_account : Store → Account → Store × Result Account
create_remote_account s a =
    if is_nil a.address || (is_nil a.remote_proto || is_nil a.remote_host)
    then (s, err remote_fields_required)
    else if not (eqb a.remote_proto (codes "imap") || eqb a.remote_proto (codes "pop3"))
    then (s, err bad_proto)
    else insert_account s (remote_row s a)

unfoldable pub get_account : Store → ℕ → Result Account
get_account s id = from_option no_rows (find_first (account_id_is id) s.accounts)

-- A local account by its address.
unfoldable pub get_account_by_address : Store → Text → Result Account
get_account_by_address s address =
    from_option no_rows
      (find_first (λ a. kind_eqb a.kind local && eqb a.address (normalize_addr address)) s.accounts)

-- Any account by its address; with one of each kind, the row that the table holds first.
unfoldable pub get_account_by_address_any : Store → Text → Result Account
get_account_by_address_any s address =
    from_option no_rows (find_first (λ a. eqb a.address (normalize_addr address)) s.accounts)

abbrev kind_leb : Account → Account → Bool
kind_leb a b = if kind_eqb a.kind b.kind then leb a.id b.id else kind_eqb a.kind local

-- ORDER BY kind, id
unfoldable pub list_accounts : Store → List Account
unfolding sort_by
list_accounts s = sort_by kind_leb s.accounts

-- Another account of the row's kind has the new address.
unfoldable pub update_clashes : Store → Account → Bool
unfolding kind_eqb eqb normalize_addr
update_clashes s a =
    any
      (λ b.
        account_id_is a.id b
        && any
            (λ c.
              not (c.id == a.id)
              && (kind_eqb c.kind b.kind && eqb c.address (normalize_addr a.address)))
            s.accounts)
      s.accounts

abbrev pub rehash : External → ℕ → Text → List Account → List Account
rehash ext id pass accounts =
    if is_nil pass
    then accounts
    else update_where (account_id_is id) (λ b. record b { password_hash = ext.hash_password pass })
        accounts

-- The columns that UpdateAccount rewrites.
abbrev pub edited : Account → Account → Account
edited a b = record b {
  address = normalize_addr a.address;
  display_name = a.display_name;
  remote_proto = a.remote_proto;
  remote_host = a.remote_host;
  remote_port = a.remote_port;
  remote_tls = a.remote_tls;
  remote_user = a.remote_user;
  remote_pass = a.remote_pass;
  remote_folder = a.remote_folder;
  remote_target = normalize_addr a.remote_target;
  fetch_enabled = a.fetch_enabled;
  fetch_interval_min = a.fetch_interval_min;
  fetch_keep_on_server = a.fetch_keep_on_server;
  signature = a.signature;
}

-- An empty password leaves the hash as it is; a new hash stays also when the rest is refused.
unfoldable pub update_account : External → Store → Account → Text → Store × Result (Unit {0})
update_account ext s a pass =
    let hashed = rehash ext a.id pass s.accounts in
    if update_clashes s a
    then (record s { accounts = hashed }, err constraint)
    else (record s { accounts = update_where (account_id_is a.id) (edited a) hashed }, ok tt)

unfoldable pub mark_fetched : Store → ℕ → Bool → Text → Store
mark_fetched s id fine message = record s {
  accounts =
      update_where (account_id_is id)
        (λ a. record a { last_fetch_at = s.clock; last_fetch_ok = fine; last_error = message })
        s.accounts;
}

abbrev pub in_folder_of : ℕ → List Folder → Message → Bool
in_folder_of id fs m = any (λ f. f.account_id == id && f.id == m.folder_id) fs

-- Removes an account and, by cascade, the rows that name it or a folder of it. The files that go
-- are those of the messages that name the account.
unfoldable pub delete_account : Store → ℕ → Store
delete_account s id = record s {
  blobs = remove_blobs (keep (λ m. m.account_id == id) s.messages) s.blobs;
  accounts = keep (λ a. not (a.id == id)) s.accounts;
  folders = keep (λ f. not (f.account_id == id)) s.folders;
  messages = keep (λ m. not (m.account_id == id || in_folder_of id s.folders m)) s.messages;
  filters = keep (λ f. not (f.account_id == id)) s.filters;
  tokens = keep (λ t. not (t.account_id == id)) s.tokens;
  scheduled = keep (λ t. not (t.account_id == id)) s.scheduled;
}

-- The login of the POP3, IMAP and SMTP services: an account with no hash cannot log in.
unfoldable pub verify_local_login : External → Store → Text → Text → Option Account
verify_local_login ext s address password = elim (get_account_by_address s address) [
  | err e ↦ none
  | ok a ↦
      if is_nil a.password_hash
      then none
      else if ext.password_matches a.password_hash password
      then some a
      else none
]
