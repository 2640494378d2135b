-- ===== src/Tests/Fixtures.antt =====
-- An installation with the mailbox alice@x, whose password is pw, and one message in its INBOX.
use cloudpost.Prelude.{List, [], false, none, refl, subst, true, ℕ, ◌∷◌, ◌≡◌}
use cloudpost.Text.{Text, codes, eqb}
use cloudpost.Mailstore.Accounts.{create_local_account, insert_account, normalize_addr}
use cloudpost.Mailstore.Folders.{ensure_all, ensure_folder, ensure_system_folders}
use cloudpost.Mailstore.History.{Op, create_local, delivery, empty, run, step}
use cloudpost.Mailstore.History.Keeps.{run_from_empty-IsWellFormed}
use cloudpost.Mailstore.Invariant.{IsWellFormed}
use cloudpost.Mailstore.Messages.{
  bump_uid, deliver, get_message_raw, insert_row, new_row, store_blob,
}
use cloudpost.Mailstore.Schema.{
  Account, External, Folder, Listed, Message, ParsedInfo, Store, local, ok, read_file,
}
use cloudpost.Smtpd.Login.{next}

abbrev pub sample_text : Text
sample_text = codes "Subject: hi\r\n\r\n.dot\r\n"

abbrev pub sample_info : ParsedInfo
sample_info = record {
  message_id = codes "m1";
  in_reply_to = [];
  from_name = codes "Bob";
  from_addr = codes "bob@y";
  to_list = codes "alice@x" ∷ [];
  cc_list = [];
  subject = codes "hi";
  sent_at = 7;
  internal_at = 7;
  flags = [];
  snippet = codes "dot";
  has_attach = false;
}

abbrev pub sample_ext : External
sample_ext = record {
  parse_headers = λ now raw. sample_info;
  hash_password = λ p. p;
  password_matches = λ hash p. eqb hash p;
  token_hash = λ t. t;
  regex_match = λ pattern hay. false;
}

abbrev pub sample_ops : List Op
sample_ops =
    create_local (codes "alice@x") (codes "pw") (codes "Alice") ∷ delivery 1 1 sample_text none ∷ []

abbrev pub alice : Account
alice = record {
  id = 1;
  kind = local;
  address = codes "alice@x";
  display_name = codes "Alice";
  password_hash = codes "pw";
  remote_proto = [];
  remote_host = [];
  remote_port = 0;
  remote_tls = codes "ssl";
  remote_user = [];
  remote_pass = [];
  remote_folder = codes "INBOX";
  remote_target = [];
  fetch_enabled = true;
  fetch_interval_min = 15;
  fetch_keep_on_server = true;
  signature = [];
  last_fetch_at = 0;
  last_fetch_ok = true;
  last_error = [];
  created_at = 1;
}

abbrev pub folder_row : ℕ → Text → Text → ℕ → Folder
folder_row id name special next = record {
  id = id;
  account_id = 1;
  name = name;
  special = special;
  subscribed = true;
  uid_validity = 1;
  next_uid = next;
}

abbrev pub first_row : Message
first_row = record {
  id = 1;
  account_id = 1;
  folder_id = 1;
  uid = 1;
  message_id = codes "m1";
  in_reply_to = [];
  from_name = codes "Bob";
  from_addr = codes "bob@y";
  to_addrs = codes "alice@x" ∷ [];
  cc_addrs = [];
  subject = codes "hi";
  sent_at = 7;
  internal_at = 7;
  size = 21;
  flags = [];
  snippet = codes "dot";
  has_attach = false;
  raw_path = 0;
}

-- The mailbox and its message.
abbrev pub home : Store
home = record {
  clock = 1;
  disk_full = false;
  blobs = (0, sample_text) ∷ [];
  next_blob = 1;
  scheduled_files = [];
  next_scheduled_file = 0;
  accounts = alice ∷ [];
  next_account = 2;
  folders =
      folder_row 1 (codes "INBOX") (codes "inbox") 2
      ∷ folder_row 2 (codes "Sent") (codes "sent") 1
      ∷ folder_row 3 (codes "Drafts") (codes "drafts") 1
      ∷ folder_row 4 (codes "Trash") (codes "trash") 1
      ∷ folder_row 5 (codes "Junk") (codes "junk") 1
      ∷ folder_row 6 (codes "Archive") (codes "archive") 1
      ∷ [];
  next_folder = 7;
  messages = first_row ∷ [];
  next_message = 2;
  filters = [];
  next_filter = 1;
  tokens = [];
  next_token = 1;
  scheduled = [];
  next_scheduled = 1;
}

home_is : run sample_ext empty sample_ops ≡ home
unfolding run step create_local_account insert_account normalize_addr ensure_system_folders
    ensure_all ensure_folder deliver store_blob insert_row bump_uid new_row
home_is = refl

pub home-IsWellFormed : IsWellFormed (λ _. 1) home
home-IsWellFormed =
    subst (IsWellFormed (λ _. 1)) home_is (run_from_empty-IsWellFormed sample_ext sample_ops)

pub home_message : get_message_raw home 1 1 ≡ ok (sample_text, first_row)
unfolding get_message_raw read_file
home_message = refl

abbrev pub inbox_listed : Listed
inbox_listed = record {
  folder = folder_row 1 (codes "INBOX") (codes "inbox") 2;
  count = 1;
  unseen = 1;
}
