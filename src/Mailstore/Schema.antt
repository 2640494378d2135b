-- ===== src/Mailstore/Schema.antt =====
-- The rows of internal/db/db.go with the structs of internal/mailstore/store.go that mirror them,
-- and the store that holds the tables and the blob files. Identifiers and times are natural
-- numbers; a JSON column is the list that it encodes; AUTOINCREMENT is a counter for each table.
use cloudpost.Prelude.{Bool, List, Option, [], false, if◌then◌else◌, none, some, true, ℕ, ◌==◌, ◌∷◌}
use cloudpost.Text.{Text}

-- accounts.kind
pub data Kind : Type 0 where
  local remote : Kind

unfoldable pub kind_eqb : Kind → Kind → Bool
kind_eqb local local = true
kind_eqb remote remote = true
kind_eqb _ _ = false

pub record Account : Type 0 where
  pub id : ℕ
  pub kind : Kind
  pub address : Text
  pub display_name : Text
  pub password_hash : Text
  pub remote_proto : Text
  pub remote_host : Text
  pub remote_port : ℕ
  pub remote_tls : Text
  pub remote_user : Text
  pub remote_pass : Text
  pub remote_folder : Text
  pub remote_target : Text
  pub fetch_enabled : Bool
  pub fetch_interval_min : ℕ
  pub fetch_keep_on_server : Bool
  pub signature : Text
  pub last_fetch_at : ℕ
  pub last_fetch_ok : Bool
  pub last_error : Text
  pub created_at : ℕ

pub record Folder : Type 0 where
  pub id : ℕ
  pub account_id : ℕ
  pub name : Text
  pub special : Text
  pub subscribed : Bool
  pub uid_validity : ℕ
  pub next_uid : ℕ

-- A folder row with the two counts that ListFolders adds.
pub record Listed : Type 0 where
  pub folder : Folder
  pub open folder use *
  pub count : ℕ
  pub unseen : ℕ

-- `flags` is the column: the flags with a blank between.
pub record Message : Type 0 where
  pub id : ℕ
  pub account_id : ℕ
  pub folder_id : ℕ
  pub uid : ℕ
  pub message_id : Text
  pub in_reply_to : Text
  pub from_name : Text
  pub from_addr : Text
  pub to_addrs : List Text
  pub cc_addrs : List Text
  pub subject : Text
  pub sent_at : ℕ
  pub internal_at : ℕ
  pub size : ℕ
  pub flags : Text
  pub snippet : Text
  pub has_attach : Bool
  pub raw_path : ℕ

pub record Filter : Type 0 where
  pub id : ℕ
  pub account_id : ℕ
  pub name : Text
  pub enabled : Bool
  pub position : ℕ
  pub cond_field : Text
  pub cond_op : Text
  pub cond_value : Text
  pub action : Text
  pub action_arg : Text

pub record ApiToken : Type 0 where
  pub id : ℕ
  pub account_id : ℕ
  pub token_hash : Text
  pub label : Text
  pub created_at : ℕ
  pub last_used_at : ℕ
  pub revoked : Bool

pub record ScheduledMessage : Type 0 where
  pub id : ℕ
  pub account_id : ℕ
  pub from_addr : Text
  pub recipients : List Text
  pub subject : Text
  pub data_path : ℕ
  pub send_at : ℕ
  pub created_at : ℕ

-- The facts of ParsedInfo in parse.go that Deliver and the filters read.
pub record ParsedInfo : Type 0 where
  pub message_id : Text
  pub in_reply_to : Text
  pub from_name : Text
  pub from_addr : Text
  pub to_list : List Text
  pub cc_list : List Text
  pub subject : Text
  pub sent_at : ℕ
  pub internal_at : ℕ
  pub flags : List Text
  pub snippet : Text
  pub has_attach : Bool

-- What the store takes from elsewhere: the MIME reader behind ParseHeaders, which is given the
-- clock, bcrypt, SHA-256 in hexadecimal, and the regular expressions of the filters.
pub record External : Type 0 where
  pub parse_headers : ℕ → Text → ParsedInfo
  pub hash_password : Text → Text
  pub password_matches : Text → Text → Bool
  pub token_hash : Text → Text
  pub regex_match : Text → Text → Bool

-- A file's path is the number of the draw that gave its random name, so no name comes up twice in
-- its directory: blobs/ or scheduled/.
pub record Store : Type 0 where
  pub clock : ℕ
  pub disk_full : Bool
  pub blobs : List (ℕ × Text)
  pub next_blob : ℕ
  pub scheduled_files : List (ℕ × Text)
  pub next_scheduled_file : ℕ
  pub accounts : List Account
  pub next_account : ℕ
  pub folders : List Folder
  pub next_folder : ℕ
  pub messages : List Message
  pub next_message : ℕ
  pub filters : List Filter
  pub next_filter : ℕ
  pub tokens : List ApiToken
  pub next_token : ℕ
  pub scheduled : List ScheduledMessage
  pub next_scheduled : ℕ

-- Errors: sql.ErrNoRows, a UNIQUE or a foreign key, a file that cannot be written or read, and the
-- code's own refusals.
pub data Error : Type 0 where
  no_rows constraint no_space no_file : Error
  address_required remote_fields_required bad_proto : Error
  invalid_name cannot_delete_inbox no_such_token not_installed : Error

pub data Result {ℓ} (A : Type ℓ) : Type ℓ where
  ok : A → Result A
  err : Error → Result A

abbrev pub from_option {ℓ} : {A : Type ℓ} → Error → Option A → Result A
from_option e none = err e
from_option e (some a) = ok a

-- os.ReadFile, os.WriteFile and os.Remove on the blob directory.
unfoldable pub read_file : ℕ → List (ℕ × Text) → Option Text
read_file p [] = none
read_file p ((q, raw) ∷ fs) = let rest = read_file p fs in if p == q then some raw else rest

unfoldable pub remove_file : ℕ → List (ℕ × Text) → List (ℕ × Text)
remove_file p [] = []
remove_file p ((q, raw) ∷ fs) =
    let rest = remove_file p fs in if p == q then rest else (q, raw) ∷ rest
