-- ===== src/Mailstore/Invariant.antt =====
-- The well-formedness of a store: identifiers below their counters and distinct, each message in a
-- folder that exists with a UID that the folder has passed and no other message of it has, and each
-- message with a file of its own. The children show that each operation keeps it.
pub mod Uids
pub mod Files
pub mod Steps
pub mod Delivery
pub mod Rows
pub mod Removal
pub mod Moves
pub mod Accounts
use cloudpost.Prelude.{All, List, Option, Pairs, find_first, none, some, ℕ, ◌<◌, ◌≡◌, ◌≢◌, ◌≤◌}
use cloudpost.Text.{Text}
use cloudpost.Mailstore.Folders.{folder_id_is}
use cloudpost.Mailstore.Schema.{Folder, Message, Store, read_file}

-- The next_uid of a folder.
abbrev pub uid_field : Option Folder → Option ℕ
uid_field none = none
uid_field (some f) = some f.next_uid

unfoldable pub next_uid_of : ℕ → List Folder → Option ℕ
next_uid_of id fs = uid_field (find_first (folder_id_is id) fs)

-- The folder of `m` exists and has passed its UID.
pub record Placed (fs : List Folder) (m : Message) : Type 0 where
  pub limit : ℕ
  pub found : next_uid_of m.folder_id fs ≡ some limit
  pub below : m.uid < limit

pub record Apart (m n : Message) : Type 0 where
  pub ids : m.id ≢ n.id
  pub paths : m.raw_path ≢ n.raw_path
  pub uids : m.folder_id ≡ n.folder_id → m.uid ≢ n.uid

-- The message has a counted id, and a file under a drawn name.
pub record Stored (ids names : ℕ) (files : List (ℕ × Text)) (m : Message) : Type 0 where
  pub id_below : m.id < ids
  pub path_below : m.raw_path < names
  pub raw : Text
  pub file : read_file m.raw_path files ≡ some raw

-- `low` is a bound below the next UID of each folder; a folder yet to come starts at 1.
pub record IsWellFormed (low : ℕ → ℕ) (s : Store) : Type 0 where
  pub folder_ids : All (λ f. (f.id < s.next_folder) × (low f.id ≤ f.next_uid)) s.folders
  pub low_fresh : (j : ℕ) → s.next_folder ≤ j → low j ≤ 1
  pub folders_apart : Pairs (λ f g. f.id ≢ g.id) s.folders
  pub placed : All (Placed s.folders) s.messages
  pub stored : All (Stored s.next_message s.next_blob s.blobs) s.messages
  pub apart : Pairs Apart s.messages
