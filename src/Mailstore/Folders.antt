-- ===== src/Mailstore/Folders.antt =====
-- The folder operations of internal/mailstore/store.go.
use cloudpost.Prelude.{
  Bool, List, [], any, false, find_first, if◌then◌else◌, is_nil, keep, leb, length, map, none, not,
  some, sort_by, true, update_where, ℕ, ◌%◌, ◌&&◌, ◌++◌, ◌+◌, ◌==◌, ◌^◌, ◌||◌, ◌∷◌,
}
use cloudpost.Text.{Text, codes, eqb}
use cloudpost.Mailstore.Flags.{like, seen_flag}
use cloudpost.Mailstore.Schema.{
  Account, Folder, Listed, Message, Result, Store, cannot_delete_inbox, constraint, err,
  from_option, invalid_name, no_rows, ok, remove_file,
}

abbrev pub inbox_name : Text
inbox_name = codes "INBOX"

-- WHERE account_id=? AND name=?
abbrev pub named : ℕ → Text → Folder → Bool
named account name f = f.account_id == account && eqb f.name name

abbrev pub folder_id_is : ℕ → Folder → Bool
folder_id_is id f = f.id == id

abbrev pub account_id_is : ℕ → Account → Bool
account_id_is id a = a.id == id

-- Creates a folder when missing; returns its id. The account must exist: a foreign key.
unfoldable pub ensure_folder : Store → ℕ → Text → Text → Store × Result ℕ
unfolding eqb
ensure_folder s account name special = elim (find_first (named account name) s.folders) [
  | some f ↦ (s, ok f.id)
  | none ↦
      if any (account_id_is account) s.accounts
      then (
        record s {
          folders =
              s.folders
              ++ (record {
                id = s.next_folder;
                account_id = account;
                name = name;
                special = special;
                subscribed = true;
                uid_validity = s.clock % 2 ^ 32;
                next_uid = 1;
              }
                  ∷ []);
          next_folder = s.next_folder + 1;
        },
        ok s.next_folder,
      )
      else (s, err constraint)
]

-- ORDER BY CASE name WHEN 'INBOX' THEN 0 ELSE 1 END, id
abbrev pub folder_before : Folder → Folder → Bool
folder_before f g =
    if eqb f.name inbox_name
    then (if eqb g.name inbox_name then leb f.id g.id else true)
    else if eqb g.name inbox_name
    then false
    else leb f.id g.id

abbrev listed : List Message → Folder → Listed
listed messages f =
    let inside = keep (λ m. m.folder_id == f.id) messages in
    record {
      folder = f;
      count = length inside;
      unseen = length (keep (λ m. not (like seen_flag m.flags)) inside);
    }

unfoldable pub list_folders : Store → ℕ → List Listed
unfolding eqb sort_by like
list_folders s account =
    map (listed s.messages) (sort_by folder_before (keep (λ f. f.account_id == account) s.folders))

unfoldable pub get_folder : Store → ℕ → ℕ → Result Listed
unfolding list_folders
get_folder s account id =
    from_option no_rows (find_first (λ f. f.id == id) (list_folders s account))

-- Finds a folder by exact name.
unfoldable pub folder_by_name : Store → ℕ → Text → Result Listed
unfolding list_folders
folder_by_name s account name =
    from_option no_rows (find_first (λ f. eqb f.name name) (list_folders s account))

-- UNIQUE(account_id, name) refuses a name that another folder of the account has.
unfoldable pub rename_folder : Store → ℕ → ℕ → Text → Store × Result (Unit {0})
unfolding eqb
rename_folder s account id name =
    if eqb name inbox_name || is_nil name
    then (s, err invalid_name)
    else let hit =
        λ (f : Folder). f.id == id && (f.account_id == account && not (eqb f.name inbox_name)) in
      if any hit s.folders && any (λ f. named account name f && not (f.id == id)) s.folders
      then (s, err constraint)
      else (
        record s { folders = update_where hit (λ f. record f { name = name }) s.folders },
        ok tt,
      )

-- Removes the files of some messages.
unfoldable pub remove_blobs : List Message → List (ℕ × Text) → List (ℕ × Text)
unfolding remove_file
remove_blobs [] files = files
remove_blobs (m ∷ ms) files = remove_blobs ms (remove_file m.raw_path files)

-- Removes a folder other than INBOX, the files of its messages, and by cascade their rows.
unfoldable pub delete_folder : Store → ℕ → ℕ → Store × Result (Unit {0})
unfolding eqb
delete_folder s account id =
    elim (find_first (λ f. f.id == id && f.account_id == account) s.folders) [
      | none ↦ (s, err no_rows)
      | some f ↦ if eqb f.name inbox_name then (s, err cannot_delete_inbox) else (
        record s {
          blobs = remove_blobs (keep (λ m. m.folder_id == id) s.messages) s.blobs;
          folders = keep (λ g. not (g.id == id)) s.folders;
          messages = keep (λ m. not (m.folder_id == id)) s.messages;
        },
        ok tt,
      )
    ]

-- The folders that a new account gets, with their special use.
abbrev pub system_folders : List (Text × Text)
system_folders =
    (inbox_name, codes "inbox")
    ∷ (codes "Sent", codes "sent")
    ∷ (codes "Drafts", codes "drafts")
    ∷ (codes "Trash", codes "trash")
    ∷ (codes "Junk", codes "junk")
    ∷ (codes "Archive", codes "archive")
    ∷ []

-- Goes on only after a success.
abbrev pub and_then : Store × Result ℕ → Store × Result (Unit {0}) → Store × Result (Unit {0})
and_then (s, ok id) later = later
and_then (s, err e) later = (s, err e)

unfoldable pub ensure_all : Store → ℕ → List (Text × Text) → Store × Result (Unit {0})
ensure_all s account [] = (s, ok tt)
ensure_all s account ((name, special) ∷ rest) =
    let made = ensure_folder s account name special in
    and_then made (ensure_all made.0 account rest)

unfoldable pub ensure_system_folders : Store → ℕ → Store × Result (List Listed)
ensure_system_folders s account =
    let (s1, r) = ensure_all s account system_folders in
    elim r [ ok _ ↦ (s1, ok (list_folders s1 account)) | err e ↦ (s1, err e) ]
