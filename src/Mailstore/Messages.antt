-- ===== src/Mailstore/Messages.antt =====
-- The message operations of internal/mailstore/store.go: the write path, then the read path.
use cloudpost.Prelude.{
  Bool, List, Option, [], any, drop, find_first, if◌then◌else◌, is_nil, keep, leb, length, ltb,
  none, not, some, sort_by, take, update_where, ℕ, ◌%◌, ◌&&◌, ◌++◌, ◌+◌, ◌==◌, ◌^◌, ◌||◌, ◌∷◌,
}
use cloudpost.Text.{Text}
use cloudpost.Mailstore.Flags.{
  FlagMode, add, apply_mode, deleted_flag, join_flags, like, merge_flags, seen_flag, split_flags,
}
use cloudpost.Mailstore.Folders.{account_id_is, ensure_folder, folder_id_is, remove_blobs}
use cloudpost.Mailstore.Schema.{
  External, Folder, Message, ParsedInfo, Result, Store, constraint, err, from_option, no_file,
  no_rows, no_space, ok, read_file,
}

pub record DeliverOpts : Type 0 where
  pub flags : List Text
  pub internal_at : ℕ

abbrev pub no_opts : Option DeliverOpts
no_opts = none

-- WHERE account_id=? AND id=?
abbrev pub row_is : ℕ → ℕ → Message → Bool
row_is account id m = m.account_id == account && m.id == id

-- A fresh name is drawn whether or not the write succeeds.
unfoldable pub store_blob : Store → Text → Store × Result ℕ
store_blob s raw =
    if s.disk_full then (record s { next_blob = s.next_blob + 1 }, err no_space) else (
      record s { blobs = (s.next_blob, raw) ∷ s.blobs; next_blob = s.next_blob + 1 },
      ok s.next_blob,
    )

-- UPDATE folders SET next_uid=next_uid+1 WHERE id=?
unfoldable pub bump_uid : ℕ → List Folder → List Folder
bump_uid id = update_where (folder_id_is id) (λ f. record f { next_uid = f.next_uid + 1 })

abbrev pub uid_taken : ℕ → ℕ → List Message → Bool
uid_taken folder uid = any (λ m. m.folder_id == folder && m.uid == uid)

abbrev with_default : ℕ → ℕ → ℕ
with_default x d = if x == 0 then d else x

abbrev opt_internal : Option DeliverOpts → ℕ → ℕ
opt_internal none at = at
opt_internal (some o) at = if ltb 0 o.internal_at then o.internal_at else at

abbrev opt_flags : Option DeliverOpts → List Text
opt_flags none = []
opt_flags (some o) = o.flags

-- The row that Deliver inserts.
unfoldable pub new_row : ParsedInfo → Option DeliverOpts → Store → ℕ → ℕ → ℕ → Text → ℕ → Message
unfolding merge_flags join_flags
new_row info opts s account folder uid raw path =
    let internal = with_default (opt_internal opts info.internal_at) s.clock in
    let extra = opt_flags opts in
    record {
      id = s.next_message;
      account_id = account;
      folder_id = folder;
      uid = uid;
      message_id = info.message_id;
      in_reply_to = info.in_reply_to;
      from_name = info.from_name;
      from_addr = info.from_addr;
      to_addrs = info.to_list;
      cc_addrs = info.cc_list;
      subject = info.subject;
      sent_at = with_default info.sent_at internal;
      internal_at = internal;
      size = length raw;
      flags = join_flags (if is_nil extra then info.flags else merge_flags info.flags extra);
      snippet = info.snippet;
      has_attach = info.has_attach;
      raw_path = path;
    }

-- The store after a row came in under a folder's next UID.
abbrev pub with_row : Store → ℕ → Message → Store
with_row s folder row = record s {
  folders = bump_uid folder s.folders;
  messages = s.messages ++ row ∷ [];
  next_message = s.next_message + 1;
}

abbrev pub may_insert : Store → ℕ → ℕ → ℕ → Bool
may_insert s account folder uid =
    any (account_id_is account) s.accounts && not (uid_taken folder uid s.messages)

-- The transaction, on the folder's row: the blob stays on disk when it fails.
unfoldable pub insert_under :
    ParsedInfo
    → Option DeliverOpts
    → Store
    → ℕ
    → ℕ
    → Text
    → ℕ
    → Option Folder
    → Store × Result (ℕ × ℕ)
insert_under info opts s account folder raw path none = (s, err no_rows)
insert_under info opts s account folder raw path (some f) =
    if may_insert s account folder f.next_uid
    then (
      with_row s folder (new_row info opts s account folder f.next_uid raw path),
      ok (s.next_message, f.next_uid % 2 ^ 32),
    )
    else (s, err constraint)

unfoldable pub insert_row :
    ParsedInfo → Option DeliverOpts → Store → ℕ → ℕ → Text → ℕ → Store × Result (ℕ × ℕ)
unfolding insert_under
insert_row info opts s account folder raw path =
    insert_under info opts s account folder raw path (find_first (folder_id_is folder) s.folders)

-- The rest of Deliver, on what storeBlob returned.
unfoldable pub after_blob :
    ParsedInfo → Option DeliverOpts → ℕ → ℕ → Text → Store × Result ℕ → Store × Result (ℕ × ℕ)
after_blob info opts account folder raw (s, ok path) =
    insert_row info opts s account folder raw path
after_blob info opts account folder raw (s, err e) = (s, err e)

-- Stores the blob and inserts the row; returns the row's id and the folder's uid.
unfoldable pub deliver :
    External → Store → ℕ → ℕ → Text → Option DeliverOpts → Store × Result (ℕ × ℕ)
unfolding after_blob
deliver ext s account folder raw opts =
    after_blob (ext.parse_headers s.clock raw) opts account folder raw (store_blob s raw)

-- On what EnsureFolder returned.
unfoldable pub delivery_after :
    External → ℕ → Text → Option DeliverOpts → Store × Result ℕ → Store × Result (ℕ × ℕ)
delivery_after ext account raw opts (s, ok folder) = deliver ext s account folder raw opts
delivery_after ext account raw opts (s, err e) = (s, err e)

unfoldable pub deliver_to_name :
    External → Store → ℕ → Text → Text → Option DeliverOpts → Store × Result (ℕ × ℕ)
unfolding delivery_after
deliver_to_name ext s account name raw opts =
    delivery_after ext account raw opts (ensure_folder s account name [])

unfoldable pub get_message : Store → ℕ → ℕ → Result Message
get_message s account id = from_option no_rows (find_first (row_is account id) s.messages)

unfoldable pub get_message_raw : Store → ℕ → ℕ → Result (Text × Message)
unfolding get_message
get_message_raw s account id = elim (get_message s account id) [
  | err e ↦ err e
  | ok m ↦ elim (read_file m.raw_path s.blobs) [ none ↦ err no_file | some raw ↦ ok (raw, m) ]
]

-- ORDER BY sent_at DESC, uid DESC
abbrev pub newer : Message → Message → Bool
newer m n = if m.sent_at == n.sent_at then leb n.uid m.uid else ltb n.sent_at m.sent_at

abbrev pub page_limit : ℕ → ℕ
page_limit limit = if limit == 0 || ltb 200 limit then 50 else limit

-- The rows of a folder, without those flagged \Deleted unless asked for.
unfoldable pub visible : Store → ℕ → Bool → List Message
unfolding like
visible s folder include_deleted =
    keep (λ m. m.folder_id == folder && (include_deleted || not (like deleted_flag m.flags)))
      s.messages

-- A page of a folder, newest first, with the number of messages in all.
unfoldable pub list_messages : Store → ℕ → ℕ → ℕ → Bool → List Message × ℕ
unfolding visible sort_by
list_messages s folder offset limit include_deleted =
    let all_rows = visible s folder include_deleted in
    (take (page_limit limit) (drop offset (sort_by newer all_rows)), length all_rows)

-- One round of SetFlags.
unfoldable pub set_one : Store → ℕ → FlagMode → List Text → ℕ → Store
unfolding split_flags join_flags apply_mode
set_one s account mode flags id = elim (find_first (row_is account id) s.messages) [
  | none ↦ s
  | some m ↦
      let column = join_flags (apply_mode mode (split_flags m.flags) flags) in
      record s {
        messages = update_where (row_is account id) (λ n. record n { flags = column }) s.messages;
      }
]

unfoldable pub set_each : Store → ℕ → List ℕ → FlagMode → List Text → Store
set_each s account [] mode flags = s
set_each s account (id ∷ ids) mode flags =
    set_each (set_one s account mode flags id) account ids mode flags

unfoldable pub set_flags : Store → ℕ → List ℕ → FlagMode → List Text → Store
set_flags s account ids mode flags =
    if is_nil ids || is_nil flags then s else set_each s account ids mode flags

-- UPDATE messages SET folder_id=?, uid=? WHERE id=?, after the folder's next UID went up.
unfoldable pub move_to : Store → ℕ → ℕ → Folder → Store
move_to s id to f =
    let bumped = bump_uid to s.folders in
    if uid_taken to f.next_uid s.messages then record s { folders = bumped } else record s {
      folders = bumped;
      messages =
          update_where (λ n. n.id == id) (λ n. record n { folder_id = to; uid = f.next_uid })
            s.messages;
    }

-- One round of MoveMessages: a row that is missing or already there is passed over.
unfoldable pub move_one : Store → ℕ → ℕ → ℕ → Store
move_one s account to id = elim (find_first (row_is account id) s.messages) [
  | none ↦ s
  | some m ↦
      if m.folder_id == to
      then s
      else elim (find_first (folder_id_is to) s.folders) [ none ↦ s | some f ↦ move_to s id to f ]
]

unfoldable pub move_messages : Store → ℕ → ℕ → List ℕ → Store
move_messages s account to [] = s
move_messages s account to (id ∷ ids) = move_messages (move_one s account to id) account to ids

abbrev pub expunged : ℕ → Message → Bool
expunged folder m = m.folder_id == folder && like deleted_flag m.flags

-- Removes the rows flagged \Deleted of a folder and their files; returns how many.
unfoldable pub expunge_folder : Store → ℕ → Store × ℕ
expunge_folder s folder =
    let gone = keep (expunged folder) s.messages in
    (
      record s {
        blobs = remove_blobs gone s.blobs;
        messages = keep (λ m. not (any (λ g. m.id == g.id) gone)) s.messages;
      },
      length gone,
    )

unfoldable pub delete_one : Store → ℕ → ℕ → Store
delete_one s account id =
    let gone = keep (row_is account id) s.messages in
    record s {
      blobs = remove_blobs gone s.blobs;
      messages = keep (λ m. not (row_is account id m)) s.messages;
    }

unfoldable pub delete_messages : Store → ℕ → List ℕ → Store
delete_messages s account [] = s
delete_messages s account (id ∷ ids) = delete_messages (delete_one s account id) account ids

unfoldable pub mark_seen : Store → ℕ → ℕ → Store
mark_seen s account id = set_flags s account (id ∷ []) add (seen_flag ∷ [])
