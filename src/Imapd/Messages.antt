-- ===== src/Imapd/Messages.antt =====
-- EXPUNGE, STORE, COPY and MOVE of internal/imapd: imap.go and fetch.go.
use cloudpost.Prelude.{
  Bool, List, Option, [], false, if◌then◌else◌, inl, inr, is_nil, keep, map, none, not, some, suc,
  true, ℕ, ◌&&◌, ◌∷◌,
}
use cloudpost.Text.{Text}
use cloudpost.Imapd.Mailboxes.{found_or}
use cloudpost.Imapd.Session.{
  ImapError, ImapSession, NumSet, Outcome, SelMsg, SelState, auth_refused, from_store, has_flag,
  has_number, in_num_set, no_selection, no_such_mailbox, seq_set, uid_of, uid_set,
}
use cloudpost.Mailstore.Flags.{FlagMode, add, deleted_flag, split_flags}
use cloudpost.Mailstore.Folders.{folder_by_name}
use cloudpost.Mailstore.Messages.{
  delete_messages, deliver, expunge_folder, get_message, get_message_raw, set_flags,
}
use cloudpost.Mailstore.Schema.{Account, Error, External, Listed, Message, Result, Store, err, ok}

-- A command on the selected mailbox of a session that has logged in.
abbrev pub selected {ℓ} :
    {A : Type ℓ} → Option Account → Option SelState → (ImapError → A) → (Account → SelState → A) → A
selected none sel refusal command = refusal auth_refused
selected (some a) none refusal command = refusal no_selection
selected (some a) (some sel) refusal command = command a sel

-- The session with other messages in its selection.
abbrev pub with_msgs : ImapSession → SelState → List SelMsg → ImapSession
with_msgs ses sel msgs = record ses { sel = some (record sel { msgs = msgs }) }

abbrev pub row_id : SelMsg → ℕ
row_id m = m.row.id

abbrev pub among : Option (List ℕ) → ℕ → Bool
among none uid = true
among (some uids) uid = has_number uid uids

unfoldable pub doomed : Option (List ℕ) → SelMsg → Bool
unfolding has_flag
doomed uids m = has_flag m.flag_list deleted_flag && among uids (uid_of m)

-- The sequence numbers of the messages that pass the test, from `n` on.
abbrev pub seqs : (SelMsg → Bool) → ℕ → List SelMsg → List ℕ
seqs p n [] = []
seqs p n (m ∷ ms) = let rest = seqs p (suc n) ms in if p m then n ∷ rest else rest

abbrev pub others : List ℕ → List SelMsg → List SelMsg
others ids = keep (λ m. not (has_number (row_id m) ids))

abbrev pub expunge_selected :
    Store
    → ImapSession
    → Account
    → SelState
    → Option (List ℕ)
    → (Store × ImapSession) × Outcome (List ℕ)
expunge_selected s ses a sel uids =
    let ids = map row_id (keep (doomed uids) sel.msgs) in
    if is_nil ids then ((s, ses), inr []) else (
      (
        (expunge_folder (set_flags s a.id ids add (deleted_flag ∷ [])) sel.folder.id).0,
        with_msgs ses sel (others ids sel.msgs),
      ),
      inr (seqs (doomed uids) 1 sel.msgs),
    )

-- Returns the sequence numbers that are reported.
unfoldable pub expunge :
    Store → ImapSession → Option (List ℕ) → (Store × ImapSession) × Outcome (List ℕ)
unfolding doomed
expunge s ses uids =
    selected ses.account ses.sel (λ e. ((s, ses), inl e))
      (λ a sel. expunge_selected s ses a sel uids)

-- What STORE answers for a message: its number, its UID in the UID form, and its flags.
pub record FlagLine : Type 0 where
  pub seq : ℕ
  pub uid : Option ℕ
  pub flag_list : List Text

pub record StoreRun : Type 0 where
  pub store : Store
  pub msgs : List SelMsg
  pub sent : List FlagLine
  pub failure : Option Error

pub record StoreFlags : Type 0 where
  pub mode : FlagMode
  pub flag_list : List Text
  pub silent : Bool

abbrev pub is_uid_set : NumSet → Bool
is_uid_set (seq_set nums) = false
is_uid_set (uid_set nums) = true

abbrev pub flag_line : NumSet → ℕ → SelMsg → List Text → FlagLine
flag_line nums seq m flags = record {
  seq = seq;
  uid = if is_uid_set nums then some (uid_of m) else none;
  flag_list = flags;
}

abbrev pub passed : SelMsg → StoreRun → StoreRun
passed m acc = record acc { msgs = m ∷ acc.msgs }

abbrev pub answered : Bool → FlagLine → StoreRun → StoreRun
answered silent line acc = if silent then acc else record acc { sent = line ∷ acc.sent }

-- On what GetMessage returned after SetFlags; `rest` is the acc over the messages behind.
abbrev pub after_store :
    Store → NumSet → StoreFlags → ℕ → SelMsg → List SelMsg → Result Message → StoreRun → StoreRun
after_store s nums fl seq m ms (err e) rest = record {
  store = s;
  msgs = m ∷ ms;
  sent = [];
  failure = some e;
}
after_store s nums fl seq m ms (ok after) rest =
    answered fl.silent (flag_line nums seq m (split_flags after.flags))
      (passed (record m { flag_list = split_flags after.flags }) rest)

unfoldable pub store_each : Store → ℕ → NumSet → StoreFlags → ℕ → List SelMsg → StoreRun
unfolding in_num_set split_flags
store_each s account nums fl seq [] = record { store = s; msgs = []; sent = []; failure = none }
store_each s account nums fl seq (m ∷ ms) =
    let s1 = set_flags s account (row_id m ∷ []) fl.mode fl.flag_list in
    let skipped = store_each s account nums fl (suc seq) ms in
    let rest = store_each s1 account nums fl (suc seq) ms in
    if in_num_set nums (uid_of m) seq
    then after_store s1 nums fl seq m ms (get_message s1 account (row_id m)) rest
    else passed m skipped

abbrev pub store_outcome_of :
    ImapSession → SelState → StoreRun → (Store × ImapSession) × Outcome (List FlagLine)
store_outcome_of ses sel acc = (
  (acc.store, with_msgs ses sel acc.msgs),
  elim acc.failure [ none ↦ inr acc.sent | some e ↦ inl (from_store e) ],
)

unfoldable pub store_flags :
    Store → ImapSession → NumSet → StoreFlags → (Store × ImapSession) × Outcome (List FlagLine)
unfolding store_each
store_flags s ses nums fl =
    selected ses.account ses.sel (λ e. ((s, ses), inl e))
      (λ a sel. store_outcome_of ses sel (store_each s a.id nums fl 1 sel.msgs))

-- A message that was copied: its id, its number, its UID and that of the copy.
pub record Copied : Type 0 where
  pub id : ℕ
  pub seq : ℕ
  pub src_uid : ℕ
  pub dst_uid : ℕ

pub record CopyRun : Type 0 where
  pub store : Store
  pub copies : List Copied

abbrev pub copied_to : SelMsg → ℕ → Store × Result (ℕ × ℕ) → Store × Option Copied
copied_to m seq (s, err e) = (s, none)
copied_to m seq (s, ok (id, uid)) =
    (s, some (record { id = row_id m; seq = seq; src_uid = uid_of m; dst_uid = uid }))

abbrev pub copy_text :
    External → Store → ℕ → ℕ → SelMsg → ℕ → Result (Text × Message) → Store × Option Copied
copy_text ext s account dest m seq (err e) = (s, none)
copy_text ext s account dest m seq (ok (raw, row)) =
    copied_to m seq
      (deliver ext s account dest raw (some (record { flags = m.flag_list; internal_at = 0 })))

-- One message; one that cannot be read or delivered is passed over.
unfoldable pub copy_one : External → Store → ℕ → ℕ → SelMsg → ℕ → Store × Option Copied
copy_one ext s account dest m seq =
    copy_text ext s account dest m seq (get_message_raw s account (row_id m))

abbrev pub noted : Option Copied → CopyRun → CopyRun
noted none acc = acc
noted (some c) acc = record acc { copies = c ∷ acc.copies }

unfoldable pub copy_each : External → Store → ℕ → ℕ → NumSet → ℕ → List SelMsg → CopyRun
unfolding in_num_set copy_one
copy_each ext s account dest nums seq [] = record { store = s; copies = [] }
copy_each ext s account dest nums seq (m ∷ ms) =
    let one = copy_one ext s account dest m seq in
    let skipped = copy_each ext s account dest nums (suc seq) ms in
    let rest = copy_each ext one.0 account dest nums (suc seq) ms in
    if in_num_set nums (uid_of m) seq then noted one.1 rest else skipped

-- The UIDVALIDITY of the mailbox, and the UIDs of the messages and of the copies.
pub record CopyData : Type 0 where
  pub uid_validity : ℕ
  pub source_uids : List ℕ
  pub dest_uids : List ℕ

abbrev pub copy_data : Listed → List Copied → CopyData
copy_data f copies = record {
  uid_validity = f.uid_validity;
  source_uids = map (λ (c : Copied). c.src_uid) copies;
  dest_uids = map (λ (c : Copied). c.dst_uid) copies;
}

unfoldable pub copy : External → Store → ImapSession → NumSet → Text → Store × Outcome CopyData
unfolding copy_each folder_by_name
copy ext s ses nums dest =
    selected ses.account ses.sel (λ e. (s, inl e))
      (λ a sel.
        found_or (folder_by_name s a.id dest)
          (λ f.
            let acc = copy_each ext s a.id f.id nums 1 sel.msgs in
            (acc.store, inr (copy_data f acc.copies)))
          (s, inl no_such_mailbox))

abbrev pub copied_ids : List Copied → List ℕ
copied_ids = map (λ (c : Copied). c.id)

-- What MOVE reports: the copies, and the numbers of the messages that went.
abbrev pub moved :
    Store
    → ImapSession
    → Account
    → SelState
    → Listed
    → CopyRun
    → (Store × ImapSession) × Outcome (Option (CopyData × List ℕ))
moved s ses a sel f acc =
    let ids = copied_ids acc.copies in
    if is_nil ids then ((acc.store, ses), inr none) else (
      (delete_messages acc.store a.id ids, with_msgs ses sel (others ids sel.msgs)),
      inr (some (copy_data f acc.copies, seqs (λ m. has_number (row_id m) ids) 1 sel.msgs)),
    )

unfoldable pub move :
    External
    → Store
    → ImapSession
    → NumSet
    → Text
    → (Store × ImapSession) × Outcome (Option (CopyData × List ℕ))
unfolding copy_each folder_by_name
move ext s ses nums dest =
    selected ses.account ses.sel (λ e. ((s, ses), inl e))
      (λ a sel.
        found_or (folder_by_name s a.id dest)
          (λ f. moved s ses a sel f (copy_each ext s a.id f.id nums 1 sel.msgs))
          ((s, ses), inl no_such_mailbox))
