-- ===== src/Imapd/Mailboxes.antt =====
-- SELECT, CREATE, DELETE, RENAME, STATUS and APPEND of internal/imapd/imap.go.
use cloudpost.Prelude.{
  List, Option, [], false, if◌then◌else◌, inl, inr, is_nil, keep, length, map, none, not, reverse,
  some, take, true, ℕ, ◌%◌, ◌*◌, ◌++◌, ◌+◌, ◌==◌, ◌^◌, ◌∷◌,
}
use cloudpost.Text.{Text, eqb, trim_suffix}
use cloudpost.Imapd.Session.{
  ImapSession, Outcome, SelMsg, SelState, auth_refused, from_store, has_flag, inbox_stays,
  invalid_mailbox, no_such_mailbox,
}
use cloudpost.Mailstore.Flags.{deleted_flag, seen_flag, split_flags}
use cloudpost.Mailstore.Folders.{
  delete_folder, ensure_folder, folder_by_name, inbox_name, rename_folder,
}
use cloudpost.Mailstore.Messages.{deliver, list_messages}
use cloudpost.Mailstore.Schema.{Account, External, Listed, Message, Result, Store, err, ok}

abbrev pub sel_msg : Message → SelMsg
sel_msg m = record { row = m; flag_list = split_flags m.flags }

pub record SelectData : Type 0 where
  pub num_messages : ℕ
  pub uid_next : ℕ
  pub uid_validity : ℕ

-- A command of a session that has logged in.
abbrev pub with_login {ℓ} : {A : Type ℓ} → Option Account → (Account → A) → A → A
with_login none command refusal = refusal
with_login (some a) command refusal = command a

abbrev pub found_or {ℓ} : {A : Type ℓ} → Result Listed → (Listed → A) → A → A
found_or (err e) command missing = missing
found_or (ok f) command missing = command f

-- The page that ListMessages gives for a limit of 100000, turned round.
unfoldable pub opened_msgs : Store → ℕ → List SelMsg
unfolding list_messages split_flags
opened_msgs s folder = map sel_msg (reverse (list_messages s folder 0 100000 true).0)

abbrev pub select_data : Listed → List SelMsg → SelectData
select_data f msgs = record {
  num_messages = length msgs;
  uid_next = f.next_uid % 2 ^ 32;
  uid_validity = f.uid_validity;
}

unfoldable pub select : Store → ImapSession → Text → ImapSession × Outcome SelectData
unfolding opened_msgs folder_by_name
select s ses mailbox =
    with_login ses.account
      (λ a.
        found_or (folder_by_name s a.id mailbox)
          (λ f.
            let msgs = opened_msgs s f.id in
            (
              record ses { sel = some (record { folder = f; msgs = msgs }) },
              inr (select_data f msgs),
            ))
          (ses, inl no_such_mailbox))
      (ses, inl auth_refused)

abbrev pub store_outcome {ℓ} : {A : Type ℓ} → Store × Result A → Store × Outcome (Unit {0})
store_outcome (s, ok a) = (s, inr tt)
store_outcome (s, err e) = (s, inl (from_store e))

unfoldable pub create : Store → ImapSession → Text → Store × Outcome (Unit {0})
unfolding trim_suffix ensure_folder
create s ses mailbox =
    with_login ses.account
      (λ a.
        if is_nil (trim_suffix b'/' mailbox)
        then (s, inl invalid_mailbox)
        else store_outcome (ensure_folder s a.id (trim_suffix b'/' mailbox) []))
      (s, inl auth_refused)

unfoldable pub delete : Store → ImapSession → Text → Store × Outcome (Unit {0})
unfolding folder_by_name delete_folder eqb
delete s ses mailbox =
    with_login ses.account
      (λ a.
        found_or (folder_by_name s a.id mailbox)
          (λ f.
            if eqb mailbox inbox_name
            then (s, inl inbox_stays)
            else store_outcome (delete_folder s a.id f.id))
          (s, inl no_such_mailbox))
      (s, inl auth_refused)

unfoldable pub rename_mailbox : Store → ImapSession → Text → Text → Store × Outcome (Unit {0})
unfolding folder_by_name rename_folder
rename_mailbox s ses mailbox new_name =
    with_login ses.account
      (λ a.
        found_or (folder_by_name s a.id mailbox)
          (λ f. store_outcome (rename_folder s a.id f.id new_name)) (s, inl no_such_mailbox))
      (s, inl auth_refused)

pub record StatusData : Type 0 where
  pub messages : ℕ
  pub unseen : ℕ
  pub deleted : ℕ
  pub size : ℕ
  pub uid_next : ℕ
  pub uid_validity : ℕ

abbrev pub total_size : List Message → ℕ
total_size [] = 0
total_size (m ∷ ms) = m.size + total_size ms

-- STATUS counts over the same page.
unfoldable pub status_for : Store → Listed → StatusData
unfolding list_messages split_flags has_flag
status_for s f =
    let msgs = (list_messages s f.id 0 100000 true).0 in
    record {
      messages = length msgs;
      unseen = length (keep (λ m. not (has_flag (split_flags m.flags) seen_flag)) msgs);
      deleted = length (keep (λ m. has_flag (split_flags m.flags) deleted_flag) msgs);
      size = total_size msgs;
      uid_next = f.next_uid % 2 ^ 32;
      uid_validity = f.uid_validity;
    }

unfoldable pub mailbox_status : Store → ImapSession → Text → Outcome StatusData
unfolding folder_by_name status_for
mailbox_status s ses mailbox =
    with_login ses.account
      (λ a.
        found_or (folder_by_name s a.id mailbox) (λ f. inr (status_for s f)) (inl no_such_mailbox))
      (inl auth_refused)

-- The message that APPEND shows in a selection: its id, folder and UID alone.
abbrev pub bare_message : ℕ → ℕ → ℕ → Message
bare_message id folder uid = record {
  id = id;
  account_id = 0;
  folder_id = folder;
  uid = uid;
  message_id = [];
  in_reply_to = [];
  from_name = [];
  from_addr = [];
  to_addrs = [];
  cc_addrs = [];
  subject = [];
  sent_at = 0;
  internal_at = 0;
  size = 0;
  flags = [];
  snippet = [];
  has_attach = false;
  raw_path = 0;
}

abbrev pub bare_msg : ℕ → ℕ → ℕ → SelMsg
bare_msg id folder uid = record { row = bare_message id folder uid; flag_list = [] }

abbrev pub grown : ℕ → SelMsg → Option SelState → Option SelState
grown folder m none = none
grown folder m (some sel) =
    some (if sel.folder.id == folder then record sel { msgs = sel.msgs ++ m ∷ [] } else sel)

unfoldable pub append_to_selection : ImapSession → ℕ → ℕ → ℕ → ImapSession
append_to_selection ses folder id uid = record ses {
  sel = grown folder (bare_msg id folder uid) ses.sel;
}

abbrev pub append_limit : ℕ
append_limit = 50 * 2 ^ 20

abbrev pub appended :
    ImapSession → ℕ → ℕ → Store × Result (ℕ × ℕ) → (Store × ImapSession) × Outcome (ℕ × ℕ)
appended ses folder validity (s, err e) = ((s, ses), inl (from_store e))
appended ses folder validity (s, ok (id, uid)) =
    ((s, append_to_selection ses folder id uid), inr (uid, validity))

-- Returns the UID and the UIDVALIDITY; a time of 0 is none.
unfoldable pub append :
    External
    → Store
    → ImapSession
    → Text
    → Text
    → List Text
    → ℕ
    → (Store × ImapSession) × Outcome (ℕ × ℕ)
unfolding folder_by_name append_to_selection
append ext s ses mailbox input flags time =
    with_login ses.account
      (λ a.
        found_or (folder_by_name s a.id mailbox)
          (λ f. appended ses f.id f.uid_validity (
            deliver ext s a.id f.id (take append_limit input)
              (some (record { flags = flags; internal_at = time }))))
          ((s, ses), inl no_such_mailbox))
      ((s, ses), inl auth_refused)
