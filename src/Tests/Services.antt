-- ===== src/Tests/Services.antt =====
-- The theorems on the services: the filters, SMTP, POP3 and IMAP.
use cloudpost.Prelude.{
  List, [], false, find_first, keep, map, none, not, refl, some, sort_by, take, true, ℕ, ◌%◌, ◌&&◌,
  ◌++◌, ◌==◌, ◌^◌, ◌||◌, ◌∷◌, ◌≡◌, ◌⊎◌,
}
use cloudpost.Text.{codes, eqb, lower, trim_space}
use cloudpost.Engine.FirstMatch.{act_of, apply-first}
use cloudpost.Engine.Keeps.{apply-IsWellFormed}
use cloudpost.Engine.Lossless.{apply-kept}
use cloudpost.Engine.MoveAccount.{move_account-kept}
use cloudpost.Engine.Rules.{Mail, apply, haystack, hits, matches, move_account}
use cloudpost.Mailstore.Accounts.{
  get_account_by_address, get_account_by_address_any, normalize_addr, verify_local_login,
}
use cloudpost.Mailstore.Filters.{list_filters}
use cloudpost.Mailstore.Flags.{deleted_flag, like}
use cloudpost.Mailstore.Folders.{folder_by_name, inbox_name}
use cloudpost.Mailstore.History.Others.{same_mail}
use cloudpost.Mailstore.Invariant.{IsWellFormed}
use cloudpost.Mailstore.Login.{IsLogin}
use cloudpost.Mailstore.Marking.{ids_of}
use cloudpost.Mailstore.Messages.{
  deliver, get_message_raw, insert_row, insert_under, list_messages, newer, store_blob,
}
use cloudpost.Mailstore.Schema.{Account, Filter, Listed, Message, Store, kind_eqb, ok, read_file}
use cloudpost.Pop3d.Access.{dispatch-account, verb_in}
use cloudpost.Pop3d.Commands.{dispatch, logged_in, pass, pass_command, quit_command, verb_of}
use cloudpost.Pop3d.Maildrop.{known, load_mailbox_lem}
use cloudpost.Pop3d.Quitting.{marked, quit_command-messages}
use cloudpost.Pop3d.Session.{PopConn, PopMsg, load_mailbox, new_conn}
use cloudpost.Pop3d.Wire.{split_cmd}
use cloudpost.Sender.Queue.{Outbound, QueueItem}
use cloudpost.Smtpd.Accepted.{take_data-accepted}
use cloudpost.Smtpd.Data.{World, each_rcpt, max_bytes, one_rcpt, take_data}
use cloudpost.Smtpd.Kept.{take_data-kept}
use cloudpost.Smtpd.Outcome.{take_data-failed}
use cloudpost.Smtpd.Session.{Smtp}
use cloudpost.Tests.Fixtures.{
  alice, first_row, folder_row, home, home-IsWellFormed, home_message, sample_ext, sample_text,
}

abbrev spam_rule : Filter
spam_rule = record {
  id = 1;
  account_id = 1;
  name = codes "junk";
  enabled = true;
  position = 1;
  cond_field = codes "subject";
  cond_op = codes "contains";
  cond_value = codes "HI";
  action = codes "move";
  action_arg = codes "Junk";
}

abbrev ruled : Store
ruled = record home { filters = spam_rule ∷ []; next_filter = 2 }

abbrev hi_mail : Mail
hi_mail = record {
  subject = codes "hi";
  from = codes "bob@y";
  to = codes "alice@x";
  body = codes "dot";
}

apply-first_example :
    apply sample_ext ruled 1 1 hi_mail
    ≡ act_of sample_ext ruled 1 1 (find_first (hits sample_ext hi_mail) (list_filters ruled 1))
apply-first_example = apply-first sample_ext ruled 1 1 hi_mail

apply-IsWellFormed_example : IsWellFormed (λ _. 1) (apply sample_ext home 1 1 hi_mail)
apply-IsWellFormed_example = apply-IsWellFormed sample_ext home 1 1 hi_mail home-IsWellFormed

abbrev ruled-IsWellFormed : IsWellFormed (λ _. 1) ruled
ruled-IsWellFormed = same_mail home _ _ _ _ _ _ _ _ _ _ home-IsWellFormed

apply-kept_example :
    let t = apply sample_ext ruled 1 1 hi_mail in
    ((n : Message) × (get_message_raw t 1 1 ≡ ok (sample_text, n)))
    ⊎ ((a : Account) × (new : ℕ) × ((n : Message) × (get_message_raw t a.id new
            ≡ ok (sample_text, n))))
unfolding get_message_raw hits list_filters matches haystack
apply-kept_example =
    apply-kept sample_ext ruled 1 1 hi_mail sample_text first_row ruled-IsWellFormed home_message
      refl

move_account-kept_example :
    let t = move_account sample_ext home 1 1 (codes " Alice@X ") in
    ((n : Message) × (get_message_raw t 1 1 ≡ ok (sample_text, n)))
    ⊎ ((a : Account) × (get_account_by_address_any home (lower (trim_space (codes " Alice@X ")))
          ≡ ok a)
        × (new : ℕ) × ((n : Message) × (get_message_raw t a.id new ≡ ok (sample_text, n))))
move_account-kept_example =
    move_account-kept sample_ext home 1 1 (codes " Alice@X ") sample_text first_row
      home-IsWellFormed home_message

abbrev no_mail : Outbound
no_mail = record {
  clock = 1;
  disk_full = false;
  files = [];
  next_file = 0;
  items = [];
  next_item = 1;
  cache = none;
}

abbrev world : World
world = record { store = home; outbound = no_mail }

-- A logged-in session whose one recipient is a mailbox that is gone.
abbrev stale : Smtp
stale = record {
  from = codes "alice@x";
  rcpts = record { address = codes "bob@x"; is_local = true; account = 9; folder = 9 } ∷ [];
  authenticated = true;
  auth_account = 1;
}

take_data-failed_example :
    ((take_data sample_ext world stale (codes "hi")).0.store.messages ≡ home.messages)
    × ((take_data sample_ext world stale (codes "hi")).0.outbound.items ≡ no_mail.items)
    × ((take_data sample_ext world stale (codes "hi")).1.0 ≡ stale)
unfolding take_data each_rcpt one_rcpt deliver store_blob insert_row
take_data-failed_example = take_data-failed sample_ext world stale (codes "hi") refl

-- A session whose DATA is delivered to alice.
abbrev ready : Smtp
ready = record stale {
  rcpts = record { is_local = true; account = 1; folder = 1; address = codes "alice@x" } ∷ [];
}

take_data-kept_example :
    (n : Message) × (get_message_raw
        (take_data sample_ext (record world { store = ruled }) ready (codes "hi")).0.store
        1
        1
      ≡ ok (sample_text, n))
unfolding get_message_raw
take_data-kept_example =
    take_data-kept sample_ext (record world { store = ruled }) ready (codes "hi") 1 1 sample_text
      first_row ruled-IsWellFormed home_message

take_data-accepted_example :
    let after = (take_data sample_ext (record world { store = ruled }) ready (codes "hi")).0 in
    let raw = take max_bytes (codes "hi") in
    ((account : ℕ) × (id : ℕ) × (m : Message) × (get_message_raw after.store account id
        ≡ ok (raw, m)))
    ⊎ ((it : QueueItem) × (after.outbound.items ≡ no_mail.items ++ it ∷ [])
        × (it.from ≡ ready.from)
        × (read_file it.data_path after.outbound.files ≡ some raw))
unfolding take_data each_rcpt one_rcpt deliver store_blob insert_row insert_under
take_data-accepted_example =
    take_data-accepted sample_ext (record world { store = ruled }) ready (codes "hi")
      ruled-IsWellFormed (refl, tt) refl

abbrev box : List PopMsg
box = record { id = 1; uid = 1; size = 21; deleted = true } ∷ []

-- A POP3 session that marked its one message.
abbrev pop : PopConn
pop = record { account = some alice; last_user = codes "alice@x"; msgs = box; deleted_any = true }

abbrev greeted : PopConn
greeted = record new_conn { last_user = codes "alice@x" }

dispatch-account_example :
    (verb_in (codes "PASS pw") ≡ pass)
    × IsLogin sample_ext home (codes "alice@x") (split_cmd (codes "PASS pw")).1 alice
unfolding dispatch verb_of split_cmd pass_command verify_local_login get_account_by_address
    normalize_addr logged_in load_mailbox folder_by_name list_messages like eqb kind_eqb
dispatch-account_example =
    dispatch-account sample_ext home greeted (codes "PASS pw") alice refl refl

load_mailbox_lem_example :
    (f : Listed) × (folder_by_name home 1 inbox_name ≡ ok f)
    × (map known (record { id = 1; uid = 1; size = 21; deleted = false } ∷ [])
        ≡ map
            (λ m. (m.id, (m.uid % 2 ^ 32, m.size)))
            (take 50 (
              sort_by newer (
                keep (λ m. m.folder_id == f.id && not (like deleted_flag m.flags)) home.messages))))
    × (false ≡ false)
unfolding load_mailbox folder_by_name list_messages
load_mailbox_lem_example =
    load_mailbox_lem home alice (record { id = 1; uid = 1; size = 21; deleted = false } ∷ []) refl

abbrev inbox_listed : Listed
inbox_listed = record {
  folder = folder_row 1 (codes "INBOX") (codes "inbox") 2;
  count = 1;
  unseen = 1;
}

quit_command-messages_example :
    ids_of (quit_command home pop).store.messages
    ≡ ids_of (
        keep
          (λ n. not (n.folder_id == 1 && (like deleted_flag n.flags || marked 1 box n)))
          home.messages)
unfolding folder_by_name
quit_command-messages_example =
    quit_command-messages home pop alice inbox_listed home-IsWellFormed refl refl refl
