-- ===== src/Tests/Clients.antt =====
-- The theorems on IMAP, and on POP3 as the fetcher reads it.
use cloudpost.Prelude.{
  [], any, arith, false, inr, keep, map, none, not, refl, some, true, ℕ, ◌&&◌, ◌++◌, ◌==◌, ◌||◌,
  ◌∷◌, ◌≡◌, ◌⊎◌,
}
use cloudpost.Text.{codes, split, trim_right}
use cloudpost.Fetch.Pop3Client.{read_multiline}
use cloudpost.Imapd.Expunging.{expunge-messages, goes, is_taken}
use cloudpost.Imapd.Fetching.{FetchOptions}
use cloudpost.Imapd.Messages.{StoreFlags, expunge, move}
use cloudpost.Imapd.MoveKept.{move-kept}
use cloudpost.Imapd.Search.{Criteria, criteria, no_criteria, no_pairs}
use cloudpost.Imapd.Sections.{Section, header_part, section_content, text_part, whole}
use cloudpost.Imapd.Session.{ImapSession, SelState, uid_set}
use cloudpost.Imapd.Slices.{IsCut, section_content-whole}
use cloudpost.Mailstore.Flags.{add, deleted_flag, like}
use cloudpost.Mailstore.Marking.{ids_of}
use cloudpost.Mailstore.Messages.{get_message_raw}
use cloudpost.Mailstore.Schema.{Listed, Message, ok}
use cloudpost.Pop3d.Stuffing.{read_multiline-write_data}
use cloudpost.Pop3d.Wire.{ended, is_crlf, write_data}
use cloudpost.Tests.Fixtures.{
  alice, first_row, folder_row, home, home-IsWellFormed, home_message, sample_ext, sample_text,
}

read_multiline-write_data_example :
    read_multiline (write_data (codes ".a\r\n\r\n..\n") ++ codes "+OK\r\n")
    ≡ some (map (trim_right is_crlf) (split 10 (ended (codes ".a\r\n\r\n..\n"))), codes "+OK\r\n")
read_multiline-write_data_example =
    read_multiline-write_data (codes ".a\r\n\r\n..\n") (codes "+OK\r\n")

-- The block itself: an empty line comes behind the last.
stuffed_block : write_data (codes ".a\r\nb") ≡ codes "..a\r\nb\r\n\r\n.\r\n"
unfolding write_data
stuffed_block = refl

abbrev inbox_listed : Listed
inbox_listed = record {
  folder = folder_row 1 (codes "INBOX") (codes "inbox") 2;
  count = 1;
  unseen = 1;
}

abbrev shown : SelState
shown = record { folder = inbox_listed; msgs = record { row = first_row; flag_list = [] } ∷ [] }

abbrev opened_session : ImapSession
opened_session = record { account = some alice; sel = some shown }

abbrev whole_section : Section
whole_section = record {
  part = [];
  specifier = whole;
  fields_only = [];
  fields_not = [];
  window = none;
  peek = false;
}

abbrev body_only : FetchOptions
body_only = record {
  uid = true;
  flags = true;
  internal_date = false;
  rfc822_size = false;
  envelope = false;
  body_structure = false;
  sections = whole_section ∷ [];
}

abbrev flag_deleted : StoreFlags
flag_deleted = record { mode = add; flag_list = deleted_flag ∷ []; silent = false }

abbrev all_mail : Criteria
all_mail =
    criteria
      (record {
        uids = [];
        seq_nums = [];
        since = none;
        before = none;
        sent_since = none;
        sent_before = none;
        header = [];
        text = [];
        body = [];
        flag = [];
        not_flag = [];
        larger = 0;
        smaller = 0;
      })
      no_criteria no_pairs

move-kept_example :
    (new : ℕ) × (n : Message) × (get_message_raw
        (move sample_ext home opened_session (uid_set (1 ∷ [])) (codes "Junk")).0.0
        1
        new
      ≡ ok (sample_text, n))
move-kept_example =
    move-kept sample_ext home opened_session (uid_set (1 ∷ [])) (codes "Junk") alice shown 1
      sample_text first_row home-IsWellFormed refl refl (omega arith, tt) home_message

-- The session knows the message as \Deleted.
abbrev flagged : SelState
flagged = record shown { msgs = record { row = first_row; flag_list = deleted_flag ∷ [] } ∷ [] }

abbrev flagged_session : ImapSession
flagged_session = record { account = some alice; sel = some flagged }

expunge-messages_example :
    let r = expunge home flagged_session (some (1 ∷ [])) in
    ((any (goes (some (1 ∷ []))) flagged.msgs ≡ false) × (r ≡ ((home, flagged_session), inr [])))
    ⊎ ((any (goes (some (1 ∷ []))) flagged.msgs ≡ true)
        × (ids_of r.0.0.messages
            ≡ ids_of (
                keep
                  (λ n. not (
                    n.folder_id == flagged.folder.id
                    && (like deleted_flag n.flags || is_taken 1 (some (1 ∷ [])) flagged.msgs n)))
                  home.messages)))
expunge-messages_example =
    expunge-messages home flagged_session (some (1 ∷ [])) alice flagged home-IsWellFormed refl refl

section_content-whole_example :
    IsCut
      (section_content sample_text (record whole_section { specifier = whole }))
      (section_content sample_text (record whole_section { specifier = header_part }))
      (section_content sample_text (record whole_section { specifier = text_part }))
section_content-whole_example = section_content-whole sample_text whole_section refl refl refl refl
