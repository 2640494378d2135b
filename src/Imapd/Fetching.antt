-- ===== src/Imapd/Fetching.antt =====
-- FETCH of internal/imapd/fetch.go: what is written for each message, and the \Seen flags that it
-- sets.
use cloudpost.Prelude.{
  Bool, List, Option, [], drop, if◌then◌else◌, inl, inr, length, none, some, suc, take, ℕ, ◌%◌,
  ◌++◌, ◌+◌, ◌^◌, ◌||◌, ◌∷◌,
}
use cloudpost.Text.{Text, last_index_byte, split}
use cloudpost.Imapd.Messages.{is_uid_set, row_id, selected, with_msgs}
use cloudpost.Imapd.Sections.{Section, section_content}
use cloudpost.Imapd.Session.{ImapSession, NumSet, Outcome, SelMsg, has_flag, in_num_set, uid_of}
use cloudpost.Mailstore.Flags.{add, seen_flag}
use cloudpost.Mailstore.Messages.{get_message_raw, set_flags}
use cloudpost.Mailstore.Schema.{Message, Result, Store, err, ok}

pub record ImapAddress : Type 0 where
  pub name : Text
  pub mailbox : Text
  pub host : Text

abbrev pub addresses : List Text → List ImapAddress
addresses [] = []
addresses (t ∷ ts) = elim (last_index_byte b'@' t) [
  | none ↦ addresses ts
  | some i ↦ record { name = []; mailbox = take i t; host = drop (i + 1) t } ∷ addresses ts
]

pub record Envelope : Type 0 where
  pub date : ℕ
  pub subject : Text
  pub from : ImapAddress
  pub to : List ImapAddress
  pub cc : List ImapAddress
  pub in_reply_to : Text
  pub message_id : Text

abbrev pub from_address : Message → Option ℕ → ImapAddress
from_address m none = record { name = m.from_name; mailbox = []; host = [] }
from_address m (some i) = record {
  name = m.from_name;
  mailbox = take i m.from_addr;
  host = drop (i + 1) m.from_addr;
}

unfoldable pub envelope_for : Message → Envelope
unfolding last_index_byte
envelope_for m = record {
  date = m.sent_at;
  subject = m.subject;
  from = from_address m (last_index_byte b'@' m.from_addr);
  to = addresses m.to_addrs;
  cc = addresses m.cc_addrs;
  in_reply_to = m.in_reply_to;
  message_id = m.message_id;
}

pub record FetchOptions : Type 0 where
  pub uid : Bool
  pub flags : Bool
  pub internal_date : Bool
  pub rfc822_size : Bool
  pub envelope : Bool
  pub body_structure : Bool
  pub sections : List Section

-- What is written for a message. A body structure is one part with a size and a number of lines.
pub data FetchItem : Type 0 where
  wrote_uid : ℕ → FetchItem
  wrote_flags : List Text → FetchItem
  wrote_date : ℕ → FetchItem
  wrote_size : ℕ → FetchItem
  wrote_envelope : Envelope → FetchItem
  wrote_structure : ℕ → ℕ → FetchItem
  wrote_section : Section → Text → FetchItem

abbrev pub when : Bool → FetchItem → List FetchItem → List FetchItem
when b item rest = if b then item ∷ rest else rest

abbrev pub heads : FetchOptions → NumSet → SelMsg → List FetchItem
heads o nums m = when (o.uid || is_uid_set nums) (wrote_uid (uid_of m)) (
    when o.flags (wrote_flags m.flag_list) (
      when o.internal_date (wrote_date m.row.internal_at) (
        when o.rfc822_size (wrote_size m.row.size) (
          when o.envelope (wrote_envelope (envelope_for m.row)) (
            when o.body_structure
              (wrote_structure (m.row.size % 2 ^ 32) (length (split 10 m.row.snippet))) [])))))

abbrev pub raw_or_nil : Result (Text × Message) → Text
raw_or_nil (err e) = []
raw_or_nil (ok p) = p.0

-- The store, the message of the selection, and what was written for its sections.
pub record SectionRun : Type 0 where
  pub store : Store
  pub msg : SelMsg
  pub items : List FetchItem

abbrev pub see : SelMsg → SelMsg
see m =
    if has_flag m.flag_list seen_flag
    then m
    else record m { flag_list = m.flag_list ++ seen_flag ∷ [] }

abbrev pub seen_in : Store → ℕ → Section → SelMsg → Store
seen_in s account sec m =
    if sec.peek then s else set_flags s account (row_id m ∷ []) add (seen_flag ∷ [])

abbrev pub with_item : FetchItem → SectionRun → SectionRun
with_item item acc = record acc { items = item ∷ acc.items }

-- The sections in order; one that is not peeked at sets \Seen.
unfoldable pub fetch_sections : Store → ℕ → SelMsg → List Section → SectionRun
unfolding section_content has_flag get_message_raw
fetch_sections s account m [] = record { store = s; msg = m; items = [] }
fetch_sections s account m (sec ∷ secs) =
    with_item
      (wrote_section sec (section_content (raw_or_nil (get_message_raw s account (row_id m))) sec))
      (fetch_sections (seen_in s account sec m) account (if sec.peek then m else see m) secs)

pub record FetchRun : Type 0 where
  pub store : Store
  pub msgs : List SelMsg
  pub written : List (ℕ × List FetchItem)

abbrev pub pass_by : SelMsg → FetchRun → FetchRun
pass_by m acc = record acc { msgs = m ∷ acc.msgs }

abbrev pub write_message : ℕ → List FetchItem → SelMsg → FetchRun → FetchRun
write_message seq items m acc = record acc {
  msgs = m ∷ acc.msgs;
  written = (seq, items) ∷ acc.written;
}

unfoldable pub fetch_each : Store → ℕ → NumSet → FetchOptions → ℕ → List SelMsg → FetchRun
unfolding fetch_sections in_num_set envelope_for split
fetch_each s account nums o seq [] = record { store = s; msgs = []; written = [] }
fetch_each s account nums o seq (m ∷ ms) =
    let one = fetch_sections s account m o.sections in
    let skipped = fetch_each s account nums o (suc seq) ms in
    let rest = fetch_each one.store account nums o (suc seq) ms in
    if in_num_set nums (uid_of m) seq
    then write_message seq (heads o nums m ++ one.items) one.msg rest
    else pass_by m skipped

unfoldable pub fetch :
    Store
    → ImapSession
    → NumSet
    → FetchOptions
    → (Store × ImapSession) × Outcome (List (ℕ × List FetchItem))
unfolding fetch_each
fetch s ses nums o =
    selected ses.account ses.sel (λ e. ((s, ses), inl e))
      (λ a sel.
        let acc = fetch_each s a.id nums o 1 sel.msgs in
        ((acc.store, with_msgs ses sel acc.msgs), inr acc.written))
