-- ===== src/Fetch/Remote.antt =====
-- The fetcher of internal/fetch: fetcher.go, and the loops of pop3_client.go and imap_client.go over
-- what the remote server answers.
use cloudpost.Prelude.{
  Bool, List, Option, [], any, drop, if◌then◌else◌, is_nil, keep, leb, length, ltb, none, not, some,
  true, ℕ, ◌%◌, ◌&&◌, ◌*◌, ◌+◌, ◌-◌, ◌==◌, ◌>>=◌, ◌∷◌,
}
use cloudpost.Text.{Text, atoi, codes, eqb, fields, join, pos, ℤ}
use cloudpost.Engine.Rules.{apply}
use cloudpost.Fetch.Pop3Client.{joined_lines}
use cloudpost.Mailstore.Accounts.{get_account_by_address}
use cloudpost.Mailstore.Folders.{folder_by_name, inbox_name}
use cloudpost.Mailstore.Messages.{deliver}
use cloudpost.Mailstore.Schema.{
  Account, Error, External, Listed, Result, Store, err, kind_eqb, ok, remote,
}

-- The rows of remote_state. `uidls` holds the message ids of a POP3 account that were seen.
pub record RemoteState : Type 0 where
  pub uidls : List (ℕ × List Text)
  pub uid_validity : List (ℕ × ℕ)
  pub last_uid : List (ℕ × ℕ)

abbrev pub value_of {ℓ} : {A : Type ℓ} → A → ℕ → List (ℕ × A) → A
value_of d k [] = d
value_of d k ((j, v) ∷ rows) = let rest = value_of d k rows in if j == k then v else rest

abbrev pub set_value {ℓ} : {A : Type ℓ} → ℕ → A → List (ℕ × A) → List (ℕ × A)
set_value k v rows = (k, v) ∷ rows

-- saveUIDLs keeps at most 5000; which, when there are more, is up to the map's order.
unfoldable pub save_uidls : RemoteState → ℕ → List Text → RemoteState
save_uidls r account seen = record r {
  uidls = set_value account (drop (length seen - 5000) seen) r.uidls;
}

abbrev pub target_or : ℕ → Result Account → ℕ
target_or own (err e) = own
target_or own (ok t) = t.id

-- The mailbox that the remote messages go to: the target account's, or the remote account's own.
unfoldable pub target_id : Store → Account → ℕ
unfolding get_account_by_address
target_id s a =
    if is_nil a.remote_target
    then a.id
    else target_or a.id (get_account_by_address s a.remote_target)

abbrev pub filtered_after : External → ℕ → Text → Store × Result (ℕ × ℕ) → Store × Result (ℕ × ℕ)
filtered_after ext target raw (s, err e) = (s, err e)
filtered_after ext target raw (s, ok (id, uid)) =
    let info = ext.parse_headers s.clock raw in
    (
      apply ext s target id (record {
        subject = info.subject;
        from = info.from_addr;
        to = join (codes ",") info.to_list;
        body = info.snippet;
      }),
      ok (id, uid),
    )

abbrev pub deliver_into : External → Store → ℕ → Text → ℕ → Result Listed → Store × Result (ℕ × ℕ)
deliver_into ext s target raw at (err e) = (s, err e)
deliver_into ext s target raw at (ok f) =
    filtered_after ext target raw
      (deliver ext s target f.id raw (some (record { flags = []; internal_at = at })))

unfoldable pub deliver_with_filters : External → Store → Account → Text → ℕ → Store × Result (ℕ × ℕ)
unfolding join apply target_id folder_by_name
deliver_with_filters ext s a raw at =
    deliver_into ext s (target_id s a) raw at (folder_by_name s (target_id s a) inbox_name)

-- Remote accounts that are enabled and whose interval has elapsed.
unfoldable pub is_due : ℕ → Account → Bool
unfolding kind_eqb
is_due now a =
    (kind_eqb a.kind remote && a.fetch_enabled)
    && not (ltb now (a.last_fetch_at + a.fetch_interval_min * 60))

-- What came of a RETR: an answer that is no +OK, or none; a body whose lone dot never came; the
-- lines of the body.
pub data Retrieved : Type 0 where
  refused broken : Retrieved
  given : List Text → Retrieved

-- What ends a fetch: the connection, or the store that cannot take a message.
pub data PopFailure : Type 0 where
  reading : PopFailure
  storing : Error → PopFailure

-- A message that UIDL listed, and what its RETR would give.
pub record PopRef : Type 0 where
  pub seq : ℕ
  pub uidl : Text
  pub body : Retrieved

abbrev pub seq_number : Option ℤ → Option ℕ
seq_number (some (pos n)) = some n
seq_number _ = none

-- A line of the UIDL listing: a number and an id, and nothing else.
abbrev pub ref_fields : List Text → Option (ℕ × Text)
ref_fields (n ∷ uidl ∷ []) = seq_number (atoi n) >>= λ k. some (k, uidl)
ref_fields _ = none

unfoldable pub uidl_ref : Text → Option (ℕ × Text)
unfolding fields atoi
uidl_ref line = ref_fields (fields line)

abbrev pub seen_already : Text → List Text → Bool
seen_already u seen = any (λ v. eqb v u) seen

-- The store, the rows, the ids seen, the count, the messages deleted on the server, and the error.
pub record PopRun : Type 0 where
  pub store : Store
  pub state : RemoteState
  pub seen : List Text
  pub count : ℕ
  pub removed_seqs : List ℕ
  pub failure : Option PopFailure

abbrev pub saved_each_20 : Account → List Text → ℕ → RemoteState → RemoteState
saved_each_20 a seen count r = if count % 20 == 0 then save_uidls r a.id seen else r

abbrev pub pop_delivered : Account → PopRef → PopRun → Store × Result (ℕ × ℕ) → PopRun
pop_delivered a ref acc (s, err e) = record acc { store = s; failure = some (storing e) }
pop_delivered a ref acc (s, ok ids) =
    let seen = ref.uidl ∷ acc.seen in
    record acc {
      store = s;
      state = saved_each_20 a seen (acc.count + 1) acc.state;
      seen = seen;
      count = acc.count + 1;
      removed_seqs =
          if a.fetch_keep_on_server then acc.removed_seqs else ref.seq ∷ acc.removed_seqs;
    }

abbrev pub pop_retrieved : External → Account → PopRef → PopRun → Retrieved → PopRun
pop_retrieved ext a ref acc refused = acc
pop_retrieved ext a ref acc broken = record acc { failure = some reading }
pop_retrieved ext a ref acc (given lines) =
    pop_delivered a ref acc (deliver_with_filters ext acc.store a (joined_lines lines) 0)

-- One message of the listing.
unfoldable pub pop_one : External → Account → PopRun → PopRef → PopRun
unfolding eqb save_uidls deliver_with_filters joined_lines
pop_one ext a acc ref =
    if seen_already ref.uidl acc.seen then acc else pop_retrieved ext a ref acc ref.body

-- After a failure nothing else is done.
abbrev pub unless_failed : PopRun → PopRun → Option PopFailure → PopRun
unless_failed failing rest none = rest
unless_failed failing rest (some e) = failing

-- The loop, which ends at the first read or delivery that fails.
unfoldable pub pop_each : External → Account → PopRun → List PopRef → PopRun
unfolding pop_one
pop_each ext a acc [] = acc
pop_each ext a acc (ref ∷ refs) =
    let after = pop_one ext a acc ref in
    let rest = pop_each ext a after refs in unless_failed after rest after.failure

abbrev pub pop_start : Store → RemoteState → Account → PopRun
pop_start s r a = record {
  store = s;
  state = r;
  seen = value_of [] a.id r.uidls;
  count = 0;
  removed_seqs = [];
  failure = none;
}

abbrev pub saved_after : Account → PopRun → Option PopFailure → PopRun
saved_after a acc (some e) = acc
saved_after a acc none = record acc { state = save_uidls acc.state a.id acc.seen }

abbrev pub pop_end : Account → PopRun → PopRun
pop_end a acc = saved_after a acc acc.failure

-- fetchPOP3 after the login and the listing; the ids are saved at the end only without an error.
unfoldable pub fetch_pop3 : External → Store → RemoteState → Account → List PopRef → PopRun
unfolding pop_each save_uidls
fetch_pop3 ext s r a refs = pop_end a (pop_each ext a (pop_start s r a) refs)

-- What the remote IMAP mailbox answers: a message's UID, its text and its date, 0 for none.
pub record ImapServer : Type 0 where
  pub uid_validity : ℕ
  pub uid_next : ℕ
  pub mails : List (ℕ × (Text × ℕ))

-- The UIDs that the search criteria name; without a range they name every message.
abbrev pub in_range : Option (ℕ × ℕ) → ℕ → Bool
in_range none uid = true
in_range (some (low, high)) uid = leb low uid && leb uid high

unfoldable pub search_range : ℕ → ℕ → Option (ℕ × ℕ)
search_range last uid_next =
    if ltb 0 last && ltb (last + 1) uid_next then some (last + 1, uid_next - 1) else none

unfoldable pub new_mails : ImapServer → ℕ → List (ℕ × (Text × ℕ))
unfolding search_range
new_mails server last = keep (λ m. in_range (search_range last server.uid_next) m.0) server.mails

abbrev pub ImapRun : Type 0
ImapRun = (Store × ℕ) × (ℕ × Option Error)

abbrev pub imap_delivered : ℕ → ImapRun → Store × Result (ℕ × ℕ) → ImapRun
imap_delivered uid ((s0, count), (highest, f)) (s, err e) = ((s, count), (highest, some e))
imap_delivered uid ((s0, count), (highest, f)) (s, ok ids) =
    ((s, count + 1), (if ltb highest uid then uid else highest, f))

-- An empty message is passed over.
unfoldable pub imap_one : External → Account → ImapRun → ℕ → Text → ℕ → ImapRun
unfolding deliver_with_filters
imap_one ext a acc uid raw at =
    if is_nil raw then acc else imap_delivered uid acc (deliver_with_filters ext acc.0.0 a raw at)

unfoldable pub imap_each : External → Account → ImapRun → List (ℕ × (Text × ℕ)) → ImapRun
unfolding imap_one
imap_each ext a acc [] = acc
imap_each ext a acc ((uid, (raw, at)) ∷ mails) =
    let one = imap_one ext a acc uid raw at in
    let rest = imap_each ext a one mails in elim one.1.1 [ some e ↦ one | none ↦ rest ]

-- With another UIDVALIDITY the last UID starts over at 0.
unfoldable pub checked_validity : RemoteState → ℕ → ℕ → RemoteState
checked_validity r account validity =
    if value_of 0 account r.uid_validity == validity then r else record r {
      uid_validity = set_value account validity r.uid_validity;
      last_uid = set_value account 0 r.last_uid;
    }

abbrev pub imap_end : RemoteState → ℕ → ImapRun → (Store × RemoteState) × (ℕ × Option Error)
imap_end r account ((s, count), (highest, some e)) = ((s, r), (count, some e))
imap_end r account ((s, count), (highest, none)) =
    ((s, record r { last_uid = set_value account highest r.last_uid }), (count, none))

-- fetchIMAP after the login and SELECT; the last UID is stored only without an error.
unfoldable pub fetch_imap :
    External
    → Store
    → RemoteState
    → Account
    → ImapServer
    → (Store × RemoteState) × (ℕ × Option Error)
unfolding imap_each new_mails checked_validity
fetch_imap ext s r a server =
    let r1 = checked_validity r a.id server.uid_validity in
    let last = value_of 0 a.id r1.last_uid in
    let mails = new_mails server last in
    if is_nil mails
    then ((s, r1), (0, none))
    else imap_end r1 a.id (imap_each ext a ((s, 0), (last, none)) mails)
