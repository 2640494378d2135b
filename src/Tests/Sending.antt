-- ===== src/Tests/Sending.antt =====
-- The theorems on the sender, the fetcher and the installation's state.
use cloudpost.Prelude.{
  All, [], arith, false, if◌then◌else◌, none, refl, some, true, ◌++◌, ◌∷◌, ◌≡◌, ◌⊎◌,
}
use cloudpost.Text.{Text, codes, pos}
use cloudpost.Fetch.Again.{fetch_pop3-again}
use cloudpost.Fetch.Remote.{ImapServer, PopRef, RemoteState, fetch_pop3, given}
use cloudpost.Installation.Config.{Config}
use cloudpost.Installation.Runtime.{State, written}
use cloudpost.Mailstore.Messages.{deliver, insert_row, store_blob}
use cloudpost.Mailstore.Schema.{ScheduledMessage, Store, read_file}
use cloudpost.Sender.Attempts.{LastRefused, row_of-deliver_item}
use cloudpost.Sender.Dkim.{dkim_sign, signs}
use cloudpost.Sender.Queue.{
  Network, Outbound, QueueItem, deliver_item, is_pending, pending, send_one,
}
use cloudpost.Sender.Retries.{outcome, row_of, tries, tries_settle}
use cloudpost.Sender.Signing.{IsCache, dkim_sign_lem, signed_text}
use cloudpost.Tests.Fixtures.{alice, home, sample_ext}

abbrev outgoing : QueueItem
outgoing = record {
  id = 1;
  from = codes "alice@x";
  recipients = codes "bob@y" ∷ [];
  data_path = 0;
  status = pending;
  attempts = 0;
  next_try_at = 1;
  last_error = [];
  created_at = 1;
}

abbrev one_queued : Outbound
one_queued = record {
  clock = 1;
  disk_full = false;
  files = (0, codes "hi") ∷ [];
  next_file = 1;
  items = outgoing ∷ [];
  next_item = 2;
  cache = none;
}

-- A network that nobody answers.
abbrev pub silence : Network
silence = record {
  signer = record { parse_key = λ pem. some pem; sign = λ domain sel key raw. some (key ++ raw) };
  send = λ now hop from rcpt raw. some (codes "connect");
}

tries_settle_example :
    (j : QueueItem) × (row_of
        (tries silence none one_queued 1 (1 ∷ 200 ∷ 500 ∷ 1000 ∷ 2000 ∷ 4000 ∷ 8000 ∷ 20000 ∷ []))
        1
      ≡ some j)
    × (is_pending j.status ≡ false)
tries_settle_example =
    tries_settle silence none (1 ∷ 200 ∷ 500 ∷ 1000 ∷ 2000 ∷ 4000 ∷ 8000 ∷ 20000 ∷ []) one_queued
      outgoing refl refl (omega arith) (omega arith)

row_of-deliver_item_example :
    let (signed, _) = (dkim_sign silence.signer none none (codes "alice@x") (codes "hi")).1 in
    let answer = send_one silence 1 none (codes "alice@x") signed in
    (All (λ r. answer r ≡ none) (codes "bob@y" ∷ [])
      × (row_of (deliver_item silence none one_queued outgoing) 1 ≡ some (outcome 1 outgoing none)))
    ⊎ ((l : LastRefused answer (codes "bob@y" ∷ [])) × (row_of
            (deliver_item silence none one_queued outgoing)
            1
          ≡ some (outcome 1 outgoing (some l.error))))
unfolding read_file
row_of-deliver_item_example =
    row_of-deliver_item silence none one_queued outgoing (codes "hi") refl refl

abbrev pub installed_config : Config
installed_config = record {
  installed = true;
  primary_domain = codes "x";
  hostname = codes "mail.x";
  admin_hash = codes "h";
  smtp_port = 2525;
  smtp_ssl_port = 0;
  pop3_port = 1110;
  pop3_ssl_port = 0;
  imap_port = 1143;
  imap_ssl_port = 0;
  web_port = 8080;
  relay_host = [];
  relay_port = pos 0;
  relay_user = [];
  relay_pass = [];
  relay_routes = [];
  dkim_enabled = true;
  dkim_selector = codes "s";
  dkim_key_pem = codes "key";
}

dkim_sign_lem_example :
    IsCache silence.signer
      (dkim_sign silence.signer (some installed_config) none (codes "alice@x") (codes "hi")).0
    × ((dkim_sign silence.signer (some installed_config) none (codes "alice@x") (codes "hi")).1 ≡ (
        if signs installed_config (codes "alice@x")
        then signed_text silence.signer installed_config (codes "hi")
        else (codes "hi", false)))
dkim_sign_lem_example =
    dkim_sign_lem silence.signer installed_config none (codes "alice@x") (codes "hi") tt

abbrev delayed : ScheduledMessage
delayed = record {
  id = 1;
  account_id = 1;
  from_addr = codes "alice@x";
  recipients = codes "bob@y" ∷ [];
  subject = codes "hi";
  data_path = 0;
  send_at = 1;
  created_at = 1;
}

abbrev waiting : Store
waiting = record home {
  scheduled = delayed ∷ [];
  next_scheduled = 2;
  scheduled_files = (0, codes "hi") ∷ [];
  next_scheduled_file = 1;
}

abbrev running : State
running = record {
  cfg = some installed_config;
  file = written installed_config;
  path_fails = false;
  sessions = [];
  next_token = 1;
  clock = 100;
}

abbrev nothing_fetched : RemoteState
nothing_fetched = record { uidls = []; uid_validity = []; last_uid = [] }

abbrev listed_ref : PopRef
listed_ref = record { seq = 1; uidl = codes "u1"; body = given (codes "hi" ∷ []) }

fetch_pop3-again_example :
    let first = fetch_pop3 sample_ext home nothing_fetched alice (listed_ref ∷ []) in
    let again = fetch_pop3 sample_ext home first.state alice (listed_ref ∷ []) in
    (again.store ≡ home) × (again.count ≡ 0) × (again.removed_seqs ≡ []) × (again.failure ≡ none)
unfolding fetch_pop3 deliver store_blob insert_row
fetch_pop3-again_example =
    fetch_pop3-again sample_ext home home nothing_fetched alice (listed_ref ∷ []) (listed_ref ∷ [])
      refl (omega arith) (refl, tt)

abbrev far : ImapServer
far = record {
  uid_validity = 1;
  uid_next = 3;
  mails = (1, (codes "a", 0)) ∷ (2, (codes "b", 0)) ∷ [];
}
