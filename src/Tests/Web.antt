-- ===== src/Tests/Web.antt =====
-- The theorems on the web interface, at an installation with a mailbox.
use cloudpost.Prelude.{
  All, List, Option, [], all, false, if◌then◌else◌, is_nil, keep, none, not, refl, some, true, ℕ,
  ◌*◌, ◌++◌, ◌==◌, ◌∷◌, ◌≡◌,
}
use cloudpost.Text.{Text, codes, contains, decimal, eqb, has_prefix, lower, trim_space}
use cloudpost.Installation.Runtime.{factory_reset, installed_now, written}
use cloudpost.Mailstore.Accounts.{get_account_by_address, normalize_addr}
use cloudpost.Mailstore.Invariant.{IsWellFormed}
use cloudpost.Mailstore.Revoked.{account_by_api_token-revoke}
use cloudpost.Mailstore.Schema.{ApiToken, Store, kind_eqb, ok, read_file}
use cloudpost.Mailstore.Tokens.{account_by_api_token, revoke_api_token}
use cloudpost.Sender.Queue.{Outbound, QueueItem, enqueue}
use cloudpost.Tests.Fixtures.{alice, home, home-IsWellFormed, sample_ext}
use cloudpost.Tests.Sending.{installed_config, silence}
use cloudpost.Web.Admin.Reset.{
  admin_reset_confirm, confirm, do_full_reset, reset_tables, token_valid, wipe_blobs,
}
use cloudpost.Web.Api.{handle_api}
use cloudpost.Web.Auth.{admin_auth, by_session, mail_account, read_two}
use cloudpost.Web.Compose.{deliver_built, is_known, send_out}
use cloudpost.Web.Gate.{handle_api-outsider}
use cloudpost.Web.Http.{Method, Outside, Request, Site, post, trim_prefix}
use cloudpost.Web.Json.{Json, end, obj, pair, str, text_in}
use cloudpost.Web.Keeps.Whole.{handle_api-IsWellFormed}
use cloudpost.Web.Mime.{parse_rcpts}
use cloudpost.Web.Outgoing.{breaks, breaks-heading}
use cloudpost.Web.Ports.{Address, Binds, PortManager, Service, apply_protocol_ports}
use cloudpost.Web.Rebinding.{apply_protocol_ports-steady}
use cloudpost.Web.Recipients.{address_char, parse_rcpts-address}
use cloudpost.Web.Sent.{deliver_built-queued}
use cloudpost.Web.Sessions.{Table, Visit, answers, enter, leave, look, table_answers, wait}
use cloudpost.Web.Sessions.Refines.{answers_lem}
use cloudpost.Web.Source.{heading, sanitize_header}
use cloudpost.Web.Wiped.{IsOffered, IsWiped, admin_reset_confirm-IsWiped, admin_reset_confirm-once}

abbrev outside : Outside
outside = record {
  ext = sample_ext;
  host_name = codes "host";
  binds = λ k a. true;
  shown = λ raw. record { text = raw; html = []; attachments = [] };
  extract = λ raw part. none;
  sanitize = λ html remote cids. (html, false);
  unescape = λ t. some t;
  b64_encode = λ t. codes "QQ==";
  b64_decode = λ t. some t;
  stamp = λ now. codes "now";
  day = λ now. codes "day";
  time = λ now. codes "time";
  mail_date = λ now. codes "date";
  message_stamp = λ now. codes "2.ab";
  boundary = λ now. codes "b";
  token_secret_of = λ n. codes "s";
  new_dkim_key = λ now. codes "key";
  good_dkim_key = λ key. true;
}

abbrev empty_queue : Outbound
empty_queue = record {
  clock = 1;
  disk_full = false;
  files = [];
  next_file = 0;
  items = [];
  next_item = 1;
  cache = none;
}

-- The admin's session is 3, and the reset was offered with the token 7.
abbrev site : Site
site = record {
  store = home;
  outbound = empty_queue;
  remote_state = record { uidls = (1, codes "u1" ∷ []) ∷ []; uid_validity = []; last_uid = [] };
  state = record {
    cfg = some installed_config;
    file = written installed_config;
    path_fails = false;
    sessions = record { token = 3; created = 1; expires = 1000 } ∷ [];
    next_token = 4;
    clock = 1;
  };
  mail_sessions = [];
  next_mail_token = 0;
  reset_token = some 7;
  reset_exp = 300;
  next_reset_token = 8;
  ports = none;
  web_swap = none;
}

abbrev asked : Method → Text → Option ℕ → Option Json → Request
asked m path cookie body = record {
  method = m;
  path = path;
  authorization = [];
  admin_cookie = cookie;
  mail_cookie = none;
  mail_header = none;
  offset = [];
  limit = [];
  allow_remote = false;
  has_content = false;
  body = body;
}

abbrev drop_alice : Option ℕ → Request
drop_alice cookie = asked Method.delete (codes "/api/accounts/1") cookie none

handle_api-outsider_example :
    let v = (handle_api outside silence site (drop_alice none)).0 in
    (v.store ≡ site.store)
    × (v.outbound ≡ site.outbound)
    × (v.state.cfg ≡ site.state.cfg)
    × (v.state.file ≡ site.state.file)
unfolding installed_now admin_auth mail_account by_session has_prefix trim_space trim_prefix
handle_api-outsider_example =
    handle_api-outsider outside silence site (drop_alice none) refl refl refl

handle_api-IsWellFormed_example :
    IsWellFormed (λ _. 1) (handle_api outside silence site (drop_alice (some 3))).0.store
handle_api-IsWellFormed_example =
    handle_api-IsWellFormed outside silence site (drop_alice (some 3)) home-IsWellFormed

abbrev no_entries : Table
no_entries = record { entry = λ t. none; fresh = 0; now = 1 }

abbrev visits : List Visit
visits =
    enter alice
    ∷ look 0
    ∷ wait 604801
    ∷ look 0
    ∷ leave (asked post (codes "/api/mail/logout") none none)
    ∷ []

answers_lem_example : answers site visits ≡ table_answers site.store no_entries visits
answers_lem_example =
    answers_lem site no_entries visits
      (record { clocks = refl; tokens = refl; entries = λ c. refl })

abbrev confirmation : Request
confirmation = asked post (codes "/api/reset/confirm") (some 3) (
    some (
      obj
        (pair (codes "token") (str (codes "7")) (pair (codes "phrase") (str (codes "RESET")) end))))

admin_reset_confirm-IsWiped_example :
    (text : Text) × (phrase : Text) × (read_two confirmation.body (codes "token") (codes "phrase")
      ≡ some (text, phrase))
    × IsOffered site text phrase
    × IsWiped (admin_reset_confirm site confirmation).0
unfolding admin_reset_confirm confirm token_valid do_full_reset reset_tables wipe_blobs
    factory_reset read_two text_in decimal eqb
admin_reset_confirm-IsWiped_example = admin_reset_confirm-IsWiped site confirmation refl

admin_reset_confirm-once_example :
    let v = (admin_reset_confirm site confirmation).0 in
    ((admin_reset_confirm v confirmation).1.status ≡ 400)
    × ((admin_reset_confirm v confirmation).0.store ≡ v.store)
    × ((admin_reset_confirm v confirmation).0.outbound ≡ v.outbound)
unfolding read_two text_in
admin_reset_confirm-once_example =
    admin_reset_confirm-once site confirmation confirmation (codes "7") (codes "RESET") refl

breaks-heading_example :
    breaks (
      heading outside 1
        (codes "Alice\n")
        (codes "alice@x")
        (sanitize_header (codes "bob@y\r\nBcc: eve@z"))
        (sanitize_header [])
        (sanitize_header (codes "hi\r\nX: y")))
    ≡ 2 * (if is_nil (sanitize_header []) then 6 else 7)
unfolding breaks
breaks-heading_example =
    breaks-heading outside 1 (codes "Alice\n") (codes "alice@x") (codes "bob@y\r\nBcc: eve@z") []
      (codes "hi\r\nX: y") refl (λ t. refl) refl refl

parse_rcpts-address_example :
    All
      (λ r. (contains r (codes "@") ≡ true) × (all address_char r ≡ true))
      (parse_rcpts (codes "Bob@Y, a b@y" ∷ codes "alice@x" ∷ []))
parse_rcpts-address_example = parse_rcpts-address (codes "Bob@Y, a b@y" ∷ codes "alice@x" ∷ [])

deliver_built-queued_example :
    let rs = codes "alice@x" ∷ codes "bob@y" ∷ [] in
    let v = (deliver_built outside site alice rs (codes "hi")).0.outbound in
    (it : QueueItem) × (v.items ≡ [] ++ it ∷ [])
    × (it.from ≡ alice.address)
    × (it.recipients ≡ keep (λ r. not (is_known home r)) rs)
    × (read_file it.data_path v.files ≡ some (codes "hi"))
unfolding deliver_built send_out enqueue get_account_by_address eqb lower kind_eqb normalize_addr
deliver_built-queued_example =
    deliver_built-queued outside site alice (codes "alice@x" ∷ codes "bob@y" ∷ []) (codes "hi") refl
      refl

abbrev served : Address → Service
served a = record { wired = true; serving = some a }

abbrev local_port : ℕ → Address
local_port n = record { host = codes "127.0.0.1"; port = n }

abbrev manager : PortManager
manager = record {
  tries = 0;
  smtp = served (local_port 2525);
  pop3 = served (local_port 1110);
  imap = served (local_port 1143);
  smtp_addr = some (local_port 2525);
  pop3_addr = some (local_port 1110);
  imap_addr = some (local_port 1143);
  web = none;
  prev_web = none;
  listening = [];
}

-- Port 25 is taken.
abbrev not_25 : Binds
not_25 k a = not (a.port == 25)

apply_protocol_ports-steady_example :
    let v = (apply_protocol_ports not_25 manager 25 110 0).manager in
    (v.smtp.serving ≡ v.smtp_addr) × (v.pop3.serving ≡ v.pop3_addr) × (v.imap.serving ≡ v.imap_addr)
apply_protocol_ports-steady_example =
    apply_protocol_ports-steady not_25 manager 25 110 0 (λ i j b. refl) refl refl refl

abbrev key_row : ApiToken
key_row = record {
  id = 1;
  account_id = 1;
  token_hash = codes "cpat_s";
  label = [];
  created_at = 1;
  last_used_at = 0;
  revoked = false;
}

abbrev with_key : Store
with_key = record home { tokens = key_row ∷ []; next_token = 2 }

account_by_api_token-revoke_example :
    let r = revoke_api_token with_key 1 1 in
    (r.1 ≡ ok tt) × (account_by_api_token sample_ext r.0 (codes "cpat_s") ≡ (r.0, ok none))
unfolding trim_space eqb
account_by_api_token-revoke_example =
    account_by_api_token-revoke sample_ext with_key key_row (codes "cpat_s") refl
