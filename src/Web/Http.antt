-- ===== src/Web/Http.antt =====
-- Requests and responses, and the server's state of internal/web/web.go. A token is the number of
-- the draw that gave it. Headers other than those that a handler reads are not modelled.
use cloudpost.Fetch.Remote.{RemoteState}
use cloudpost.Prelude.{
  Bool, List, Option, drop, false, if◌then◌else◌, length, none, some, true, ℕ, ◌==◌, ◌>>=◌,
}
use cloudpost.Text.{Text, atoi, before_byte, has_prefix, negsuc, pos, ℤ}
use cloudpost.Installation.Config.{Config}
use cloudpost.Installation.Runtime.{State}
use cloudpost.Mailstore.Schema.{
  Account, ApiToken, External, Filter, Listed, Message, ScheduledMessage, Store,
}
use cloudpost.Sender.Queue.{Outbound, QueueItem}
use cloudpost.Web.Json.{Json}
use cloudpost.Web.Ports.{Address, Binds, PortError, PortManager}

pub data Method : Type 0 where
  get post put patch delete other : Method

unfoldable pub is_method : Method → Method → Bool
is_method get get = true
is_method post post = true
is_method put put = true
is_method patch patch = true
is_method delete delete = true
is_method _ _ = false

-- `mail_header` is X-Mail-Token; `body` is none when it is no JSON.
pub record Request : Type 0 where
  pub method : Method
  pub path : Text
  pub authorization : Text
  pub admin_cookie : Option ℕ
  pub mail_cookie : Option ℕ
  pub mail_header : Option ℕ
  pub offset : Text
  pub limit : Text
  pub allow_remote : Bool
  pub has_content : Bool
  pub body : Option Json

-- An attachment's metadata, as ParsedInfo lists it.
pub record Attachment : Type 0 where
  pub part : ℕ
  pub filename : Text
  pub content_type : Text
  pub size : ℕ
  pub cid : Text
  pub shown_inline : Bool

-- What the read view takes from ParseHeaders.
pub record Shown : Type 0 where
  pub text : Text
  pub html : Text
  pub attachments : List Attachment

pub data Body : Type 0 where
  done refused : Body
  setup_state : Bool → Text → Text → Body
  whoami : Bool → Bool → Body
  setup_done : List PortError → Body
  admin_token : ℕ → Body
  mail_token : ℕ → Account → Body
  account_row : Account → Body
  account_rows : List Account → Body
  folder_rows : List Listed → Body
  made_folder : ℕ → Body
  page : List Message → ℕ → Body
  hits : List Message → Body
  raw_text : Text → Body
  view : Message → Text → Option (Text × Bool) → List Attachment → Body
  file : Text → Text → Body
  count : ℕ → Body
  delayed_rows : List ScheduledMessage → Body
  delayed : ℕ → ℕ → Body
  sent : List Text → List Text → Body
  filter_row : Filter → Body
  filter_rows : List Filter → Body
  token_rows : List ApiToken → Body
  token_secret : ApiToken → Text → Body
  queue_rows : List QueueItem → Body
  reset_offer : ℕ → ℕ → ℕ → ℕ → Body
  saved : List PortError → Body
  overview : ℕ → ℕ → ℕ → ℕ → ℕ → Body
  settings : Config → Body

pub record Response : Type 0 where
  pub status : ℕ
  pub body : Body

-- writeJSON with status 200, and writeErr.
abbrev pub success : Body → Response
success b = record { status = 200; body = b }

abbrev pub failure : ℕ → Response
failure n = record { status = n; body = refused }

-- A webmail session.
pub record MailSession : Type 0 where
  pub token : ℕ
  pub acc_id : ℕ
  pub exp : ℕ

-- The web server with the parts of the program that it works on. The clock is that of `state`;
-- `ports` is none when the server was built without a port manager.
pub record Site : Type 0 where
  pub store : Store
  pub outbound : Outbound
  pub remote_state : RemoteState
  pub state : State
  pub mail_sessions : List MailSession
  pub next_mail_token : ℕ
  pub reset_token : Option ℕ
  pub reset_exp : ℕ
  pub next_reset_token : ℕ
  pub ports : Option PortManager
  pub web_swap : Option Address

-- What the handlers take from elsewhere: the parts of `External`, the name of the host, the binds,
-- the readers of parse.go with the sanitizer, base64, and the texts that depend on the time or on
-- a draw.
pub record Outside : Type 0 where
  pub ext : External
  pub host_name : Text
  pub binds : Binds
  pub shown : Text → Shown
  pub extract : Text → ℕ → Option (Text × Text)
  pub sanitize : Text → Bool → List (Text × Text) → Text × Bool
  pub unescape : Text → Option Text
  pub b64_encode : Text → Text
  pub b64_decode : Text → Option Text
  pub stamp : ℕ → Text
  pub day : ℕ → Text
  pub time : ℕ → Text
  pub mail_date : ℕ → Text
  pub message_stamp : ℕ → Text
  pub boundary : ℕ → Text
  pub token_secret_of : ℕ → Text
  pub new_dkim_key : ℕ → Text
  pub good_dkim_key : Text → Bool

-- pathID and the other readers of an id in a path. No row has the id 0, or a negative one.
abbrev nat_part : ℤ → ℕ
nat_part (pos n) = n
nat_part (negsuc n) = 0

unfoldable pub id_of : Text → Option ℕ
unfolding atoi
id_of t = atoi t >>= λ z. some (nat_part z)

unfoldable pub path_id : Text → Option ℕ
unfolding id_of before_byte
path_id rest = id_of (before_byte b'/' rest) >>= λ n. if n == 0 then none else some n

-- strconv.Atoi with its error dropped
unfoldable pub number_or_zero : Text → ℕ
unfolding id_of
number_or_zero t = elim (id_of t) [ none ↦ 0 | some n ↦ n ]

-- strings.TrimPrefix
unfoldable pub trim_prefix : Text → Text → Text
unfolding has_prefix
trim_prefix s t = if has_prefix s t then drop (length t) s else s
