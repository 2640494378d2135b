-- ===== src/Pop3d/Session.antt =====
-- The connection of internal/pop3d/pop3.go and what its commands share.
use cloudpost.Prelude.{
  Bool, List, Option, [], false, get_elem?, if◌then◌else◌, keep, length, map, none, not, some, suc,
  true, zero, ℕ, ◌%◌, ◌++◌, ◌+◌, ◌^◌, ◌∷◌,
}
use cloudpost.Text.{Text, atoi, codes, negsuc, pos, ℤ}
use cloudpost.Mailstore.Folders.{folder_by_name, inbox_name}
use cloudpost.Mailstore.Messages.{get_message_raw, list_messages}
use cloudpost.Mailstore.Schema.{Account, Listed, Message, Result, Store, err, no_rows, ok}
use cloudpost.Pop3d.Wire.{write_line}

pub record PopMsg : Type 0 where
  pub id : ℕ
  pub uid : ℕ
  pub size : ℕ
  pub deleted : Bool

pub record PopConn : Type 0 where
  pub account : Option Account
  pub last_user : Text
  pub msgs : List PopMsg
  pub deleted_any : Bool

abbrev pub new_conn : PopConn
new_conn = record { account = none; last_user = []; msgs = []; deleted_any = false }

-- What a command leaves: the connection, the store, the bytes sent, and whether the session goes on.
pub record Reply : Type 0 where
  pub conn : PopConn
  pub store : Store
  pub out : Text
  pub goes_on : Bool

abbrev pub say : Store → PopConn → Text → Reply
say s c line = record { conn = c; store = s; out = write_line line; goes_on = true }

abbrev pub say_block : Store → PopConn → Text → Text → Reply
say_block s c line block = record {
  conn = c;
  store = s;
  out = write_line line ++ block;
  goes_on = true;
}

abbrev pub not_authenticated : Text
not_authenticated = codes "-ERR not authenticated"

abbrev pub no_such_message : Text
no_such_message = codes "-ERR no such message"

-- requireAuth: a command that needs an account gets it.
unfoldable pub require_auth : Store → PopConn → Option Account → (Account → Reply) → Reply
require_auth s c none command = say s c not_authenticated
require_auth s c (some a) command = command a

abbrev pub alive : Option PopMsg → Bool
alive none = false
alive (some m) = not m.deleted

abbrev pub in_drop : List PopMsg → Option ℤ → Option ℕ
in_drop msgs none = none
in_drop msgs (some (negsuc n)) = none
in_drop msgs (some (pos zero)) = none
in_drop msgs (some (pos (suc i))) = if alive (get_elem? msgs i) then some (suc i) else none

-- The number of a message that is there and not deleted.
unfoldable pub parse_idx : List PopMsg → Text → Option ℕ
unfolding atoi
parse_idx msgs arg = in_drop msgs (atoi arg)

abbrev pub pop_msg : Message → PopMsg
pop_msg m = record { id = m.id; uid = m.uid % 2 ^ 32; size = m.size; deleted = false }

-- On what FolderByName returned.
unfoldable pub page_of : Store → Result Listed → Result (List PopMsg)
unfolding list_messages
page_of s (err e) = err e
page_of s (ok f) = ok (map pop_msg (list_messages s f.id 0 10000 false).0)

-- loadMailbox: the page of INBOX that ListMessages gives for a limit of 10000.
unfoldable pub load_mailbox : Store → Account → Result (List PopMsg)
unfolding page_of
load_mailbox s a = page_of s (folder_by_name s a.id inbox_name)

unfoldable pub fetch_raw : Store → Account → Option PopMsg → Result Text
unfolding get_message_raw
fetch_raw s a none = err no_rows
fetch_raw s a (some m) = elim (get_message_raw s a.id m.id) [ err e ↦ err e | ok p ↦ ok p.0 ]

-- The number and the octets of the messages not deleted.
unfoldable pub count_kept : List PopMsg → ℕ
count_kept msgs = length (keep (λ m. not m.deleted) msgs)

unfoldable pub octets_kept : List PopMsg → ℕ
octets_kept [] = 0
octets_kept (m ∷ ms) = let rest = octets_kept ms in if m.deleted then rest else m.size + rest

-- Marks the message of a number.
unfoldable pub delete_at : ℕ → List PopMsg → List PopMsg
delete_at i [] = []
delete_at zero (m ∷ ms) = record m { deleted = true } ∷ ms
delete_at (suc i) (m ∷ ms) = m ∷ delete_at i ms

unfoldable pub undelete_all : List PopMsg → List PopMsg
undelete_all [] = []
undelete_all (m ∷ ms) = record m { deleted = false } ∷ undelete_all ms
