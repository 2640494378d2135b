-- ===== src/Sender/Queue.antt =====
-- The retry queue of internal/sender/sender.go. What a transport answers may depend on the time.
use cloudpost.Prelude.{
  Bool, List, Option, [], false, if◌then◌else◌, is_nil, keep, leb, ltb, none, some, sort_by, true,
  update_where, ℕ, ◌&&◌, ◌*◌, ◌++◌, ◌+◌, ◌==◌, ◌^◌, ◌∷◌,
}
use cloudpost.Text.{Text, codes}
use cloudpost.Installation.Config.{Config}
use cloudpost.Mailstore.Schema.{Result, err, no_space, ok, read_file, remove_file}
use cloudpost.Sender.Dkim.{KeyCache, Signer, dkim_sign}
use cloudpost.Sender.Routes.{Hop, next_hop, rcpt_host}

pub data Status : Type 0 where
  pending sent failed : Status

abbrev pub is_pending : Status → Bool
is_pending pending = true
is_pending _ = false

pub record QueueItem : Type 0 where
  pub id : ℕ
  pub from : Text
  pub recipients : List Text
  pub data_path : ℕ
  pub status : Status
  pub attempts : ℕ
  pub next_try_at : ℕ
  pub last_error : Text
  pub created_at : ℕ

-- The table, the files of outbound/ and the key cache; a path is the number of its draw.
pub record Outbound : Type 0 where
  pub clock : ℕ
  pub disk_full : Bool
  pub files : List (ℕ × Text)
  pub next_file : ℕ
  pub items : List QueueItem
  pub next_item : ℕ
  pub cache : KeyCache

-- The SMTP client: none is a delivery, some is an error text.
pub record Network : Type 0 where
  pub signer : Signer
  pub send : ℕ → Hop → Text → Text → Text → Option Text

abbrev pub queued : Outbound → Text → List Text → QueueItem
queued o from rcpts = record {
  id = o.next_item;
  from = from;
  recipients = rcpts;
  data_path = o.next_file;
  status = pending;
  attempts = 0;
  next_try_at = o.clock;
  last_error = [];
  created_at = o.clock;
}

-- Stores the message and its row.
unfoldable pub enqueue : Outbound → Text → List Text → Text → Outbound × Result ℕ
enqueue o from rcpts raw =
    if o.disk_full then (record o { next_file = o.next_file + 1 }, err no_space) else (
      record o {
        files = (o.next_file, raw) ∷ o.files;
        next_file = o.next_file + 1;
        items = o.items ++ queued o from rcpts ∷ [];
        next_item = o.next_item + 1;
      },
      ok o.next_item,
    )

abbrev by_id : QueueItem → QueueItem → Bool
by_id i j = leb i.id j.id

abbrev pub is_due : ℕ → QueueItem → Bool
is_due now it = is_pending it.status && leb it.next_try_at now

unfoldable pub due_items : Outbound → List QueueItem
unfolding sort_by
due_items o = sort_by by_id (keep (is_due o.clock) o.items)

-- One recipient: an address without a domain is an error.
unfoldable pub send_one : Network → ℕ → Option Config → Text → Text → Text → Option Text
unfolding rcpt_host next_hop
send_one net now cfg from raw rcpt =
    if is_nil (rcpt_host rcpt)
    then some (codes "invalid recipient " ++ rcpt)
    else net.send now (next_hop cfg (rcpt_host rcpt)) from rcpt raw

abbrev pub or_else : Option Text → Option Text → Option Text
or_else none old = old
or_else (some e) old = some e

-- All recipients, whatever happened to those before; the last error.
unfoldable pub send_all :
    Network → ℕ → Option Config → Text → Text → List Text → Option Text → Option Text
unfolding send_one
send_all net now cfg from raw [] last = last
send_all net now cfg from raw (r ∷ rs) last =
    send_all net now cfg from raw rs (or_else (send_one net now cfg from raw r) last)

abbrev pub item_is : QueueItem → QueueItem → Bool
item_is it j = j.id == it.id

-- UPDATE send_queue SET status=?, last_error=? WHERE id=?
unfoldable pub finish : Outbound → QueueItem → Status → Text → Outbound
finish o it status error = record o {
  items = update_where (item_is it) (λ j. record j { status = status; last_error = error }) o.items;
}

abbrev pub backoff : ℕ → ℕ
backoff attempts = let wait = 60 * 2 ^ attempts in if ltb (6 * 3600) wait then 6 * 3600 else wait

unfoldable pub retry_later : Outbound → QueueItem → Text → Outbound
retry_later o it error = record o {
  items =
      update_where (item_is it)
        (λ j. record j {
          attempts = it.attempts + 1;
          next_try_at = o.clock + backoff (it.attempts + 1);
          last_error = error;
        })
        o.items;
}

-- On the last error of the recipients.
unfoldable pub settle : Outbound → QueueItem → Option Text → Outbound
unfolding finish retry_later remove_file
settle o it none =
    let done = finish o it sent [] in record done { files = remove_file it.data_path done.files }
settle o it (some error) =
    if leb 8 (it.attempts + 1) then finish o it failed error else retry_later o it error

abbrev pub send_raw :
    Network → Option Config → Outbound → QueueItem → KeyCache × (Text × Bool) → Outbound
send_raw net cfg o it (cache, (raw, _)) =
    settle (record o { cache = cache }) it (send_all net o.clock cfg it.from raw it.recipients none)

abbrev pub deliver_file : Network → Option Config → Outbound → QueueItem → Option Text → Outbound
deliver_file net cfg o it none = finish o it failed (codes "blob lost")
deliver_file net cfg o it (some raw) =
    send_raw net cfg o it (dkim_sign net.signer cfg o.cache it.from raw)

-- One attempt at an item.
unfoldable pub deliver_item : Network → Option Config → Outbound → QueueItem → Outbound
unfolding settle send_all dkim_sign finish
deliver_item net cfg o it = deliver_file net cfg o it (read_file it.data_path o.files)

unfoldable pub deliver_each : Network → Option Config → Outbound → List QueueItem → Outbound
deliver_each net cfg o [] = o
deliver_each net cfg o (it ∷ its) = deliver_each net cfg (deliver_item net cfg o it) its

-- Every item that is due gets one attempt.
unfoldable pub process_queue : Network → Option Config → Outbound → Outbound
unfolding deliver_each due_items
process_queue net cfg o = deliver_each net cfg o (due_items o)
