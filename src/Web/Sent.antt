-- ===== src/Web/Sent.antt =====
-- What sending a message queues.
use cloudpost.Prelude.{
  ==_refl, Bool-cases, List, [], false, inl, inr, is_nil, keep, not, refl, some, true, ◌++◌, ◌∷◌,
  ◌≡◌,
}
use cloudpost.Text.{Text, codes}
use cloudpost.Mailstore.Folders.{folder_by_name}
use cloudpost.Mailstore.Schema.{Account, read_file}
use cloudpost.Sender.Queue.{QueueItem, enqueue}
use cloudpost.Web.Compose.{deliver_built, deliver_each, into_box, is_known, send_out}
use cloudpost.Web.Http.{Outside, Site}

-- What a message to `rs` adds to the queue.
record Queued (w v : Site) (from : Text) (rs : List Text) (raw : Text) : Type 0 where
  pub item : QueueItem
  pub items : v.outbound.items ≡ w.outbound.items ++ item ∷ []
  pub sender : item.from ≡ from
  pub rcpts : item.recipients ≡ rs
  pub content : read_file item.data_path v.outbound.files ≡ some raw

send_out-Queued :
    (w : Site) (from : Text) (rs : List Text) (raw : Text)
    → (send_out w from rs raw).1 ≡ true
    → is_nil rs ≡ false
    → Queued w (send_out w from rs raw).0 from rs raw
send_out-Queued w from [] raw h k = cc
send_out-Queued w from (r ∷ rs) raw h k = elim (Bool-cases w.outbound.disk_full) [
  | inl e ↦ absurd (refused (unfold send_out enqueue in rw e at h))
  | inr e ↦
      unfold send_out enqueue in
      rw e (record {
        item = _;
        items = refl;
        sender = refl;
        rcpts = refl;
        content = unfold read_file in rw (==_refl w.outbound.next_file) refl;
      })
]
  where
    refused : false ≡ true → ⊥
    refused q = cc

-- When the answer is a success and some recipient has no account here, the queue ends with an item
-- from the sender to exactly those recipients, whose file holds the message.
pub deliver_built-queued :
    (o : Outside) (w : Site) (a : Account) (recips : List Text) (raw : Text)
    → (deliver_built o w a recips raw).1 ≡ true
    → is_nil (keep (λ r. not (is_known w.store r)) recips) ≡ false
    → let v = (deliver_built o w a recips raw).0.outbound in
      (it : QueueItem) × (v.items ≡ w.outbound.items ++ it ∷ [])
      × (it.from ≡ a.address)
      × (it.recipients ≡ keep (λ r. not (is_known w.store r)) recips)
      × (read_file it.data_path v.files ≡ some raw)
unfolding deliver_built
deliver_built-queued o w a recips raw h k =
    let s1 = deliver_each o w.store raw (keep (is_known w.store) recips) in
    let s2 = into_box o s1 a.id raw (folder_by_name s1 a.id (codes "Sent")) in
    let q =
      send_out-Queued (record w { store = s2 }) a.address
        (keep (λ r. not (is_known w.store r)) recips) raw h k in
    (q.item, q.items, q.sender, q.rcpts, q.content)
