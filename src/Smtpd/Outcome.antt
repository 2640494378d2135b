-- ===== src/Smtpd/Outcome.antt =====
-- What DATA leaves: nothing new when it fails, and a well-formed store in any case.
use cloudpost.Prelude.{
  Bool, Bool-cases, List, Option, [], ap, arith, false, if_both, inl, inr, ltb, none, refl, some,
  take, true, ℕ, ◌&&◌, ◌+◌, ◌∙◌, ◌∷◌, ◌≡◌, ◌⊎◌,
}
use cloudpost.Text.{Text, codes}
use cloudpost.Engine.Keeps.{apply-IsWellFormed}
use cloudpost.Mailstore.Folders.{folder_by_name}
use cloudpost.Mailstore.Invariant.{IsWellFormed}
use cloudpost.Mailstore.Invariant.Delivery.{deliver-IsWellFormed, store_blob_full, store_blob_room}
use cloudpost.Mailstore.Messages.{
  DeliverOpts, deliver, insert_row, insert_under, may_insert, no_opts,
}
use cloudpost.Mailstore.Schema.{External, Folder, Listed, ParsedInfo, Result, Store, err, ok}
use cloudpost.Sender.Queue.{Outbound, enqueue}
use cloudpost.Smtpd.Data.{
  Progress, World, after_delivery, conclude, copy_into, each_rcpt, enqueue_remote, max_bytes,
  one_rcpt, post_deliver, sent_copy, take_data,
}
use cloudpost.Smtpd.Session.{RcptTarget, Smtp, delivery_failed}

insert_under-failed :
    (info : ParsedInfo) (opts : Option DeliverOpts) (s : Store) (account folder : ℕ) (raw : Text)
    (path : ℕ) (o : Option Folder)
    → ((insert_under info opts s account folder raw path o).0.messages ≡ s.messages)
      ⊎ ((ids : ℕ × ℕ) × ((insert_under info opts s account folder raw path o).1 ≡ ok ids))
unfolding insert_under
insert_under-failed info opts s account folder raw path none = inl refl
insert_under-failed info opts s account folder raw path (some f) =
    elim (Bool-cases (may_insert s account folder f.next_uid)) [
      | inl b ↦ rw b (inr (_, refl))
      | inr b ↦ rw b (inl refl)
    ]

-- A delivery leaves the rows as they were, or it succeeds.
deliver-failed :
    (ext : External) (s : Store) (account folder : ℕ) (raw : Text) (opts : Option DeliverOpts)
    → ((deliver ext s account folder raw opts).0.messages ≡ s.messages)
      ⊎ ((ids : ℕ × ℕ) × ((deliver ext s account folder raw opts).1 ≡ ok ids))
unfolding deliver
deliver-failed ext s account folder raw opts = elim (Bool-cases s.disk_full) [
  | inl full ↦ rw (store_blob_full s raw full, deliver) (inl refl)
  | inr room ↦
      rw (store_blob_room s raw room, deliver)
        (unfold insert_row in
          insert_under-failed (ext.parse_headers s.clock raw) opts
            (record s { blobs = (s.next_blob, raw) ∷ s.blobs; next_blob = s.next_blob + 1 }) account
            folder raw s.next_blob _)
]

after_delivery-failed :
    (ext : External) (p : Progress) (rc : RcptTarget) (raw : Text) (r : Store × Result (ℕ × ℕ))
    → (r.0.messages ≡ p.store.messages) ⊎ ((ids : ℕ × ℕ) × (r.1 ≡ ok ids))
    → (after_delivery ext p rc raw r).any_ok ≡ false
    → (p.any_ok ≡ false) × ((after_delivery ext p rc raw r).store.messages ≡ p.store.messages)
after_delivery-failed ext p rc raw (s, err e) (inl same) h = (h, same)
after_delivery-failed ext p rc raw (s, err e) (inr (ids, q)) h = absurd (cc q)
after_delivery-failed ext p rc raw (s, ok (id, uid)) c h = cc

one_rcpt-failed :
    (ext : External) (p : Progress) (rc : RcptTarget) (raw : Text)
    → (one_rcpt ext p rc raw).any_ok ≡ false
    → (p.any_ok ≡ false) × ((one_rcpt ext p rc raw).store.messages ≡ p.store.messages)
unfolding one_rcpt
one_rcpt-failed ext p rc raw h = elim (Bool-cases rc.is_local) [
  | inl e ↦ rw e (
      after_delivery-failed ext p rc raw (deliver ext p.store rc.account rc.folder raw no_opts)
        (deliver-failed ext p.store rc.account rc.folder raw no_opts) (rw e at h))
  | inr e ↦ rw e (rw e at h, refl)
]

each_rcpt-failed :
    (ext : External) (rcs : List RcptTarget) (p : Progress) (raw : Text)
    → (each_rcpt ext p rcs raw).any_ok ≡ false
    → (p.any_ok ≡ false) × ((each_rcpt ext p rcs raw).store.messages ≡ p.store.messages)
unfolding each_rcpt
each_rcpt-failed ext [] p raw h = (h, refl)
each_rcpt-failed ext (rc ∷ rcs) p raw h =
    let (first, rest) = each_rcpt-failed ext rcs (one_rcpt ext p rc raw) raw h in
    let (before, same) = one_rcpt-failed ext p rc raw first in (before, rest ∙ same)

enqueue_remote-failed :
    (o : Outbound) (from : Text) (rs : List Text) (raw : Text) (b : Bool)
    → (enqueue_remote o from rs raw b).1 ≡ false
    → (b ≡ false) × ((enqueue_remote o from rs raw b).0.items ≡ o.items)
enqueue_remote-failed o from [] raw b h = (h, refl)
enqueue_remote-failed o from (r ∷ rs) raw b h = unfold enqueue in ground arith

concluded :
    (ext : External) (s : Store) (q : Outbound × Bool) (ss : Smtp) (raw : Text)
    → (conclude ext s q ss raw).1.1 ≡ delivery_failed
    → (q.1 ≡ false)
      × ((conclude ext s q ss raw).0.store ≡ s)
      × ((conclude ext s q ss raw).0.outbound ≡ q.0)
      × ((conclude ext s q ss raw).1.0 ≡ ss)
concluded ext s (o, false) ss raw h = (refl, refl, refl, refl)
concluded ext s (o, true) ss raw h = cc

-- A DATA that answers 451 has stored no message and queued none, and the session is as before.
pub take_data-failed :
    (ext : External) (w : World) (ss : Smtp) (input : Text)
    → (take_data ext w ss input).1.1 ≡ delivery_failed
    → ((take_data ext w ss input).0.store.messages ≡ w.store.messages)
      × ((take_data ext w ss input).0.outbound.items ≡ w.outbound.items)
      × ((take_data ext w ss input).1.0 ≡ ss)
unfolding take_data
take_data-failed ext w ss input h =
    let raw = take max_bytes input in
    let p = each_rcpt ext (record { store = w.store; any_ok = false; remote = [] }) ss.rcpts raw in
    let q = enqueue_remote w.outbound ss.from p.remote raw p.any_ok in
    let (down, store, outbound, session) = concluded ext p.store q ss raw h in
    let (none_ok, items) = enqueue_remote-failed w.outbound ss.from p.remote raw p.any_ok down in
    let (_, same) = each_rcpt-failed ext ss.rcpts _ raw none_ok in
    (ap (λ s. s.messages) store ∙ same, ap (λ o. o.items) outbound ∙ items, session)

module _ {low : ℕ → ℕ} (ext : External) where
  pub post_deliver-IsWellFormed :
      (s : Store) (account id : ℕ) (raw : Text)
      → IsWellFormed low s
      → IsWellFormed low (post_deliver ext s account id raw)
  unfolding post_deliver
  post_deliver-IsWellFormed s account id raw w = apply-IsWellFormed ext s account id _ w

  after_delivery-IsWellFormed :
      (p : Progress) (rc : RcptTarget) (raw : Text) (r : Store × Result (ℕ × ℕ))
      → IsWellFormed low r.0
      → IsWellFormed low (after_delivery ext p rc raw r).store
  after_delivery-IsWellFormed p rc raw (s, err e) w = w
  after_delivery-IsWellFormed p rc raw (s, ok (id, uid)) w =
      post_deliver-IsWellFormed s rc.account id raw w

  pub one_rcpt-IsWellFormed :
      (p : Progress) (rc : RcptTarget) (raw : Text)
      → IsWellFormed low p.store
      → IsWellFormed low (one_rcpt ext p rc raw).store
  unfolding one_rcpt
  one_rcpt-IsWellFormed p rc raw w =
      if_both (λ (q : Progress). IsWellFormed low q.store) rc.is_local _ _
        (after_delivery-IsWellFormed p rc raw (deliver ext p.store rc.account rc.folder raw no_opts)
          (deliver-IsWellFormed ext p.store rc.account rc.folder raw no_opts w))
        w

  pub each_rcpt-IsWellFormed :
      (rcs : List RcptTarget) (p : Progress) (raw : Text)
      → IsWellFormed low p.store
      → IsWellFormed low (each_rcpt ext p rcs raw).store
  unfolding each_rcpt
  each_rcpt-IsWellFormed [] p raw w = w
  each_rcpt-IsWellFormed (rc ∷ rcs) p raw w =
      each_rcpt-IsWellFormed rcs (one_rcpt ext p rc raw) raw (one_rcpt-IsWellFormed p rc raw w)

  copy_into-IsWellFormed :
      (s : Store) (account : ℕ) (raw : Text) (r : Result Listed)
      → IsWellFormed low s
      → IsWellFormed low (copy_into ext s account raw r)
  copy_into-IsWellFormed s account raw (err e) w = w
  copy_into-IsWellFormed s account raw (ok f) w =
      deliver-IsWellFormed ext s account f.id raw no_opts w

  conclude-IsWellFormed :
      (s : Store) (q : Outbound × Bool) (ss : Smtp) (raw : Text)
      → IsWellFormed low s
      → IsWellFormed low (conclude ext s q ss raw).0.store
  unfolding sent_copy
  conclude-IsWellFormed s (o, false) ss raw w = w
  conclude-IsWellFormed s (o, true) ss raw w =
      if_both (IsWellFormed low) (ss.authenticated && ltb 0 ss.auth_account) _ _
        (copy_into-IsWellFormed s ss.auth_account raw
          (folder_by_name s ss.auth_account (codes "Sent")) w)
        w

  -- DATA keeps the store well-formed: the deliveries, the filters and the copy for the sender.
  take_data-IsWellFormed :
      (w : World) (ss : Smtp) (input : Text)
      → IsWellFormed low w.store
      → IsWellFormed low (take_data ext w ss input).0.store
  unfolding take_data
  take_data-IsWellFormed w ss input h =
      conclude-IsWellFormed _ _ ss _ (each_rcpt-IsWellFormed ss.rcpts _ (take max_bytes input) h)
