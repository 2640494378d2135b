-- ===== src/Smtpd/Accepted.antt =====
-- What a DATA that answers 250 has done with the mail.
use cloudpost.Prelude.{
  All, All-keep, All-sort_by, Bool, Bool-cases, List, [], arith, false, find_first, if_both, inl,
  inr, refl, some, subst, sym, take, true, ℕ, ◌++◌, ◌∷◌, ◌≡◌, ◌⊎◌,
}
use cloudpost.Text.{Text}
use cloudpost.Engine.Lossless.{apply-kept, spares}
use cloudpost.Engine.Rules.{Mail, apply, hits}
use cloudpost.Engine.SameRules.{apply-filters}
use cloudpost.Mailstore.Delivered.{get_message_raw-deliver}
use cloudpost.Mailstore.Filters.{list_filters}
use cloudpost.Mailstore.Invariant.{IsWellFormed}
use cloudpost.Mailstore.Invariant.Delivery.{deliver-IsWellFormed}
use cloudpost.Mailstore.Kept.{Reads, deliver-Grown, get_message_raw-deliver_kept}
use cloudpost.Mailstore.Messages.{deliver, get_message_raw, no_opts}
use cloudpost.Mailstore.Schema.{External, Filter, Message, Result, Store, err, ok, read_file}
use cloudpost.Sender.Queue.{Outbound, QueueItem, enqueue, queued}
use cloudpost.Smtpd.Data.{
  Progress, World, after_delivery, conclude, each_rcpt, enqueue_remote, max_bytes, one_rcpt,
  post_deliver, take_data,
}
use cloudpost.Smtpd.Kept.{conclude-Reads}
use cloudpost.Smtpd.Outcome.{post_deliver-IsWellFormed}
use cloudpost.Smtpd.Session.{RcptTarget, Smtp, accepted}

-- A text can be read as some message of some account.
abbrev Somewhere : Store → Text → Type 0
Somewhere s raw =
    (account : ℕ) × (id : ℕ) × (m : Message) × (get_message_raw s account id ≡ ok (raw, m))

-- No rule discards.
abbrev pub IsSparing : Store → Type 0
IsSparing s = All (λ f. spares (some f) ≡ true) s.filters

first_spares :
    (ext : External) (look : Mail) (fs : List Filter)
    → All (λ f. spares (some f) ≡ true) fs
    → spares (find_first (hits ext look) fs) ≡ true
first_spares ext look [] h = refl
first_spares ext look (f ∷ fs) h = elim (Bool-cases (hits ext look f)) [
  | inl b ↦ rw b h.0
  | inr b ↦ rw b (first_spares ext look fs h.1)
]

rules_spare :
    (ext : External) (s : Store) (account : ℕ) (look : Mail)
    → IsSparing s
    → spares (find_first (hits ext look) (list_filters s account)) ≡ true
unfolding list_filters
rules_spare ext s account look h =
    first_spares ext look _ (All-sort_by _ _ _ (All-keep _ _ s.filters h))

module _ (low : ℕ → ℕ) (ext : External) (raw : Text) where
  -- What the loop over the recipients keeps.
  record Going (p : Progress) : Type 0 where
    formed : IsWellFormed low p.store
    sparing : IsSparing p.store
    arrived : p.any_ok ≡ true → Somewhere p.store raw

  new_mail :
      (s : Store) (owner new : ℕ) (look : Mail)
      → IsWellFormed low s
      → IsSparing s
      → Reads s owner new raw
      → Somewhere (apply ext s owner new look) raw
  new_mail s owner new look w h (m, e) =
      elim (apply-kept ext s owner new look raw m w e (rules_spare ext s owner look h)) [
        | inl (n, here) ↦ (owner, new, n, here)
        | inr (a, there, (n, found)) ↦ (a.id, there, n, found)
      ]

  after_delivery-Going :
      (p : Progress) (rc : RcptTarget) (t : Store) (r : Result (ℕ × ℕ))
      → deliver ext p.store rc.account rc.folder raw no_opts ≡ (t, r)
      → Going p
      → IsWellFormed low t
      → IsSparing t
      → (Somewhere p.store raw → Somewhere t raw)
      → Going (after_delivery ext p rc raw (t, r))
  after_delivery-Going p rc t (err e) d g w h kept = record {
    formed = w;
    sparing = h;
    arrived = λ b. kept (g.arrived b);
  }
  after_delivery-Going p rc t (ok (new, uid)) d g w h kept = record {
    formed = post_deliver-IsWellFormed ext t rc.account new raw w;
    sparing =
        unfold post_deliver in
        subst (All (λ f. spares (some f) ≡ true)) (sym (apply-filters ext t rc.account new _)) h;
    arrived = λ b.
        let (m, found, _, _) =
          get_message_raw-deliver ext p.store t rc.account rc.folder raw no_opts new uid g.formed
            d in
        unfold post_deliver in new_mail t rc.account new _ w h (m, found);
  }

  one_rcpt-Going : (p : Progress) (rc : RcptTarget) → Going p → Going (one_rcpt ext p rc raw)
  unfolding one_rcpt
  one_rcpt-Going p rc g =
      if_both Going rc.is_local _ _
        (after_delivery-Going p rc (deliver ext p.store rc.account rc.folder raw no_opts).0
          (deliver ext p.store rc.account rc.folder raw no_opts).1 refl g
          (deliver-IsWellFormed ext p.store rc.account rc.folder raw no_opts g.formed)
          (subst (All (λ f. spares (some f) ≡ true))
            (sym (deliver-Grown ext p.store rc.account rc.folder raw no_opts).rules) g.sparing)
          (λ q.
            let (account, id, m, e) = q in
            (
              account,
              id,
              m,
              get_message_raw-deliver_kept ext p.store rc.account rc.folder raw no_opts account id
                  raw m g.formed e,
            )))
        (record { formed = g.formed; sparing = g.sparing; arrived = g.arrived })

  each_rcpt-Going :
      (rcs : List RcptTarget) (p : Progress) → Going p → Going (each_rcpt ext p rcs raw)
  unfolding each_rcpt
  each_rcpt-Going [] p g = g
  each_rcpt-Going (rc ∷ rcs) p g =
      each_rcpt-Going rcs (one_rcpt ext p rc raw) (one_rcpt-Going p rc g)

-- The last item of the queue is new and has the text.
abbrev Queued : Outbound → Outbound → Text → Text → Type 0
Queued before after from raw =
    (it : QueueItem) × (after.items ≡ before.items ++ it ∷ [])
    × (it.from ≡ from)
    × (read_file it.data_path after.files ≡ some raw)

enqueue_remote-Queued :
    (o : Outbound) (from : Text) (rs : List Text) (raw : Text) (b : Bool)
    → (enqueue_remote o from rs raw b).1 ≡ true
    → (b ≡ true) ⊎ Queued o (enqueue_remote o from rs raw b).0 from raw
unfolding enqueue
enqueue_remote-Queued o from [] raw b h = inl h
enqueue_remote-Queued o from (r ∷ rs) raw b h = elim (Bool-cases o.disk_full) [
  | inl full ↦ rw full (inl (rw full at h))
  | inr room ↦
      rw room (inr (queued o from (r ∷ rs), refl, refl, (unfold read_file in ground arith)))
]

concluded_well :
    (ext : External) (s : Store) (q : Outbound × Bool) (ss : Smtp) (raw : Text)
    → (conclude ext s q ss raw).1.1 ≡ accepted
    → (q.1 ≡ true) × ((conclude ext s q ss raw).0.outbound ≡ q.0)
concluded_well ext s (o, false) ss raw h = cc
concluded_well ext s (o, true) ss raw h = (refl, refl)

-- In a well-formed store where no rule discards, a DATA that answers 250 has taken the mail: its
-- text, cut at 50 MB, can be read as a message of some account, or is a new item of the outbound
-- queue with the sender of the session and a file that holds the text.
pub take_data-accepted :
    {low : ℕ → ℕ} (ext : External) (w : World) (ss : Smtp) (input : Text)
    → IsWellFormed low w.store
    → IsSparing w.store
    → (take_data ext w ss input).1.1 ≡ accepted
    → let after = (take_data ext w ss input).0 in
      let raw = take max_bytes input in
      ((account : ℕ) × (id : ℕ) × (m : Message) × (get_message_raw after.store account id
          ≡ ok (raw, m)))
      ⊎ ((it : QueueItem) × (after.outbound.items ≡ w.outbound.items ++ it ∷ [])
          × (it.from ≡ ss.from)
          × (read_file it.data_path after.outbound.files ≡ some raw))
unfolding take_data
take_data-accepted {low = low} ext w ss input v spared h =
    let raw = take max_bytes input in
    let opening : Progress = record { store = w.store; any_ok = false; remote = [] } in
    let p = each_rcpt ext opening ss.rcpts raw in
    let q = enqueue_remote w.outbound ss.from p.remote raw p.any_ok in
    let (done, same) = concluded_well ext p.store q ss raw h in
    let g =
      each_rcpt-Going low ext raw ss.rcpts opening
        (record { formed = v; sparing = spared; arrived = λ b. absurd (cc b) }) in
    elim (enqueue_remote-Queued w.outbound ss.from p.remote raw p.any_ok done) [
      | inr there ↦ inr (subst (λ o. Queued w.outbound o ss.from raw) (sym same) there)
      | inl b ↦
          let (account, id, m, e) = g.arrived b in
          let (n, found) = conclude-Reads ext account id raw p.store q ss raw g.formed (m, e) in
          inl (account, id, n, found)
    ]
