-- ===== src/Smtpd/Kept.antt =====
-- What DATA leaves of the mail that was there, and where it puts the new mail.
use cloudpost.Prelude.{
  Bool, Bool-cases, List, [], arith, false, if_both, inl, inr, ltb, refl, take, true, ℕ, ◌&&◌, ◌∷◌,
  ◌≡◌,
}
use cloudpost.Text.{Text, codes}
use cloudpost.Engine.OtherMail.{apply-Reads}
use cloudpost.Mailstore.Delivered.{deliver-Delivered}
use cloudpost.Mailstore.Folders.{folder_by_name}
use cloudpost.Mailstore.Invariant.{IsWellFormed}
use cloudpost.Mailstore.Invariant.Delivery.{deliver-IsWellFormed}
use cloudpost.Mailstore.Kept.{Reads, below_next, get_message_raw-deliver_kept}
use cloudpost.Mailstore.Messages.{deliver, get_message_raw, no_opts}
use cloudpost.Mailstore.Schema.{External, Listed, Message, Result, Store, err, ok}
use cloudpost.Sender.Queue.{Outbound}
use cloudpost.Smtpd.Data.{
  Progress, World, after_delivery, conclude, copy_into, each_rcpt, max_bytes, one_rcpt,
  post_deliver, sent_copy, take_data,
}
use cloudpost.Smtpd.Outcome.{each_rcpt-IsWellFormed, one_rcpt-IsWellFormed}
use cloudpost.Smtpd.Session.{RcptTarget, Smtp}

module _ {low : ℕ → ℕ} (ext : External) (account id : ℕ) (text : Text) where
  after_delivery-Reads :
      (p : Progress) (rc : RcptTarget) (raw : Text) (t : Store) (r : Result (ℕ × ℕ))
      → deliver ext p.store rc.account rc.folder raw no_opts ≡ (t, r)
      → IsWellFormed low p.store
      → Reads p.store account id text
      → IsWellFormed low t
      → Reads t account id text
      → Reads (after_delivery ext p rc raw (t, r)).store account id text
  unfolding post_deliver
  after_delivery-Reads p rc raw t (err e) d w h v g = g
  after_delivery-Reads p rc raw t (ok (new, uid)) d w h v g =
      let fresh =
        (deliver-Delivered ext p.store t rc.account rc.folder raw no_opts new uid d).id_is in
      let below = below_next p.store account id text h.0 w h.1 in
      apply-Reads ext rc.account new account id text (λ e. omega (arith, fresh, below, e)) t _ v g

  one_rcpt-Reads :
      (p : Progress) (rc : RcptTarget) (raw : Text)
      → IsWellFormed low p.store
      → Reads p.store account id text
      → Reads (one_rcpt ext p rc raw).store account id text
  unfolding one_rcpt
  one_rcpt-Reads p rc raw w h = elim (Bool-cases rc.is_local) [
    | inr e ↦ rw e h
    | inl e ↦ rw e (
        after_delivery-Reads p rc raw (deliver ext p.store rc.account rc.folder raw no_opts).0
          (deliver ext p.store rc.account rc.folder raw no_opts).1 refl w h
          (deliver-IsWellFormed ext p.store rc.account rc.folder raw no_opts w)
          (
            h.0,
            get_message_raw-deliver_kept ext p.store rc.account rc.folder raw no_opts account id
                text h.0 w h.1,
          ))
  ]

  each_rcpt-Reads :
      (rcs : List RcptTarget) (p : Progress) (raw : Text)
      → IsWellFormed low p.store
      → Reads p.store account id text
      → Reads (each_rcpt ext p rcs raw).store account id text
  unfolding each_rcpt
  each_rcpt-Reads [] p raw w h = h
  each_rcpt-Reads (rc ∷ rcs) p raw w h =
      each_rcpt-Reads rcs (one_rcpt ext p rc raw) raw (one_rcpt-IsWellFormed ext p rc raw w)
        (one_rcpt-Reads p rc raw w h)

  copy_into-Reads :
      (s : Store) (owner : ℕ) (raw : Text) (r : Result Listed)
      → IsWellFormed low s
      → Reads s account id text
      → Reads (copy_into ext s owner raw r) account id text
  copy_into-Reads s owner raw (err e) w h = h
  copy_into-Reads s owner raw (ok f) w h =
      (h.0, get_message_raw-deliver_kept ext s owner f.id raw no_opts account id text h.0 w h.1)

  pub conclude-Reads :
      (s : Store) (q : Outbound × Bool) (ss : Smtp) (raw : Text)
      → IsWellFormed low s
      → Reads s account id text
      → Reads (conclude ext s q ss raw).0.store account id text
  unfolding sent_copy
  conclude-Reads s (o, false) ss raw w h = h
  conclude-Reads s (o, true) ss raw w h =
      if_both (λ t. Reads t account id text) (ss.authenticated && ltb 0 ss.auth_account) _ _
        (copy_into-Reads s ss.auth_account raw (folder_by_name s ss.auth_account (codes "Sent")) w
          h)
        h

-- DATA into a well-formed store leaves every message readable that could be read before, for every
-- account and under the same id, whatever the recipients, their rules and the failures are.
pub take_data-kept :
    {low : ℕ → ℕ} (ext : External) (w : World) (ss : Smtp) (input : Text) (account id : ℕ)
    (text : Text) (m : Message)
    → IsWellFormed low w.store
    → get_message_raw w.store account id ≡ ok (text, m)
    → (n : Message) × (get_message_raw (take_data ext w ss input).0.store account id ≡ ok (text, n))
unfolding take_data
take_data-kept ext w ss input account id text m v h =
    conclude-Reads ext account id text _ _ ss _
      (each_rcpt-IsWellFormed ext ss.rcpts _ (take max_bytes input) v)
      (each_rcpt-Reads ext account id text ss.rcpts _ (take max_bytes input) v (m, h))
