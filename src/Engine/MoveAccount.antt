-- ===== src/Engine/MoveAccount.antt =====
-- Moving a message into another mailbox loses nothing.
use cloudpost.Prelude.{ap, arith, inl, inr, refl, subst, ℕ, ◌≡◌, ◌⊎◌}
use cloudpost.Text.{Text, lower, trim_space}
use cloudpost.Engine.Rules.{after_copy, copy_over, into_inbox, move_account, to_account}
use cloudpost.Imapd.Messages.{copy, moved}
use cloudpost.Mailstore.Accounts.{get_account_by_address_any}
use cloudpost.Mailstore.Delivered.{deliver-Delivered, get_message_raw-deliver}
use cloudpost.Mailstore.Folders.{folder_by_name, inbox_name}
use cloudpost.Mailstore.Invariant.{IsWellFormed}
use cloudpost.Mailstore.Invariant.Delivery.{deliver-IsWellFormed}
use cloudpost.Mailstore.Kept.{
  Reads, below_next, get_message_raw-delete_kept, get_message_raw-deliver_kept,
}
use cloudpost.Mailstore.Messages.{deliver, get_message_raw, no_opts}
use cloudpost.Mailstore.Schema.{Account, External, Listed, Message, Result, Store, err, ok}

module _ {low : ℕ → ℕ} (ext : External) (s : Store) (account id : ℕ) (raw : Text) (m : Message)
    (w : IsWellFormed low s) (h : get_message_raw s account id ≡ ok (raw, m)) where
  -- The message is where it was, or the mailbox has it.
  abbrev Held : ℕ → Store → Type 0
  Held target t = Reads t account id raw ⊎ ((new : ℕ) × Reads t target new raw)

  after_copy-Held :
      (target inbox : ℕ) (t : Store) (r : Result (ℕ × ℕ))
      → deliver ext s target inbox raw no_opts ≡ (t, r)
      → Held target (after_copy account id (t, r))
  unfolding after_copy
  after_copy-Held target inbox t (err e) d = inl (
    m,
    subst (λ x. get_message_raw x account id ≡ ok (raw, m)) (ap (λ p. p.0) d)
        (get_message_raw-deliver_kept ext s target inbox raw no_opts account id raw m w h),
  )
  after_copy-Held target inbox t (ok (new, uid)) d =
      let (copy, found, _, _) =
        get_message_raw-deliver ext s t target inbox raw no_opts new uid w d in
      let fresh = (deliver-Delivered ext s t target inbox raw no_opts new uid d).id_is in
      let below = below_next s account id raw m w h in
      inr (
        new,
        (
          copy,
          get_message_raw-delete_kept t account id target new raw copy
              (subst (IsWellFormed low) (ap (λ p. p.0) d)
                (deliver-IsWellFormed ext s target inbox raw no_opts w))
              (λ e. omega (arith, fresh, below, e)) found,
        ),
      )

  into_inbox-Held :
      (target : ℕ) (r : Result Listed) → Held target (into_inbox ext s account id target r)
  unfolding copy_over
  into_inbox-Held target (err e) = inl (m, h)
  into_inbox-Held target (ok f) = rw h (
      after_copy-Held target f.id (deliver ext s target f.id raw no_opts).0
        (deliver ext s target f.id raw no_opts).1 refl)

  to_account-Held :
      (r : Result Account)
      → Reads (to_account ext s account id r) account id raw
        ⊎ ((a : Account) × (r ≡ ok a)
            × (new : ℕ) × Reads (to_account ext s account id r) a.id new raw)
  to_account-Held (err e) = inl (m, h)
  to_account-Held (ok a) = elim (into_inbox-Held a.id (folder_by_name s a.id inbox_name)) [
    | inl kept ↦ inl kept
    | inr moved ↦ inr (a, refl, moved.0, moved.1)
  ]

-- In a well-formed store the action move_account loses no message, whatever fails on the way: the
-- text of the message can be read afterwards in its own account as before, or else in the account
-- that the target address names.
pub move_account-kept :
    {low : ℕ → ℕ} (ext : External) (s : Store) (account id : ℕ) (target raw : Text) (m : Message)
    → IsWellFormed low s
    → get_message_raw s account id ≡ ok (raw, m)
    → let t = move_account ext s account id target in
      ((n : Message) × (get_message_raw t account id ≡ ok (raw, n)))
      ⊎ ((a : Account) × (get_account_by_address_any s (lower (trim_space target)) ≡ ok a)
          × (new : ℕ) × ((n : Message) × (get_message_raw t a.id new ≡ ok (raw, n))))
unfolding move_account
move_account-kept ext s account id target raw m w h =
    to_account-Held ext s account id raw m w h
      (get_account_by_address_any s (lower (trim_space target)))
