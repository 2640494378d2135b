-- ===== src/Engine/OtherMail.antt =====
-- What the rules of one message do to the others.
use cloudpost.Prelude.{
  Option, find_first, if_both, if◌then◌else◌, is_nil, none, some, subst, sym, ℕ, ◌≢◌,
}
use cloudpost.Text.{Text, codes, eqb, lower, trim_space}
use cloudpost.Engine.FirstMatch.{act_of, apply-first}
use cloudpost.Engine.Lossless.{move_to_folder_name-Reads, set_flags-Reads}
use cloudpost.Engine.Rules.{
  Mail, act, after_copy, apply, copy_over, hits, into_inbox, move_account, to_account,
}
use cloudpost.Mailstore.Accounts.{get_account_by_address_any}
use cloudpost.Mailstore.Filters.{list_filters}
use cloudpost.Mailstore.Flags.{add, flagged_flag, seen_flag}
use cloudpost.Mailstore.Folders.{folder_by_name, inbox_name}
use cloudpost.Mailstore.Invariant.{IsWellFormed}
use cloudpost.Mailstore.Invariant.Delivery.{deliver-IsWellFormed}
use cloudpost.Mailstore.Kept.{Reads, get_message_raw-delete_kept, get_message_raw-deliver_kept}
use cloudpost.Mailstore.Messages.{deliver, get_message_raw, no_opts}
use cloudpost.Mailstore.Schema.{Account, External, Filter, Listed, Message, Result, Store, err, ok}
use cloudpost.Smtpd.Session.{mail}

-- The message that the rules run over is another one than the message with this id.
module _ {low : ℕ → ℕ} (ext : External) (owner k account id : ℕ) (raw : Text) (other : id ≢ k) where
  after_copy-Reads :
      (p : Store × Result (ℕ × ℕ))
      → IsWellFormed low p.0
      → Reads p.0 account id raw
      → Reads (after_copy owner k p) account id raw
  unfolding after_copy
  after_copy-Reads (s, err e) w h = h
  after_copy-Reads (s, ok ids) w (m, h) =
      (m, get_message_raw-delete_kept s owner k account id raw m w other h)

  copy_over-Reads :
      (s : Store) (target inbox : ℕ) (r : Result (Text × Message))
      → IsWellFormed low s
      → Reads s account id raw
      → Reads (copy_over ext s owner k target inbox r) account id raw
  unfolding copy_over
  copy_over-Reads s target inbox (err e) w h = h
  copy_over-Reads s target inbox (ok (text, n)) w (m, h) =
      after_copy-Reads (deliver ext s target inbox text no_opts)
        (deliver-IsWellFormed ext s target inbox text no_opts w)
        (m, get_message_raw-deliver_kept ext s target inbox text no_opts account id raw m w h)

  into_inbox-Reads :
      (s : Store) (target : ℕ) (r : Result Listed)
      → IsWellFormed low s
      → Reads s account id raw
      → Reads (into_inbox ext s owner k target r) account id raw
  into_inbox-Reads s target (err e) w h = h
  into_inbox-Reads s target (ok f) w h =
      copy_over-Reads s target f.id (get_message_raw s owner k) w h

  to_account-Reads :
      (s : Store) (r : Result Account)
      → IsWellFormed low s
      → Reads s account id raw
      → Reads (to_account ext s owner k r) account id raw
  to_account-Reads s (err e) w h = h
  to_account-Reads s (ok t) w h = into_inbox-Reads s t.id (folder_by_name s t.id inbox_name) w h

  act-Reads :
      (s : Store) (f : Filter)
      → IsWellFormed low s
      → Reads s account id raw
      → Reads (act ext s owner k f) account id raw
  unfolding act move_account
  act-Reads s f w h =
      pick _ _ (codes "move")
        (if_both (λ t. Reads t account id raw) (is_nil f.action_arg) _ _ h
          (move_to_folder_name-Reads account id raw s owner k f.action_arg h))
        (pick _ _ (codes "move_account")
          (if_both (λ t. Reads t account id raw) (is_nil f.action_arg) _ _ h
            (to_account-Reads s (get_account_by_address_any s (lower (trim_space f.action_arg))) w
              h))
          (pick _ _ (codes "markread") (set_flags-Reads account id raw s owner k add seen_flag h) (
            pick _ _ (codes "star") (set_flags-Reads account id raw s owner k add flagged_flag h) (
              pick _ _ (codes "trash")
                (move_to_folder_name-Reads account id raw s owner k (codes "Trash") h)
                (pick _ _ (codes "discard")
                  (h.0, get_message_raw-delete_kept s owner k account id raw h.0 w other h.1) h)))))
    where
      pick :
          (x y : Store) (name : Text)
          → Reads x account id raw
          → Reads y account id raw
          → Reads (if eqb f.action name then x else y) account id raw
      pick x y name = if_both (λ t. Reads t account id raw) (eqb f.action name) x y

  chosen-Reads :
      (s : Store) (o : Option Filter)
      → IsWellFormed low s
      → Reads s account id raw
      → Reads (act_of ext s owner k o) account id raw
  chosen-Reads s none w h = h
  chosen-Reads s (some f) w h = act-Reads s f w h

  -- Apply on one message leaves every other message readable.
  pub apply-Reads :
      (s : Store) (mail : Mail)
      → IsWellFormed low s
      → Reads s account id raw
      → Reads (apply ext s owner k mail) account id raw
  apply-Reads s mail w h =
      subst (λ t. Reads t account id raw) (sym (apply-first ext s owner k mail))
        (chosen-Reads s (find_first (hits ext mail) (list_filters s owner)) w h)
