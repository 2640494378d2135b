-- ===== src/Smtpd/Gate.antt =====
-- What a client can do before it has logged in: nothing. The commands of a session are steps, and
-- what they reach is shown by induction on the steps.
use cloudpost.Prelude.{[], false, ◌≡◌}
use cloudpost.Text.{Text}
use cloudpost.Mailstore.Schema.{External}
use cloudpost.Smtpd.Data.{World, take_data}
use cloudpost.Smtpd.Session.{Smtp, authenticate, mail, new_smtp, rcpt, reset}

-- One command of a client; the mailboxes may have changed in between.
pub data SmtpStep (ext : External) (domain : Text) : World × Smtp → World × Smtp → Type 0 where
  meanwhile : {w : World} {ss : Smtp} → (w' : World) → SmtpStep ext domain (w, ss) (w', ss)
  login :
      {w : World} {ss : Smtp}
      → (name password : Text)
      → SmtpStep ext domain (w, ss) (w, (authenticate ext w.store ss name password).0)
  mail_from :
      {w : World} {ss : Smtp} → (from : Text) → SmtpStep ext domain (w, ss) (w, (mail ss from).0)
  rcpt_to :
      {w : World} {ss : Smtp}
      → (to : Text) → SmtpStep ext domain (w, ss) (w, (rcpt w.store domain ss to).0)
  data_block :
      {w : World} {ss : Smtp}
      → (input : Text)
      → SmtpStep ext domain (w, ss) ((take_data ext w ss input).0, (take_data ext w ss input).1.0)
  reset_all : {w : World} {ss : Smtp} → SmtpStep ext domain (w, ss) (w, reset ss)

pub data Reaches (ext : External) (domain : Text) (w : World) : World × Smtp → Type 0 where
  start : Reaches ext domain w (w, new_smtp)
  and_then_step :
      {p q : World × Smtp}
      → Reaches ext domain w p
      → SmtpStep ext domain p q
      → Reaches ext domain w q

-- Before the login there is no sender and no recipient.
abbrev pub IsGated : Smtp → Type 0
IsGated ss = ss.authenticated ≡ false → (ss.from ≡ []) × (ss.rcpts ≡ [])
