-- ===== src/Smtpd/Session.antt =====
-- The session of internal/smtpd/smtpd.go: the login, MAIL and RCPT.
use cloudpost.Prelude.{
  Bool, List, Option, [], drop, false, if◌then◌else◌, is_nil, none, not, some, take, true, ℕ, ◌++◌,
  ◌+◌, ◌==◌, ◌||◌, ◌∷◌,
}
use cloudpost.Text.{Text, equal_fold, last_index_byte, lower, trim}
use cloudpost.Installation.Config.{Config}
use cloudpost.Mailstore.Accounts.{get_account_by_address, verify_local_login}
use cloudpost.Mailstore.Folders.{folder_by_name, inbox_name}
use cloudpost.Mailstore.Schema.{Account, External, Listed, Result, Store, err, ok}

pub record RcptTarget : Type 0 where
  pub address : Text
  pub is_local : Bool
  pub account : ℕ
  pub folder : ℕ

pub record Smtp : Type 0 where
  pub from : Text
  pub rcpts : List RcptTarget
  pub authenticated : Bool
  pub auth_account : ℕ

abbrev pub new_smtp : Smtp
new_smtp = record { from = []; rcpts = []; authenticated = false; auth_account = 0 }

pub data Answer : Type 0 where
  accepted auth_required auth_failed no_mailbox unavailable delivery_failed : Answer

abbrev pub let_in : Smtp → Option Account → Smtp × Answer
let_in ss none = (ss, auth_failed)
let_in ss (some a) = (record ss { authenticated = true; auth_account = a.id }, accepted)

unfoldable pub authenticate : External → Store → Smtp → Text → Text → Smtp × Answer
authenticate ext s ss name password = let_in ss (verify_local_login ext s name password)

unfoldable pub reset : Smtp → Smtp
reset ss = record ss { from = []; rcpts = [] }

abbrev pub angle : ℕ → Bool
angle c = c == b'<' || c == b'>'

abbrev pub plain : Text → Text
plain t = lower (trim angle t)

unfoldable pub mail : Smtp → Text → Smtp × Answer
unfolding lower trim
mail ss from =
    if not ss.authenticated
    then (ss, auth_required)
    else (record ss { from = plain from }, accepted)

-- The local part and the domain of an address.
unfoldable pub split_addr : Text → Text × Text
unfolding last_index_byte
split_addr addr = elim (last_index_byte b'@' addr) [
  | none ↦ (addr, [])
  | some i ↦ (take i addr, drop (i + 1) addr)
]

abbrev pub domain_or : Text → Option Config → Text
domain_or fallback none = fallback
domain_or fallback (some cfg) = if is_nil cfg.primary_domain then fallback else cfg.primary_domain

-- The domain of the installation, or that of the start.
unfoldable pub effective_domain : Option Config → Text → Text
effective_domain cfg fallback = domain_or fallback cfg

abbrev pub add_rcpt : Smtp → RcptTarget → Smtp × Answer
add_rcpt ss target = (record ss { rcpts = ss.rcpts ++ target ∷ [] }, accepted)

abbrev pub with_inbox : Smtp → Text → ℕ → Result Listed → Smtp × Answer
with_inbox ss addr account (err e) = (ss, unavailable)
with_inbox ss addr account (ok f) =
    add_rcpt ss (record { address = addr; is_local = true; account = account; folder = f.id })

abbrev pub with_account : Store → Smtp → Text → Result Account → Smtp × Answer
with_account s ss addr (err e) = (ss, no_mailbox)
with_account s ss addr (ok a) = with_inbox ss addr a.id (folder_by_name s a.id inbox_name)

-- An address of the own domain must be a mailbox; any other is for the outbound queue.
unfoldable pub rcpt : Store → Text → Smtp → Text → Smtp × Answer
unfolding lower trim split_addr equal_fold
rcpt s domain ss to =
    if not ss.authenticated
    then (ss, auth_required)
    else if equal_fold (split_addr (plain to)).1 domain
    then with_account s ss (plain to) (get_account_by_address s (plain to))
    else add_rcpt ss (record { address = plain to; is_local = false; account = 0; folder = 0 })
