-- ===== src/Web/Sessions.antt =====
-- The webmail sessions of internal/web/web.go against a table from tokens to accounts. The code
-- keeps a list from which an expired session is dropped when its token is next used; the table
-- forgets the order, the repetitions and the expired entries.
pub mod Refines
use cloudpost.Prelude.{
  List, Option, [], find_first, if◌then◌else◌, ltb, none, some, ℕ, ◌+◌, ◌==◌, ◌∷◌, ◌≡◌,
}
use cloudpost.Mailstore.Accounts.{get_account}
use cloudpost.Mailstore.Schema.{Account, Store, err, ok}
use cloudpost.Web.Auth.{by_session, handle_mail_logout, session_is, start_mail_session, week}
use cloudpost.Web.Http.{MailSession, Request, Site}

-- What a client does with a token, and the passing of time.
pub data Visit : Type 0 where
  enter : Account → Visit
  leave : Request → Visit
  look : ℕ → Visit
  wait : ℕ → Visit

pub data Answer : Type 0 where
  opened : ℕ → Answer
  closed waited : Answer
  found : Option Account → Answer

-- The handlers behind the visits.
unfoldable pub visit : Site → Visit → Site × Answer
unfolding start_mail_session handle_mail_logout by_session
visit w (enter a) = ((start_mail_session w a).0, opened w.next_mail_token)
visit w (leave r) = ((handle_mail_logout w r).0, closed)
visit w (look t) = let r = by_session w (some t) in (r.0, found r.1)
visit w (wait n) = (record w { state = record w.state { clock = w.state.clock + n } }, waited)

unfoldable pub answers : Site → List Visit → List Answer
unfolding visit
answers w [] = []
answers w (v ∷ vs) = let r = visit w v in r.1 ∷ answers r.0 vs

-- The abstract table: the account and the last second of each token, the next token, the clock.
pub record Table : Type 0 where
  pub entry : ℕ → Option (ℕ × ℕ)
  pub fresh : ℕ
  pub now : ℕ

-- An entry counts until its last second.
unfoldable pub good : ℕ → Option (ℕ × ℕ) → Option (ℕ × ℕ)
good now none = none
good now (some (acc, exp)) = if ltb exp now then none else some (acc, exp)

abbrev pub with_entry : ℕ → Option (ℕ × ℕ) → (ℕ → Option (ℕ × ℕ)) → ℕ → Option (ℕ × ℕ)
with_entry t e f u = if t == u then e else f u

abbrev pub owner_of : Store → Option (ℕ × ℕ) → Option Account
owner_of s none = none
owner_of s (some (acc, exp)) = elim (get_account s acc) [ ok a ↦ some a | err e ↦ none ]

abbrev pub left_table : Table → Option ℕ → Table
left_table t none = t
left_table t (some c) = record t { entry = with_entry c none t.entry }

-- What each visit does to the table.
unfoldable pub table_step : Store → Table → Visit → Table × Answer
unfolding good get_account
table_step s t (enter a) = (
  record t { entry = with_entry t.fresh (some (a.id, t.now + week)) t.entry; fresh = t.fresh + 1 },
  opened t.fresh,
)
table_step s t (leave r) = (left_table t r.mail_cookie, closed)
table_step s t (look c) = (t, found (owner_of s (good t.now (t.entry c))))
table_step s t (wait n) = (record t { now = t.now + n }, waited)

unfoldable pub table_answers : Store → Table → List Visit → List Answer
unfolding table_step
table_answers s t [] = []
table_answers s t (v ∷ vs) = let r = table_step s t v in r.1 ∷ table_answers s r.0 vs

abbrev pub view : Option MailSession → Option (ℕ × ℕ)
view none = none
view (some x) = some (x.acc_id, x.exp)

-- The list and the table show the same good entries.
pub record Agrees (w : Site) (t : Table) : Type 0 where
  pub clocks : w.state.clock ≡ t.now
  pub tokens : w.next_mail_token ≡ t.fresh
  pub entries :
      (c : ℕ)
      → good t.now (view (find_first (session_is c) w.mail_sessions)) ≡ good t.now (t.entry c)
