-- ===== src/Pop3d/Access.antt =====
-- Who may do what in a POP3 session: only QUIT changes the store, commands on the maildrop need a
-- login, and only PASS gives one.
use cloudpost.Prelude.{
  Bool, Bool-cases, List, Option, false, inl, inr, is_nil, none, refl, some, sym, true, ◌∙◌, ◌≡◌,
  ◌⊎◌,
}
use cloudpost.Text.{Text}
use cloudpost.Mailstore.Accounts.{verify_local_login}
use cloudpost.Mailstore.Login.{IsLogin, verify_local_login-IsLogin}
use cloudpost.Mailstore.Schema.{Account, External, Result, Store, err, ok}
use cloudpost.Pop3d.Commands.{
  Verb, capa, dele, dispatch, list_verb, logged_in, noop, opened, pass, pass_command, quit,
  quit_command, retr, rset, run_verb, stat, top, uidl, unknown, user, verb_of,
}
use cloudpost.Pop3d.Quiet.{Quiet, run_verb-Quiet}
use cloudpost.Pop3d.Session.{
  PopConn, PopMsg, Reply, load_mailbox, not_authenticated, require_auth, say,
}
use cloudpost.Pop3d.Wire.{split_cmd}

abbrev pub verb_in : Text → Verb
verb_in line = verb_of (split_cmd line).0

abbrev pub needs_login : Verb → Bool
needs_login stat = true
needs_login list_verb = true
needs_login uidl = true
needs_login retr = true
needs_login top = true
needs_login dele = true
needs_login _ = false

require_auth-none :
    (s : Store) (c : PopConn) (command : Account → Reply)
    → c.account ≡ none
    → require_auth s c c.account command ≡ say s c not_authenticated
unfolding require_auth
require_auth-none s c command e = rw e refl

run_verb_refused :
    (ext : External) (s : Store) (c : PopConn) (arg : Text) (v : Verb)
    → c.account ≡ none
    → needs_login v ≡ true
    → run_verb ext s c arg v ≡ say s c not_authenticated
unfolding run_verb
run_verb_refused ext s c arg stat e h = require_auth-none s c _ e
run_verb_refused ext s c arg list_verb e h = require_auth-none s c _ e
run_verb_refused ext s c arg uidl e h = require_auth-none s c _ e
run_verb_refused ext s c arg retr e h = require_auth-none s c _ e
run_verb_refused ext s c arg top e h = require_auth-none s c _ e
run_verb_refused ext s c arg dele e h = require_auth-none s c _ e
run_verb_refused ext s c arg capa e h = cc
run_verb_refused ext s c arg user e h = cc
run_verb_refused ext s c arg pass e h = cc
run_verb_refused ext s c arg rset e h = cc
run_verb_refused ext s c arg noop e h = cc
run_verb_refused ext s c arg quit e h = cc
run_verb_refused ext s c arg unknown e h = cc

-- Without a login the commands STAT, LIST, UIDL, RETR, TOP and DELE are refused, and neither the
-- connection nor the store changes.
dispatch_refused :
    (ext : External) (s : Store) (c : PopConn) (line : Text)
    → c.account ≡ none
    → needs_login (verb_in line) ≡ true
    → dispatch ext s c line ≡ say s c not_authenticated
unfolding dispatch
dispatch_refused ext s c line e h = run_verb_refused ext s c (split_cmd line).1 _ e h

opened-store :
    (s : Store) (c : PopConn) (r : Result (List PopMsg))
    → ((opened s c r).store ≡ s) × ((opened s c r).goes_on ≡ true)
unfolding opened
opened-store s c (ok msgs) = (refl, refl)
opened-store s c (err e) = (refl, refl)

logged_in-store :
    (s : Store) (c : PopConn) (o : Option Account)
    → ((logged_in s c o).store ≡ s) × ((logged_in s c o).goes_on ≡ true)
unfolding logged_in
logged_in-store s c none = (refl, refl)
logged_in-store s c (some a) = opened-store s _ (load_mailbox s a)

pass_command-store :
    (ext : External) (s : Store) (c : PopConn) (arg : Text)
    → ((pass_command ext s c arg).store ≡ s) × ((pass_command ext s c arg).goes_on ≡ true)
unfolding pass_command
pass_command-store ext s c arg = elim (Bool-cases (is_nil c.last_user)) [
  | inl e ↦ rw e (refl, refl)
  | inr e ↦ rw e (logged_in-store s c (verify_local_login ext s c.last_user arg))
]

abbrev StaysOpen : Store → Reply → Type 0
StaysOpen s r = (r.store ≡ s) × (r.goes_on ≡ true)

of_Quiet : {s : Store} {c : PopConn} {r : Reply} → Quiet s c r → StaysOpen s r
of_Quiet q = (q.store_same, q.open_still)

run_verb-store :
    (ext : External) (s : Store) (c : PopConn) (arg : Text) (v : Verb)
    → ((v ≡ quit) × ((run_verb ext s c arg v).goes_on ≡ false))
      ⊎ StaysOpen s (run_verb ext s c arg v)
run_verb-store ext s c arg user = unfold run_verb in inr (refl, refl)
run_verb-store ext s c arg pass = unfold run_verb in inr (pass_command-store ext s c arg)
run_verb-store ext s c arg quit = unfold run_verb in unfold quit_command in inl (refl, refl)
run_verb-store ext s c arg capa = inr (of_Quiet (run_verb-Quiet ext s c arg capa refl))
run_verb-store ext s c arg stat = inr (of_Quiet (run_verb-Quiet ext s c arg stat refl))
run_verb-store ext s c arg list_verb = inr (of_Quiet (run_verb-Quiet ext s c arg list_verb refl))
run_verb-store ext s c arg uidl = inr (of_Quiet (run_verb-Quiet ext s c arg uidl refl))
run_verb-store ext s c arg retr = inr (of_Quiet (run_verb-Quiet ext s c arg retr refl))
run_verb-store ext s c arg top = inr (of_Quiet (run_verb-Quiet ext s c arg top refl))
run_verb-store ext s c arg dele = inr (of_Quiet (run_verb-Quiet ext s c arg dele refl))
run_verb-store ext s c arg rset = inr (of_Quiet (run_verb-Quiet ext s c arg rset refl))
run_verb-store ext s c arg noop = inr (of_Quiet (run_verb-Quiet ext s c arg noop refl))
run_verb-store ext s c arg unknown = inr (of_Quiet (run_verb-Quiet ext s c arg unknown refl))

-- A line either is QUIT, and ends the session, or it leaves the store as it is and the session open.
dispatch-store :
    (ext : External) (s : Store) (c : PopConn) (line : Text)
    → let r = dispatch ext s c line in
      ((verb_in line ≡ quit) × (r.goes_on ≡ false)) ⊎ ((r.store ≡ s) × (r.goes_on ≡ true))
unfolding dispatch
dispatch-store ext s c line = run_verb-store ext s c (split_cmd line).1 (verb_in line)

opened-account :
    (s : Store) (c : PopConn) (r : Result (List PopMsg)) → (opened s c r).conn.account ≡ c.account
unfolding opened
opened-account s c (ok msgs) = refl
opened-account s c (err e) = refl

logged_in-account :
    (s : Store) (c : PopConn) (o : Option Account) (a : Account)
    → c.account ≡ none
    → (logged_in s c o).conn.account ≡ some a
    → o ≡ some a
unfolding logged_in
logged_in-account s c none a e h = sym e ∙ h
logged_in-account s c (some b) a e h = sym (opened-account s _ (load_mailbox s b)) ∙ h

pass_command-account :
    (ext : External) (s : Store) (c : PopConn) (arg : Text) (a : Account)
    → c.account ≡ none
    → (pass_command ext s c arg).conn.account ≡ some a
    → verify_local_login ext s c.last_user arg ≡ some a
unfolding pass_command
pass_command-account ext s c arg a e h = elim (Bool-cases (is_nil c.last_user)) [
  | inl nil ↦ absurd (no_account (sym e ∙ (rw (nil, pass_command) at h)))
  | inr given ↦ logged_in-account s c _ a e (rw (given, pass_command) at h)
]
  where
    no_account : ◌≡◌ {A = Option Account} none (some a) → ⊥
    no_account q = cc

clash : (a : Account) → ◌≡◌ {A = Option Account} none (some a) → ⊥
clash a q = cc

no_login :
    {G : Type 0} {s : Store} {r : Reply} (c : PopConn) (a : Account)
    → c.account ≡ none
    → Quiet s c r
    → r.conn.account ≡ some a
    → G
no_login c a e q h = absurd (clash a (sym e ∙ (sym q.account_same ∙ h)))

run_verb-account :
    (ext : External) (s : Store) (c : PopConn) (arg : Text) (v : Verb) (a : Account)
    → c.account ≡ none
    → (run_verb ext s c arg v).conn.account ≡ some a
    → (v ≡ pass) × (verify_local_login ext s c.last_user arg ≡ some a)
run_verb-account ext s c arg pass a e h =
    (refl, pass_command-account ext s c arg a e (unfold run_verb in h))
run_verb-account ext s c arg capa a e h = no_login c a e (run_verb-Quiet ext s c arg capa refl) h
run_verb-account ext s c arg stat a e h = no_login c a e (run_verb-Quiet ext s c arg stat refl) h
run_verb-account ext s c arg list_verb a e h =
    no_login c a e (run_verb-Quiet ext s c arg list_verb refl) h
run_verb-account ext s c arg uidl a e h = no_login c a e (run_verb-Quiet ext s c arg uidl refl) h
run_verb-account ext s c arg retr a e h = no_login c a e (run_verb-Quiet ext s c arg retr refl) h
run_verb-account ext s c arg top a e h = no_login c a e (run_verb-Quiet ext s c arg top refl) h
run_verb-account ext s c arg dele a e h = no_login c a e (run_verb-Quiet ext s c arg dele refl) h
run_verb-account ext s c arg rset a e h = no_login c a e (run_verb-Quiet ext s c arg rset refl) h
run_verb-account ext s c arg noop a e h = no_login c a e (run_verb-Quiet ext s c arg noop refl) h
run_verb-account ext s c arg unknown a e h =
    no_login c a e (run_verb-Quiet ext s c arg unknown refl) h
run_verb-account ext s c arg user a e h = absurd (clash a (unfold run_verb in h))
run_verb-account ext s c arg quit a e h =
    absurd (clash a (sym e ∙ (unfold run_verb in unfold quit_command in h)))

-- A session without an account gets one only by a PASS, and it is the local account whose address
-- the last USER gave, in any case of letters and with blanks around; it has a password hash, and the
-- password given matches it.
pub dispatch-account :
    (ext : External) (s : Store) (c : PopConn) (line : Text) (a : Account)
    → c.account ≡ none
    → (dispatch ext s c line).conn.account ≡ some a
    → (verb_in line ≡ pass) × IsLogin ext s c.last_user (split_cmd line).1 a
dispatch-account ext s c line a e h =
    let (by_pass, login) =
      run_verb-account ext s c (split_cmd line).1 (verb_in line) a e (unfold dispatch in h) in
    (by_pass, verify_local_login-IsLogin ext s c.last_user (split_cmd line).1 a login)
