-- ===== src/Pop3d/Quiet.antt =====
-- What the commands of a POP3 session other than USER, PASS and QUIT leave as it is.
use cloudpost.Prelude.{
  Bool, List, Option, [], any, ap, arith, false, get_elem?, none, not, refl, some, suc, true, zero,
  ℕ, ◌-◌, ◌||◌, ◌∷◌, ◌≡◌,
}
use cloudpost.Text.{Text, atoi, fields, negsuc, pos, ℤ}
use cloudpost.Mailstore.Schema.{Account, External, Result, Store, err, ok}
use cloudpost.Pop3d.Commands.{
  Verb, capa, dele, dele_at, dele_command, list_command, list_verb, noop, one_line, pass, quit,
  retr, retr_at, retr_command, rset, run_verb, send_raw, size_at, stat, top, top_at, top_command,
  top_with, uid_at, uidl, uidl_command, unknown, user,
}
use cloudpost.Pop3d.Session.{
  PopConn, PopMsg, Reply, delete_at, fetch_raw, parse_idx, require_auth, say, say_block,
  undelete_all,
}

-- What the client was told of a message.
abbrev pub facts : List PopMsg → List (ℕ × (ℕ × ℕ))
facts [] = []
facts (m ∷ ms) = (m.id, (m.uid, m.size)) ∷ facts ms

-- A message is marked only where the session remembers that one is.
abbrev pub is_honest : PopConn → Bool
is_honest c = not (any (λ m. m.deleted) c.msgs) || c.deleted_any

pub record Quiet (s : Store) (c : PopConn) (r : Reply) : Type 0 where
  pub store_same : r.store ≡ s
  pub open_still : r.goes_on ≡ true
  pub account_same : r.conn.account ≡ c.account
  pub facts_same : facts r.conn.msgs ≡ facts c.msgs
  pub honest : is_honest c ≡ true → is_honest r.conn ≡ true

say-Quiet : (s : Store) (c : PopConn) (line : Text) → Quiet s c (say s c line)
say-Quiet s c line = record {
  store_same = refl;
  open_still = refl;
  account_same = refl;
  facts_same = refl;
  honest = λ h. h;
}

say_block-Quiet :
    (s : Store) (c : PopConn) (line block : Text) → Quiet s c (say_block s c line block)
say_block-Quiet s c line block = record {
  store_same = refl;
  open_still = refl;
  account_same = refl;
  facts_same = refl;
  honest = λ h. h;
}

one_line-Quiet :
    (s : Store) (c : PopConn) (f : Option PopMsg → ℕ) (o : Option ℕ) → Quiet s c (one_line s c f o)
one_line-Quiet s c f none = say-Quiet s c _
one_line-Quiet s c f (some idx) = say-Quiet s c _

send_raw-Quiet :
    (s : Store) (c : PopConn) (shape : Text → Text × Text) (r : Result Text)
    → Quiet s c (send_raw s c shape r)
send_raw-Quiet s c shape (err e) = say-Quiet s c _
send_raw-Quiet s c shape (ok raw) = say_block-Quiet s c _ _

retr_at-Quiet : (s : Store) (c : PopConn) (a : Account) (o : Option ℕ) → Quiet s c (retr_at s c a o)
retr_at-Quiet s c a none = say-Quiet s c _
retr_at-Quiet s c a (some idx) = send_raw-Quiet s c _ (fetch_raw s a (get_elem? c.msgs (idx - 1)))

top_at-Quiet :
    (s : Store) (c : PopConn) (a : Account) (o : Option ℕ) (count : Option ℤ)
    → Quiet s c (top_at s c a o count)
top_at-Quiet s c a none count = say-Quiet s c _
top_at-Quiet s c a (some idx) (some (pos k)) =
    send_raw-Quiet s c _ (fetch_raw s a (get_elem? c.msgs (idx - 1)))
top_at-Quiet s c a (some idx) (some (negsuc k)) = say-Quiet s c _
top_at-Quiet s c a (some idx) none = say-Quiet s c _

top_with-Quiet :
    (s : Store) (c : PopConn) (a : Account) (args : List Text) → Quiet s c (top_with s c a args)
top_with-Quiet s c a [] = say-Quiet s c _
top_with-Quiet s c a (x ∷ []) = say-Quiet s c _
top_with-Quiet s c a (x ∷ y ∷ []) = top_at-Quiet s c a (parse_idx c.msgs x) (atoi y)
top_with-Quiet s c a (x ∷ y ∷ z ∷ args) = say-Quiet s c _

facts-delete_at : (i : ℕ) (ms : List PopMsg) → facts (delete_at i ms) ≡ facts ms
unfolding delete_at
facts-delete_at i [] = refl
facts-delete_at zero (m ∷ ms) = refl
facts-delete_at (suc i) (m ∷ ms) = ap (◌∷◌ (m.id, (m.uid, m.size))) (facts-delete_at i ms)

facts-undelete_all : (ms : List PopMsg) → facts (undelete_all ms) ≡ facts ms
unfolding undelete_all
facts-undelete_all [] = refl
facts-undelete_all (m ∷ ms) = ap (◌∷◌ (m.id, (m.uid, m.size))) (facts-undelete_all ms)

none_deleted : (ms : List PopMsg) → any (λ m. m.deleted) (undelete_all ms) ≡ false
unfolding undelete_all
none_deleted [] = refl
none_deleted (m ∷ ms) = none_deleted ms

dele_at-Quiet : (s : Store) (c : PopConn) (o : Option ℕ) → Quiet s c (dele_at s c o)
dele_at-Quiet s c none = say-Quiet s c _
dele_at-Quiet s c (some idx) = record {
  store_same = refl;
  open_still = refl;
  account_same = refl;
  facts_same = facts-delete_at (idx - 1) c.msgs;
  honest = λ h. ground arith;
}

rset-Quiet :
    (s : Store) (c : PopConn) (line : Text)
    → Quiet s c (say s (record c { msgs = undelete_all c.msgs; deleted_any = false }) line)
rset-Quiet s c line = record {
  store_same = refl;
  open_still = refl;
  account_same = refl;
  facts_same = facts-undelete_all c.msgs;
  honest = λ h. ground (arith, none_deleted c.msgs);
}

require_auth-Quiet :
    (s : Store) (c : PopConn) (o : Option Account) (command : Account → Reply)
    → ((a : Account) → Quiet s c (command a))
    → Quiet s c (require_auth s c o command)
unfolding require_auth
require_auth-Quiet s c none command h = say-Quiet s c _
require_auth-Quiet s c (some a) command h = h a

list_command-Quiet : (s : Store) (c : PopConn) (arg : Text) → Quiet s c (list_command s c arg)
unfolding list_command
list_command-Quiet s c [] = say_block-Quiet s c _ _
list_command-Quiet s c (x ∷ arg) = one_line-Quiet s c size_at (parse_idx c.msgs (x ∷ arg))

uidl_command-Quiet : (s : Store) (c : PopConn) (arg : Text) → Quiet s c (uidl_command s c arg)
unfolding uidl_command
uidl_command-Quiet s c [] = say_block-Quiet s c _ _
uidl_command-Quiet s c (x ∷ arg) = one_line-Quiet s c uid_at (parse_idx c.msgs (x ∷ arg))

-- The commands that say who the user is, or end the session.
abbrev pub changes : Verb → Bool
changes user = true
changes pass = true
changes quit = true
changes _ = false

pub run_verb-Quiet :
    (ext : External) (s : Store) (c : PopConn) (arg : Text) (v : Verb)
    → changes v ≡ false
    → Quiet s c (run_verb ext s c arg v)
unfolding run_verb
run_verb-Quiet ext s c arg capa h = say_block-Quiet s c _ _
run_verb-Quiet ext s c arg user h = cc
run_verb-Quiet ext s c arg pass h = cc
run_verb-Quiet ext s c arg stat h = require_auth-Quiet s c c.account _ (λ a. say-Quiet s c _)
run_verb-Quiet ext s c arg list_verb h =
    require_auth-Quiet s c c.account _ (λ a. list_command-Quiet s c arg)
run_verb-Quiet ext s c arg uidl h =
    require_auth-Quiet s c c.account _ (λ a. uidl_command-Quiet s c arg)
run_verb-Quiet ext s c arg retr h =
    require_auth-Quiet s c c.account _
      (λ a. unfold retr_command in retr_at-Quiet s c a (parse_idx c.msgs arg))
run_verb-Quiet ext s c arg top h =
    require_auth-Quiet s c c.account _
      (λ a. unfold top_command in top_with-Quiet s c a (fields arg))
run_verb-Quiet ext s c arg dele h =
    require_auth-Quiet s c c.account _
      (λ a. unfold dele_command in dele_at-Quiet s c (parse_idx c.msgs arg))
run_verb-Quiet ext s c arg rset h = rset-Quiet s c _
run_verb-Quiet ext s c arg noop h = say-Quiet s c _
run_verb-Quiet ext s c arg quit h = cc
run_verb-Quiet ext s c arg unknown h = say-Quiet s c _
