-- ===== src/Pop3d/Maildrop.antt =====
-- The maildrop of a POP3 session: its numbering, its marks, and which messages it shows.
use cloudpost.Prelude.{
  Bool-cases, List, Option, [], any, ap, arith, false, inl, inr, is_nil, keep, map, none, not, refl,
  some, sort_by, take, true, ℕ, ◌%◌, ◌&&◌, ◌==◌, ◌^◌, ◌∙◌, ◌∷◌, ◌≡◌, ◌≢◌,
}
use cloudpost.Text.{Text}
use cloudpost.Mailstore.Accounts.{verify_local_login}
use cloudpost.Mailstore.Flags.{deleted_flag, like}
use cloudpost.Mailstore.Folders.{folder_by_name, inbox_name}
use cloudpost.Mailstore.Messages.{list_messages, newer, visible}
use cloudpost.Mailstore.Schema.{Account, External, Listed, Message, Result, Store, err, ok}
use cloudpost.Pop3d.Access.{verb_in}
use cloudpost.Pop3d.Commands.{
  Verb, capa, dele, dispatch, list_verb, logged_in, noop, opened, pass, pass_command, quit,
  quit_command, retr, rset, run_verb, stat, top, uidl, unknown, user,
}
use cloudpost.Pop3d.Quiet.{facts, is_honest, run_verb-Quiet}
use cloudpost.Pop3d.Session.{PopConn, PopMsg, load_mailbox, page_of, pop_msg}
use cloudpost.Pop3d.Wire.{split_cmd}

fresh_marks : (ms : List Message) → any (λ m. m.deleted) (map pop_msg ms) ≡ false
fresh_marks [] = refl
fresh_marks (m ∷ ms) = fresh_marks ms

page_of_ok :
    (s : Store) (r : Result Listed) (msgs : List PopMsg)
    → page_of s r ≡ ok msgs
    → (f : Listed) × (r ≡ ok f) × (msgs ≡ map pop_msg (list_messages s f.id 0 10000 false).0)
unfolding page_of
page_of_ok s (err e) msgs h = cc
page_of_ok s (ok f) msgs h = (f, refl, cc)

-- The page of INBOX that a login opens.
pub load_mailbox_page :
    (s : Store) (a : Account) (msgs : List PopMsg)
    → load_mailbox s a ≡ ok msgs
    → (f : Listed) × (folder_by_name s a.id inbox_name ≡ ok f)
      × (msgs ≡ map pop_msg (list_messages s f.id 0 10000 false).0)
unfolding load_mailbox
load_mailbox_page s a msgs h = page_of_ok s (folder_by_name s a.id inbox_name) msgs h

-- What a session knows of a message: its row, its UID and its size.
abbrev pub known : PopMsg → ℕ × (ℕ × ℕ)
known m = (m.id, (m.uid, m.size))

known-map_pop :
    (ms : List Message)
    → map known (map pop_msg ms) ≡ map (λ m. (m.id, (m.uid % 2 ^ 32, m.size))) ms
known-map_pop [] = refl
known-map_pop (m ∷ ms) = ap (◌∷◌ (m.id, (m.uid % 2 ^ 32, m.size))) (known-map_pop ms)

-- A maildrop holds the 50 newest messages of INBOX that are not flagged \Deleted, or all when they
-- are fewer, although loadMailbox asks for 10000: each with its row's id, its UID as a 32-bit number
-- and its size, and without a mark.
pub load_mailbox_lem :
    (s : Store) (a : Account) (msgs : List PopMsg)
    → load_mailbox s a ≡ ok msgs
    → (f : Listed) × (folder_by_name s a.id inbox_name ≡ ok f)
      × (map known msgs
          ≡ map
              (λ m. (m.id, (m.uid % 2 ^ 32, m.size)))
              (take 50 (
                sort_by newer
                  (keep (λ m. m.folder_id == f.id && not (like deleted_flag m.flags)) s.messages))))
      × (any (λ m. m.deleted) msgs ≡ false)
load_mailbox_lem s a msgs h =
    let (f, found, page) = load_mailbox_page s a msgs h in
    let ms = (list_messages s f.id 0 10000 false).0 in
    (
      f,
      found,
      ap (map known) page ∙ (known-map_pop ms ∙ unfold list_messages visible in refl),
      ap (any (λ m. m.deleted)) page ∙ fresh_marks ms,
    )

honest_fresh :
    (s : Store) (a : Account) (msgs : List PopMsg)
    → load_mailbox s a ≡ ok msgs
    → any (λ m. m.deleted) msgs ≡ false
honest_fresh s a msgs h =
    let (f, found, page) = load_mailbox_page s a msgs h in
    ap (any (λ m. m.deleted)) page ∙ fresh_marks (list_messages s f.id 0 10000 false).0

opened-honest :
    (s : Store) (c : PopConn) (a : Account) (r : Result (List PopMsg))
    → load_mailbox s a ≡ r
    → is_honest c ≡ true
    → is_honest (opened s c r).conn ≡ true
unfolding opened
opened-honest s c a (err e) h k = k
opened-honest s c a (ok msgs) h k = ground (arith, honest_fresh s a msgs h)

logged_in-honest :
    (s : Store) (c : PopConn) (o : Option Account)
    → is_honest c ≡ true
    → is_honest (logged_in s c o).conn ≡ true
unfolding logged_in
logged_in-honest s c none k = k
logged_in-honest s c (some a) k =
    opened-honest s (record c { account = some a }) a (load_mailbox s a) refl k

pass_command-honest :
    (ext : External) (s : Store) (c : PopConn) (arg : Text)
    → is_honest c ≡ true
    → is_honest (pass_command ext s c arg).conn ≡ true
unfolding pass_command
pass_command-honest ext s c arg k = elim (Bool-cases (is_nil c.last_user)) [
  | inl e ↦ rw e k
  | inr e ↦ rw e (logged_in-honest s c (verify_local_login ext s c.last_user arg) k)
]

run_verb-honest :
    (ext : External) (s : Store) (c : PopConn) (arg : Text) (v : Verb)
    → is_honest c ≡ true
    → is_honest (run_verb ext s c arg v).conn ≡ true
run_verb-honest ext s c arg user k = unfold run_verb in k
run_verb-honest ext s c arg pass k = unfold run_verb in pass_command-honest ext s c arg k
run_verb-honest ext s c arg quit k = unfold run_verb in unfold quit_command in k
run_verb-honest ext s c arg capa k = (run_verb-Quiet ext s c arg capa refl).honest k
run_verb-honest ext s c arg stat k = (run_verb-Quiet ext s c arg stat refl).honest k
run_verb-honest ext s c arg list_verb k = (run_verb-Quiet ext s c arg list_verb refl).honest k
run_verb-honest ext s c arg uidl k = (run_verb-Quiet ext s c arg uidl refl).honest k
run_verb-honest ext s c arg retr k = (run_verb-Quiet ext s c arg retr refl).honest k
run_verb-honest ext s c arg top k = (run_verb-Quiet ext s c arg top refl).honest k
run_verb-honest ext s c arg dele k = (run_verb-Quiet ext s c arg dele refl).honest k
run_verb-honest ext s c arg rset k = (run_verb-Quiet ext s c arg rset refl).honest k
run_verb-honest ext s c arg noop k = (run_verb-Quiet ext s c arg noop refl).honest k
run_verb-honest ext s c arg unknown k = (run_verb-Quiet ext s c arg unknown refl).honest k

run_verb-facts :
    (ext : External) (s : Store) (c : PopConn) (arg : Text) (v : Verb)
    → v ≢ pass
    → facts (run_verb ext s c arg v).conn.msgs ≡ facts c.msgs
run_verb-facts ext s c arg user k = unfold run_verb in refl
run_verb-facts ext s c arg pass k = absurd (k refl)
run_verb-facts ext s c arg quit k = unfold run_verb in unfold quit_command in refl
run_verb-facts ext s c arg capa k = (run_verb-Quiet ext s c arg capa refl).facts_same
run_verb-facts ext s c arg stat k = (run_verb-Quiet ext s c arg stat refl).facts_same
run_verb-facts ext s c arg list_verb k = (run_verb-Quiet ext s c arg list_verb refl).facts_same
run_verb-facts ext s c arg uidl k = (run_verb-Quiet ext s c arg uidl refl).facts_same
run_verb-facts ext s c arg retr k = (run_verb-Quiet ext s c arg retr refl).facts_same
run_verb-facts ext s c arg top k = (run_verb-Quiet ext s c arg top refl).facts_same
run_verb-facts ext s c arg dele k = (run_verb-Quiet ext s c arg dele refl).facts_same
run_verb-facts ext s c arg rset k = (run_verb-Quiet ext s c arg rset refl).facts_same
run_verb-facts ext s c arg noop k = (run_verb-Quiet ext s c arg noop refl).facts_same
run_verb-facts ext s c arg unknown k = (run_verb-Quiet ext s c arg unknown refl).facts_same

-- Every line but PASS leaves the messages of the maildrop, their order, their UIDs and their sizes,
-- so that the numbers that the client was told stay good.
dispatch-facts :
    (ext : External) (s : Store) (c : PopConn) (line : Text)
    → verb_in line ≢ pass
    → facts (dispatch ext s c line).conn.msgs ≡ facts c.msgs
unfolding dispatch
dispatch-facts ext s c line h = run_verb-facts ext s c (split_cmd line).1 (verb_in line) h

-- A session in which no message is marked unless it remembers that one is keeps so with every line:
-- so QUIT, which looks at what the session remembers, misses no mark.
dispatch-honest :
    (ext : External) (s : Store) (c : PopConn) (line : Text)
    → is_honest c ≡ true
    → is_honest (dispatch ext s c line).conn ≡ true
unfolding dispatch
dispatch-honest ext s c line k = run_verb-honest ext s c (split_cmd line).1 (verb_in line) k
