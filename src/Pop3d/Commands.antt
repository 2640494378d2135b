-- ===== src/Pop3d/Commands.antt =====
-- The commands of `dispatch` in internal/pop3d/pop3.go, and the loop of serveConn over the lines
-- that the client sends.
use cloudpost.Prelude.{
  List, Option, [], false, get_elem?, if◌then◌else◌, is_nil, length, none, some, suc, true, ℕ, ◌++◌,
  ◌-◌, ◌∷◌,
}
use cloudpost.Text.{Text, atoi, codes, decimal, eqb, fields, pos, trim_space, upper, ℤ}
use cloudpost.Mailstore.Accounts.{verify_local_login}
use cloudpost.Mailstore.Flags.{add, deleted_flag}
use cloudpost.Mailstore.Folders.{folder_by_name, inbox_name}
use cloudpost.Mailstore.Messages.{expunge_folder, set_flags}
use cloudpost.Mailstore.Schema.{Account, External, Listed, Result, Store, err, ok}
use cloudpost.Pop3d.Session.{
  PopConn, PopMsg, Reply, count_kept, delete_at, fetch_raw, load_mailbox, new_conn, no_such_message,
  octets_kept, parse_idx, require_auth, say, say_block, undelete_all,
}
use cloudpost.Pop3d.Wire.{split_cmd, write_data, write_line, write_top}

pub data Verb : Type 0 where
  capa user pass stat list_verb uidl retr top dele rset noop quit unknown : Verb

unfoldable pub verb_of : Text → Verb
unfolding eqb upper
verb_of cmd =
    let word = upper cmd in
    if eqb word (codes "CAPA")
    then capa
    else if eqb word (codes "USER")
    then user
    else if eqb word (codes "PASS")
    then pass
    else if eqb word (codes "STAT")
    then stat
    else if eqb word (codes "LIST")
    then list_verb
    else if eqb word (codes "UIDL")
    then uidl
    else if eqb word (codes "RETR")
    then retr
    else if eqb word (codes "TOP")
    then top
    else if eqb word (codes "DELE")
    then dele
    else if eqb word (codes "RSET")
    then rset
    else if eqb word (codes "NOOP")
    then noop
    else if eqb word (codes "QUIT")
    then quit
    else unknown

abbrev pub pair_line : Text → ℕ → ℕ → Text
pair_line start n k = start ++ (decimal n ++ (codes " " ++ decimal k))

-- A line for each message not deleted, with its number, and the dot.
abbrev pub listing : (PopMsg → ℕ) → ℕ → List PopMsg → Text
listing f n [] = write_line (codes ".")
listing f n (m ∷ ms) =
    let rest = listing f (suc n) ms in
    if m.deleted then rest else write_line (pair_line [] n (f m)) ++ rest

abbrev pub capabilities : Text
capabilities =
    write_line (codes "USER")
    ++ (write_line (codes "TOP")
        ++ (write_line (codes "UIDL")
            ++ (write_line (codes "PIPELINING")
                ++ (write_line (codes "IMPLEMENTATION cloudpost") ++ write_line (codes ".")))))

-- On what loadMailbox returned: after an error the messages of before stay.
unfoldable pub opened : Store → PopConn → Result (List PopMsg) → Reply
opened s c (err e) = say s c (codes "-ERR mailbox load failed")
opened s c (ok msgs) =
    say s (record c { msgs = msgs })
      (codes "+OK mailbox open, " ++ (decimal (length msgs) ++ codes " messages"))

-- On what VerifyLocalLogin returned.
unfoldable pub logged_in : Store → PopConn → Option Account → Reply
unfolding opened
logged_in s c none = say s c (codes "-ERR [AUTH] invalid credentials")
logged_in s c (some a) = opened s (record c { account = some a }) (load_mailbox s a)

unfoldable pub pass_command : External → Store → PopConn → Text → Reply
unfolding logged_in
pass_command ext s c arg =
    if is_nil c.last_user
    then say s c (codes "-ERR USER required before PASS")
    else logged_in s c (verify_local_login ext s c.last_user arg)

abbrev pub size_at : Option PopMsg → ℕ
size_at none = 0
size_at (some m) = m.size

abbrev pub uid_at : Option PopMsg → ℕ
uid_at none = 0
uid_at (some m) = m.uid

-- LIST and UIDL with a number.
abbrev pub one_line : Store → PopConn → (Option PopMsg → ℕ) → Option ℕ → Reply
one_line s c f none = say s c no_such_message
one_line s c f (some idx) = say s c (pair_line (codes "+OK ") idx (f (get_elem? c.msgs (idx - 1))))

unfoldable pub list_command : Store → PopConn → Text → Reply
list_command s c arg =
    if is_nil arg
    then say_block s c
        (codes "+OK "
          ++ (decimal (count_kept c.msgs)
              ++ (codes " messages (" ++ (decimal (octets_kept c.msgs) ++ codes " octets)"))))
        (listing (λ m. m.size) 1 c.msgs)
    else one_line s c size_at (parse_idx c.msgs arg)

unfoldable pub uidl_command : Store → PopConn → Text → Reply
uidl_command s c arg =
    if is_nil arg
    then say_block s c (codes "+OK unique-id listing follows") (listing (λ m. m.uid) 1 c.msgs)
    else one_line s c uid_at (parse_idx c.msgs arg)

abbrev pub send_raw : Store → PopConn → (Text → Text × Text) → Result Text → Reply
send_raw s c shape (err e) = say s c (codes "-ERR read failed")
send_raw s c shape (ok raw) = let p = shape raw in say_block s c p.0 p.1

abbrev pub retr_at : Store → PopConn → Account → Option ℕ → Reply
retr_at s c a none = say s c no_such_message
retr_at s c a (some idx) =
    send_raw s c
      (λ raw. (codes "+OK " ++ (decimal (length raw) ++ codes " octets"), write_data raw))
      (fetch_raw s a (get_elem? c.msgs (idx - 1)))

unfoldable pub retr_command : Store → PopConn → Text → Account → Reply
retr_command s c arg a = retr_at s c a (parse_idx c.msgs arg)

abbrev pub top_at : Store → PopConn → Account → Option ℕ → Option ℤ → Reply
top_at s c a none count = say s c no_such_message
top_at s c a (some idx) (some (pos k)) =
    send_raw s c (λ raw. (codes "+OK top of message follows", write_top raw k))
      (fetch_raw s a (get_elem? c.msgs (idx - 1)))
top_at s c a (some idx) _ = say s c (codes "-ERR bad line count")

abbrev pub top_with : Store → PopConn → Account → List Text → Reply
top_with s c a (idx ∷ count ∷ []) = top_at s c a (parse_idx c.msgs idx) (atoi count)
top_with s c a _ = say s c (codes "-ERR TOP requires two arguments")

unfoldable pub top_command : Store → PopConn → Text → Account → Reply
top_command s c arg a = top_with s c a (fields arg)

abbrev pub dele_at : Store → PopConn → Option ℕ → Reply
dele_at s c none = say s c no_such_message
dele_at s c (some idx) =
    say s (record c { msgs = delete_at (idx - 1) c.msgs; deleted_any = true })
      (codes "+OK message " ++ (decimal idx ++ codes " deleted"))

unfoldable pub dele_command : Store → PopConn → Text → Account → Reply
dele_command s c arg a = dele_at s c (parse_idx c.msgs arg)

-- QUIT flags the deleted messages one by one and expunges INBOX.
unfoldable pub flag_each : Store → ℕ → List PopMsg → Store
flag_each s account [] = s
flag_each s account (m ∷ ms) =
    flag_each (if m.deleted then set_flags s account (m.id ∷ []) add (deleted_flag ∷ []) else s)
      account ms

abbrev pub purge : Store → ℕ → List PopMsg → Result Listed → Store
purge s account msgs (err e) = s
purge s account msgs (ok f) = (expunge_folder (flag_each s account msgs) f.id).0

abbrev pub quit_store : Store → PopConn → Option Account → Store
quit_store s c none = s
quit_store s c (some a) =
    if c.deleted_any then purge s a.id c.msgs (folder_by_name s a.id inbox_name) else s

unfoldable pub quit_command : Store → PopConn → Reply
quit_command s c = record {
  conn = c;
  store = quit_store s c c.account;
  out = write_line (codes "+OK cloudpost POP3 signing off");
  goes_on = false;
}

unfoldable pub run_verb : External → Store → PopConn → Text → Verb → Reply
unfolding require_auth
run_verb ext s c arg capa = say_block s c (codes "+OK Capability list follows") capabilities
run_verb ext s c arg user =
    say s (record c { account = none; last_user = trim_space arg }) (codes "+OK send PASS")
run_verb ext s c arg pass = pass_command ext s c arg
run_verb ext s c arg stat =
    require_auth s c c.account
      (λ a. say s c (pair_line (codes "+OK ") (count_kept c.msgs) (octets_kept c.msgs)))
run_verb ext s c arg list_verb = require_auth s c c.account (λ a. list_command s c arg)
run_verb ext s c arg uidl = require_auth s c c.account (λ a. uidl_command s c arg)
run_verb ext s c arg retr = require_auth s c c.account (retr_command s c arg)
run_verb ext s c arg top = require_auth s c c.account (top_command s c arg)
run_verb ext s c arg dele = require_auth s c c.account (dele_command s c arg)
run_verb ext s c arg rset =
    say s (record c { msgs = undelete_all c.msgs; deleted_any = false }) (codes "+OK")
run_verb ext s c arg noop = say s c (codes "+OK")
run_verb ext s c arg quit = quit_command s c
run_verb ext s c arg unknown = say s c (codes "-ERR unknown command")

unfoldable pub dispatch : External → Store → PopConn → Text → Reply
unfolding run_verb split_cmd
dispatch ext s c line = let parts = split_cmd line in run_verb ext s c parts.1 (verb_of parts.0)

abbrev greeting : Text
greeting = write_line (codes "+OK cloudpost POP3 service ready")

-- The loop of serveConn over the lines that come in.
unfoldable pub serve_lines : External → Store → PopConn → List Text → Store × Text
serve_lines ext s c [] = (s, [])
serve_lines ext s c (line ∷ lines) =
    let r = dispatch ext s c line in
    let rest = serve_lines ext r.store r.conn lines in
    if r.goes_on then (rest.0, r.out ++ rest.1) else (r.store, r.out)

unfoldable pub serve_conn : External → Store → List Text → Store × Text
unfolding serve_lines
serve_conn ext s lines =
    let session = serve_lines ext s new_conn lines in (session.0, greeting ++ session.1)
