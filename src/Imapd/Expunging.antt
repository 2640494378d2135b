-- ===== src/Imapd/Expunging.antt =====
-- Which messages EXPUNGE and UID EXPUNGE remove.
use cloudpost.Prelude.{
  Bool, Bool-cases, List, Option, [], any, ap, arith, false, inl, inr, is_nil, keep, map, not, refl,
  some, true, ℕ, ◌&&◌, ◌==◌, ◌||◌, ◌∙◌, ◌∷◌, ◌≡◌, ◌⊎◌,
}
use cloudpost.Text.{equal_fold}
use cloudpost.Imapd.Messages.{among, doomed, expunge, row_id}
use cloudpost.Imapd.Session.{ImapSession, SelMsg, SelState, has_flag, uid_of}
use cloudpost.Mailstore.Flags.{add, deleted_flag, like}
use cloudpost.Mailstore.Invariant.{IsWellFormed}
use cloudpost.Mailstore.Invariant.Moves.{expunge_folder-rows}
use cloudpost.Mailstore.Invariant.Rows.{set_flags-IsWellFormed}
use cloudpost.Mailstore.Marking.{ids_of, left, left-set_each, left_congr, left_plain}
use cloudpost.Mailstore.Messages.{expunge_folder, row_is, set_each, set_flags}
use cloudpost.Mailstore.Schema.{Account, Message, Store}

-- The session knows the message as \Deleted, and its UID is among those of the command, if that
-- names some.
abbrev pub goes : Option (List ℕ) → SelMsg → Bool
goes uids m = any (λ f. equal_fold f deleted_flag) m.flag_list && among uids (uid_of m)

-- The session takes the row for one that goes.
abbrev pub is_taken : ℕ → Option (List ℕ) → List SelMsg → Message → Bool
is_taken account uids msgs n = any (λ m. goes uids m && row_is account (row_id m) n) msgs

any-taken :
    (account : ℕ) (p : SelMsg → Bool) (n : Message) (msgs : List SelMsg)
    → any (λ id. row_is account id n) (map row_id (keep p msgs))
      ≡ any (λ m. p m && row_is account (row_id m) n) msgs
any-taken account p n [] = refl
any-taken account p n (m ∷ msgs) = ground (arith, any-taken account p n msgs)

is_nil-going :
    (p : SelMsg → Bool) (msgs : List SelMsg) → is_nil (map row_id (keep p msgs)) ≡ not (any p msgs)
is_nil-going p [] = refl
is_nil-going p (m ∷ msgs) = ground (arith, is_nil-going p msgs)

set_flags_some :
    (s : Store) (account : ℕ) (ids : List ℕ)
    → is_nil ids ≡ false
    → set_flags s account ids add (deleted_flag ∷ [])
      ≡ set_each s account ids add (deleted_flag ∷ [])
unfolding set_flags
set_flags_some s account [] h = cc
set_flags_some s account (id ∷ ids) h = refl

expunged_rows :
    {low : ℕ → ℕ} (s : Store) (account folder : ℕ) (uids : Option (List ℕ)) (msgs : List SelMsg)
    → IsWellFormed low s
    → any (goes uids) msgs ≡ true
    → ids_of
        (expunge_folder
          (set_flags s account (map row_id (keep (goes uids) msgs)) add (deleted_flag ∷ []))
          folder).0.messages
      ≡ left folder (is_taken account uids msgs) s.messages
expunged_rows s account folder uids msgs w some_go =
    let ids = map row_id (keep (goes uids) msgs) in
    let flagged = set_flags s account ids add (deleted_flag ∷ []) in
    ap ids_of (
      expunge_folder-rows flagged folder
        (set_flags-IsWellFormed s account ids add (deleted_flag ∷ []) w))
    ∙ (left_plain folder flagged.messages
        ∙ (ap (λ (t : Store). left folder (λ _. false) t.messages)
              (set_flags_some s account ids (is_nil-going (goes uids) msgs ∙ ap not some_go))
            ∙ (left-set_each folder account (λ _. false) ids s (λ n col. refl)
                ∙ left_congr folder _ _ s.messages
                    (λ n. ground (arith, any-taken account (goes uids) n msgs)))))

-- EXPUNGE, and UID EXPUNGE with its UIDs, of a session that has logged in and selected a mailbox,
-- in a well-formed store. When the session knows of no message that carries \Deleted and, for a
-- set of UIDs, is in it, nothing changes and nothing is reported. When it knows one, the messages
-- left are, in their order, those that are not in the selected folder and those there that neither
-- carry \Deleted nor are taken for one that goes: so with a set of UIDs those outside it that carry
-- the flag go too.
pub expunge-messages :
    {low : ℕ → ℕ} (s : Store) (ses : ImapSession) (uids : Option (List ℕ)) (a : Account)
    (sel : SelState)
    → IsWellFormed low s
    → ses.account ≡ some a
    → ses.sel ≡ some sel
    → let r = expunge s ses uids in
      ((any (goes uids) sel.msgs ≡ false) × (r ≡ ((s, ses), inr [])))
      ⊎ ((any (goes uids) sel.msgs ≡ true)
          × (ids_of r.0.0.messages
              ≡ ids_of (
                  keep
                    (λ n. not (
                      n.folder_id == sel.folder.id
                      && (like deleted_flag n.flags || is_taken a.id uids sel.msgs n)))
                    s.messages)))
unfolding expunge doomed has_flag
expunge-messages s ses uids a sel w ea es = elim (Bool-cases (any (goes uids) sel.msgs)) [
  | inl e ↦ inr (
    e,
    rw (ea, es, empty false (ap not e)) (expunged_rows s a.id sel.folder.id uids sel.msgs w e),
  )
  | inr e ↦ inl (e, rw (ea, es, empty true (ap not e)) refl)
]
  where
    empty :
        (b : Bool)
        → not (any (goes uids) sel.msgs) ≡ b
        → is_nil (map row_id (keep (goes uids) sel.msgs)) ≡ b
    empty b h = is_nil-going (goes uids) sel.msgs ∙ h
