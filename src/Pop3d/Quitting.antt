-- ===== src/Pop3d/Quitting.antt =====
-- Which messages QUIT removes.
use cloudpost.Prelude.{
  Bool, Bool-cases, List, [], any, ap, arith, false, inl, inr, keep, not, refl, some, true, ℕ, ◌&&◌,
  ◌==◌, ◌||◌, ◌∙◌, ◌∷◌, ◌≡◌,
}
use cloudpost.Text.{Text}
use cloudpost.Mailstore.Flags.{add, deleted_flag, like}
use cloudpost.Mailstore.Folders.{folder_by_name, inbox_name}
use cloudpost.Mailstore.Invariant.{IsWellFormed}
use cloudpost.Mailstore.Invariant.Moves.{expunge_folder-rows}
use cloudpost.Mailstore.Invariant.Rows.{set_flags-IsWellFormed}
use cloudpost.Mailstore.Marking.{ids_of, left, left-set_one, left_congr, left_plain, set_flags_one}
use cloudpost.Mailstore.Messages.{row_is}
use cloudpost.Mailstore.Schema.{Account, Listed, Message, Store, ok}
use cloudpost.Pop3d.Commands.{flag_each, quit_command}
use cloudpost.Pop3d.Session.{PopConn, PopMsg}

-- The session marked the row.
abbrev pub marked : ℕ → List PopMsg → Message → Bool
marked account msgs n = any (λ m. m.deleted && row_is account m.id n) msgs

left-flag_each :
    (folder account : ℕ) (p : Message → Bool) (msgs : List PopMsg) (s : Store)
    → ((n : Message) (column : Text) → p (record n { flags = column }) ≡ p n)
    → left folder p (flag_each s account msgs).messages
      ≡ left folder (λ n. marked account msgs n || p n) s.messages
unfolding flag_each
left-flag_each folder account p [] s k = refl
left-flag_each folder account p (m ∷ ms) s k = elim (Bool-cases m.deleted) [
  | inr e ↦ rw e (left-flag_each folder account p ms s k)
  | inl e ↦ rw e (
      left-flag_each folder account p ms _ k
      ∙ (ap (λ t. left folder (λ n. marked account ms n || p n) t.messages)
            (set_flags_one s account m.id add deleted_flag)
          ∙ (left-set_one s folder account m.id (λ n. marked account ms n || p n)
                (λ n col. ap (λ b. marked account ms n || b) (k n col))
              ∙ left_congr folder _ _ s.messages (λ n. ground (arith, e)))))
]

flag_each-IsWellFormed :
    {low : ℕ → ℕ} (account : ℕ) (msgs : List PopMsg) (s : Store)
    → IsWellFormed low s
    → IsWellFormed low (flag_each s account msgs)
unfolding flag_each
flag_each-IsWellFormed account [] s w = w
flag_each-IsWellFormed account (m ∷ ms) s w = elim (Bool-cases m.deleted) [
  | inl e ↦ rw e (flag_each-IsWellFormed account ms _ (set_flags-IsWellFormed s account _ _ _ w))
  | inr e ↦ rw e (flag_each-IsWellFormed account ms s w)
]

-- In a well-formed store QUIT, in a session that marked messages, leaves exactly the messages that
-- are not in the account's INBOX, or carry no \Deleted flag there and were not marked, in their
-- order.
pub quit_command-messages :
    {low : ℕ → ℕ} (s : Store) (c : PopConn) (a : Account) (f : Listed)
    → IsWellFormed low s
    → c.account ≡ some a
    → c.deleted_any ≡ true
    → folder_by_name s a.id inbox_name ≡ ok f
    → ids_of (quit_command s c).store.messages
      ≡ ids_of (
          keep
            (λ n. not (n.folder_id == f.id && (like deleted_flag n.flags || marked a.id c.msgs n)))
            s.messages)
unfolding quit_command
quit_command-messages s c a f w e d g =
    rw (e, d, g)
      (ap ids_of (
          expunge_folder-rows (flag_each s a.id c.msgs) f.id
            (flag_each-IsWellFormed a.id c.msgs s w))
        ∙ left_plain f.id (flag_each s a.id c.msgs).messages
        ∙ left-flag_each f.id a.id (λ _. false) c.msgs s (λ n col. refl)
        ∙ left_congr f.id _ (marked a.id c.msgs) s.messages (λ n. ground arith))
