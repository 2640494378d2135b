-- ===== src/Fetch/NewMails.antt =====
-- Which messages an IMAP fetch takes.
use cloudpost.Prelude.{
  Bool-cases, List, [], ap, arith, if◌then◌else◌, inl, inr, keep, leb, ltb, none, refl, true, ℕ,
  ◌&&◌, ◌+◌, ◌-◌, ◌<◌, ◌∷◌, ◌≡◌,
}
use cloudpost.Text.{Text}
use cloudpost.Fetch.Remote.{ImapServer, in_range, new_mails, search_range}

all_kept : (mails : List (ℕ × (Text × ℕ))) → keep (λ m. in_range none m.0) mails ≡ mails
all_kept [] = refl
all_kept (m ∷ mails) = ap (◌∷◌ m) (all_kept mails)

-- Which remote messages an IMAP fetch takes once it has a last UID: those behind the last UID when
-- the mailbox has given out a UID behind it; when not, every message of the mailbox once more.
new_mails_lem :
    (server : ImapServer) (last : ℕ)
    → 0 < last
    → new_mails server last ≡ (
        if ltb (last + 1) server.uid_next
        then keep (λ m. leb (last + 1) m.0 && leb m.0 (server.uid_next - 1)) server.mails
        else server.mails)
unfolding new_mails search_range
new_mails_lem server last h = elim (Bool-cases (ltb (last + 1) server.uid_next)) [
  | inl e ↦ rw (positive, e) refl
  | inr e ↦ rw (positive, e) (all_kept server.mails)
]
  where
    positive : ltb 0 last ≡ true
    positive = ground arith
