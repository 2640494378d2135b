-- ===== src/Imapd/Session.antt =====
-- The session and the selected mailbox of internal/imapd/imap.go.
use cloudpost.Prelude.{
  Bool, List, Option, [], any, find_first, get_elem?, if◌then◌else◌, inl, inr, none, some, suc,
  zero, ℕ, ◌%◌, ◌++◌, ◌+◌, ◌==◌, ◌^◌, ◌∷◌, ◌⊎◌,
}
use cloudpost.Text.{Text, equal_fold}
use cloudpost.Mailstore.Accounts.{verify_local_login}
use cloudpost.Mailstore.Schema.{Account, Error, External, Listed, Message, Store}

-- A message of the selection, with the flags that the session has for it.
pub record SelMsg : Type 0 where
  pub row : Message
  pub flag_list : List Text

pub record SelState : Type 0 where
  pub folder : Listed
  pub msgs : List SelMsg

pub record ImapSession : Type 0 where
  pub account : Option Account
  pub sel : Option SelState

abbrev pub new_imap : ImapSession
new_imap = record { account = none; sel = none }

pub data ImapError : Type 0 where
  auth_refused no_such_mailbox invalid_mailbox inbox_stays no_selection : ImapError
  from_store : Error → ImapError

-- The numbers of a command: sequence numbers or UIDs.
pub data NumSet : Type 0 where
  seq_set uid_set : List ℕ → NumSet

abbrev pub Outcome {ℓ} : Type ℓ → Type ℓ
Outcome A = ImapError ⊎ A

abbrev pub has_number : ℕ → List ℕ → Bool
has_number n = any (λ k. k == n)

unfoldable pub in_num_set : NumSet → ℕ → ℕ → Bool
in_num_set (seq_set nums) uid seq = has_number seq nums
in_num_set (uid_set nums) uid seq = has_number uid nums

unfoldable pub has_flag : List Text → Text → Bool
unfolding equal_fold
has_flag flags f = any (λ g. equal_fold g f) flags

abbrev pub uid_of : SelMsg → ℕ
uid_of m = m.row.uid % 2 ^ 32

unfoldable pub seq_of : List SelMsg → ℕ → ℕ
seq_of [] uid = 0
seq_of (m ∷ ms) uid =
    let rest = seq_of ms uid in if uid_of m == uid then 1 else if rest == 0 then 0 else rest + 1

abbrev pub at_seq : List SelMsg → ℕ → List ℕ
at_seq msgs zero = []
at_seq msgs (suc i) = elim (get_elem? msgs i) [ none ↦ [] | some m ↦ m.row.id ∷ [] ]

abbrev pub at_uid : List SelMsg → ℕ → List ℕ
at_uid msgs uid = elim (find_first (λ m. uid_of m == uid) msgs) [
  | none ↦ []
  | some m ↦ m.row.id ∷ []
]

abbrev pub concat_map : (ℕ → List ℕ) → List ℕ → List ℕ
concat_map f [] = []
concat_map f (n ∷ ns) = f n ++ concat_map f ns

abbrev pub resolve_in : NumSet → List SelMsg → List ℕ
resolve_in (seq_set nums) msgs = concat_map (at_seq msgs) nums
resolve_in (uid_set nums) msgs = concat_map (at_uid msgs) nums

-- The ids of the messages that a set names, in the order of the set.
unfoldable pub resolve_num_set : Option SelState → NumSet → List ℕ
resolve_num_set none nums = []
resolve_num_set (some sel) nums = resolve_in nums sel.msgs

abbrev pub login_with : ImapSession → Option Account → ImapSession × Outcome (Unit {0})
login_with ses none = (ses, inl auth_refused)
login_with ses (some a) = (record ses { account = some a }, inr tt)

unfoldable pub login :
    External → Store → ImapSession → Text → Text → ImapSession × Outcome (Unit {0})
login ext s ses name password = login_with ses (verify_local_login ext s name password)

unfoldable pub unselect : ImapSession → ImapSession
unselect ses = record ses { sel = none }
