-- ===== src/Imapd/Search.antt =====
-- SEARCH of internal/imapd/imap.go. A date is none or the second at which it begins; a set of
-- numbers is the list that its Nums gives.
use cloudpost.Prelude.{
  Bool, List, Option, [], all, any, false, if◌then◌else◌, inl, inr, is_nil, leb, ltb, none, not,
  some, suc, true, ℕ, ◌&&◌, ◌++◌, ◌||◌, ◌∷◌,
}
use cloudpost.Text.{Text, codes, contains, eqb, join, lower}
use cloudpost.Imapd.Messages.{selected}
use cloudpost.Imapd.Session.{ImapSession, Outcome, SelMsg, has_flag, has_number, uid_of}
use cloudpost.Mailstore.Schema.{Message}

pub record HeaderField : Type 0 where
  pub key : Text
  pub value : Text

-- The part of the criteria that looks at one message alone.
pub record Tests : Type 0 where
  pub uids : List (List ℕ)
  pub seq_nums : List (List ℕ)
  pub since : Option ℕ
  pub before : Option ℕ
  pub sent_since : Option ℕ
  pub sent_before : Option ℕ
  pub header : List HeaderField
  pub text : List Text
  pub body : List Text
  pub flag : List Text
  pub not_flag : List Text
  pub larger : ℕ
  pub smaller : ℕ

-- The criteria: the tests, those that must not hold, and the pairs of which one must hold.
mutual
  pub data Criteria : Type 0 where
    criteria : Tests → CriteriaList → CriteriaPairs → Criteria

  pub data CriteriaList : Type 0 where
    no_criteria : CriteriaList
    also : Criteria → CriteriaList → CriteriaList

  pub data CriteriaPairs : Type 0 where
    no_pairs : CriteriaPairs
    either : Criteria → Criteria → CriteriaPairs → CriteriaPairs

-- No set is given, or one has the number.
unfoldable pub in_sets : List (List ℕ) → ℕ → Bool
in_sets sets n = is_nil sets || any (has_number n) sets

abbrev pub not_before : ℕ → Option ℕ → Bool
not_before at none = true
not_before at (some day) = not (ltb at day)

abbrev pub is_before : ℕ → Option ℕ → Bool
is_before at none = true
is_before at (some day) = ltb at day

-- What a header test looks at; a header that is not known is empty.
unfoldable pub header_text : Message → Text → Text
unfolding eqb join
header_text m key =
    if eqb key (codes "subject")
    then m.subject
    else if eqb key (codes "from")
    then m.from_addr ++ (codes " " ++ m.from_name)
    else if eqb key (codes "to")
    then join (codes " ") m.to_addrs
    else if eqb key (codes "cc")
    then join (codes " ") m.cc_addrs
    else if eqb key (codes "message-id")
    then m.message_id
    else []

unfoldable pub contains_fold : Text → Text → Bool
unfolding lower contains
contains_fold hay needle = contains (lower hay) (lower needle)

abbrev pub header_holds : Message → HeaderField → Bool
header_holds m f = contains_fold (header_text m (lower f.key)) f.value

abbrev pub text_holds : Message → Text → Bool
text_holds m t =
    contains_fold m.subject t || (contains_fold m.snippet t || contains_fold m.from_addr t)

unfoldable pub tests_hold : Tests → SelMsg → ℕ → Bool
unfolding in_sets header_text contains_fold has_flag lower
tests_hold c m seq =
    in_sets c.uids (uid_of m)
    && (in_sets c.seq_nums seq
        && (not_before m.row.sent_at c.since
            && (is_before m.row.sent_at c.before
                && (not_before m.row.sent_at c.sent_since
                    && (is_before m.row.sent_at c.sent_before
                        && (all (header_holds m.row) c.header
                            && (all (text_holds m.row) c.text
                                && (all (contains_fold m.row.snippet) c.body
                                    && (all (has_flag m.flag_list) c.flag
                                        && (not (any (has_flag m.flag_list) c.not_flag)
                                            && (not (ltb 0 c.larger && leb m.row.size c.larger)
                                                && not (
                                                    ltb 0 c.smaller
                                                    && leb c.smaller m.row.size))))))))))))

unfoldable mutual
  pub criteria_match : Criteria → SelMsg → ℕ → Bool
  criteria_match (criteria c nots ors) m seq =
      tests_hold c m seq && (not (some_match nots m seq) && pairs_match ors m seq)

  pub some_match : CriteriaList → SelMsg → ℕ → Bool
  some_match no_criteria m seq = false
  some_match (also c cs) m seq = criteria_match c m seq || some_match cs m seq

  pub pairs_match : CriteriaPairs → SelMsg → ℕ → Bool
  pairs_match no_pairs m seq = true
  pairs_match (either a b ps) m seq =
      (criteria_match a m seq || criteria_match b m seq) && pairs_match ps m seq

-- The numbers, UIDs or sequence numbers, of the messages that match.
unfoldable pub search_each : Bool → Criteria → ℕ → List SelMsg → List ℕ
unfolding criteria_match
search_each by_uid c seq [] = []
search_each by_uid c seq (m ∷ ms) =
    let rest = search_each by_uid c (suc seq) ms in
    if criteria_match c m seq then (if by_uid then uid_of m else seq) ∷ rest else rest

unfoldable pub search : ImapSession → Bool → Criteria → Outcome (List ℕ)
unfolding search_each
search ses by_uid c =
    selected ses.account ses.sel (λ e. inl e) (λ a sel. inr (search_each by_uid c 1 sel.msgs))
