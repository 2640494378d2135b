-- ===== src/Imapd/MoveKept.antt =====
-- What a MOVE leaves readable.
use cloudpost.Prelude.{
  All, Bool-cases, List, Option, [], arith, false, if_both, inl, inr, is_nil, none, refl, some,
  subst, suc, sym, true, ℕ, ◌<◌, ◌∷◌, ◌≡◌, ◌≢◌, ◌≤◌, ◌⊎◌,
}
use cloudpost.Text.{Text}
use cloudpost.Imapd.Copies.{Copying, Held, copy_each-Copying, copy_one-OneCopy}
use cloudpost.Imapd.Mailboxes.{found_or}
use cloudpost.Imapd.Messages.{
  Copied, CopyData, CopyRun, copied_ids, copy_each, copy_one, move, moved, noted, row_id, selected,
}
use cloudpost.Imapd.Session.{
  ImapError, ImapSession, NumSet, Outcome, SelMsg, SelState, has_number, in_num_set,
  no_such_mailbox, uid_of,
}
use cloudpost.Mailstore.Folders.{folder_by_name}
use cloudpost.Mailstore.Invariant.{IsWellFormed}
use cloudpost.Mailstore.Invariant.Removal.{delete_one-IsWellFormed}
use cloudpost.Mailstore.Kept.{get_message_raw-delete_kept}
use cloudpost.Mailstore.Messages.{delete_messages, delete_one, get_message_raw}
use cloudpost.Mailstore.Schema.{Account, External, Listed, Message, Result, Store, err, ok}

not_head : (i id : ℕ) (ids : List ℕ) → has_number id (i ∷ ids) ≡ false → id ≢ i
not_head i id ids h = ground arith

Held-delete_messages :
    {low : ℕ → ℕ} (account : ℕ) (ids : List ℕ) (s : Store) (id : ℕ) (raw : Text)
    → IsWellFormed low s
    → has_number id ids ≡ false
    → Held s account id raw
    → Held (delete_messages s account ids) account id raw
unfolding delete_messages
Held-delete_messages account [] s id raw w h k = k
Held-delete_messages account (i ∷ ids) s id raw w h (m, k) =
    Held-delete_messages account ids (delete_one s account i) id raw
      (delete_one-IsWellFormed s account i w) (ground arith)
      (m, get_message_raw-delete_kept s account i account id raw m w (not_head i id ids h) k)

module _ {low : ℕ → ℕ} (ext : External) where
  copied_below :
      (account dest bound : ℕ) (nums : NumSet) (ms : List SelMsg) (seq : ℕ) (s : Store)
      → IsWellFormed low s
      → All (λ m. row_id m < bound) ms
      → All (λ i. i < bound) (copied_ids (copy_each ext s account dest nums seq ms).copies)
  unfolding copy_each
  copied_below account dest bound nums [] seq s w h = tt
  copied_below account dest bound nums (m ∷ ms) seq s w h =
      let one = copy_one-OneCopy ext s account dest m seq w in
      if_both (λ (acc : CopyRun). All (λ i. i < bound) (copied_ids acc.copies))
        (in_num_set nums (uid_of m) seq) _ _
        (note _ (copy_one ext s account dest m seq).1 refl
          (copied_below account dest bound nums ms (suc seq) _ one.formed h.1))
        (copied_below account dest bound nums ms (suc seq) s w h.1)
    where
      note :
          (acc : CopyRun) (o : Option Copied)
          → (copy_one ext s account dest m seq).1 ≡ o
          → All (λ i. i < bound) (copied_ids acc.copies)
          → All (λ i. i < bound) (copied_ids (noted o acc).copies)
      note acc none e k = k
      note acc (some c) e k = (
        subst (λ i. i < bound) (sym ((copy_one-OneCopy ext s account dest m seq w).copy_id c e))
            h.0,
        k,
      )

absent_above :
    (bound id : ℕ) (ids : List ℕ)
    → bound ≤ id
    → All (λ i. i < bound) ids
    → has_number id ids ≡ false
absent_above bound id [] le h = refl
absent_above bound id (i ∷ ids) le h = ground (arith, absent_above bound id ids le h.1)

moved_kept :
    {low : ℕ → ℕ} (s : Store) (ses : ImapSession) (a : Account) (sel : SelState) (f : Listed)
    (acc : CopyRun) (id : ℕ) (raw : Text)
    → Copying low s a.id acc
    → All (λ i. i < s.next_message) (copied_ids acc.copies)
    → Held s a.id id raw
    → (new : ℕ) × Held (moved s ses a sel f acc).0.0 a.id new raw
moved_kept s ses a sel f acc id raw c below h = elim (Bool-cases (is_nil (copied_ids acc.copies))) [
  | inl e ↦ rw e (id, c.all_keeps id raw h)
  | inr e ↦ rw e (survivor (Bool-cases (has_number id (copied_ids acc.copies))))
]
  where
    ids : List ℕ
    ids = copied_ids acc.copies

    survivor :
        (has_number id ids ≡ true) ⊎ (has_number id ids ≡ false)
        → (new : ℕ) × Held (delete_messages acc.store a.id ids) a.id new raw
    survivor (inl there) =
        let (new, le, held) = c.has_copy id raw h there in
        (
          new,
          Held-delete_messages a.id ids acc.store new raw c.all_formed
              (absent_above s.next_message new ids le below) held,
        )
    survivor (inr gone) = (
      id,
      Held-delete_messages a.id ids acc.store id raw c.all_formed gone (c.all_keeps id raw h),
    )

selected_is {ℓ} :
    {A : Type ℓ} {o : Option Account} {q : Option SelState} (a : Account) (sel : SelState)
    (refusal : ImapError → A) (command : Account → SelState → A)
    → o ≡ some a
    → q ≡ some sel
    → selected o q refusal command ≡ command a sel
selected_is a sel refusal command e f = rw (e, f) refl

-- MOVE loses no message. In a well-formed store, for a selection of messages that the store has
-- counted, every text that the account can read before the command it can read after it, under the
-- same id or that of a copy, whatever deliveries fail on the way.
pub move-kept :
    {low : ℕ → ℕ} (ext : External) (s : Store) (ses : ImapSession) (nums : NumSet) (dest : Text)
    (a : Account) (sel : SelState) (id : ℕ) (raw : Text) (m : Message)
    → IsWellFormed low s
    → ses.account ≡ some a
    → ses.sel ≡ some sel
    → All (λ n. row_id n < s.next_message) sel.msgs
    → get_message_raw s a.id id ≡ ok (raw, m)
    → (new : ℕ) × (n : Message) × (get_message_raw (move ext s ses nums dest).0.0 a.id new
        ≡ ok (raw, n))
unfolding move
move-kept ext s ses nums dest a sel id raw m w ea es below h =
    subst
      (λ (r : (Store × ImapSession) × Outcome (Option (CopyData × List ℕ))).
        (new : ℕ) × (n : Message) × (get_message_raw r.0.0 a.id new ≡ ok (raw, n)))
      (sym (selected_is a sel _ _ ea es)) (found (folder_by_name s a.id dest))
  where
    found :
        (r : Result Listed)
        → (new : ℕ) × (n : Message) × (get_message_raw
              (found_or r
                (λ f. moved s ses a sel f (copy_each ext s a.id f.id nums 1 sel.msgs))
                ((s, ses), inl no_such_mailbox)).0.0
              a.id
              new
            ≡ ok (raw, n))
    found (err e) = (id, m, h)
    found (ok f) =
        let (new, (n, held)) =
          moved_kept s ses a sel f (copy_each ext s a.id f.id nums 1 sel.msgs) id raw
            (copy_each-Copying ext a.id f.id nums sel.msgs 1 s w)
            (copied_below ext a.id f.id s.next_message nums sel.msgs 1 s w below) (m, h) in
        (new, n, held)
