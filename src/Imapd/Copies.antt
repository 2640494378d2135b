-- ===== src/Imapd/Copies.antt =====
-- COPY and MOVE lose no message: a copy has the text, and an original goes only after its copy.
use cloudpost.Prelude.{
  ==_iff, Bool-cases, List, Option, [], ap, arith, if_both, inl, inr, none, refl, some, subst, suc,
  sym, true, ℕ, ◌<◌, ◌==◌, ◌∙◌, ◌∷◌, ◌≡◌, ◌≤◌,
}
use cloudpost.Text.{Text}
use cloudpost.Imapd.Messages.{
  Copied, CopyRun, copied_ids, copied_to, copy, copy_each, copy_one, copy_text, noted, row_id,
}
use cloudpost.Imapd.Session.{NumSet, SelMsg, has_number, in_num_set, uid_of}
use cloudpost.Mailstore.Delivered.{deliver-Delivered, get_message_raw-deliver}
use cloudpost.Mailstore.Invariant.{IsWellFormed}
use cloudpost.Mailstore.Invariant.Delivery.{deliver-IsWellFormed}
use cloudpost.Mailstore.Kept.{
  All-find, deliver-Grown, fst_of, get_message_raw-deliver_kept, get_message_raw_row, row_names,
}
use cloudpost.Mailstore.Messages.{DeliverOpts, deliver, get_message_raw, row_is}
use cloudpost.Mailstore.Schema.{External, Message, Result, Store, err, ok}

-- A text that the account can read under an id.
abbrev pub Held : Store → ℕ → ℕ → Text → Type 0
Held s account id raw = (m : Message) × (get_message_raw s account id ≡ ok (raw, m))

below_next :
    {low : ℕ → ℕ} (s : Store) (account id : ℕ) (raw : Text)
    → IsWellFormed low s
    → Held s account id raw
    → id < s.next_message
below_next s account id raw w (m, h) =
    let row = (get_message_raw_row s account id raw m h).0 in
    let st = All-find _ (row_is account id) s.messages m w.stored row in
    omega (arith, st.id_below, (row_names account id s.messages m row).0)

-- What one copy did: nothing that could be read is lost, and if it reports a copy, the copy has the
-- text under a new id.
pub record OneCopy (low : ℕ → ℕ) (s : Store) (account : ℕ) (m : SelMsg) (p : Store × Option Copied)
    : Type 0 where
  pub formed : IsWellFormed low p.0
  pub grows : s.next_message ≤ p.0.next_message
  pub keeps : (id : ℕ) (raw : Text) → Held s account id raw → Held p.0 account id raw
  pub copy_id : (c : Copied) → p.1 ≡ some c → c.id ≡ row_id m
  pub copy_of :
      (c : Copied) (raw : Text)
      → p.1 ≡ some c
      → Held s account (row_id m) raw
      → (new : ℕ) × (s.next_message ≤ new) × Held p.0 account new raw

-- What a run of copies did.
pub record Copying (low : ℕ → ℕ) (s : Store) (account : ℕ) (acc : CopyRun) : Type 0 where
  pub all_formed : IsWellFormed low acc.store
  pub all_grows : s.next_message ≤ acc.store.next_message
  pub all_keeps : (id : ℕ) (raw : Text) → Held s account id raw → Held acc.store account id raw
  pub has_copy :
      (id : ℕ) (raw : Text)
      → Held s account id raw
      → has_number id (copied_ids acc.copies) ≡ true
      → (new : ℕ) × (s.next_message ≤ new) × Held acc.store account new raw

some_is : {x y : Copied} → ◌≡◌ {A = Option Copied} (some x) (some y) → x ≡ y
some_is q = cc

still-OneCopy :
    {low : ℕ → ℕ} (s : Store) (account : ℕ) (m : SelMsg)
    → IsWellFormed low s
    → OneCopy low s account m (s, none)
still-OneCopy s account m w = record {
  formed = w;
  grows = omega arith;
  keeps = λ id raw h. h;
  copy_id = λ c e. cc e;
  copy_of = λ c raw e h. cc e;
}

copied_to-store : (m : SelMsg) (seq : ℕ) (r : Store × Result (ℕ × ℕ)) → (copied_to m seq r).0 ≡ r.0
copied_to-store m seq (s, ok (id, uid)) = refl
copied_to-store m seq (s, err e) = refl

module _ {low : ℕ → ℕ} (ext : External) where
  delivered-OneCopy :
      (s : Store) (account dest : ℕ) (m : SelMsg) (seq : ℕ) (raw : Text) (row : Message)
      (opts : Option DeliverOpts) (t : Store) (r : Result (ℕ × ℕ))
      → IsWellFormed low s
      → get_message_raw s account (row_id m) ≡ ok (raw, row)
      → deliver ext s account dest raw opts ≡ (t, r)
      → OneCopy low s account m (copied_to m seq (t, r))
  delivered-OneCopy s account dest m seq raw row opts t (err e) w h d = record {
    formed =
        subst (IsWellFormed low) (ap (λ p. p.0) d)
          (deliver-IsWellFormed ext s account dest raw opts w);
    grows =
        subst (λ x. s.next_message ≤ x.next_message) (ap (λ p. p.0) d)
          (deliver-Grown ext s account dest raw opts).counts;
    keeps = λ id text (n, k). (
      n,
      subst (λ x. get_message_raw x account id ≡ ok (text, n)) (ap (λ p. p.0) d)
          (get_message_raw-deliver_kept ext s account dest raw opts account id text n w k),
    );
    copy_id = λ c e. cc e;
    copy_of = λ c text e k. cc e;
  }
  delivered-OneCopy s account dest m seq raw row opts t (ok (new, uid)) w h d = record {
    formed =
        subst (IsWellFormed low) (ap (λ p. p.0) d)
          (deliver-IsWellFormed ext s account dest raw opts w);
    grows =
        subst (λ x. s.next_message ≤ x.next_message) (ap (λ p. p.0) d)
          (deliver-Grown ext s account dest raw opts).counts;
    keeps = λ id text (n, k). (
      n,
      subst (λ x. get_message_raw x account id ≡ ok (text, n)) (ap (λ p. p.0) d)
          (get_message_raw-deliver_kept ext s account dest raw opts account id text n w k),
    );
    copy_id = λ c e. sym (ap (λ (x : Copied). x.id) (some_is e));
    copy_of = λ c text e (n, k).
        let (copy, found, _, _) =
          get_message_raw-deliver ext s t account dest raw opts new uid w d in
        let fresh = (deliver-Delivered ext s t account dest raw opts new uid d).id_is in
        (
          new,
          omega (arith, fresh),
          (copy, found ∙ ap (λ x. ok (x, copy)) (ap (fst_of raw) (sym h ∙ k))),
        );
  }

  pub copy_one-OneCopy :
      (s : Store) (account dest : ℕ) (m : SelMsg) (seq : ℕ)
      → IsWellFormed low s
      → OneCopy low s account m (copy_one ext s account dest m seq)
  unfolding copy_one
  copy_one-OneCopy s account dest m seq w = go (get_message_raw s account (row_id m)) refl
    where
      go :
          (r : Result (Text × Message))
          → get_message_raw s account (row_id m) ≡ r
          → OneCopy low s account m (copy_text ext s account dest m seq r)
      go (err e) h = still-OneCopy s account m w
      go (ok (raw, row)) h = delivered-OneCopy s account dest m seq raw row _ _ _ w h refl

  noted_copy :
      (s t : Store) (account : ℕ) (m : SelMsg) (o : Option Copied) (acc : CopyRun)
      → OneCopy low s account m (t, o)
      → Copying low t account acc
      → Copying low s account (noted o acc)
  noted_copy s t account m none acc one rest = record {
    all_formed = rest.all_formed;
    all_grows = omega (arith, one.grows, rest.all_grows);
    all_keeps = λ id raw h. rest.all_keeps id raw (one.keeps id raw h);
    has_copy = λ id raw h e.
        let (new, le, held) = rest.has_copy id raw (one.keeps id raw h) e in
        (new, omega (arith, one.grows, le), held);
  }
  noted_copy s t account m (some c) acc one rest = record {
    all_formed = rest.all_formed;
    all_grows = omega (arith, one.grows, rest.all_grows);
    all_keeps = λ id raw h. rest.all_keeps id raw (one.keeps id raw h);
    has_copy = λ id raw h e. elim (Bool-cases (c.id == id)) [
      | inl here ↦
          let same = sym (one.copy_id c refl) ∙ (==_iff c.id id).0 here in
          let (new, le, held) =
            one.copy_of c raw refl (subst (λ i. Held s account i raw) (sym same) h) in
          (new, le, rest.all_keeps new raw held)
      | inr other ↦
          let (new, le, held) = rest.has_copy id raw (one.keeps id raw h) (rw other at e) in
          (new, omega (arith, one.grows, le), held)
    ];
  }

  pub copy_each-Copying :
      (account dest : ℕ) (nums : NumSet) (ms : List SelMsg) (seq : ℕ) (s : Store)
      → IsWellFormed low s
      → Copying low s account (copy_each ext s account dest nums seq ms)
  unfolding copy_each
  copy_each-Copying account dest nums [] seq s w = record {
    all_formed = w;
    all_grows = omega arith;
    all_keeps = λ id raw h. h;
    has_copy = λ id raw h e. cc e;
  }
  copy_each-Copying account dest nums (m ∷ ms) seq s w =
      let one = copy_one-OneCopy s account dest m seq w in
      if_both (Copying low s account) (in_num_set nums (uid_of m) seq) _ _
        (noted_copy s _ account m _ _ one
          (copy_each-Copying account dest nums ms (suc seq) _ one.formed))
        (copy_each-Copying account dest nums ms (suc seq) s w)
