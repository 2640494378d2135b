-- ===== src/Fetch/Again.antt =====
-- What a second POP3 fetch does.
use cloudpost.Prelude.{
  ==_refl, All, Bool, Bool-cases, List, Option, [], any, ap, arith, drop, false, inl, inr, length,
  none, refl, some, subst, sym, true, ℕ, ◌&&◌, ◌-◌, ◌∙◌, ◌∷◌, ◌≡◌, ◌≤◌,
}
use cloudpost.Text.{Text, eqb, eqb_iff}
use cloudpost.Fetch.Remote.{
  PopFailure, PopRef, PopRun, RemoteState, Retrieved, broken, fetch_pop3, given, pop_delivered,
  pop_each, pop_end, pop_one, pop_retrieved, pop_start, refused, save_uidls, saved_after,
  seen_already, storing, unless_failed, value_of,
}
use cloudpost.Mailstore.Schema.{Account, External, Result, Store, err, ok}

pop_one-seen :
    (ext : External) (a : Account) (acc : PopRun) (ref : PopRef)
    → seen_already ref.uidl acc.seen ≡ true
    → pop_one ext a acc ref ≡ acc
unfolding pop_one
pop_one-seen ext a acc ref h = simp h refl

pop_each-seen :
    (ext : External) (a : Account) (acc : PopRun) (refs : List PopRef)
    → acc.failure ≡ none
    → All (λ ref. seen_already ref.uidl acc.seen ≡ true) refs
    → pop_each ext a acc refs ≡ acc
unfolding pop_each
pop_each-seen ext a acc [] f h = refl
pop_each-seen ext a acc (ref ∷ refs) f h =
    ap (λ x. unless_failed x (pop_each ext a x refs) x.failure) (pop_one-seen ext a acc ref h.0)
    ∙ (ap (unless_failed acc (pop_each ext a acc refs)) f ∙ pop_each-seen ext a acc refs f h.1)

eqb_sound : (t u : Text) → eqb t u ≡ true → t ≡ u
eqb_sound t u h = (eqb_iff t u).0 h

pop_delivered-kept :
    (a : Account) (ref : PopRef) (acc : PopRun) (p : Store × Result (ℕ × ℕ)) (u : Text)
    → seen_already u acc.seen ≡ true
    → seen_already u (pop_delivered a ref acc p).seen ≡ true
pop_delivered-kept a ref acc (s, err e) u h = h
pop_delivered-kept a ref acc (s, ok ids) u h = ground (arith, h)

pop_retrieved-kept :
    (ext : External) (a : Account) (ref : PopRef) (acc : PopRun) (b : Retrieved) (u : Text)
    → seen_already u acc.seen ≡ true
    → seen_already u (pop_retrieved ext a ref acc b).seen ≡ true
pop_retrieved-kept ext a ref acc refused u h = h
pop_retrieved-kept ext a ref acc broken u h = h
pop_retrieved-kept ext a ref acc (given lines) u h = pop_delivered-kept a ref acc _ u h

-- An id that was seen stays seen.
pop_one-kept :
    (ext : External) (a : Account) (acc : PopRun) (ref : PopRef) (u : Text)
    → seen_already u acc.seen ≡ true
    → seen_already u (pop_one ext a acc ref).seen ≡ true
unfolding pop_one
pop_one-kept ext a acc ref u h = elim (Bool-cases (seen_already ref.uidl acc.seen)) [
  | inl e ↦ simp e h
  | inr e ↦ simp e (pop_retrieved-kept ext a ref acc ref.body u h)
]

pop_each-kept :
    (ext : External) (a : Account) (acc : PopRun) (refs : List PopRef) (u : Text)
    → seen_already u acc.seen ≡ true
    → seen_already u (pop_each ext a acc refs).seen ≡ true
unfolding pop_each
pop_each-kept ext a acc [] u h = h
pop_each-kept ext a acc (ref ∷ refs) u h =
    pick (pop_one ext a acc ref).failure
      (pop_each-kept ext a (pop_one ext a acc ref) refs u (pop_one-kept ext a acc ref u h))
  where
    pick :
        (f : Option PopFailure)
        → seen_already u (pop_each ext a (pop_one ext a acc ref) refs).seen ≡ true
        → seen_already u
            (unless_failed
              (pop_one ext a acc ref)
              (pop_each ext a (pop_one ext a acc ref) refs)
              f).seen
          ≡ true
    pick none later = later
    pick (some e) later = pop_one-kept ext a acc ref u h

abbrev pub gave : Retrieved → Bool
gave (given lines) = true
gave _ = false

no_failure : (e : PopFailure) → ◌≡◌ {A = Option PopFailure} (some e) none → ⊥
no_failure e q = cc

pop_delivered-seen :
    (a : Account) (ref : PopRef) (acc : PopRun) (p : Store × Result (ℕ × ℕ))
    → (pop_delivered a ref acc p).failure ≡ none
    → seen_already ref.uidl (pop_delivered a ref acc p).seen ≡ true
pop_delivered-seen a ref acc (s, err e) f = absurd (no_failure (storing e) f)
pop_delivered-seen a ref acc (s, ok ids) f = ground (arith, eqb_iff ref.uidl ref.uidl)

pop_retrieved-seen :
    (ext : External) (a : Account) (ref : PopRef) (acc : PopRun) (b : Retrieved)
    → gave b ≡ true
    → (pop_retrieved ext a ref acc b).failure ≡ none
    → seen_already ref.uidl (pop_retrieved ext a ref acc b).seen ≡ true
pop_retrieved-seen ext a ref acc refused g f = cc
pop_retrieved-seen ext a ref acc broken g f = cc
pop_retrieved-seen ext a ref acc (given lines) g f = pop_delivered-seen a ref acc _ f

pop_one-marks :
    (ext : External) (a : Account) (acc : PopRun) (ref : PopRef)
    → gave ref.body ≡ true
    → (pop_one ext a acc ref).failure ≡ none
    → seen_already ref.uidl (pop_one ext a acc ref).seen ≡ true
unfolding pop_one
pop_one-marks ext a acc ref g f = elim (Bool-cases (seen_already ref.uidl acc.seen)) [
  | inl e ↦ simp e refl
  | inr e ↦ simp e (pop_retrieved-seen ext a ref acc ref.body g (simp e at f))
]

abbrev pub gave_id : Text → PopRef → Bool
gave_id u old = gave old.body && eqb old.uidl u

-- After a run without a failure the id of every message that was given is seen.
pop_each-marks :
    (ext : External) (a : Account) (acc : PopRun) (refs : List PopRef) (u : Text)
    → (pop_each ext a acc refs).failure ≡ none
    → any (gave_id u) refs ≡ true
    → seen_already u (pop_each ext a acc refs).seen ≡ true
unfolding pop_each
pop_each-marks ext a acc [] u f h = cc
pop_each-marks ext a acc (ref ∷ refs) u f h =
    pick (pop_one ext a acc ref).failure refl f
      (λ k q. pop_each-marks ext a (pop_one ext a acc ref) refs u q k)
  where
    after : PopRun
    after = pop_one ext a acc ref

    here : gave_id u ref ≡ true → after.failure ≡ none → seen_already u after.seen ≡ true
    here k q =
        subst (λ t. seen_already t after.seen ≡ true) (eqb_sound ref.uidl u (ground arith))
          (pop_one-marks ext a acc ref (ground arith) q)

    pick :
        (x : Option PopFailure)
        → after.failure ≡ x
        → (unless_failed after (pop_each ext a after refs) x).failure ≡ none
        → (any (gave_id u) refs ≡ true
            → (pop_each ext a after refs).failure ≡ none
            → seen_already u (pop_each ext a after refs).seen ≡ true)
        → seen_already u (unless_failed after (pop_each ext a after refs) x).seen ≡ true
    pick (some e) p q later = absurd (no_failure e (sym p ∙ q))
    pick none p q later = elim (Bool-cases (gave_id u ref)) [
      | inl hit ↦ pop_each-kept ext a after refs u (here hit p)
      | inr miss ↦ later (rw miss at h) q
    ]

drop_none : (n : ℕ) (us : List Text) → n ≡ 0 → drop n us ≡ us
drop_none n us e = ap (λ k. drop k us) e

pop_end-saved :
    (a : Account) (acc : PopRun)
    → acc.failure ≡ none
    → length acc.seen ≤ 5000
    → value_of [] a.id (pop_end a acc).state.uidls ≡ acc.seen
pop_end-saved a acc f h = ap (λ x. value_of [] a.id (saved_after a acc x).state.uidls) f ∙ stored
  where
    stored : value_of [] a.id (save_uidls acc.state a.id acc.seen).uidls ≡ acc.seen
    stored =
        unfold save_uidls in
        rw (==_refl a.id) (drop_none (length acc.seen - 5000) acc.seen (omega (arith, h)))

saved_after-failure :
    (a : Account) (acc : PopRun) (f : Option PopFailure)
    → ((saved_after a acc f).failure ≡ acc.failure) × ((saved_after a acc f).seen ≡ acc.seen)
saved_after-failure a acc none = (refl, refl)
saved_after-failure a acc (some e) = (refl, refl)

All-refs :
    (P Q : PopRef → Type 0) (refs : List PopRef)
    → ((ref : PopRef) → P ref → Q ref)
    → All P refs
    → All Q refs
All-refs P Q [] f h = tt
All-refs P Q (ref ∷ refs) f h = (f ref h.0, All-refs P Q refs f h.1)

-- After a POP3 fetch that ended without a failure and knows 5000 ids at most, a fetch of messages
-- whose ids the first was given delivers none of them, removes none on the server and reports no
-- error, whatever the mail is by then and whatever the server would send for them.
pub fetch_pop3-again :
    (ext : External) (s s' : Store) (r : RemoteState) (a : Account) (refs refs' : List PopRef)
    → (fetch_pop3 ext s r a refs).failure ≡ none
    → length (fetch_pop3 ext s r a refs).seen ≤ 5000
    → All (λ ref. any (gave_id ref.uidl) refs ≡ true) refs'
    → let again = fetch_pop3 ext s' (fetch_pop3 ext s r a refs).state a refs' in
      (again.store ≡ s') × (again.count ≡ 0) × (again.removed_seqs ≡ []) × (again.failure ≡ none)
unfolding fetch_pop3
fetch_pop3-again ext s s' r a refs refs' f few h = (
  ap (λ x. (pop_end a x).store) same,
  ap (λ x. (pop_end a x).count) same,
  ap (λ x. (pop_end a x).removed_seqs) same,
  ap (λ x. (pop_end a x).failure) same,
)
  where
    run : PopRun
    run = pop_each ext a (pop_start s r a) refs

    fine : run.failure ≡ none
    fine = sym (saved_after-failure a run run.failure).0 ∙ f

    saved : value_of [] a.id (pop_end a run).state.uidls ≡ run.seen
    saved =
        pop_end-saved a run fine
          (subst (λ us. length us ≤ 5000) (saved_after-failure a run run.failure).1 few)

    known :
        All (λ ref. seen_already ref.uidl (pop_start s' (pop_end a run).state a).seen ≡ true) refs'
    known =
        All-refs _ _ refs'
          (λ ref k.
            ap (seen_already ref.uidl) saved
            ∙ pop_each-marks ext a (pop_start s r a) refs ref.uidl fine k)
          h

    same :
        pop_each ext a (pop_start s' (pop_end a run).state a) refs'
        ≡ pop_start s' (pop_end a run).state a
    same = pop_each-seen ext a (pop_start s' (pop_end a run).state a) refs' refl known
