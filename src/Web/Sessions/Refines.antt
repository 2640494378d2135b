-- ===== src/Web/Sessions/Refines.antt =====
-- The list of sessions against the table of tokens, visit by visit.
use cloudpost.Prelude.{
  ==_iff, Bool, Bool-cases, List, Option, [], ap, arith, false, find_first, if◌then◌else◌, inl, inr,
  keep, ltb, none, not, refl, some, subst, sym, true, ℕ, ◌+◌, ◌==◌, ◌∙◌, ◌∷◌, ◌≡◌,
}
use cloudpost.Mailstore.Accounts.{get_account}
use cloudpost.Mailstore.Schema.{Account}
use cloudpost.Web.Auth.{
  account_of, by_session, handle_mail_logout, session_account, session_is, start_mail_session, week,
}
use cloudpost.Web.Http.{MailSession, Response, Site, done, success}
use cloudpost.Web.Sessions.{
  Agrees, Answer, Table, Visit, answers, closed, enter, found, good, leave, left_table, look,
  opened, owner_of, table_answers, table_step, view, visit, wait, with_entry,
}

without : ℕ → List MailSession → List MailSession
without c = keep (λ x. not (session_is c x))

find-without_self :
    (c : ℕ) (xs : List MailSession) → find_first (session_is c) (without c xs) ≡ none
unfolding without
find-without_self c [] = refl
find-without_self c (x ∷ xs) = ground (arith, find-without_self c xs)

find-without_other :
    (c u : ℕ) (xs : List MailSession)
    → (c == u) ≡ false
    → find_first (session_is u) (without c xs) ≡ find_first (session_is u) xs
unfolding without
find-without_other c u [] ne = refl
find-without_other c u (x ∷ xs) ne = ground (arith, find-without_other c u xs ne)

good_later : (now n : ℕ) (e : Option (ℕ × ℕ)) → good (now + n) (good now e) ≡ good (now + n) e
unfolding good
good_later now n none = refl
good_later now n (some (acc, exp)) = ground arith

-- A token without a session, for whatever reason, has no entry that counts.
dropped :
    (now c u : ℕ) (xs : List MailSession) (e : ℕ → Option (ℕ × ℕ))
    → good now (e c) ≡ none
    → ((v : ℕ) → good now (view (find_first (session_is v) xs)) ≡ good now (e v))
    → good now (view (find_first (session_is u) (without c xs))) ≡ good now (e u)
unfolding good
dropped now c u xs e gone hs = elim (Bool-cases (c == u)) [
  | inl h ↦ at_self ((==_iff c u).0 h)
  | inr h ↦ ap (λ o. good now (view o)) (find-without_other c u xs h) ∙ hs u
]
  where
    at_self : c ≡ u → good now (view (find_first (session_is u) (without c xs))) ≡ good now (e u)
    at_self q =
        subst (λ v. good now (view (find_first (session_is v) (without c xs))) ≡ good now (e v)) q
          (ap (λ o. good now (view o)) (find-without_self c xs) ∙ sym gone)

account_of_found :
    (w : Site) (c : ℕ) (o : Option MailSession)
    → (session_account w c o).1 ≡ owner_of w.store (good w.state.clock (view o))
unfolding session_account good
account_of_found w c none = refl
account_of_found w c (some x) = pick (ltb x.exp w.state.clock)
  where
    pick :
        (b : Bool)
        → (if◌then◌else◌ {A = Site × Option Account} b
            (record w { mail_sessions = keep (λ y. not (session_is c y)) w.mail_sessions }, none)
            (w, account_of (get_account w.store x.acc_id))).1
          ≡ owner_of w.store (if b then none else some (x.acc_id, x.exp))
    pick true = refl
    pick false = refl

session_account-Agrees :
    (w : Site) (t : Table) (c : ℕ) (o : Option MailSession)
    → Agrees w t
    → find_first (session_is c) w.mail_sessions ≡ o
    → Agrees (session_account w c o).0 t
unfolding session_account without
session_account-Agrees w t c none g e = g
session_account-Agrees w t c (some x) g e = elim (Bool-cases (ltb x.exp w.state.clock)) [
  | inr h ↦ rw h g
  | inl h ↦ rw h (record {
    clocks = g.clocks;
    tokens = g.tokens;
    entries = λ u. dropped t.now c u w.mail_sessions t.entry (over h) g.entries;
  })
]
  where
    expired :
        (now : ℕ)
        → w.state.clock ≡ now
        → ltb x.exp w.state.clock ≡ true
        → good now (view (some x)) ≡ none
    expired now q h = unfold good in ground arith

    over : ltb x.exp w.state.clock ≡ true → good t.now (t.entry c) ≡ none
    over h = sym (g.entries c) ∙ (ap (λ p. good t.now (view p)) e ∙ expired t.now g.clocks h)

pub session_account-store :
    (w : Site) (t : ℕ) (x : Option MailSession) → (session_account w t x).0.store ≡ w.store
unfolding session_account
session_account-store w t none = refl
session_account-store w t (some x) = ground arith

entered :
    (now c u : ℕ) (x : MailSession) (xs : List MailSession) (e : ℕ → Option (ℕ × ℕ))
    → x.token ≡ c
    → good now (view (find_first (session_is u) xs)) ≡ good now (e u)
    → good now (view (find_first (session_is u) (x ∷ xs)))
      ≡ good now (with_entry c (some (x.acc_id, x.exp)) e u)
entered now c u x xs e q h =
    subst
      (λ d.
        good now (view (find_first (session_is u) (x ∷ xs)))
        ≡ good now (with_entry d (some (x.acc_id, x.exp)) e u))
      q (pick (x.token == u))
  where
    pick :
        (b : Bool)
        → good now (view (if b then some x else find_first (session_is u) xs))
          ≡ good now (if b then some (x.acc_id, x.exp) else e u)
    pick true = refl
    pick false = h

-- One visit on both sides.
record Same (w v : Site) (t u : Table) (x y : Answer) : Type 0 where
  pub after : Agrees v u
  pub answered : x ≡ y
  pub kept : v.store ≡ w.store

enter-Same :
    (w : Site) (t : Table) (a : Account)
    → Agrees w t
    → Same w
        (start_mail_session w a).0
        t
        (table_step w.store t (enter a)).0
        (opened w.next_mail_token)
        (opened t.fresh)
unfolding start_mail_session table_step
enter-Same w t a g = record {
  after = record {
    clocks = g.clocks;
    tokens = ap (λ k. k + 1) g.tokens;
    entries = λ u.
        subst
          (λ k.
            good t.now (
              view (
                find_first (session_is u) (
                  record { token = w.next_mail_token; acc_id = a.id; exp = k + week }
                  ∷ w.mail_sessions)))
            ≡ good t.now (with_entry t.fresh (some (a.id, t.now + week)) t.entry u))
          (sym g.clocks) (entered t.now t.fresh u _ w.mail_sessions t.entry g.tokens (g.entries u));
  };
  answered = ap opened g.tokens;
  kept = refl;
}

left_entries :
    (now c u : ℕ) (xs : List MailSession) (e : ℕ → Option (ℕ × ℕ))
    → good now (view (find_first (session_is u) xs)) ≡ good now (e u)
    → good now (view (find_first (session_is u) (without c xs))) ≡ good now (with_entry c none e u)
left_entries now c u xs e h = elim (Bool-cases (c == u)) [
  | inr ne ↦ rw ne (ap (λ o. good now (view o)) (find-without_other c u xs ne) ∙ h)
  | inl eq ↦ rw eq (
      ap (λ o. good now (view o))
        (subst (λ d. find_first (session_is d) (without c xs) ≡ none) ((==_iff c u).0 eq)
          (find-without_self c xs)))
]

leave-Same :
    (w : Site) (t : Table) (o : Option ℕ)
    → Agrees w t
    → Same w
        (elim o as (λ c. Site × Response) [
          | none ↦ (w, success done)
          | some c ↦ (
            record w { mail_sessions = keep (λ x. not (session_is c x)) w.mail_sessions },
            success done,
          )
        ]).0
        t
        (left_table t o)
        closed
        closed
unfolding without
leave-Same w t none g = record { after = g; answered = refl; kept = refl }
leave-Same w t (some c) g = record {
  after = record {
    clocks = g.clocks;
    tokens = g.tokens;
    entries = λ u. left_entries t.now c u w.mail_sessions t.entry (g.entries u);
  };
  answered = refl;
  kept = refl;
}

looked :
    (w : Site) (t : Table) (c : ℕ)
    → Agrees w t
    → (session_account w c (find_first (session_is c) w.mail_sessions)).1
      ≡ owner_of w.store (good t.now (t.entry c))
looked w t c g =
    account_of_found w c (find_first (session_is c) w.mail_sessions)
    ∙ (ap (λ k. owner_of w.store (good k (view (find_first (session_is c) w.mail_sessions))))
          g.clocks
        ∙ ap (owner_of w.store) (g.entries c))

visit-Same :
    (w : Site) (t : Table) (v : Visit)
    → Agrees w t
    → let r = visit w v in let q = table_step w.store t v in Same w r.0 t q.0 r.1 q.1
unfolding visit table_step by_session
visit-Same w t (enter a) g = enter-Same w t a g
visit-Same w t (leave r) g = unfold handle_mail_logout in leave-Same w t r.mail_cookie g
visit-Same w t (look c) g = record {
  after = session_account-Agrees w t c (find_first (session_is c) w.mail_sessions) g refl;
  answered = ap found (looked w t c g);
  kept = session_account-store w c (find_first (session_is c) w.mail_sessions);
}
visit-Same w t (wait n) g = record {
  after = record {
    clocks = ap (λ k. k + n) g.clocks;
    tokens = g.tokens;
    entries = λ c.
        sym (good_later t.now n _) ∙ (ap (good (t.now + n)) (g.entries c) ∙ good_later t.now n _);
  };
  answered = refl;
  kept = refl;
}

-- The webmail sessions implement the table of tokens: for any sequence of logins, logouts, uses of
-- a token and waits, the answers of the handlers are those of the table, in which an account stays
-- under its token until the token is logged out or its week is over.
pub answers_lem :
    (w : Site) (t : Table) (vs : List Visit)
    → Agrees w t
    → answers w vs ≡ table_answers w.store t vs
unfolding answers table_answers
answers_lem w t [] g = refl
answers_lem w t (v ∷ vs) g =
    let h = visit-Same w t v g in
    let next = answers_lem (visit w v).0 (table_step w.store t v).0 vs h.after in
    let rest = next ∙ ap (λ s. table_answers s (table_step w.store t v).0 vs) h.kept in
    ap (λ xs. (visit w v).1 ∷ xs) rest
    ∙ ap (λ x. x ∷ table_answers w.store (table_step w.store t v).0 vs) h.answered
