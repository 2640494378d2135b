-- ===== src/Web/Wiped.antt =====
-- What a confirmed factory reset was asked with, and what it leaves.
use cloudpost.Prelude.{
  Bool, Bool-cases, Option, [], ap, arith, false, if◌then◌else◌, inl, inr, is_some, ltb, ltb→lt,
  none, option_both, refl, some, subst, sym, true, ℕ, ◌&&◌, ◌<◌, ◌≡◌,
}
use cloudpost.Text.{Text, codes, decimal, eqb, eqb_iff}
use cloudpost.Installation.Runtime.{State, factory_reset, installed_now}
use cloudpost.Installation.Sessions.{factory_reset_lem}
use cloudpost.Web.Admin.Reset.{
  admin_reset_confirm, confirm, do_full_reset, reset_tables, token_valid, wipe_blobs,
}
use cloudpost.Web.Auth.{admin_auth, read_two}
use cloudpost.Web.Http.{Request, Response, Site, done, failure, success}

-- Every table and file of the mail is empty, and no one is logged in.
pub record IsWiped (w : Site) : Type 0 where
  pub accounts : w.store.accounts ≡ []
  pub folders : w.store.folders ≡ []
  pub messages : w.store.messages ≡ []
  pub filters : w.store.filters ≡ []
  pub tokens : w.store.tokens ≡ []
  pub scheduled : w.store.scheduled ≡ []
  pub blobs : w.store.blobs ≡ []
  pub scheduled_files : w.store.scheduled_files ≡ []
  pub queue : w.outbound.items ≡ []
  pub queue_files : w.outbound.files ≡ []
  pub seen_uidls : w.remote_state.uidls ≡ []
  pub validities : w.remote_state.uid_validity ≡ []
  pub last_uids : w.remote_state.last_uid ≡ []
  pub mail_sessions : w.mail_sessions ≡ []
  pub admin_sessions : (t : ℕ) → (admin_auth w (some t)).1 ≡ false
  pub not_installed : installed_now w.state ≡ false

-- The token that was offered, not yet expired, and the phrase.
pub record IsOffered (w : Site) (text phrase : Text) : Type 0 where
  pub token : ℕ
  pub offered : w.reset_token ≡ some token
  pub same_text : text ≡ decimal token
  pub in_time : w.state.clock < w.reset_exp
  pub same_phrase : phrase ≡ codes "RESET"

pub both_true : (a b : Bool) → (a && b) ≡ true → (a ≡ true) × (b ≡ true)
both_true true b h = (refl, h)
both_true false b h = cc

token_valid_lem :
    (w : Site) (text : Text)
    → token_valid w text ≡ true
    → (t : ℕ) × (w.reset_token ≡ some t) × (text ≡ decimal t) × (w.state.clock < w.reset_exp)
unfolding token_valid
token_valid_lem w text h = pick w.reset_token refl h
  where
    pick :
        (x : Option ℕ)
        → w.reset_token ≡ x
        → (elim x as (λ y. Bool) [
          | none ↦ false
          | some t ↦ eqb text (decimal t) && ltb w.state.clock w.reset_exp
        ])
          ≡ true
        → (t : ℕ) × (w.reset_token ≡ some t) × (text ≡ decimal t) × (w.state.clock < w.reset_exp)
    pick none e q = cc
    pick (some t) e q =
        let (as_text, time) = both_true (eqb text (decimal t)) (ltb w.state.clock w.reset_exp) q in
        (t, e, (eqb_iff text (decimal t)).0 as_text, ltb→lt w.state.clock w.reset_exp time)

-- What the reset makes of the site, given the state after FactoryReset.
abbrev wiped_with : Site → State → Site
wiped_with w st = record (wipe_blobs (reset_tables w)) { state = st; mail_sessions = [] }

full_reset_ok :
    (w : Site)
    → (do_full_reset w).1 ≡ true
    → ((factory_reset w.state).1 ≡ true)
      × ((do_full_reset w).0 ≡ wiped_with w (factory_reset w.state).0)
unfolding do_full_reset reset_tables wipe_blobs
full_reset_ok w h = pick (factory_reset w.state) h
  where
    pick :
        (r : State × Bool)
        → (if◌then◌else◌ {A = Site × Bool} r.1
            (wiped_with w r.0, true)
            (record (wipe_blobs (reset_tables w)) { state = r.0 }, false)).1
          ≡ true
        → (r.1 ≡ true)
          × ((if◌then◌else◌ {A = Site × Bool} r.1
                (wiped_with w r.0, true)
                (record (wipe_blobs (reset_tables w)) { state = r.0 }, false)).0
              ≡ wiped_with w r.0)
    pick (st, true) q = (refl, refl)
    pick (st, false) q = cc

full_reset-IsWiped : (w : Site) → (do_full_reset w).1 ≡ true → IsWiped (do_full_reset w).0
unfolding reset_tables wipe_blobs admin_auth
full_reset-IsWiped w h =
    let (cleared, e) = full_reset_ok w h in
    subst IsWiped (sym e) (record {
      accounts = refl;
      folders = refl;
      messages = refl;
      filters = refl;
      tokens = refl;
      scheduled = refl;
      blobs = refl;
      scheduled_files = refl;
      queue = refl;
      queue_files = refl;
      seen_uidls = refl;
      validities = refl;
      last_uids = refl;
      mail_sessions = refl;
      admin_sessions = λ t. ap is_some (factory_reset_lem w.state t cleared).0;
      not_installed = (factory_reset_lem w.state 0 cleared).1;
    })

not_200 : ◌≡◌ {A = ℕ} 400 200 → ⊥
not_200 h = omega arith

record Confirmed (w : Site) (text phrase : Text) (p : Site × Response) : Type 0 where
  pub wiped : p.1.status ≡ 200 → IsOffered w text phrase × IsWiped p.0

confirm-Confirmed :
    (w : Site) (text phrase : Text) → Confirmed w text phrase (confirm w text phrase)
unfolding confirm
confirm-Confirmed w text phrase = elim (Bool-cases (token_valid w text)) [
  | inr e ↦ rw e (record { wiped = λ q. absurd (not_200 q) })
  | inl e ↦ elim (Bool-cases (eqb phrase (codes "RESET"))) [
    | inr f ↦ rw (e, f) (record { wiped = λ q. absurd (not_200 q) })
    | inl f ↦ rw (e, f) (record { wiped = λ q. (offered e f, done_so q) })
  ]
]
  where
    w1 : Site
    w1 = record w { reset_token = none; reset_exp = 0 }

    offered :
        token_valid w text ≡ true → eqb phrase (codes "RESET") ≡ true → IsOffered w text phrase
    offered e f =
        let (t, o, s, time) = token_valid_lem w text e in
        record {
          token = t;
          offered = o;
          same_text = s;
          in_time = time;
          same_phrase = (eqb_iff phrase (codes "RESET")).0 f;
        }

    done_so :
        (if (do_full_reset w1).1 then success done else failure 500).status ≡ 200
        → IsWiped (do_full_reset w1).0
    done_so q = elim (Bool-cases (do_full_reset w1).1) [
      | inl e ↦ full_reset-IsWiped w1 e
      | inr e ↦ absurd (no (rw e at q))
    ]
      where
        no : ◌≡◌ {A = ℕ} 500 200 → ⊥
        no x = omega arith

-- A confirmation that is answered 200 carried the token that was last offered, in its time, and the
-- phrase RESET, and afterwards there is no account, folder, message, rule or token, no delayed or
-- queued mail, no file of these, nothing kept of the remote mailboxes, no session of either kind
-- that is good, and the instance is not installed.
pub admin_reset_confirm-IsWiped :
    (w : Site) (r : Request)
    → (admin_reset_confirm w r).1.status ≡ 200
    → (text : Text) × (phrase : Text) × (read_two r.body (codes "token") (codes "phrase")
        ≡ some (text, phrase))
      × IsOffered w text phrase
      × IsWiped (admin_reset_confirm w r).0
unfolding admin_reset_confirm
admin_reset_confirm-IsWiped w r h = pick (read_two r.body (codes "token") (codes "phrase")) refl h
  where
    run : Option (Text × Text) → Site × Response
    run o = elim o [ none ↦ (w, failure 400) | some (text, phrase) ↦ confirm w text phrase ]

    pick :
        (o : Option (Text × Text))
        → read_two r.body (codes "token") (codes "phrase") ≡ o
        → (run o).1.status ≡ 200
        → (text : Text) × (phrase : Text) × (read_two r.body (codes "token") (codes "phrase")
            ≡ some (text, phrase))
          × IsOffered w text phrase
          × IsWiped (run o).0
    pick none e q = absurd (not_200 q)
    pick (some (text, phrase)) e q =
        let (off, gone) = (confirm-Confirmed w text phrase).wiped q in (text, phrase, e, off, gone)

confirm-spent : (w : Site) (text phrase : Text) → (confirm w text phrase).0.reset_token ≡ none
unfolding confirm do_full_reset reset_tables wipe_blobs
confirm-spent w text phrase = ground arith

-- The answer 400 of a handler that left the mail alone.
record Denied (w : Site) (p : Site × Response) : Type 0 where
  pub status : p.1.status ≡ 400
  pub store : p.0.store ≡ w.store
  pub outbound : p.0.outbound ≡ w.outbound

confirm-Denied :
    (w : Site) (text phrase : Text) → w.reset_token ≡ none → Denied w (confirm w text phrase)
unfolding confirm token_valid
confirm-Denied w text phrase h = rw h (record { status = refl; store = refl; outbound = refl })

admin_reset_confirm-Denied :
    (w : Site) (r : Request) → w.reset_token ≡ none → Denied w (admin_reset_confirm w r)
unfolding admin_reset_confirm
admin_reset_confirm-Denied w r h =
    option_both (Denied w) (read_two r.body (codes "token") (codes "phrase")) _ _
      (record { status = refl; store = refl; outbound = refl }) (λ p. confirm-Denied w p.0 p.1 h)

-- A token confirms once: after a confirmation that could be read, whatever it was answered, every
-- other one is answered 400 and changes nothing of the mail and of the queue.
pub admin_reset_confirm-once :
    (w : Site) (r q : Request) (text phrase : Text)
    → read_two r.body (codes "token") (codes "phrase") ≡ some (text, phrase)
    → let v = (admin_reset_confirm w r).0 in
      ((admin_reset_confirm v q).1.status ≡ 400)
      × ((admin_reset_confirm v q).0.store ≡ v.store)
      × ((admin_reset_confirm v q).0.outbound ≡ v.outbound)
admin_reset_confirm-once w r q text phrase h =
    let d = admin_reset_confirm-Denied (admin_reset_confirm w r).0 q spent in
    (d.status, d.store, d.outbound)
  where
    spent : (admin_reset_confirm w r).0.reset_token ≡ none
    spent = unfold admin_reset_confirm in rw (h, admin_reset_confirm) (confirm-spent w text phrase)
