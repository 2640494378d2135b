-- ===== src/Sender/Attempts.antt =====
-- What one attempt at an item of the queue makes of its row.
use cloudpost.Prelude.{
  All, List, Option, [], ap, inl, inr, none, refl, some, ℕ, ◌++◌, ◌∙◌, ◌∷◌, ◌≡◌, ◌⊎◌,
}
use cloudpost.Text.{Text}
use cloudpost.Installation.Config.{Config}
use cloudpost.Mailstore.Schema.{read_file}
use cloudpost.Sender.Dkim.{dkim_sign}
use cloudpost.Sender.Queue.{Network, Outbound, QueueItem, deliver_item, or_else, send_all, send_one}
use cloudpost.Sender.Retries.{outcome, row_of, row_of-deliver_raw}

-- The last recipient that was refused, with the error; all behind it were accepted.
pub record LastRefused (answer : Text → Option Text) (rs : List Text) : Type 0 where
  pub rcpt : Text
  pub before : List Text
  pub after : List Text
  pub error : Text
  pub among : rs ≡ before ++ rcpt ∷ after
  pub refused : answer rcpt ≡ some error
  pub accepted_after : All (λ r. answer r ≡ none) after

send_all_lem :
    (net : Network) (now : ℕ) (cfg : Option Config) (from raw : Text) (rs : List Text)
    (last : Option Text)
    → (All (λ r. send_one net now cfg from raw r ≡ none) rs
        × (send_all net now cfg from raw rs last ≡ last))
      ⊎ ((l : LastRefused (send_one net now cfg from raw) rs) × (send_all net now cfg from raw rs
              last
            ≡ some l.error))
unfolding send_all
send_all_lem net now cfg from raw [] last = inl (tt, refl)
send_all_lem net now cfg from raw (r ∷ rs) last =
    later (send_all_lem net now cfg from raw rs (or_else (send_one net now cfg from raw r) last))
  where
    Answer : Option Text → Option Text → Type 0
    Answer old out =
        (All (λ x. send_one net now cfg from raw x ≡ none) (r ∷ rs) × (out ≡ old))
        ⊎ ((l : LastRefused (send_one net now cfg from raw) (r ∷ rs)) × (out ≡ some l.error))

    here :
        (one : Option Text)
        → send_one net now cfg from raw r ≡ one
        → All (λ x. send_one net now cfg from raw x ≡ none) rs
        → (out : Option Text) → out ≡ or_else one last
        → Answer last out
    here none e all out q = inl ((e, all), q)
    here (some error) e all out q = inr (
      record {
        rcpt = r;
        before = [];
        after = rs;
        error = error;
        among = refl;
        refused = e;
        accepted_after = all;
      },
      q,
    )

    later :
        (All (λ x. send_one net now cfg from raw x ≡ none) rs
            × (send_all net now cfg from raw rs (or_else (send_one net now cfg from raw r) last)
                ≡ or_else (send_one net now cfg from raw r) last))
          ⊎ ((l : LastRefused (send_one net now cfg from raw) rs) × (send_all net now cfg from raw
                  rs
                  (or_else (send_one net now cfg from raw r) last)
                ≡ some l.error))
        → Answer last
            (send_all net now cfg from raw rs (or_else (send_one net now cfg from raw r) last))
    later (inl (all, e)) = here (send_one net now cfg from raw r) refl all _ e
    later (inr (l, e)) = inr (
      record {
        rcpt = l.rcpt;
        before = r ∷ l.before;
        after = l.after;
        error = l.error;
        among = ap (◌∷◌ r) l.among;
        refused = l.refused;
        accepted_after = l.accepted_after;
      },
      e,
    )

-- One attempt at an item whose row and file are there. Either every recipient accepted the signed
-- message, and the row is sent; or some recipient refused it, and with the error of the last that
-- did the row stays pending, up to the seventh attempt, with one attempt more, due again after 60
-- seconds times 2 to the number of attempts made, and is failed by the eighth.
pub row_of-deliver_item :
    (net : Network) (cfg : Option Config) (o : Outbound) (it : QueueItem) (raw : Text)
    → read_file it.data_path o.files ≡ some raw
    → row_of o it.id ≡ some it
    → let (signed, _) = (dkim_sign net.signer cfg o.cache it.from raw).1 in
      let answer = send_one net o.clock cfg it.from signed in
      (All (λ r. answer r ≡ none) it.recipients
        × (row_of (deliver_item net cfg o it) it.id ≡ some (outcome o.clock it none)))
      ⊎ ((l : LastRefused answer it.recipients) × (row_of (deliver_item net cfg o it) it.id
            ≡ some (outcome o.clock it (some l.error))))
row_of-deliver_item net cfg o it raw file row =
    let (signed, _) = (dkim_sign net.signer cfg o.cache it.from raw).1 in
    let written = row_of-deliver_raw net cfg o it raw file row in
    elim (send_all_lem net o.clock cfg it.from signed it.recipients none) [
      | inl (all, e) ↦ inl (all, written ∙ ap (λ x. some (outcome o.clock it x)) e)
      | inr (l, e) ↦ inr (l, written ∙ ap (λ x. some (outcome o.clock it x)) e)
    ]
