-- ===== src/Web/Keeps.antt =====
-- The invariant of the store under the web handlers: what the proofs about their parts share.
pub mod Mailbox
pub mod Compose
pub mod Admin
pub mod Same
pub mod Dkim
pub mod Settings
pub mod Routes
pub mod Logins
pub mod Whole
use cloudpost.Prelude.{ℕ}
use cloudpost.Mailstore.Invariant.{IsWellFormed}
use cloudpost.Mailstore.Schema.{Error, Result, Store, err, ok}
use cloudpost.Web.Http.{Body, Response, Site}
use cloudpost.Web.Mailbox.{on_store}

pub record Keeps (low : ℕ → ℕ) (p : Site × Response) : Type 0 where
  pub formed : IsWellFormed low p.0.store

pub stays : {low : ℕ → ℕ} (w : Site) (b : Response) → IsWellFormed low w.store → Keeps low (w, b)
stays w b h = record { formed = h }

-- A property of both cases of a split on a result.
pub result_both {ℓ κ μ} :
    {A : Type ℓ} {B : Type κ} (P : B → Type μ) (r : Result A) (f : Error → B) (g : A → B)
    → ((e : Error) → P (f e))
    → ((a : A) → P (g a))
    → P (elim r [ err e ↦ f e | ok a ↦ g a ])
result_both P (err e) f g hf hg = hf e
result_both P (ok a) f g hf hg = hg a

pub on_store-Keeps {ℓ} :
    {A : Type ℓ} {low : ℕ → ℕ} (w : Site) (r : Store × Result A) (b : Body) (n : ℕ)
    → IsWellFormed low r.0
    → Keeps low (on_store w r b n)
on_store-Keeps w (s, ok a) b n h = record { formed = h }
on_store-Keeps w (s, err e) b n h = record { formed = h }
