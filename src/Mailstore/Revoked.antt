-- ===== src/Mailstore/Revoked.antt =====
-- A revoked API token.
use cloudpost.Prelude.{
  Bool, Bool-cases, List, Option, [], any, ap, arith, false, find_first, if◌then◌else◌, inl, inr,
  none, not, refl, some, subst, sym, true, update_where, ◌||◌, ◌∷◌, ◌≡◌,
}
use cloudpost.Text.{Text, eqb, has_prefix, trim_space}
use cloudpost.Mailstore.Schema.{ApiToken, External, Store, ok}
use cloudpost.Mailstore.Tokens.{
  account_by_api_token, revoke_api_token, token_is, token_prefix, use_token,
}

module _ {A : Type 0} (p q : A → Bool) (f : A → A) (alike : (y : A) → p (f y) ≡ p y) where
  rewritten : (b : Bool) (y : A) → p (if b then f y else y) ≡ p y
  rewritten true y = alike y
  rewritten false y = refl

  find-update_where :
      (xs : List A) (x : A)
      → find_first p xs ≡ some x
      → find_first p (update_where q f xs) ≡ some (if q x then f x else x)
  find-update_where [] x h = cc
  find-update_where (y ∷ ys) x h = elim (Bool-cases (p y)) [
    | inl e ↦
        rw (rewritten (q y) y, e) (ap (λ z. some (if q z then f z else z)) (first (rw e at h)))
    | inr e ↦ rw (rewritten (q y) y, e) (find-update_where ys x (rw e at h))
  ]
    where
      first : ◌≡◌ {A = Option A} (some y) (some x) → y ≡ x
      first k = cc

or_right : (a b : Bool) → b ≡ true → (a || b) ≡ true
or_right true b h = refl
or_right false b h = h

module _ {A : Type 0} (p q : A → Bool) where
  any-find : (xs : List A) (x : A) → find_first p xs ≡ some x → q x ≡ true → any q xs ≡ true
  any-find [] x h k = cc
  any-find (y ∷ ys) x h k = elim (Bool-cases (p y)) [
    | inl e ↦ rw (subst (λ z. q z ≡ true) (sym (first (rw e at h))) k) refl
    | inr e ↦ or_right (q y) (any q ys) (any-find ys x (rw e at h) k)
  ]
    where
      first : ◌≡◌ {A = Option A} (some y) (some x) → y ≡ x
      first z = cc

-- What RevokeAPIToken takes back: after it the token logs in no one, whatever text with its hash
-- comes, and the store stays as it is.
pub account_by_api_token-revoke :
    (ext : External) (s : Store) (t : ApiToken) (text : Text)
    → find_first (λ u. eqb u.token_hash (ext.token_hash (trim_space text))) s.tokens ≡ some t
    → let r = revoke_api_token s t.account_id t.id in
      (r.1 ≡ ok tt) × (account_by_api_token ext r.0 text ≡ (r.0, ok none))
unfolding revoke_api_token account_by_api_token use_token
account_by_api_token-revoke ext s t text h =
    let there =
      any-find (λ u. eqb u.token_hash (ext.token_hash (trim_space text)))
        (token_is t.account_id t.id) s.tokens t h (own t) in
    rw there (
      refl,
      elim (Bool-cases (not (has_prefix (trim_space text) token_prefix))) [
        | inl e ↦ rw e refl
        | inr e ↦
            rw
              (
                e,
                find-update_where (λ u. eqb u.token_hash (ext.token_hash (trim_space text)))
                    (token_is t.account_id t.id) (λ u. record u { revoked = true }) (λ u. refl)
                    s.tokens t h,
                own t,
              )
              refl
      ],
    )
  where
    own : (u : ApiToken) → token_is u.account_id u.id u ≡ true
    own u = ground arith
