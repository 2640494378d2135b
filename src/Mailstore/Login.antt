-- ===== src/Mailstore/Login.antt =====
-- What a login with VerifyLocalLogin takes: internal/mailstore/store.go.
use cloudpost.Prelude.{
  Bool, Bool-cases, List, Option, [], ap, arith, false, find_first, if◌then◌else◌, inl, inr, is_nil,
  none, refl, some, subst, true, ◌&&◌, ◌∙◌, ◌∷◌, ◌≡◌,
}
use cloudpost.Text.{Text, eqb, eqb_iff}
use cloudpost.Mailstore.Accounts.{get_account_by_address, normalize_addr, verify_local_login}
use cloudpost.Mailstore.Schema.{
  Account, External, Kind, Result, Store, err, from_option, kind_eqb, local, no_rows, ok, remote,
}

find_first-test {ℓ} :
    {A : Type ℓ} (p : A → Bool) (xs : List A) (a : A) → find_first p xs ≡ some a → p a ≡ true
find_first-test {A = A} p [] a h = absurd (nothing h)
  where
    nothing : ◌≡◌ {A = Option A} none (some a) → ⊥
    nothing q = cc
find_first-test {A = A} p (x ∷ xs) a h = elim (Bool-cases (p x)) [
  | inl hit ↦ subst (λ y. p y ≡ true) (same (rw hit at h)) hit
  | inr miss ↦ find_first-test p xs a (rw miss at h)
]
  where
    same : ◌≡◌ {A = Option A} (some x) (some a) → x ≡ a
    same q = cc

-- The account is the local one that the address names, and its hash is there and is that of the
-- password.
pub record IsLogin (ext : External) (s : Store) (address password : Text) (a : Account)
    : Type 0 where
  pub found : get_account_by_address s address ≡ ok a
  pub kind_is : a.kind ≡ local
  pub address_is : a.address ≡ normalize_addr address
  pub has_hash : is_nil a.password_hash ≡ false
  pub matched : ext.password_matches a.password_hash password ≡ true

abbrev is_named : Text → Account → Bool
is_named address a = kind_eqb a.kind local && eqb a.address (normalize_addr address)

local_of : (k : Kind) → kind_eqb k local ≡ true → k ≡ local
unfolding kind_eqb
local_of local h = refl
local_of remote h = cc

named_row :
    (s : Store) (address : Text) (a : Account)
    → get_account_by_address s address ≡ ok a
    → is_named address a ≡ true
unfolding get_account_by_address
named_row s address a h = at_row (find_first (is_named address) s.accounts) refl h
  where
    at_row :
        (o : Option Account)
        → find_first (is_named address) s.accounts ≡ o
        → from_option no_rows o ≡ ok a
        → is_named address a ≡ true
    at_row none e q = absurd (refused q)
      where
        refused : ◌≡◌ {A = Result Account} (err no_rows) (ok a) → ⊥
        refused p = cc
    at_row (some b) e q = find_first-test (is_named address) s.accounts a (e ∙ ap some (same q))
      where
        same : ◌≡◌ {A = Result Account} (ok b) (ok a) → b ≡ a
        same p = cc

pub verify_local_login-IsLogin :
    (ext : External) (s : Store) (address password : Text) (a : Account)
    → verify_local_login ext s address password ≡ some a
    → IsLogin ext s address password a
unfolding verify_local_login
verify_local_login-IsLogin ext s address password a h =
    at_row (get_account_by_address s address) refl h
  where
    checked :
        (b : Account) (x y : Bool)
        → get_account_by_address s address ≡ ok b
        → is_nil b.password_hash ≡ x
        → ext.password_matches b.password_hash password ≡ y
        → ◌≡◌ {A = Option Account} (if x then none else if y then some b else none) (some a)
        → IsLogin ext s address password a
    checked b true y e p q k = cc
    checked b false false e p q k = cc
    checked b false true e p q k = subst (IsLogin ext s address password) (same k) (record {
      found = e;
      kind_is = local_of b.kind (ground (arith, named_row s address b e));
      address_is =
          (eqb_iff b.address (normalize_addr address)).0 (ground (arith, named_row s address b e));
      has_hash = p;
      matched = q;
    })
      where
        same : ◌≡◌ {A = Option Account} (some b) (some a) → b ≡ a
        same r = cc

    at_row :
        (r : Result Account)
        → get_account_by_address s address ≡ r
        → ◌≡◌ {A = Option Account}
            (elim r as (λ x. Option Account) [
              | err e ↦ none
              | ok b ↦
                  if is_nil b.password_hash
                  then none
                  else if ext.password_matches b.password_hash password
                  then some b
                  else none
            ])
            (some a)
        → IsLogin ext s address password a
    at_row (err e) p q = cc
    at_row (ok b) p q =
        checked b (is_nil b.password_hash) (ext.password_matches b.password_hash password) p refl
          refl q
