-- ===== src/Mailstore/Tokens.antt =====
-- The API tokens of internal/mailstore/tokens.go. The random secret is an argument.
use cloudpost.Prelude.{
  Bool, List, Option, [], any, false, find_first, if◌then◌else◌, keep, leb, none, not, some,
  sort_by, true, update_where, ℕ, ◌&&◌, ◌++◌, ◌+◌, ◌-◌, ◌==◌, ◌||◌, ◌∷◌,
}
use cloudpost.Text.{Text, codes, eqb, has_prefix, trim_space}
use cloudpost.Mailstore.Accounts.{get_account}
use cloudpost.Mailstore.Folders.{account_id_is}
use cloudpost.Mailstore.Schema.{
  Account, ApiToken, External, Result, Store, constraint, err, no_such_token, ok,
}

abbrev pub token_prefix : Text
token_prefix = codes "cpat_"

-- Returns the row and the plain token, which is not stored. UNIQUE(token_hash).
unfoldable pub create_api_token :
    External → Store → ℕ → Text → Text → Store × Result (ApiToken × Text)
create_api_token ext s account label secret =
    let plain = token_prefix ++ secret in
    let row : ApiToken = record {
      id = s.next_token;
      account_id = account;
      token_hash = ext.token_hash plain;
      label = trim_space label;
      created_at = s.clock;
      last_used_at = 0;
      revoked = false;
    } in
    if any (account_id_is account) s.accounts
      && not (any (λ t. eqb t.token_hash (ext.token_hash plain)) s.tokens)
    then (
      record s { tokens = s.tokens ++ row ∷ []; next_token = s.next_token + 1 },
      ok (row, plain),
    )
    else (s, err constraint)

-- ORDER BY id DESC
unfoldable pub list_api_tokens : Store → ℕ → List ApiToken
unfolding sort_by
list_api_tokens s account =
    sort_by (λ t u. leb u.id t.id) (keep (λ t. t.account_id == account) s.tokens)

abbrev pub token_is : ℕ → ℕ → ApiToken → Bool
token_is account id t = t.id == id && t.account_id == account

unfoldable pub revoke_api_token : Store → ℕ → ℕ → Store × Result (Unit {0})
revoke_api_token s account id =
    if any (token_is account id) s.tokens
    then (
      record s {
        tokens = update_where (token_is account id) (λ t. record t { revoked = true }) s.tokens;
      },
      ok tt,
    )
    else (s, err no_such_token)

-- Refreshed once a minute at most.
abbrev touch : ℕ → ℕ → List ApiToken → List ApiToken
touch now id = update_where (λ t. t.id == id) (λ t. record t { last_used_at = now })

-- On what GetAccount returned.
unfoldable pub touched_by :
    Store → ApiToken → Result Account → Store × Result (Option (Account × ApiToken))
touched_by s t (err e) = (s, err e)
touched_by s t (ok a) = (
  if t.last_used_at == 0 || leb 60 (s.clock - t.last_used_at)
      then record s { tokens = touch s.clock t.id s.tokens }
      else s,
  ok (some (a, t)),
)

-- What follows the lookup of the hash.
unfoldable pub use_token : Store → ApiToken → Store × Result (Option (Account × ApiToken))
unfolding touched_by
use_token s t = if t.revoked then (s, ok none) else touched_by s t (get_account s t.account_id)

-- On the row that a hash finds.
abbrev pub looked_up : Store → Option ApiToken → Store × Result (Option (Account × ApiToken))
looked_up s none = (s, ok none)
looked_up s (some t) = use_token s t

-- The account of a bearer token; none for one that is unknown or revoked.
unfoldable pub account_by_api_token :
    External → Store → Text → Store × Result (Option (Account × ApiToken))
account_by_api_token ext s text =
    let plain = trim_space text in
    if not (has_prefix plain token_prefix)
    then (s, ok none)
    else looked_up s (find_first (λ t. eqb t.token_hash (ext.token_hash plain)) s.tokens)
