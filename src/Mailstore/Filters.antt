-- ===== src/Mailstore/Filters.antt =====
-- The filter rows of internal/mailstore/store_filters.go.
use cloudpost.Prelude.{
  Bool, List, Option, [], any, find_first, if◌then◌else◌, keep, leb, ltb, not, sort_by,
  update_where, ℕ, ◌&&◌, ◌++◌, ◌+◌, ◌==◌, ◌∷◌,
}
use cloudpost.Text.{Text}
use cloudpost.Mailstore.Folders.{account_id_is, ensure_folder}
use cloudpost.Mailstore.Messages.{move_messages}
use cloudpost.Mailstore.Schema.{Filter, Result, Store, constraint, err, ok}

abbrev filter_before : Filter → Filter → Bool
filter_before f g = if f.position == g.position then leb f.id g.id else ltb f.position g.position

-- ORDER BY position, id
unfoldable pub list_filters : Store → ℕ → List Filter
unfolding sort_by
list_filters s account = sort_by filter_before (keep (λ f. f.account_id == account) s.filters)

abbrev max_position : List Filter → ℕ
max_position [] = 0
max_position (f ∷ fs) =
    let rest = max_position fs in if ltb rest f.position then f.position else rest

-- COALESCE(MAX(position),0)+1 unless the caller gives a position
unfoldable pub create_filter : Store → Filter → Store × Result Filter
create_filter s f =
    let last = max_position (keep (λ g. g.account_id == f.account_id) s.filters) in
    let row = record f {
      id = s.next_filter;
      position = if ltb 0 f.position then f.position else last + 1;
    } in
    if any (account_id_is f.account_id) s.accounts
    then (record s { filters = s.filters ++ row ∷ []; next_filter = s.next_filter + 1 }, ok row)
    else (s, err constraint)

-- A filter that is not there is no error.
unfoldable pub get_filter : Store → ℕ → ℕ → Option Filter
get_filter s account id = find_first (λ f. f.account_id == account && f.id == id) s.filters

unfoldable pub update_filter : Store → Filter → Store
update_filter s f = record s {
  filters =
      update_where (λ g. g.account_id == f.account_id && g.id == f.id)
        (λ g. record f { id = g.id; account_id = g.account_id }) s.filters;
}

unfoldable pub delete_filter : Store → ℕ → ℕ → Store
delete_filter s account id = record s {
  filters = keep (λ f. not (f.account_id == account && f.id == id)) s.filters;
}

-- On what EnsureFolder returned.
unfoldable pub move_after : ℕ → ℕ → Store × Result ℕ → Store × Result (Unit {0})
move_after account id (s, ok to) = (move_messages s account to (id ∷ []), ok tt)
move_after account id (s, err e) = (s, err e)

-- Moves a message into the folder of that name, which is created when missing.
unfoldable pub move_to_folder_name : Store → ℕ → ℕ → Text → Store × Result (Unit {0})
unfolding move_after
move_to_folder_name s account id name = move_after account id (ensure_folder s account name [])
