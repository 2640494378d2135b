-- ===== src/Mailstore/Search.antt =====
-- SearchMessages of internal/mailstore/store.go. SQLite's LIKE folds the letters of ASCII; a
-- pattern whose wildcards are escaped matches the texts that contain it.
use cloudpost.Prelude.{
  Bool, List, [], if◌then◌else◌, keep, leb, map, not, sort_by, take, ℕ, ◌&&◌, ◌++◌, ◌==◌, ◌∷◌,
}
use cloudpost.Text.{Text, codes, contains, eqb, join, lower}
use cloudpost.Mailstore.Flags.{deleted_flag, like}
use cloudpost.Mailstore.Messages.{page_limit}
use cloudpost.Mailstore.Schema.{Message, Store}

-- The JSON text of an address list. Quotes and other escapes do not occur in addresses.
unfoldable pub address_column : List Text → Text
unfolding join
address_column ts = b'[' ∷ (join (codes ",") (map (λ t. 34 ∷ (t ++ 34 ∷ [])) ts) ++ codes "]")

-- The expression that a field's name stands for.
unfoldable pub column_text : Text → Message → Text
unfolding eqb address_column
column_text field m =
    if eqb field (codes "subject")
    then m.subject
    else if eqb field (codes "from")
    then m.from_addr ++ (32 ∷ m.from_name)
    else if eqb field (codes "to")
    then address_column m.to_addrs
    else if eqb field (codes "body")
    then m.snippet
    else m.subject ++ (32 ∷ (m.from_addr ++ (32 ∷ m.from_name)))

unfoldable pub in_search : ℕ → Text → Text → Message → Bool
unfolding column_text lower contains like
in_search folder field q m =
    m.folder_id == folder
    && (contains (lower (column_text field m)) (lower q) && not (like deleted_flag m.flags))

-- ORDER BY sent_at DESC
abbrev sent_later : Message → Message → Bool
sent_later m n = leb n.sent_at m.sent_at

unfoldable pub search_messages : Store → ℕ → Text → Text → ℕ → List Message
unfolding in_search sort_by lower
search_messages s folder field q limit =
    take (page_limit limit)
      (sort_by sent_later (keep (in_search folder (lower field) q) s.messages))
