-- ===== src/Engine/Rules.antt =====
-- Matching, the actions, and `Apply` of internal/filter/filter.go.
use cloudpost.Prelude.{Bool, List, [], if◌then◌else◌, is_nil, not, ℕ, ◌&&◌, ◌++◌, ◌∷◌}
use cloudpost.Text.{
  Text, codes, contains, eqb, equal_fold, has_prefix, has_suffix, lower, trim_space,
}
use cloudpost.Mailstore.Accounts.{get_account_by_address_any}
use cloudpost.Mailstore.Filters.{list_filters, move_to_folder_name}
use cloudpost.Mailstore.Flags.{add, flagged_flag, seen_flag}
use cloudpost.Mailstore.Folders.{folder_by_name, inbox_name}
use cloudpost.Mailstore.Messages.{delete_messages, deliver, get_message_raw, no_opts, set_flags}
use cloudpost.Mailstore.Schema.{Account, External, Filter, Listed, Message, Result, Store, err, ok}

-- What a rule looks at: the texts that Apply is given.
pub record Mail : Type 0 where
  pub subject : Text
  pub from : Text
  pub to : Text
  pub body : Text

abbrev nl : Text → Text → Text
nl s t = s ++ 10 ∷ t

unfoldable pub haystack : Text → Mail → Text
unfolding eqb
haystack field m =
    if eqb field (codes "from")
    then m.from
    else if eqb field (codes "to")
    then m.to
    else if eqb field (codes "subject")
    then m.subject
    else if eqb field (codes "body")
    then nl m.subject m.body
    else nl m.from (nl m.to (nl m.subject m.body))

-- A pattern that does not compile matches nothing.
unfoldable pub matches : External → Text → Text → Text → Bool
unfolding eqb equal_fold trim_space has_prefix has_suffix lower contains
matches ext op value hay =
    if eqb op (codes "equals")
    then equal_fold (trim_space hay) value
    else if eqb op (codes "starts")
    then has_prefix (lower hay) (lower value)
    else if eqb op (codes "ends")
    then has_suffix (lower hay) (lower value)
    else if eqb op (codes "regex")
    then ext.regex_match value hay
    else contains (lower hay) (lower value)

-- A rule that is enabled and matches.
unfoldable pub hits : External → Mail → Filter → Bool
unfolding haystack matches
hits ext m f = f.enabled && matches ext f.cond_op f.cond_value (haystack f.cond_field m)

-- The original goes only after the copy came in.
unfoldable pub after_copy : ℕ → ℕ → Store × Result (ℕ × ℕ) → Store
after_copy account id (s, ok ids) = delete_messages s account (id ∷ [])
after_copy account id (s, err e) = s

unfoldable pub copy_over : External → Store → ℕ → ℕ → ℕ → ℕ → Result (Text × Message) → Store
unfolding after_copy
copy_over ext s account id target inbox (err e) = s
copy_over ext s account id target inbox (ok (raw, m)) =
    after_copy account id (deliver ext s target inbox raw no_opts)

abbrev pub into_inbox : External → Store → ℕ → ℕ → ℕ → Result Listed → Store
into_inbox ext s account id target (err e) = s
into_inbox ext s account id target (ok f) =
    copy_over ext s account id target f.id (get_message_raw s account id)

abbrev pub to_account : External → Store → ℕ → ℕ → Result Account → Store
to_account ext s account id (err e) = s
to_account ext s account id (ok t) =
    into_inbox ext s account id t.id (folder_by_name s t.id inbox_name)

unfoldable pub move_account : External → Store → ℕ → ℕ → Text → Store
unfolding lower trim_space copy_over
move_account ext s account id target =
    to_account ext s account id (get_account_by_address_any s (lower (trim_space target)))

-- The action of a rule; one that is unknown does nothing.
unfoldable pub act : External → Store → ℕ → ℕ → Filter → Store
unfolding eqb
act ext s account id f =
    if eqb f.action (codes "move")
    then (if is_nil f.action_arg then s else (move_to_folder_name s account id f.action_arg).0)
    else if eqb f.action (codes "move_account")
    then (if is_nil f.action_arg then s else move_account ext s account id f.action_arg)
    else if eqb f.action (codes "markread")
    then set_flags s account (id ∷ []) add (seen_flag ∷ [])
    else if eqb f.action (codes "star")
    then set_flags s account (id ∷ []) add (flagged_flag ∷ [])
    else if eqb f.action (codes "trash")
    then (move_to_folder_name s account id (codes "Trash")).0
    else if eqb f.action (codes "discard")
    then delete_messages s account (id ∷ [])
    else s

-- The loop over the rules.
unfoldable pub apply_rules : External → Store → ℕ → ℕ → Mail → List Filter → Store
unfolding hits act
apply_rules ext s account id m [] = s
apply_rules ext s account id m (f ∷ fs) =
    let later = apply_rules ext s account id m fs in
    if not f.enabled
    then later
    else if not (matches ext f.cond_op f.cond_value (haystack f.cond_field m))
    then later
    else act ext s account id f

unfoldable pub apply : External → Store → ℕ → ℕ → Mail → Store
unfolding apply_rules list_filters
apply ext s account id m = apply_rules ext s account id m (list_filters s account)
