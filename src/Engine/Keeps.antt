-- ===== src/Engine/Keeps.antt =====
-- The filter engine keeps the store well-formed.
use cloudpost.Prelude.{
  Option, [], find_first, if_both, if◌then◌else◌, is_nil, none, some, subst, sym, ℕ, ◌∷◌,
}
use cloudpost.Text.{Text, codes, eqb, lower, trim_space}
use cloudpost.Engine.FirstMatch.{act_of, apply-first}
use cloudpost.Engine.Rules.{
  Mail, act, after_copy, apply, copy_over, hits, into_inbox, move_account, to_account,
}
use cloudpost.Mailstore.Accounts.{get_account_by_address_any}
use cloudpost.Mailstore.Filters.{list_filters}
use cloudpost.Mailstore.Flags.{add, flagged_flag, seen_flag}
use cloudpost.Mailstore.Folders.{folder_by_name, inbox_name}
use cloudpost.Mailstore.History.Others.{move_to_folder_name-IsWellFormed}
use cloudpost.Mailstore.Invariant.{IsWellFormed}
use cloudpost.Mailstore.Invariant.Delivery.{deliver-IsWellFormed}
use cloudpost.Mailstore.Invariant.Removal.{delete_messages-IsWellFormed}
use cloudpost.Mailstore.Invariant.Rows.{set_flags-IsWellFormed}
use cloudpost.Mailstore.Messages.{deliver, get_message_raw, no_opts}
use cloudpost.Mailstore.Schema.{Account, External, Filter, Listed, Message, Result, Store, err, ok}

module _ {low : ℕ → ℕ} (ext : External) where
  after_copy-IsWellFormed :
      (account id : ℕ) (p : Store × Result (ℕ × ℕ))
      → IsWellFormed low p.0
      → IsWellFormed low (after_copy account id p)
  unfolding after_copy
  after_copy-IsWellFormed account id (s, ok ids) w =
      delete_messages-IsWellFormed s account (id ∷ []) w
  after_copy-IsWellFormed account id (s, err e) w = w

  copy_over-IsWellFormed :
      (s : Store) (account id target inbox : ℕ) (r : Result (Text × Message))
      → IsWellFormed low s
      → IsWellFormed low (copy_over ext s account id target inbox r)
  unfolding copy_over
  copy_over-IsWellFormed s account id target inbox (err e) w = w
  copy_over-IsWellFormed s account id target inbox (ok (raw, m)) w =
      after_copy-IsWellFormed account id (deliver ext s target inbox raw no_opts)
        (deliver-IsWellFormed ext s target inbox raw no_opts w)

  into_inbox-IsWellFormed :
      (s : Store) (account id target : ℕ) (r : Result Listed)
      → IsWellFormed low s
      → IsWellFormed low (into_inbox ext s account id target r)
  into_inbox-IsWellFormed s account id target (err e) w = w
  into_inbox-IsWellFormed s account id target (ok f) w =
      copy_over-IsWellFormed s account id target f.id (get_message_raw s account id) w

  to_account-IsWellFormed :
      (s : Store) (account id : ℕ) (r : Result Account)
      → IsWellFormed low s
      → IsWellFormed low (to_account ext s account id r)
  to_account-IsWellFormed s account id (err e) w = w
  to_account-IsWellFormed s account id (ok t) w =
      into_inbox-IsWellFormed s account id t.id (folder_by_name s t.id inbox_name) w

  act-IsWellFormed :
      (s : Store) (account id : ℕ) (f : Filter)
      → IsWellFormed low s
      → IsWellFormed low (act ext s account id f)
  unfolding act move_account
  act-IsWellFormed s account id f w =
      pick (codes "move")
        (if_both (IsWellFormed low) (is_nil f.action_arg) _ _ w
          (move_to_folder_name-IsWellFormed s account id f.action_arg w))
        (pick (codes "move_account")
          (if_both (IsWellFormed low) (is_nil f.action_arg) _ _ w (
            to_account-IsWellFormed s account id
              (get_account_by_address_any s (lower (trim_space f.action_arg))) w))
          (pick (codes "markread")
            (set_flags-IsWellFormed s account (id ∷ []) add (seen_flag ∷ []) w)
            (pick (codes "star")
              (set_flags-IsWellFormed s account (id ∷ []) add (flagged_flag ∷ []) w)
              (pick (codes "trash")
                (move_to_folder_name-IsWellFormed s account id (codes "Trash") w)
                (pick (codes "discard") (delete_messages-IsWellFormed s account (id ∷ []) w) w)))))
    where
      pick :
          {x y : Store} (name : Text)
          → IsWellFormed low x
          → IsWellFormed low y
          → IsWellFormed low (if eqb f.action name then x else y)
      pick name = if_both (IsWellFormed low) (eqb f.action name) _ _

  -- Apply keeps the store well-formed, whatever the rules are.
  pub apply-IsWellFormed :
      (s : Store) (account id : ℕ) (m : Mail)
      → IsWellFormed low s
      → IsWellFormed low (apply ext s account id m)
  apply-IsWellFormed s account id m w =
      subst (IsWellFormed low) (sym (apply-first ext s account id m))
        (chosen (find_first (hits ext m) (list_filters s account)))
    where
      chosen : (o : Option Filter) → IsWellFormed low (act_of ext s account id o)
      chosen none = w
      chosen (some f) = act-IsWellFormed s account id f w
