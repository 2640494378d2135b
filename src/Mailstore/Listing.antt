-- ===== src/Mailstore/Listing.antt =====
-- The pages of ListMessages.
use cloudpost.Prelude.{
  All, All-keep_test, All-map, All-sort_by, Bool, IsSortedBy, List, [], ap, arith, drop, false,
  if◌then◌else◌, length, length-drop, length-sort_by, length-take, ltb, min, not, refl,
  sort_by-IsSortedBy, suc, take, true, zero, ℕ, ◌&&◌, ◌-◌, ◌==◌, ◌||◌, ◌∙◌, ◌∷◌, ◌≡◌, ◌⊎◌,
}
use cloudpost.Mailstore.Flags.{deleted_flag, like}
use cloudpost.Mailstore.Messages.{list_messages, newer, page_limit, visible}
use cloudpost.Mailstore.Schema.{Message, Store}

newer-total : (m n : Message) → newer m n ≡ false → newer n m ≡ true
newer-total m n h = ground arith

newer_trans : (a b c : Message) → newer a b ≡ true → newer b c ≡ true → newer a c ≡ true
newer_trans a b c h k = ground arith

All-take {ℓ κ} : {A : Type ℓ} (P : A → Type κ) (n : ℕ) (xs : List A) → All P xs → All P (take n xs)
All-take P zero xs h = tt
All-take P (suc n) [] h = tt
All-take P (suc n) (x ∷ xs) h = (h.0, All-take P n xs h.1)

All-drop {ℓ κ} : {A : Type ℓ} (P : A → Type κ) (n : ℕ) (xs : List A) → All P xs → All P (drop n xs)
All-drop P zero xs h = h
All-drop P (suc n) [] h = tt
All-drop P (suc n) (x ∷ xs) h = All-drop P n xs h.1

IsSortedBy-take {ℓ} :
    {A : Type ℓ} (b : A → A → Bool) (n : ℕ) (xs : List A)
    → IsSortedBy b xs
    → IsSortedBy b (take n xs)
IsSortedBy-take b zero xs h = tt
IsSortedBy-take b (suc n) [] h = tt
IsSortedBy-take b (suc n) (x ∷ xs) h = (All-take _ n xs h.0, IsSortedBy-take b n xs h.1)

IsSortedBy-drop {ℓ} :
    {A : Type ℓ} (b : A → A → Bool) (n : ℕ) (xs : List A)
    → IsSortedBy b xs
    → IsSortedBy b (drop n xs)
IsSortedBy-drop b zero xs h = h
IsSortedBy-drop b (suc n) [] h = tt
IsSortedBy-drop b (suc n) (x ∷ xs) h = IsSortedBy-drop b n xs h.1

-- A page is newest first, holds rows of the folder alone, and none flagged \Deleted unless asked.
pub list_messages-IsSortedBy :
    (s : Store) (folder offset limit : ℕ) (include : Bool)
    → IsSortedBy newer (list_messages s folder offset limit include).0
      × All
          (λ m. (m.folder_id ≡ folder) × ((include ≡ true) ⊎ (like deleted_flag m.flags ≡ false)))
          (list_messages s folder offset limit include).0
unfolding list_messages visible
list_messages-IsSortedBy s folder offset limit include = (
  IsSortedBy-take newer _ _ (
      IsSortedBy-drop newer offset _
        (sort_by-IsSortedBy newer newer-total newer_trans (visible s folder include))),
  All-take _ _ _ (
      All-drop _ offset _ (
        All-sort_by newer _ _ (
          All-map (λ m e. ground arith) _
            (All-keep_test
              (λ m. m.folder_id == folder && (include || not (like deleted_flag m.flags)))
              s.messages)))),
)

-- How long a page is: the rows behind the offset, up to the limit; a limit of 0, or one above 200,
-- counts as 50.
pub length-list_messages :
    (s : Store) (folder offset limit : ℕ) (include : Bool)
    → let (page, total) = list_messages s folder offset limit include in
      (length page ≡ min (if limit == 0 || ltb 200 limit then 50 else limit) (total - offset))
      × (total ≡ length (visible s folder include))
unfolding list_messages
length-list_messages s folder offset limit include = (
  length-take (page_limit limit) _
      ∙ ap (min (page_limit limit))
          (length-drop offset _ ∙ ap (λ n. n - offset) (length-sort_by newer _)),
  refl,
)
