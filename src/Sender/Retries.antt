-- ===== src/Sender/Retries.antt =====
-- What an attempt does to an item's row, and how long an item stays in the queue.
use cloudpost.Prelude.{
  Bool-cases, List, Option, Option-cases, [], ap, arith, false, find_first, if◌then◌else◌, inl, inr,
  leb, length, ltb, ltb→lt, none, refl, some, subst, suc, sym, true, update_where, zero, ℕ, ◌*◌,
  ◌+◌, ◌<◌, ◌==◌, ◌^◌, ◌∙◌, ◌∷◌, ◌≡◌, ◌≤◌, ◌⊎◌,
}
use cloudpost.Text.{Text, codes}
use cloudpost.Installation.Config.{Config}
use cloudpost.Mailstore.Schema.{read_file}
use cloudpost.Sender.Dkim.{dkim_sign}
use cloudpost.Sender.Queue.{
  Network, Outbound, QueueItem, backoff, deliver_item, failed, finish, is_pending, item_is,
  retry_later, send_all, sent, settle,
}

abbrev pub row_of : Outbound → ℕ → Option QueueItem
row_of o id = find_first (λ j. j.id == id) o.items

-- The row of an item after an attempt that ended with the error, at the time.
abbrev pub outcome : ℕ → QueueItem → Option Text → QueueItem
outcome now it none = record it { status = sent; last_error = [] }
outcome now it (some error) =
    if ltb it.attempts 7
    then record it {
      attempts = it.attempts + 1;
      next_try_at = now + 60 * 2 ^ (it.attempts + 1);
      last_error = error;
    }
    else record it { status = failed; last_error = error }

update_row :
    (f : QueueItem → QueueItem) (it : QueueItem) (xs : List QueueItem)
    → ((j : QueueItem) → ((f j).id == it.id) ≡ (j.id == it.id))
    → find_first (λ j. j.id == it.id) xs ≡ some it
    → find_first (λ j. j.id == it.id) (update_where (item_is it) f xs) ≡ some (f it)
update_row f it [] keeps e = cc
update_row f it (x ∷ xs) keeps e = elim (Bool-cases (x.id == it.id)) [
  | inl hit ↦ rw (hit, keeps x, hit) (ap some (ap f (first (rw hit at e))))
  | inr miss ↦ rw (miss, miss) (update_row f it xs keeps (rw miss at e))
]
  where
    first : ◌≡◌ {A = Option QueueItem} (some x) (some it) → x ≡ it
    first q = cc

short_backoff : (a : ℕ) → a < 7 → backoff (a + 1) ≡ 60 * 2 ^ (a + 1)
short_backoff zero h = refl
short_backoff (suc zero) h = refl
short_backoff (suc (suc zero)) h = refl
short_backoff (suc (suc (suc zero))) h = refl
short_backoff (suc (suc (suc (suc zero)))) h = refl
short_backoff (suc (suc (suc (suc (suc zero))))) h = refl
short_backoff (suc (suc (suc (suc (suc (suc zero)))))) h = refl
short_backoff (suc (suc (suc (suc (suc (suc (suc a))))))) h = absurd (omega arith)

row_of-settle :
    (o : Outbound) (it : QueueItem) (r : Option Text)
    → row_of o it.id ≡ some it
    → row_of (settle o it r) it.id ≡ some (outcome o.clock it r)
unfolding settle
row_of-settle o it none e = unfold finish in update_row _ it o.items (λ j. refl) e
row_of-settle o it (some error) e = elim (Bool-cases (ltb it.attempts 7)) [
  | inl few ↦
      rw (few, long few)
        (unfold retry_later in
          (update_row _ it o.items (λ j. refl) e
            ∙ ap
                (λ w. some (record it {
                  attempts = it.attempts + 1;
                  next_try_at = o.clock + w;
                  last_error = error;
                }))
                (short_backoff it.attempts (ltb→lt it.attempts 7 few))))
  | inr many ↦ rw (many, short many) (unfold finish in update_row _ it o.items (λ j. refl) e)
]
  where
    long : ltb it.attempts 7 ≡ true → leb 8 (it.attempts + 1) ≡ false
    long few = ground arith

    short : ltb it.attempts 7 ≡ false → leb 8 (it.attempts + 1) ≡ true
    short many = ground arith

-- The row after one attempt at an item whose file is there.
pub row_of-deliver_raw :
    (net : Network) (cfg : Option Config) (o : Outbound) (it : QueueItem) (raw : Text)
    → read_file it.data_path o.files ≡ some raw
    → row_of o it.id ≡ some it
    → let (signed, _) = (dkim_sign net.signer cfg o.cache it.from raw).1 in
      row_of (deliver_item net cfg o it) it.id
      ≡ some (outcome o.clock it (send_all net o.clock cfg it.from signed it.recipients none))
unfolding deliver_item
row_of-deliver_raw net cfg o it raw file row =
    let (cache, (signed, _)) = dkim_sign net.signer cfg o.cache it.from raw in
    rw file (
      row_of-settle (record o { cache = cache }) it
        (send_all net o.clock cfg it.from signed it.recipients none) row)

pub row_of-lost :
    (net : Network) (cfg : Option Config) (o : Outbound) (it : QueueItem)
    → read_file it.data_path o.files ≡ none
    → row_of o it.id ≡ some it
    → row_of (deliver_item net cfg o it) it.id
      ≡ some (record it { status = failed; last_error = codes "blob lost" })
unfolding deliver_item
row_of-lost net cfg o it file row =
    rw file (unfold finish in update_row _ it o.items (λ j. refl) row)

-- The attempts at the item of an id, one for each time, as long as it is pending.
abbrev pub try_row : Network → Option Config → Outbound → Option QueueItem → Outbound
try_row net cfg o none = o
try_row net cfg o (some it) = if is_pending it.status then deliver_item net cfg o it else o

pub tries : Network → Option Config → Outbound → ℕ → List ℕ → Outbound
tries net cfg o id [] = o
tries net cfg o id (now ∷ times) =
    tries net cfg (try_row net cfg (record o { clock = now }) (row_of o id)) id times

abbrev Settled : Outbound → ℕ → Type 0
Settled o id = (it : QueueItem) × (row_of o id ≡ some it) × (is_pending it.status ≡ false)

tries-Settled :
    (net : Network) (cfg : Option Config) (times : List ℕ) (o : Outbound) (id : ℕ)
    → Settled o id
    → Settled (tries net cfg o id times) id
unfolding tries
tries-Settled net cfg [] o id h = h
tries-Settled net cfg (now ∷ times) o id (it, row, done) =
    subst (λ x. Settled (tries net cfg x id times) id) (sym stays)
      (tries-Settled net cfg times (record o { clock = now }) id (it, row, done))
  where
    stays : try_row net cfg (record o { clock = now }) (row_of o id) ≡ record o { clock = now }
    stays = rw (row, done) refl

-- After one attempt the item is settled, or pending with one attempt more and fewer than eight.
abbrev Next : QueueItem → Outbound → Type 0
Next it o =
    Settled o it.id
    ⊎ ((j : QueueItem) × (row_of o it.id ≡ some j)
        × (is_pending j.status ≡ true)
        × (j.attempts ≡ it.attempts + 1)
        × (j.attempts < 8)
        × (j.id ≡ it.id))

Next-of :
    (now : ℕ) (it : QueueItem) (r : Option Text) (o : Outbound)
    → is_pending it.status ≡ true
    → row_of o it.id ≡ some (outcome now it r)
    → Next it o
Next-of now it none o p e = inl (outcome now it none, e, refl)
Next-of now it (some x) o p e = elim (Bool-cases (ltb it.attempts 7)) [
  | inl few ↦ inr (_, rw few at e, p, refl, omega (arith, ltb→lt it.attempts 7 few), refl)
  | inr many ↦ inl (_, rw many at e, refl)
]

deliver_item-Next :
    (net : Network) (cfg : Option Config) (o : Outbound) (it : QueueItem)
    → is_pending it.status ≡ true
    → row_of o it.id ≡ some it
    → Next it (deliver_item net cfg o it)
deliver_item-Next net cfg o it p row = elim (Option-cases (read_file it.data_path o.files)) [
  | inl lost ↦ inl (_, row_of-lost net cfg o it lost row, refl)
  | inr (raw, file) ↦
      Next-of o.clock it _ (deliver_item net cfg o it) p
        (row_of-deliver_raw net cfg o it raw file row)
]

-- An item does not stay in the queue: whatever the network answers at each of the times, after
-- eight attempts (fewer for a row that had some) its row is sent or failed.
pub tries_settle :
    (net : Network) (cfg : Option Config) (times : List ℕ) (o : Outbound) (it : QueueItem)
    → row_of o it.id ≡ some it
    → is_pending it.status ≡ true
    → 8 ≤ length times + it.attempts
    → 0 < length times
    → (j : QueueItem) × (row_of (tries net cfg o it.id times) it.id ≡ some j)
      × (is_pending j.status ≡ false)
unfolding tries
tries_settle net cfg [] o it row p enough some_time = absurd (omega arith)
tries_settle net cfg (now ∷ times) o it row p enough some_time =
    subst (λ x. Settled (tries net cfg x it.id times) it.id) (sym tried)
      (go (λ j. tries_settle net cfg times next j)
        (deliver_item-Next net cfg (record o { clock = now }) it p row))
  where
    next : Outbound
    next = deliver_item net cfg (record o { clock = now }) it

    tried : try_row net cfg (record o { clock = now }) (row_of o it.id) ≡ next
    tried = rw (row, p) refl

    go :
        ((j : QueueItem)
          → row_of next j.id ≡ some j
          → is_pending j.status ≡ true
          → 8 ≤ length times + j.attempts
          → 0 < length times
          → Settled (tries net cfg next j.id times) j.id)
        → Next it next
        → Settled (tries net cfg next it.id times) it.id
    go later (inl h) = tries-Settled net cfg times next it.id h
    go later (inr (j, found, pend, count, few, same)) =
        subst (λ i. Settled (tries net cfg next i times) i) same
          (later j (subst (λ i. row_of next i ≡ some j) (sym same) found) pend
            (omega (arith, enough, count)) (omega (arith, enough, count, few)))
