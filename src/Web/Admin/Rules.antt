-- ===== src/Web/Admin/Rules.antt =====
-- The filters of an account and the outbound queue.
use cloudpost.Prelude.{
  Bool, Option, if◌then◌else◌, is_nil, leb, none, some, sort_by, take, ℕ, ◌>>=◌, ◌||◌,
}
use cloudpost.Text.{codes}
use cloudpost.Mailstore.Filters.{create_filter, delete_filter, get_filter, update_filter}
use cloudpost.Mailstore.Schema.{Filter, Result, Store, err, ok}
use cloudpost.Sender.Queue.{Network, QueueItem, process_queue}
use cloudpost.Web.Admin.Accounts.{or_text}
use cloudpost.Web.Http.{Request, Response, Site, done, failure, filter_row, queue_rows, success}
use cloudpost.Web.Json.{Json, fields_of, flag_in, nat_in, text_in}

unfoldable pub read_filter : Option Json → Option Filter
unfolding text_in nat_in flag_in
read_filter b = do
  fs ← fields_of b
  id ← nat_in fs (codes "id")
  account ← nat_in fs (codes "account_id")
  nm ← text_in fs (codes "name")
  on ← flag_in fs (codes "enabled")
  at ← nat_in fs (codes "position")
  fd ← text_in fs (codes "cond_field")
  op ← text_in fs (codes "cond_op")
  vl ← text_in fs (codes "cond_value")
  ac ← text_in fs (codes "action")
  arg ← text_in fs (codes "action_arg")
  some (record {
    id = id;
    account_id = account;
    name = nm;
    enabled = on;
    position = at;
    cond_field = fd;
    cond_op = op;
    cond_value = vl;
    action = ac;
    action_arg = arg;
  })

abbrev pub filter_answer : Site → Store × Result Filter → Site × Response
filter_answer w (s, ok f) = (record w { store = s }, success (filter_row f))
filter_answer w (s, err e) = (record w { store = s }, failure 400)

unfoldable pub admin_create_filter : Site → Request → ℕ → Site × Response
unfolding read_filter create_filter
admin_create_filter w r account = elim (read_filter r.body) [
  | none ↦ (w, failure 400)
  | some f ↦
      if is_nil f.name || (is_nil f.cond_field || (is_nil f.cond_op || is_nil f.action))
      then (w, failure 400)
      else filter_answer w (create_filter w.store (record f { account_id = account }))
]

-- The filter that is there with what the request changes.
abbrev pub merged : Filter → Filter → Filter
merged q f = record f {
  name = or_text q.name f.name;
  enabled = q.enabled;
  position = q.position;
  cond_field = or_text q.cond_field f.cond_field;
  cond_op = or_text q.cond_op f.cond_op;
  cond_value = or_text q.cond_value f.cond_value;
  action = or_text q.action f.action;
  action_arg = q.action_arg;
}

unfoldable pub admin_update_filter : Site → Request → ℕ → ℕ → Site × Response
unfolding get_filter read_filter update_filter
admin_update_filter w r account id = elim (get_filter w.store account id) [
  | none ↦ (w, failure 404)
  | some f ↦ elim (read_filter r.body) [
    | none ↦ (w, failure 400)
    | some q ↦
        (record w { store = update_filter w.store (merged q f) }, success (filter_row (merged q f)))
  ]
]

unfoldable pub admin_delete_filter : Site → ℕ → ℕ → Site × Response
unfolding delete_filter
admin_delete_filter w account id =
    (record w { store = delete_filter w.store account id }, success done)

abbrev later_id : QueueItem → QueueItem → Bool
later_id i j = leb j.id i.id

-- ORDER BY id DESC LIMIT 100
unfoldable pub admin_queue : Site → Response
unfolding sort_by
admin_queue w = success (queue_rows (take 100 (sort_by later_id w.outbound.items)))

unfoldable pub admin_flush : Network → Site → Site × Response
unfolding process_queue
admin_flush net w = (record w { outbound = process_queue net w.state.cfg w.outbound }, success done)
