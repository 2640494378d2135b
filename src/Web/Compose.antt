-- ===== src/Web/Compose.antt =====
-- Writing and sending a message: internal/web/handlers_compose.go.
use cloudpost.Prelude.{
  Bool, List, Option, [], false, if◌then◌else◌, is_nil, keep, ltb, none, not, some, true, ℕ, ◌*◌,
  ◌+◌, ◌∷◌,
}
use cloudpost.Text.{Text, codes, trim_space}
use cloudpost.Mailstore.Accounts.{get_account_by_address}
use cloudpost.Mailstore.Folders.{folder_by_name, inbox_name}
use cloudpost.Mailstore.Messages.{deliver, no_opts}
use cloudpost.Mailstore.Scheduled.{schedule_send}
use cloudpost.Mailstore.Schema.{Account, Listed, Result, Store, err, ok}
use cloudpost.Sender.Queue.{enqueue}
use cloudpost.Web.Http.{Outside, Request, Response, Site, delayed, failure, sent, success}
use cloudpost.Web.Mime.{parse_rcpts}
use cloudpost.Web.Source.{
  ComposeReq, build_message, read_compose, render_signature, sanitize_header,
}

abbrev pub is_known : Store → Text → Bool
is_known s addr = elim (get_account_by_address s addr) [ ok a ↦ true | err e ↦ false ]

abbrev pub into_box : Outside → Store → ℕ → Text → Result Listed → Store
into_box o s account raw (err e) = s
into_box o s account raw (ok f) = (deliver o.ext s account f.id raw no_opts).0

abbrev pub into_account : Outside → Store → Text → Result Account → Store
into_account o s raw (err e) = s
into_account o s raw (ok a) = into_box o s a.id raw (folder_by_name s a.id inbox_name)

-- The deliveries to the recipients with an account here; an error is passed by.
unfoldable pub deliver_each : Outside → Store → Text → List Text → Store
unfolding deliver get_account_by_address folder_by_name
deliver_each o s raw [] = s
deliver_each o s raw (addr ∷ addrs) =
    deliver_each o (into_account o s raw (get_account_by_address s addr)) raw addrs

-- The mail goes out to those that have no account here.
unfoldable pub send_out : Site → Text → List Text → Text → Site × Bool
unfolding enqueue
send_out w addr [] raw = (w, true)
send_out w addr (r ∷ rs) raw =
    let q = enqueue w.outbound addr (r ∷ rs) raw in
    (record w { outbound = q.0 }, elim q.1 [ ok id ↦ true | err e ↦ false ])

-- deliverBuilt: the boxes here, the sender's copy, then the queue; false is an error of the queue.
unfoldable pub deliver_built : Outside → Site → Account → List Text → Text → Site × Bool
unfolding deliver_each send_out
deliver_built o w a recips raw =
    let s1 = deliver_each o w.store raw (keep (is_known w.store) recips) in
    let s2 = into_box o s1 a.id raw (folder_by_name s1 a.id (codes "Sent")) in
    send_out (record w { store = s2 }) a.address (keep (λ r. not (is_known w.store r)) recips) raw

-- The time of a delayed send; 0 for one that is sent at once.
unfoldable pub send_time : ComposeReq → ℕ → ℕ
send_time q now =
    if ltb 0 q.send_at then q.send_at else if ltb 0 q.delay_min then now + q.delay_min * 60 else 0

abbrev pub delayed_answer : Site → ℕ → Store × Result (ℕ × ℕ) → Site × Response
delayed_answer w at (s, ok (id, path)) = (record w { store = s }, success (delayed id at))
delayed_answer w at (s, err e) = (record w { store = s }, failure 500)

-- What happens to a message that was built.
unfoldable pub dispatch_built :
    Outside → Site → Account → ComposeReq → List Text → Text → Site × Response
unfolding schedule_send deliver_built send_time
dispatch_built o w a q recips raw =
    let at = send_time q w.state.clock in
    if ltb w.state.clock at
    then delayed_answer w at (schedule_send w.store a.id a.address recips q.subject at raw)
    else let r = deliver_built o w a recips raw in
      (
        r.0,
        if r.1
            then success (
                sent (keep (is_known w.store) recips) (keep (λ x. not (is_known w.store x)) recips))
            else failure 500,
      )

abbrev pub cleaned : ComposeReq → ComposeReq
cleaned q = record q {
  to = sanitize_header q.to;
  cc = sanitize_header q.cc;
  subject = sanitize_header q.subject;
}

abbrev pub built : Outside → ℕ → Account → ComposeReq → Option Text
built o now a q =
    build_message o now a.display_name a.address q.to q.cc q.subject q.body
      (render_signature o now a.signature a.display_name a.address q.subject) q.attachments

abbrev pub send_built :
    Outside → Site → Account → ComposeReq → List Text → Option Text → Site × Response
send_built o w a q recips none = (w, failure 400)
send_built o w a q recips (some raw) = dispatch_built o w a q recips raw

-- mailCompose on a request that could be decoded.
unfoldable pub compose : Outside → Site → Account → ComposeReq → Site × Response
unfolding dispatch_built build_message render_signature parse_rcpts sanitize_header trim_space
compose o w a q =
    if is_nil (trim_space q.to)
    then (w, failure 400)
    else let c = cleaned q in
      let recips = parse_rcpts (c.to ∷ c.cc ∷ []) in
      if is_nil recips
      then (w, failure 400)
      else send_built o w a c recips (built o w.state.clock a c)

-- mailCompose
unfoldable pub mail_compose : Outside → Site → Request → Account → Site × Response
unfolding read_compose compose
mail_compose o w r a = elim (read_compose r.body) [
  | none ↦ (w, failure 400)
  | some q ↦ compose o w a q
]
