-- ===== src/Smtpd/Data.antt =====
-- DATA of internal/smtpd/smtpd.go. The hooks are those of cmd/cloudpost/main.go: the filters run
-- over a local delivery, and other recipients go to the outbound queue.
use cloudpost.Prelude.{
  Bool, List, [], false, if◌then◌else◌, ltb, take, true, ℕ, ◌&&◌, ◌*◌, ◌++◌, ◌^◌, ◌∷◌,
}
use cloudpost.Text.{Text, codes}
use cloudpost.Engine.Rules.{apply}
use cloudpost.Mailstore.Folders.{folder_by_name}
use cloudpost.Mailstore.Messages.{deliver, no_opts}
use cloudpost.Mailstore.Schema.{External, Listed, Result, Store, err, ok}
use cloudpost.Sender.Queue.{Outbound, enqueue}
use cloudpost.Smtpd.Session.{Answer, RcptTarget, Smtp, accepted, delivery_failed, reset}

-- The store and the outbound queue.
pub record World : Type 0 where
  pub store : Store
  pub outbound : Outbound

abbrev pub max_bytes : ℕ
max_bytes = 50 * 2 ^ 20

abbrev pub with_commas : List Text → Text
with_commas [] = []
with_commas (t ∷ ts) = t ++ b',' ∷ with_commas ts

-- The PostDeliver hook.
unfoldable pub post_deliver : External → Store → ℕ → ℕ → Text → Store
unfolding apply
post_deliver ext s account id raw =
    let info = ext.parse_headers s.clock raw in
    apply ext s account id (record {
      subject = info.subject;
      from = info.from_addr;
      to = with_commas info.to_list;
      body = info.snippet;
    })

-- What the loop over the recipients has so far.
pub record Progress : Type 0 where
  pub store : Store
  pub any_ok : Bool
  pub remote : List Text

abbrev pub after_delivery :
    External → Progress → RcptTarget → Text → Store × Result (ℕ × ℕ) → Progress
after_delivery ext p rc raw (s, err e) = record p { store = s }
after_delivery ext p rc raw (s, ok (id, uid)) = record p {
  store = post_deliver ext s rc.account id raw;
  any_ok = true;
}

unfoldable pub one_rcpt : External → Progress → RcptTarget → Text → Progress
unfolding post_deliver
one_rcpt ext p rc raw =
    if rc.is_local
    then after_delivery ext p rc raw (deliver ext p.store rc.account rc.folder raw no_opts)
    else record p { remote = p.remote ++ rc.address ∷ [] }

unfoldable pub each_rcpt : External → Progress → List RcptTarget → Text → Progress
unfolding one_rcpt
each_rcpt ext p [] raw = p
each_rcpt ext p (rc ∷ rcs) raw = each_rcpt ext (one_rcpt ext p rc raw) rcs raw

abbrev pub queued_ok : Bool → Result ℕ → Bool
queued_ok b (ok id) = true
queued_ok b (err e) = b

abbrev pub enqueue_remote : Outbound → Text → List Text → Text → Bool → Outbound × Bool
enqueue_remote o from [] raw any_ok = (o, any_ok)
enqueue_remote o from (r ∷ rs) raw any_ok =
    let q = enqueue o from (r ∷ rs) raw in (q.0, queued_ok any_ok q.1)

abbrev pub copy_into : External → Store → ℕ → Text → Result Listed → Store
copy_into ext s account raw (err e) = s
copy_into ext s account raw (ok f) = (deliver ext s account f.id raw no_opts).0

-- The copy in the sender's Sent folder.
unfoldable pub sent_copy : External → Store → Smtp → Text → Store
sent_copy ext s ss raw =
    if ss.authenticated && ltb 0 ss.auth_account
    then copy_into ext s ss.auth_account raw (folder_by_name s ss.auth_account (codes "Sent"))
    else s

-- Fails when nothing was delivered or queued; only a success keeps a copy and resets the session.
abbrev pub conclude : External → Store → Outbound × Bool → Smtp → Text → World × (Smtp × Answer)
conclude ext s (o, false) ss raw = (record { store = s; outbound = o }, (ss, delivery_failed))
conclude ext s (o, true) ss raw =
    (record { store = sent_copy ext s ss raw; outbound = o }, (reset ss, accepted))

unfoldable pub take_data : External → World → Smtp → Text → World × (Smtp × Answer)
unfolding each_rcpt sent_copy reset enqueue
take_data ext w ss input =
    let raw = take max_bytes input in
    let p = each_rcpt ext (record { store = w.store; any_ok = false; remote = [] }) ss.rcpts raw in
    conclude ext p.store (enqueue_remote w.outbound ss.from p.remote raw p.any_ok) ss raw
