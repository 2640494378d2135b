-- ===== src/Web/Keeps/Compose.antt =====
-- Composing and sending.
use cloudpost.Prelude.{
  List, Option, [], if_both, is_nil, keep, ltb, none, not, option_both, refl, some, subst, sym, ℕ,
  ◌∷◌, ◌≡◌,
}
use cloudpost.Text.{Text, codes, trim_space}
use cloudpost.Mailstore.Accounts.{get_account_by_address}
use cloudpost.Mailstore.Folders.{folder_by_name, inbox_name}
use cloudpost.Mailstore.History.Others.{schedule_send-IsWellFormed}
use cloudpost.Mailstore.Invariant.{IsWellFormed}
use cloudpost.Mailstore.Invariant.Delivery.{deliver-IsWellFormed}
use cloudpost.Mailstore.Messages.{no_opts}
use cloudpost.Mailstore.Scheduled.{schedule_send}
use cloudpost.Mailstore.Schema.{Account, Listed, Result, Store, err, ok}
use cloudpost.Web.Compose.{
  built, cleaned, compose, delayed_answer, deliver_built, deliver_each, dispatch_built,
  into_account, into_box, is_known, mail_compose, send_built, send_out, send_time,
}
use cloudpost.Web.Http.{Outside, Request, Site}
use cloudpost.Web.Keeps.{Keeps, stays}
use cloudpost.Web.Source.{ComposeReq, read_compose}

into_box-IsWellFormed :
    {low : ℕ → ℕ} (o : Outside) (s : Store) (account : ℕ) (raw : Text) (r : Result Listed)
    → IsWellFormed low s
    → IsWellFormed low (into_box o s account raw r)
into_box-IsWellFormed o s account raw (err e) h = h
into_box-IsWellFormed o s account raw (ok f) h =
    deliver-IsWellFormed o.ext s account f.id raw no_opts h

pub into_account-IsWellFormed :
    {low : ℕ → ℕ} (o : Outside) (s : Store) (raw : Text) (r : Result Account)
    → IsWellFormed low s
    → IsWellFormed low (into_account o s raw r)
into_account-IsWellFormed o s raw (err e) h = h
into_account-IsWellFormed o s raw (ok a) h =
    into_box-IsWellFormed o s a.id raw (folder_by_name s a.id inbox_name) h

pub deliver_each-IsWellFormed :
    {low : ℕ → ℕ} (o : Outside) (s : Store) (raw : Text) (addrs : List Text)
    → IsWellFormed low s
    → IsWellFormed low (deliver_each o s raw addrs)
unfolding deliver_each
deliver_each-IsWellFormed o s raw [] h = h
deliver_each-IsWellFormed o s raw (addr ∷ addrs) h =
    deliver_each-IsWellFormed o (into_account o s raw (get_account_by_address s addr)) raw addrs
      (into_account-IsWellFormed o s raw (get_account_by_address s addr) h)

pub send_out-store :
    (w : Site) (addr : Text) (rs : List Text) (raw : Text)
    → (send_out w addr rs raw).0.store ≡ w.store
unfolding send_out
send_out-store w addr [] raw = refl
send_out-store w addr (r ∷ rs) raw = refl

pub deliver_built-IsWellFormed :
    {low : ℕ → ℕ} (o : Outside) (w : Site) (a : Account) (recips : List Text) (raw : Text)
    → IsWellFormed low w.store
    → IsWellFormed low (deliver_built o w a recips raw).0.store
unfolding deliver_built
deliver_built-IsWellFormed {low = low} o w a recips raw h =
    let s1 = deliver_each o w.store raw (keep (is_known w.store) recips) in
    let box = folder_by_name s1 a.id (codes "Sent") in
    subst (IsWellFormed low)
      (sym (
        send_out-store (record w { store = into_box o s1 a.id raw box }) a.address
          (keep (λ r. not (is_known w.store r)) recips) raw))
      (into_box-IsWellFormed o s1 a.id raw box
        (deliver_each-IsWellFormed o w.store raw (keep (is_known w.store) recips) h))

module _ {low : ℕ → ℕ} (o : Outside) (w : Site) (h : IsWellFormed low w.store) (a : Account) where
  dispatch_built-Keeps :
      (q : ComposeReq) (recips : List Text) (raw : Text)
      → Keeps low (dispatch_built o w a q recips raw)
  unfolding dispatch_built
  dispatch_built-Keeps q recips raw =
      if_both (Keeps low) (ltb w.state.clock at) _ _
        (answered (schedule_send w.store a.id a.address recips q.subject at raw)
          (schedule_send-IsWellFormed w.store a.id a.address recips q.subject at raw h))
        (record { formed = deliver_built-IsWellFormed o w a recips raw h })
    where
      at : ℕ
      at = send_time q w.state.clock

      answered :
          (r : Store × Result (ℕ × ℕ)) → IsWellFormed low r.0 → Keeps low (delayed_answer w at r)
      answered (s, ok (id, path)) v = record { formed = v }
      answered (s, err e) v = record { formed = v }

  compose-Keeps : (q : ComposeReq) → Keeps low (compose o w a q)
  unfolding compose
  compose-Keeps q =
      if_both (Keeps low) (is_nil (trim_space q.to)) _ _ (stays w _ h)
        (if_both (Keeps low) _ _ _ (stays w _ h) (go _ (built o w.state.clock a (cleaned q))))
    where
      go :
          (recips : List Text) (m : Option Text) → Keeps low (send_built o w a (cleaned q) recips m)
      go recips none = stays w _ h
      go recips (some raw) = dispatch_built-Keeps (cleaned q) recips raw

  pub mail_compose-Keeps : (r : Request) → Keeps low (mail_compose o w r a)
  unfolding mail_compose
  mail_compose-Keeps r =
      option_both (Keeps low) (read_compose r.body) _ _ (stays w _ h) compose-Keeps
