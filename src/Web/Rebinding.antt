-- ===== src/Web/Rebinding.antt =====
-- Whether a service is still served after its port was changed.
use cloudpost.Prelude.{
  Bool, Bool-cases, List, Option, [], any, arith, false, if◌then◌else◌, inl, inr, none, not, refl,
  some, true, ℕ, ◌+◌, ◌==◌, ◌||◌, ◌∷◌, ◌≡◌, ◌⊎◌,
}
use cloudpost.Web.Ports.{
  Address, Binds, PortError, PortManager, Rebound, Service, address_after, apply_port,
  apply_protocol_ports, cannot_bind, errors_of, fall_back, not_wired, rebind, rebind_failed,
  reverted, service_after, with_port,
}

-- The service of an error that closed its old listener.
abbrev fell : Option PortError → Bool
fell none = false
fell (some e) = elim e [ reverted ↦ true | rebind_failed ↦ true | _ ↦ false ]

fall_back-fell :
    (binds : Binds) (k : ℕ) (srv : Service) (old : Address)
    → fell (fall_back binds k srv old).error ≡ true
unfolding fall_back
fall_back-fell binds k srv old = ground arith

-- A rebind whose error does not say that the old listener was closed leaves the service on the
-- address that it names.
rebind-serving :
    (binds : Binds) (k : ℕ) (srv : Service) (old new : Address)
    → srv.serving ≡ some old
    → let r = rebind binds k srv old new in
      fell r.error ≡ false → r.service.serving ≡ some r.address
unfolding rebind
rebind-serving binds k srv old new up h = ground (arith, fall_back-fell binds (k + 2) srv old)

-- The errors of one service.
abbrev pub any_fell : List PortError → Bool
any_fell = any (λ e. fell (some e))

record Kept (errs : List PortError) (srv : Service) (a : Option Address) : Type 0 where
  pub up : any_fell errs ≡ false → srv.serving ≡ a

apply_port-Kept :
    (binds : Binds) (k : ℕ) (srv : Service) (a : Option Address) (want : ℕ)
    → srv.serving ≡ a
    → let r = apply_port binds k srv a want in
      Kept (errors_of r) (service_after srv r) (address_after a r)
unfolding apply_port
apply_port-Kept binds k srv none want e = record { up = λ h. e }
apply_port-Kept binds k srv (some old) want e = pick (not srv.wired || want == 0)
  where
    moved :
        (r : Rebound)
        → (fell r.error ≡ false → r.service.serving ≡ some r.address)
        → any_fell (errors_of (some r)) ≡ false
        → r.service.serving ≡ some r.address
    moved r go h = go (only r.error h)
      where
        only :
            (o : Option PortError)
            → any_fell (elim o [ none ↦ [] | some e ↦ e ∷ [] ]) ≡ false
            → fell o ≡ false
        only none q = refl
        only (some cannot_bind) q = refl
        only (some not_wired) q = refl
        only (some reverted) q = q
        only (some rebind_failed) q = q

    pick :
        (b : Bool)
        → let r = if b then none else some (rebind binds k srv old (with_port old want)) in
          Kept (errors_of r) (service_after srv r) (address_after (some old) r)
    pick true = record { up = λ h. e }
    pick false = record {
      up =
          moved (rebind binds k srv old (with_port old want))
            (rebind-serving binds k srv old (with_port old want) e);
    }

served_or_fell :
    {errs : List PortError} {srv : Service} {a : Option Address}
    → Kept errs srv a
    → (any_fell errs ≡ true) ⊎ (srv.serving ≡ a)
served_or_fell {errs = errs} k = elim (Bool-cases (any_fell errs)) [
  | inl h ↦ inl h
  | inr h ↦ inr (k.up h)
]

-- Applying new ports, whatever can be bound, to services that serve the addresses that the manager
-- tracks for them: afterwards each of them does so again, or its error says that its old listener
-- was closed for good or opened again.
pub apply_protocol_ports-serving :
    (binds : Binds) (pm : PortManager) (smtp_port pop3_port imap_port : ℕ)
    → pm.smtp.serving ≡ pm.smtp_addr
    → pm.pop3.serving ≡ pm.pop3_addr
    → pm.imap.serving ≡ pm.imap_addr
    → let a = apply_protocol_ports binds pm smtp_port pop3_port imap_port in
      let v = a.manager in
      ((any_fell a.smtp_errors ≡ true) ⊎ (v.smtp.serving ≡ v.smtp_addr))
      × ((any_fell a.pop3_errors ≡ true) ⊎ (v.pop3.serving ≡ v.pop3_addr))
      × ((any_fell a.imap_errors ≡ true) ⊎ (v.imap.serving ≡ v.imap_addr))
unfolding apply_protocol_ports
apply_protocol_ports-serving binds pm smtp_port pop3_port imap_port es ep ei = (
  served_or_fell (apply_port-Kept binds pm.tries pm.smtp pm.smtp_addr smtp_port es),
  served_or_fell (apply_port-Kept binds _ pm.pop3 pm.pop3_addr pop3_port ep),
  served_or_fell (apply_port-Kept binds _ pm.imap pm.imap_addr imap_port ei),
)

rebind-steady :
    (binds : Binds) (k : ℕ) (srv : Service) (old new : Address)
    → ((i j : ℕ) (a : Address) → binds i a ≡ binds j a)
    → fell (rebind binds k srv old new).error ≡ false
unfolding rebind
rebind-steady binds k srv old new steady = ground (arith, steady (k + 1) k new)

fell_nowhere :
    (binds : Binds) (k : ℕ) (srv : Service) (a : Option Address) (want : ℕ)
    → ((i j : ℕ) (b : Address) → binds i b ≡ binds j b)
    → any_fell (errors_of (apply_port binds k srv a want)) ≡ false
unfolding apply_port
fell_nowhere binds k srv none want steady = refl
fell_nowhere binds k srv (some old) want steady = pick (not srv.wired || want == 0)
  where
    none_fell :
        (o : Option PortError)
        → fell o ≡ false
        → any_fell (elim o [ none ↦ [] | some e ↦ e ∷ [] ]) ≡ false
    none_fell none q = refl
    none_fell (some cannot_bind) q = refl
    none_fell (some not_wired) q = refl
    none_fell (some reverted) q = q
    none_fell (some rebind_failed) q = q

    pick :
        (b : Bool)
        → any_fell
            (errors_of (if b then none else some (rebind binds k srv old (with_port old want))))
          ≡ false
    pick true = refl
    pick false = none_fell _ (rebind-steady binds k srv old (with_port old want) steady)

-- When an address can be bound or not but does not change between two attempts, a change of the
-- ports takes no service down: each one serves the address that the manager tracks for it.
pub apply_protocol_ports-steady :
    (binds : Binds) (pm : PortManager) (smtp_port pop3_port imap_port : ℕ)
    → ((i j : ℕ) (b : Address) → binds i b ≡ binds j b)
    → pm.smtp.serving ≡ pm.smtp_addr
    → pm.pop3.serving ≡ pm.pop3_addr
    → pm.imap.serving ≡ pm.imap_addr
    → let v = (apply_protocol_ports binds pm smtp_port pop3_port imap_port).manager in
      (v.smtp.serving ≡ v.smtp_addr)
      × (v.pop3.serving ≡ v.pop3_addr)
      × (v.imap.serving ≡ v.imap_addr)
unfolding apply_protocol_ports
apply_protocol_ports-steady binds pm smtp_port pop3_port imap_port steady es ep ei = (
  (apply_port-Kept binds pm.tries pm.smtp pm.smtp_addr smtp_port es).up
      (fell_nowhere binds pm.tries pm.smtp pm.smtp_addr smtp_port steady),
  (apply_port-Kept binds _ pm.pop3 pm.pop3_addr pop3_port ep).up
      (fell_nowhere binds _ pm.pop3 pm.pop3_addr pop3_port steady),
  (apply_port-Kept binds _ pm.imap pm.imap_addr imap_port ei).up
      (fell_nowhere binds _ pm.imap pm.imap_addr imap_port steady),
)
