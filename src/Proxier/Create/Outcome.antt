-- ===== src/Proxier/Create/Outcome.antt =====
-- What the map of internal/proxier/portforward.go has for a service after a create request for it.
use localizer.Base.{
  ◌≡◌, ◌⊎◌, refl, sym, ap, subst, ◌∙◌, Option, some, Bytes, Result, ok, err, panic, blocked, arith,
  inl, inr, if◌then◌else◌, str_eq, str_eq_refl,
}
use localizer.Base.Dict.{Dict, lookup, insert, lookup-insert}
use localizer.Hostsfile.Block.{Platform}
use localizer.Hostsfile.Returning.{Answers}
use localizer.Proxier.Types.{Connection, CreateRequest, service_key, recreating}
use localizer.Proxier.Lifecycle.{broken, Represents}
use localizer.Proxier.Worker.{Ipam, World, Worker, stop_port_forward, set_status}
use localizer.Proxier.Worker.Readiness.{IsAnswering, IsReady, stop_port_forward-Calm}
use localizer.Proxier.Create.{
  Attempt, attempt, settle, establish, new_connection, stop_entry, stop_existing,
}
use localizer.Proxier.Create.Readiness.{Grown, IsMade, attempt-Grown}
use localizer.Proxier.Create.Progress.{give_up-eq, stop_entry-eq}

-- Two maps differ in what they have for one key.
abbrev pub IsSetTo : Bytes → Option Connection → Dict Connection → Dict Connection → Type 0
IsSetTo key o m m' = (j : Bytes) → lookup j m' ≡ (if str_eq key j then o else lookup j m)

-- A new connection stands in the map, or nothing changed.
abbrev pub Established : Bytes → Dict Connection → Dict Connection → Type 0
Established key m m' = (m' ≡ m) ⊎ ((c : Connection) × IsMade c × IsSetTo key (some c) m m')

IsSetTo-insert :
    (key : Bytes) (c : Connection) (m : Dict Connection) → IsSetTo key (some c) m (insert key c m)
IsSetTo-insert key c m j = lookup-insert key j c m

pub IsSetTo-again :
    (key : Bytes) (o o' : Option Connection) (m m' m'' : Dict Connection)
    → IsSetTo key o m m'
    → IsSetTo key o' m' m''
    → IsSetTo key o' m m''
IsSetTo-again key o o' m m' m'' h g j = ground (arith, h j, g j)

module _ (p : Platform) (answers : Answers p) {P : Type 0} (ipam : Ipam P)
    (calls : IsAnswering ipam) (world : World) (req : CreateRequest) where
  settle-Established :
      (w : Worker P) (s u : Attempt P) (r : Result (Unit {0}))
      → s.worker ≡ w
      → s.pf ≡ new_connection req
      → Grown req s (u, r)
      → Established
          (service_key req.service)
          w.port_forwards
          (settle p ipam world (service_key req.service) (u, r)).0.port_forwards
  unfolding settle
  settle-Established w s u (ok _) same new g =
      let k = service_key req.service in
      let forwards : u.worker.port_forwards ≡ w.port_forwards =
        g.same_forwards ∙ ap (λ (v : Worker P). v.port_forwards) same in
      inr (
        u.pf,
        g.made (rw new (refl, refl, refl)) refl,
        subst (λ m. IsSetTo k (some (u.pf)) m (insert k u.pf u.worker.port_forwards)) forwards
            (IsSetTo-insert k u.pf u.worker.port_forwards),
      )
  settle-Established w s u (err e) same new g =
      let c = stop_port_forward-Calm p answers ipam calls world u.pf u.worker g.ready in
      inl (
        ap (λ (t : Worker P × Result (Unit {0})). t.0.port_forwards)
          (give_up-eq p answers ipam calls world req u e c.went)
        ∙ (c.same_forwards ∙ (g.same_forwards ∙ ap (λ (v : Worker P). v.port_forwards) same)))
  settle-Established w s u panic same new g = let h = g.went in absurd (ground arith)
  settle-Established w s u blocked same new g = let h = g.went in absurd (ground arith)

  pub establish-Established :
      (w : Worker P)
      → IsReady w
      → Established
          (service_key req.service)
          w.port_forwards
          (establish p ipam world req w).0.port_forwards
  unfolding establish
  establish-Established w r =
      let s : Attempt P = record { worker = w; pf = new_connection req } in
      let t = attempt p ipam world req s in
      settle-Established w s t.0 t.1 refl refl (attempt-Grown p answers ipam calls world req s r)

  set_status-IsSetTo :
      (reason : Bytes) (w : Worker P) (c : Connection)
      → lookup (service_key req.service) w.port_forwards ≡ some c
      → (set_status req.service recreating reason w).port_forwards
        ≡ insert
            (service_key req.service)
            (record c { status = recreating; status_reason = reason })
            w.port_forwards
  unfolding set_status
  set_status-IsSetTo reason w c e = rw (e, set_status) refl

  stop_existing-eq :
      (w : Worker P) (c : Connection)
      → lookup (service_key req.service) w.port_forwards ≡ some c
      → stop_existing p ipam world req w ≡ stop_entry p ipam world (service_key req.service) c w
  unfolding stop_existing
  stop_existing-eq w c e = rw (e, stop_existing) refl

  -- The entry of a recreation is left broken, until its successor is made.
  pub stop_existing-IsSetTo :
      (w : Worker P) (c : Connection)
      → lookup (service_key req.service) w.port_forwards ≡ some c
      → let v = set_status req.service recreating req.recreate_reason w in
        IsReady v
        → (d : Connection) × Represents d broken
          × IsSetTo
              (service_key req.service)
              (some d)
              w.port_forwards
              (stop_existing p ipam world req v).0.port_forwards
  stop_existing-IsSetTo w c e ready =
      let k = service_key req.service in
      let v = set_status req.service recreating req.recreate_reason w in
      let marked : Connection = record c {
        status = recreating;
        status_reason = req.recreate_reason;
      } in
      let changed = set_status-IsSetTo req.recreate_reason w c e in
      let there : lookup k v.port_forwards ≡ some marked =
        rw changed (ground (arith, lookup-insert k k marked w.port_forwards, str_eq_refl k)) in
      let t = stop_port_forward p ipam world marked v in
      let calm = stop_port_forward-Calm p answers ipam calls world marked v ready in
      let after =
        ap (λ (q : Worker P × Result (Unit {0})). q.0.port_forwards)
          (stop_existing-eq v marked there
            ∙ stop_entry-eq p answers ipam calls world req k marked v calm.went) in
      (
        t.1,
        subst (λ q. Represents q broken) (sym calm.cleared) (refl, refl),
        subst (IsSetTo k (some (t.1)) w.port_forwards) (sym after) (
            IsSetTo-again k (some marked) (some (t.1)) w.port_forwards t.0.port_forwards
              (insert k t.1 t.0.port_forwards)
              (subst (IsSetTo k (some marked) w.port_forwards) (sym (calm.same_forwards ∙ changed))
                (IsSetTo-insert k marked w.port_forwards))
              (IsSetTo-insert k t.1 t.0.port_forwards)),
      )
