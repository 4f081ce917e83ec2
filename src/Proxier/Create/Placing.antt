-- ===== src/Proxier/Create/Placing.antt =====
-- The pod that `CreatePortForward` of internal/proxier/portforward.go settles on.
use localizer.Base.{
  ◌≡◌, refl, sym, ap, subst, ◌∙◌, Option, none, some, Bytes, Result, ok, err, panic, blocked, arith,
  Option-cases, inl, inr, str_eq_refl, goes_on, true,
}
use localizer.Base.Dict.{lookup, lookup-insert}
use localizer.Hostsfile.Block.{Platform}
use localizer.Hostsfile.Returning.{Answers}
use localizer.Proxier.Types.{Connection, CreateRequest, PodInfo, service_key}
use localizer.Proxier.Lifecycle.{up, idle, Represents}
use localizer.Proxier.Worker.{Ipam, World, Worker}
use localizer.Proxier.Worker.Readiness.{IsAnswering, IsReady, stop_port_forward-Calm}
use localizer.Proxier.Create.{
  Attempt, M, continue, acquire, alias_ip, add_host_entry, save_hosts, upgrade, find_pod,
  open_tunnel, wait_for_pod, attempt, settle, establish, new_connection,
}
use localizer.Proxier.Create.Progress.{give_up-eq}
use localizer.Proxier.Create.Readiness.{
  IsNew, Going, Grown, acquire-Going, alias_ip-Going, add_host_entry-Going, save_hosts-Going,
  upgrade-Going, attempt-Grown,
}

-- A connection leads to the pod that was found, or waits for one.
abbrev pub IsPlaced : Option PodInfo → Connection → Type 0
IsPlaced (some pod) c = Represents c (up pod)
IsPlaced none c = Represents c idle

-- With success, a new connection is placed.
abbrev Places : {P : Type 0} → Option PodInfo → Attempt P × Result (Unit {0}) → Type 0
Places found t = t.1 ≡ ok tt → IsPlaced found t.0.pf

continue-Places :
    {P : Type 0} (req : CreateRequest) (found : Option PodInfo) (s : Attempt P)
    (t : Attempt P × Result (Unit {0})) (f : M P (Unit {0}))
    → Going req s t
    → IsNew req s.pf
    → ((u : Attempt P) → IsReady u.worker → IsNew req u.pf → Places found (f u))
    → Places found (continue {A = Unit {0}} {B = Unit {0}} t (λ _. f))
continue-Places req found s (u, ok a) f g new k done = k u g.ready (g.fresh new) done
continue-Places req found s (u, err e) f g new k done = absurd (ground arith)
continue-Places req found s (u, panic) f g new k done = absurd (ground arith)
continue-Places req found s (u, blocked) f g new k done = absurd (ground arith)

module _ (p : Platform) (answers : Answers p) {P : Type 0} (ipam : Ipam P)
    (calls : IsAnswering ipam) (world : World) (req : CreateRequest) where
  wait_for_pod-Places :
      (s : Attempt P)
      → IsReady s.worker
      → IsNew req s.pf
      → Places none (wait_for_pod p ipam world s)
  unfolding wait_for_pod
  wait_for_pod-Places s r new done =
      let c = stop_port_forward-Calm p answers ipam calls world _ s.worker r in
      subst (λ q. Represents q idle) (sym c.cleared) (refl, refl, new.1)

  open_tunnel-Places :
      (pod : PodInfo) (s : Attempt P)
      → IsNew req s.pf
      → Places (some pod) (open_tunnel p ipam world req pod s)
  unfolding open_tunnel
  open_tunnel-Places pod s new = elim (Option-cases world.new_on_addresses) [
    | inl opens ↦
        rw (opens, open_tunnel)
          (λ done. (
            new.0,
            refl,
            ap (λ ports. some (record { address = s.pf.ip; pod = pod; ports = ports })) (sym new.2),
          ))
    | inr (e, fails) ↦ rw (fails, open_tunnel) (λ done. absurd (ground arith))
  ]

  connect-Places :
      (found : Option PodInfo) (s : Attempt P)
      → IsReady s.worker
      → IsNew req s.pf
      → Places found (
          let m : M P (Unit {0}) = elim found [
            | some q ↦ open_tunnel p ipam world req q
            | none ↦ wait_for_pod p ipam world
          ] in
          m s)
  connect-Places none s r new = wait_for_pod-Places s r new
  connect-Places (some q) s r new = open_tunnel-Places q s new

  attempt-Places :
      (s : Attempt P)
      → IsReady s.worker
      → IsNew req s.pf
      → Places (find_pod p ipam world req) (attempt p ipam world req s)
  unfolding attempt
  attempt-Places s r new =
      let found = find_pod p ipam world req in
      let connect : M P (Unit {0}) = elim found [
        | some q ↦ open_tunnel p ipam world req q
        | none ↦ wait_for_pod p ipam world
      ] in
      continue-Places req found s (acquire p ipam world s) _
        (acquire-Going p answers ipam calls world req s r) new
        λ t rt nt.
          continue-Places req found t (alias_ip p ipam world t) _
            (alias_ip-Going p answers ipam calls world req t rt) nt
            λ u ru nu.
              continue-Places req found u (add_host_entry p ipam world req.hostnames u) _
                (add_host_entry-Going p answers ipam calls world req req.hostnames u ru) nu
                λ v rv nv.
                  continue-Places req found v (save_hosts p ipam world v) _
                    (save_hosts-Going p answers ipam calls world req v rv) nv
                    λ x rx nx.
                      continue-Places req found x (upgrade p ipam world x) connect
                        (upgrade-Going p answers ipam calls world req x rx) nx
                        (connect-Places found)

  -- A first request of a service makes its port-forward, or fails and leaves the map as it is.
  pub record Settled (w : Worker P) (t : Worker P × Result (Unit {0})) : Type 0 where
    pub made :
        t.1 ≡ ok tt
        → (c : Connection) × (lookup (service_key req.service) t.0.port_forwards ≡ some c)
          × IsPlaced (find_pod p ipam world req) c
    pub failed : (e : Bytes) → t.1 ≡ err e → t.0.port_forwards ≡ w.port_forwards
    pub went : goes_on t.1 ≡ true

  settle-Settled :
      (w : Worker P) (s u : Attempt P) (r : Result (Unit {0}))
      → s.worker ≡ w
      → Grown req s (u, r)
      → Places (find_pod p ipam world req) (u, r)
      → Settled w (settle p ipam world (service_key req.service) (u, r))
  unfolding settle
  settle-Settled w s u (ok _) same g placed =
      let k = service_key req.service in
      record {
        made = λ done. (
          u.pf,
          ground (arith, lookup-insert k k u.pf u.worker.port_forwards, str_eq_refl k),
          placed refl,
        );
        failed = λ e h. absurd (ground arith);
        went = refl;
      }
  settle-Settled w s u (err e) same g placed =
      let c = stop_port_forward-Calm p answers ipam calls world u.pf u.worker g.ready in
      let left = give_up-eq p answers ipam calls world req u e c.went in
      subst (Settled w) (sym left) (record {
        made = λ done. absurd (ground arith);
        failed = λ m h.
            c.same_forwards ∙ (g.same_forwards ∙ ap (λ (v : Worker P). v.port_forwards) same);
        went = refl;
      })
  settle-Settled w s u panic same g placed = let h = g.went in absurd (ground arith)
  settle-Settled w s u blocked same g placed = let h = g.went in absurd (ground arith)

  pub establish-Settled : (w : Worker P) → IsReady w → Settled w (establish p ipam world req w)
  unfolding establish
  establish-Settled w r =
      let s : Attempt P = record { worker = w; pf = new_connection req } in
      let t = attempt p ipam world req s in
      settle-Settled w s t.0 t.1 refl (attempt-Grown p answers ipam calls world req s r)
        (attempt-Places s r (refl, refl, refl))
