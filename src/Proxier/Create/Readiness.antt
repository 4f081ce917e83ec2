-- ===== src/Proxier/Create/Readiness.antt =====
-- When `CreatePortForward` of internal/proxier/portforward.go comes back, and what it leaves.
use localizer.Base.{
  ◌≡◌, ◌⊎◌, refl, sym, ap, subst, ◌∙◌, true, List, ◌∷◌, Option, none, some, Bytes, codes, Result,
  ok, err, panic, blocked, goes_on, arith, Option-cases, inl, inr, is_ok, is_err, is_panic,
  is_blocked, result_cases, if◌then◌else◌, wrap,
}
use localizer.Hostsfile.Block.{Platform}
use localizer.Hostsfile.Returning.{Answers, methods-answers}
use localizer.Hostsfile.Disks.{save-ready}
use localizer.Proxier.Types.{Connection, CreateRequest, PodInfo, Tunnel}
use localizer.Proxier.Types.{running}
use localizer.Proxier.Lifecycle.{up, idle, Represents}
use localizer.Proxier.Worker.{Ipam, World}
use localizer.Proxier.Worker.Readiness.{IsAnswering, IsReady, stop_port_forward-Calm}
use localizer.Proxier.Create.{
  Attempt, M, continue, fail_on, acquire, alias_ip, add_host_entry, save_hosts, upgrade, find_pod,
  open_tunnel, wait_for_pod, attempt, again,
}

-- A connection that is being made: it is to run, and has no tunnel yet.
abbrev pub IsNew : CreateRequest → Connection → Type 0
IsNew req c = (c.status ≡ running) × (c.pf ≡ none) × (c.ports ≡ req.ports)

-- What becomes of it: it leads to a pod, or waits for one.
abbrev pub IsMade : Connection → Type 0
IsMade c = ((pod : PodInfo) × Represents c (up pod)) ⊎ Represents c idle

-- A step of an attempt came back, and left the map and the tunnels' goroutines alone.
pub record Going {P : Type 0} (req : CreateRequest) (s : Attempt P)
    (t : Attempt P × Result (Unit {0})) : Type 0 where
  pub went : goes_on t.1 ≡ true
  pub ready : IsReady t.0.worker
  pub same_forwards : t.0.worker.port_forwards ≡ s.worker.port_forwards
  pub same_tunnels : t.0.worker.forwards ≡ s.worker.forwards
  pub fresh : IsNew req s.pf → IsNew req t.0.pf

-- The same, but with success a goroutine may have been started.
pub record Grown {P : Type 0} (req : CreateRequest) (s : Attempt P)
    (t : Attempt P × Result (Unit {0})) : Type 0 where
  pub went : goes_on t.1 ≡ true
  pub ready : IsReady t.0.worker
  pub same_forwards : t.0.worker.port_forwards ≡ s.worker.port_forwards
  pub tunnels :
      (t.0.worker.forwards ≡ s.worker.forwards)
      ⊎ ((t.1 ≡ ok tt) × (t.0.worker.forwards ≡ again req ∷ s.worker.forwards))
  pub made : IsNew req s.pf → t.1 ≡ ok tt → IsMade t.0.pf

module _ {P : Type 0} (req : CreateRequest) where
  continue-Grown :
      (s : Attempt P) (t : Attempt P × Result (Unit {0})) (f : M P (Unit {0}))
      → Going req s t
      → ((u : Attempt P) → IsReady u.worker → Grown req u (f u))
      → Grown req s (continue {A = Unit {0}} {B = Unit {0}} t (λ _. f))
  continue-Grown s (u, ok a) f g k =
      let h = k u g.ready in
      record {
        went = h.went;
        ready = h.ready;
        same_forwards = h.same_forwards ∙ g.same_forwards;
        tunnels = elim (h.tunnels) [
          | inl same ↦ inl (same ∙ g.same_tunnels)
          | inr (done, more) ↦ inr (done, more ∙ ap (λ q. again req ∷ q) g.same_tunnels)
        ];
        made = λ new done. h.made (g.fresh new) done;
      }
  continue-Grown s (u, err e) f g k = record {
    went = refl;
    ready = g.ready;
    same_forwards = g.same_forwards;
    tunnels = inl g.same_tunnels;
    made = λ new done. absurd (ground arith);
  }
  continue-Grown s (u, panic) f g k = let h = g.went in absurd (ground arith)
  continue-Grown s (u, blocked) f g k = let h = g.went in absurd (ground arith)

module _ (p : Platform) (answers : Answers p) {P : Type 0} (ipam : Ipam P)
    (calls : IsAnswering ipam) (world : World) (req : CreateRequest) where
  abbrev opened_at : Bytes → PodInfo → List Bytes → Option Tunnel
  opened_at ip pod ports = some (record { address = ip; pod = pod; ports = ports })

  fail_on-Going :
      (message : Bytes) (e : Option Bytes) (s : Attempt P)
      → IsReady s.worker
      → Going req s (fail_on message e s)
  fail_on-Going message none s r = record {
    went = refl;
    ready = r;
    same_forwards = refl;
    same_tunnels = refl;
    fresh = λ h. h;
  }
  fail_on-Going message (some e) s r = record {
    went = refl;
    ready = r;
    same_forwards = refl;
    same_tunnels = refl;
    fresh = λ h. h;
  }

  wrapped :
      (message : Bytes) (r : Result (Unit {0})) → goes_on r ≡ true → goes_on (wrap message r) ≡ true
  wrapped message (ok _) h = refl
  wrapped message (err _) h = refl
  wrapped message panic h = h
  wrapped message blocked h = h

  pub acquire-Going : (s : Attempt P) → IsReady s.worker → Going req s (acquire p ipam world s)
  unfolding acquire
  acquire-Going s r = elim (result_cases (ipam.acquire_ip s.worker.ippool s.worker.ip_cidr)) [
    | is_ok (ip, pool) e ↦
        rw (e, acquire)
          (record {
            went = refl;
            ready = record { free = r.free; disk = r.disk };
            same_forwards = refl;
            same_tunnels = refl;
            fresh = λ h. h;
          })
    | is_err m e ↦
        rw (e, acquire)
          (record {
            went = refl;
            ready = r;
            same_forwards = refl;
            same_tunnels = refl;
            fresh = λ h. h;
          })
    | is_panic e ↦ absurd (ground (arith, calls.acquires s.worker.ippool s.worker.ip_cidr))
    | is_blocked e ↦ absurd (ground (arith, calls.acquires s.worker.ippool s.worker.ip_cidr))
  ]

  pub alias_ip-Going : (s : Attempt P) → IsReady s.worker → Going req s (alias_ip p ipam world s)
  unfolding alias_ip
  alias_ip-Going s r =
      fail_on-Going (codes "failed to create ip link")
        (if world.darwin_alias then world.alias_up else none) s r

  pub upgrade-Going : (s : Attempt P) → IsReady s.worker → Going req s (upgrade p ipam world s)
  unfolding upgrade
  upgrade-Going s r = fail_on-Going (codes "failed to upgrade connection") world.round_tripper s r

  pub add_host_entry-Going :
      (hosts : List Bytes) (s : Attempt P)
      → IsReady s.worker
      → Going req s (add_host_entry p ipam world hosts s)
  unfolding add_host_entry
  add_host_entry-Going hosts s r =
      let (unlocked, went) =
        (methods-answers p answers world.ctx s.worker.dns r.free).3 s.pf.ip hosts in
      record {
        went = wrapped (codes "failed to add host entry") _ went;
        ready = record { free = unlocked; disk = r.disk };
        same_forwards = refl;
        same_tunnels = refl;
        fresh = λ h. h;
      }

  pub save_hosts-Going :
      (s : Attempt P) → IsReady s.worker → Going req s (save_hosts p ipam world s)
  unfolding save_hosts
  save_hosts-Going s r =
      let (unlocked, went, readable) =
        save-ready p answers world.ctx world.clock s.worker.dns s.worker.disk r.free r.disk in
      record {
        went = wrapped (codes "failed to save host changes") _ went;
        ready = record { free = unlocked; disk = readable };
        same_forwards = refl;
        same_tunnels = refl;
        fresh = λ h. h;
      }

  wait_for_pod-Grown :
      (s : Attempt P) → IsReady s.worker → Grown req s (wait_for_pod p ipam world s)
  unfolding wait_for_pod
  wait_for_pod-Grown s r =
      let c = stop_port_forward-Calm p answers ipam calls world _ s.worker r in
      record {
        went = c.went;
        ready = c.ready;
        same_forwards = c.same_forwards;
        tunnels = inl c.same_tunnels;
        made = λ new done. inr (subst (λ q. Represents q idle) (sym c.cleared) (refl, refl, new.1));
      }

  open_tunnel-Grown :
      (pod : PodInfo) (s : Attempt P)
      → IsReady s.worker
      → Grown req s (open_tunnel p ipam world req pod s)
  unfolding open_tunnel
  open_tunnel-Grown pod s r = elim (Option-cases world.new_on_addresses) [
    | inl opens ↦
        rw (opens, open_tunnel)
          (record {
            went = refl;
            ready = record { free = r.free; disk = r.disk };
            same_forwards = refl;
            tunnels = inr (refl, refl);
            made = λ new done. inl (pod, (new.0, refl, ap (opened_at s.pf.ip pod) (sym new.2)));
          })
    | inr (e, fails) ↦
        rw (fails, open_tunnel)
          (record {
            went = refl;
            ready = r;
            same_forwards = refl;
            tunnels = inl refl;
            made = λ new done. absurd (ground arith);
          })
  ]

  connect-Grown :
      (pod : Option PodInfo) (s : Attempt P)
      → IsReady s.worker
      → Grown req s (
          let m : M P (Unit {0}) = elim pod [
            | some q ↦ open_tunnel p ipam world req q
            | none ↦ wait_for_pod p ipam world
          ] in
          m s)
  connect-Grown none = wait_for_pod-Grown
  connect-Grown (some q) = open_tunnel-Grown q

  pub attempt-Grown : (s : Attempt P) → IsReady s.worker → Grown req s (attempt p ipam world req s)
  unfolding attempt
  attempt-Grown s r =
      let connect : M P (Unit {0}) = elim (find_pod p ipam world req) [
        | some q ↦ open_tunnel p ipam world req q
        | none ↦ wait_for_pod p ipam world
      ] in
      continue-Grown req s (acquire p ipam world s) _ (acquire-Going s r) λ t rt.
        continue-Grown req t (alias_ip p ipam world t) _ (alias_ip-Going t rt) λ u ru.
          continue-Grown req u (add_host_entry p ipam world req.hostnames u) _
            (add_host_entry-Going req.hostnames u ru)
            λ v rv.
              continue-Grown req v (save_hosts p ipam world v) _ (save_hosts-Going v rv) λ x rx.
                continue-Grown req x (upgrade p ipam world x) connect (upgrade-Going x rx)
                  (connect-Grown (find_pod p ipam world req))
