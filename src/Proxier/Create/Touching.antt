-- ===== src/Proxier/Create/Touching.antt =====
-- When `CreatePortForward` of internal/proxier/portforward.go touches the worker.
use localizer.Base.{
  codes, if◌then◌else◌, ℕ, ◌≡◌, refl, ◌∙◌, List, Option, none, some, Bytes, Result, ok, err, panic,
  blocked, arith, Option-cases, inl, inr,
}
use localizer.Base.Dict.{lookup}
use localizer.Hostsfile.Block.{Platform}
use localizer.Proxier.Types.{CreateRequest, PodInfo, recreating, service_key}
use localizer.Proxier.Worker.{Ipam, World, Worker, set_status}
use localizer.Proxier.Worker.Touching.{stop_port_forward-time, set_status-time}
use localizer.Proxier.Create.{
  Attempt, M, continue, fail_on, acquire, alias_ip, add_host_entry, save_hosts, upgrade, find_pod,
  open_tunnel, wait_for_pod, attempt, settle, give_up, establish, new_connection, stop_entry,
  stop_existing, recreate_port_forward,
}

abbrev pub time : {P : Type 0} → Worker P → ℕ
time w = w.last_touch_time

-- A stretch of an attempt leaves the time alone.
abbrev Timeless : {P A : Type 0} → M P A → Type 0
Timeless {P} m = (s : Attempt P) → time (m s).0.worker ≡ time s.worker

continue-time :
    {P A B : Type 0} (t : Attempt P × Result A) (f : A → M P B)
    → ((a : A) → Timeless (f a))
    → time (continue t f).0.worker ≡ time t.0.worker
continue-time (s, ok a) f h = h a s
continue-time (s, err e) f h = refl
continue-time (s, panic) f h = refl
continue-time (s, blocked) f h = refl

fail_on-time :
    {P : Type 0} (message : Bytes) (e : Option Bytes) → Timeless {P = P} (fail_on message e)
fail_on-time message none s = refl
fail_on-time message (some e) s = refl

module _ (p : Platform) {P : Type 0} (ipam : Ipam P) (world : World) where
  acquire-time : Timeless (acquire p ipam world)
  unfolding acquire
  acquire-time s = ground arith

  open_tunnel-time :
      (req : CreateRequest) (pod : PodInfo) → Timeless (open_tunnel p ipam world req pod)
  unfolding open_tunnel
  open_tunnel-time req pod s = ground arith

  wait_for_pod-time : Timeless (wait_for_pod p ipam world)
  unfolding wait_for_pod
  wait_for_pod-time s = stop_port_forward-time p ipam world _ s.worker

  connect-time :
      (req : CreateRequest) (found : Option PodInfo)
      → Timeless {P = P} (elim found [
        | some q ↦ open_tunnel p ipam world req q
        | none ↦ wait_for_pod p ipam world
      ])
  connect-time req none = wait_for_pod-time
  connect-time req (some q) = open_tunnel-time req q

  alias_ip-time : Timeless (alias_ip p ipam world)
  unfolding alias_ip
  alias_ip-time s =
      fail_on-time (codes "failed to create ip link")
        (if world.darwin_alias then world.alias_up else none) s

  add_host_entry-time : (hosts : List Bytes) → Timeless (add_host_entry p ipam world hosts)
  unfolding add_host_entry
  add_host_entry-time hosts s = refl

  save_hosts-time : Timeless (save_hosts p ipam world)
  unfolding save_hosts
  save_hosts-time s = refl

  upgrade-time : Timeless (upgrade p ipam world)
  unfolding upgrade
  upgrade-time s = fail_on-time (codes "failed to upgrade connection") world.round_tripper s

  attempt-time : (req : CreateRequest) → Timeless (attempt p ipam world req)
  unfolding attempt
  attempt-time req s =
      continue-time {A = Unit {0}} {B = Unit {0}} (acquire p ipam world s) _ (λ _ t.
        continue-time {A = Unit {0}} {B = Unit {0}} (alias_ip p ipam world t) _ (λ _ u.
          continue-time {A = Unit {0}} {B = Unit {0}} (add_host_entry p ipam world req.hostnames u)
            _
            (λ _ v.
              continue-time {A = Unit {0}} {B = Unit {0}} (save_hosts p ipam world v) _ (λ _ x.
                continue-time {A = Unit {0}} {B = Unit {0}} (upgrade p ipam world x) _
                  (λ _. connect-time req (find_pod p ipam world req))
                ∙ upgrade-time x)
              ∙ save_hosts-time v)
          ∙ add_host_entry-time req.hostnames u)
        ∙ alias_ip-time t)
      ∙ acquire-time s

  settle-time :
      (key : Bytes) (t : Attempt P × Result (Unit {0}))
      → time (settle p ipam world key t).0 ≡ time t.0.worker
  unfolding settle give_up
  settle-time key (s, ok u) = refl
  settle-time key (s, err e) = ground (arith, stop_port_forward-time p ipam world s.pf s.worker)
  settle-time key (s, panic) = refl
  settle-time key (s, blocked) = refl

  pub establish-time :
      (req : CreateRequest) (w : Worker P) → time (establish p ipam world req w).0 ≡ time w
  unfolding establish
  establish-time req w =
      settle-time (service_key req.service)
        (attempt p ipam world req (record { worker = w; pf = new_connection req }))
      ∙ attempt-time req (record { worker = w; pf = new_connection req })

  stop_existing-time :
      (req : CreateRequest) (w : Worker P) → time (stop_existing p ipam world req w).0 ≡ time w
  unfolding stop_existing stop_entry
  stop_existing-time req w =
      elim (Option-cases (lookup (service_key req.service) w.port_forwards)) [
        | inl absent ↦ rw (absent, stop_existing) refl
        | inr (c, e) ↦
            rw (e, stop_existing) (ground (arith, stop_port_forward-time p ipam world c w))
      ]

  pub recreate-time :
      (req : CreateRequest) (w : Worker P)
      → time (recreate_port_forward p ipam world req w).0 ≡ time w
  unfolding recreate_port_forward
  recreate-time req w =
      let u = set_status req.service recreating req.recreate_reason w in
      let v = (stop_existing p ipam world req u).0 in
      ground (
        arith,
        stop_existing-time req u,
        set_status-time req.service recreating req.recreate_reason w,
        establish-time req v,
      )
