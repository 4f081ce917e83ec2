-- ===== src/Proxier/Create/Attempts.antt =====
-- What an attempt of `CreatePortForward`, internal/proxier/portforward.go, takes from the pool.
use mathlib.Core.List.{perm-append_left_iff, Nodup-cons, mem-append_left}
use mathlib.Core.List.Perm
use mathlib.Core.List.Nodup
use localizer.Base.{
  ◌≡◌, ◌≢◌, refl, ap₂, sym, subst, ◌∙◌, true, List, [], ◌∷◌, ◌++◌, Option, none, some, Bytes,
  Result, ok, err, panic, blocked, arith, if◌then◌else◌, Mem, Perm, Nodup, codes, is_ok, is_err,
  is_panic, is_blocked, result_cases,
}
use localizer.Hostsfile.Block.{Platform}
use localizer.Proxier.Types.{ServiceInfo, Connection, PodInfo, CreateRequest}
use localizer.Proxier.Worker.{Ipam, World, Worker}
use localizer.Proxier.Worker.Addresses.{goes_on, held_ip, held, IsLawful, taken}
use localizer.Proxier.Worker.Stopping.{Stopped, stop_port_forward-Stopped}
use localizer.Proxier.Create.{
  Attempt, M, continue, ◌>>◌, fail_on, acquire, alias_ip, add_host_entry, save_hosts, upgrade,
  find_pod, open_tunnel, wait_for_pod, attempt,
}

held_ip_ne : (ip : Bytes) → ip ≢ [] → held_ip ip ≡ ip ∷ []
held_ip_ne [] ne = absurd (ne refl)
held_ip_ne (c ∷ cs) ne = refl

module _ {P : Type 0} (ipam : Ipam P) (w : Worker P) (si : ServiceInfo) where
  -- Between the start of an attempt in `w` and the state `s`, the pool gave out just what the new
  -- connection holds, and the map is as it was.
  pub record Holding (s : Attempt P) : Type 0 where
    pub same_cidr : s.worker.ip_cidr ≡ w.ip_cidr
    pub same_forwards : s.worker.port_forwards ≡ w.port_forwards
    pub same_service : s.pf.service ≡ si
    pub distinct : Nodup (taken ipam s.worker)
    pub gained : Perm (taken ipam s.worker) (held s.pf ++ taken ipam w)

  abbrev Keeps : {A : Type 0} → M P A → Type 0
  Keeps m = (s : Attempt P) → Holding s → goes_on (m s).1 ≡ true → Holding (m s).0

  continue-Holding :
      {A B : Type 0} (t : Attempt P × Result A) (f : A → M P B)
      → (goes_on t.1 ≡ true → Holding t.0)
      → ((a : A) → Keeps (f a))
      → goes_on (continue t f).1 ≡ true
      → Holding (continue t f).0
  continue-Holding (s, ok a) f h k g = k a s (h refl) g
  continue-Holding (s, err e) f h k g = h refl
  continue-Holding (s, panic) f h k g = cc
  continue-Holding (s, blocked) f h k g = cc

  >>-Keeps : (m k : M P (Unit {0})) → Keeps m → Keeps k → Keeps (m >> k)
  >>-Keeps m k km kk s h g =
      continue-Holding {A = Unit {0}} {B = Unit {0}} (m s) (λ _. k) (km s h) (λ _. kk) g

  -- A step that leaves alone what the invariant is about.
  abbrev Same : Attempt P → Attempt P → Type 0
  Same s t =
      (t.worker.ippool ≡ s.worker.ippool)
      × (t.worker.ip_cidr ≡ s.worker.ip_cidr)
      × (t.worker.port_forwards ≡ s.worker.port_forwards)
      × (t.pf.ip ≡ s.pf.ip)
      × (t.pf.service ≡ s.pf.service)

  Holding-Same : (s t : Attempt P) → Same s t → Holding s → Holding t
  Holding-Same s t (pool, cidr, forwards, ip, service) h =
      let same = ap₂ ipam.allocated pool cidr in
      record {
        same_cidr = cidr ∙ h.same_cidr;
        same_forwards = forwards ∙ h.same_forwards;
        same_service = service ∙ h.same_service;
        distinct = subst Nodup (sym same) h.distinct;
        gained =
            subst (λ q. Perm q (held_ip t.pf.ip ++ taken ipam w)) (sym same)
              (subst (λ q. Perm (taken ipam s.worker) (held_ip q ++ taken ipam w)) (sym ip)
                h.gained);
      }

  Same-Keeps : {A : Type 0} (m : M P A) → ((s : Attempt P) → Same s (m s).0) → Keeps m
  Same-Keeps m same s h g = Holding-Same s (m s).0 (same s) h

  fail_on-Same :
      (message : Bytes) (e : Option Bytes) (s : Attempt P) → Same s (fail_on message e s).0
  fail_on-Same message none s = (refl, refl, refl, refl, refl)
  fail_on-Same message (some e) s = (refl, refl, refl, refl, refl)

  module _ (p : Platform) (world : World) where
    alias_ip-Same : (s : Attempt P) → Same s (alias_ip p ipam world s).0
    unfolding alias_ip
    alias_ip-Same s =
        fail_on-Same (codes "failed to create ip link")
          (if world.darwin_alias then world.alias_up else none) s

    upgrade-Same : (s : Attempt P) → Same s (upgrade p ipam world s).0
    unfolding upgrade
    upgrade-Same s = fail_on-Same (codes "failed to upgrade connection") world.round_tripper s

    add_host_entry-Same :
        (hosts : List Bytes) (s : Attempt P) → Same s (add_host_entry p ipam world hosts s).0
    unfolding add_host_entry
    add_host_entry-Same hosts s = (refl, refl, refl, refl, refl)

    save_hosts-Same : (s : Attempt P) → Same s (save_hosts p ipam world s).0
    unfolding save_hosts
    save_hosts-Same s = (refl, refl, refl, refl, refl)

    open_tunnel-Same :
        (req : CreateRequest) (pod : PodInfo) (s : Attempt P)
        → Same s (open_tunnel p ipam world req pod s).0
    unfolding open_tunnel
    open_tunnel-Same req pod s = ground arith

    module _ (law : IsLawful ipam) where
      acquired-Holding :
          (s : Attempt P) (ip : Bytes) (pool : P)
          → s.pf.ip ≡ []
          → Holding s
          → ipam.acquire_ip s.worker.ippool s.worker.ip_cidr ≡ ok (ip, pool)
          → Holding (record s {
            worker = record (s.worker) { ippool = pool };
            pf = record (s.pf) { ip = ip };
          })
      acquired-Holding s ip pool idle h e =
          let (ne, fresh, more) = law.acquired s.worker.ippool pool s.worker.ip_cidr ip e in
          let before : Perm (taken ipam s.worker) (taken ipam w) =
            subst (λ q. Perm (taken ipam s.worker) (held_ip q ++ taken ipam w)) idle h.gained in
          record {
            same_cidr = h.same_cidr;
            same_forwards = h.same_forwards;
            same_service = h.same_service;
            distinct = subst Nodup (sym more) (Nodup-cons.1 (fresh, h.distinct));
            gained =
                subst (λ q. Perm (ipam.allocated pool s.worker.ip_cidr) (q ++ taken ipam w))
                  (sym (held_ip_ne ip ne))
                  (subst (λ q. Perm q (ip ∷ taken ipam w)) (sym more) (Perm.cons ip before));
          }

      acquire-Holding :
          (s : Attempt P)
          → s.pf.ip ≡ []
          → Holding s
          → goes_on (acquire p ipam world s).1 ≡ true
          → Holding (acquire p ipam world s).0
      unfolding acquire
      acquire-Holding s idle h g =
          elim (result_cases (ipam.acquire_ip s.worker.ippool s.worker.ip_cidr)) [
            | is_ok (ip, pool) e ↦ rw (e, acquire) (acquired-Holding s ip pool idle h e)
            | is_err m e ↦ rw (e, acquire) h
            | is_panic e ↦ absurd (ground arith)
            | is_blocked e ↦ absurd (ground arith)
          ]

      -- Once the new connection is stopped, the pool is as before the attempt.
      pub returned_addresses :
          (s : Attempt P) (conn : Connection) (t : Worker P × Connection × Result (Unit {0}))
          → Holding s
          → conn.ip ≡ s.pf.ip
          → Stopped p ipam world s.worker conn t
          → Nodup (taken ipam t.0) × Perm (taken ipam t.0) (taken ipam w)
      returned_addresses s conn t h same st =
          let gave =
            subst (λ q. Perm (taken ipam s.worker) (held_ip q ++ taken ipam t.0)) same
              st.gave_back in
          (
            Nodup.of_append_right (held s.pf) (Perm.nodup gave h.distinct),
            (perm-append_left_iff (held s.pf)).0 (Perm.trans (Perm.symm gave) h.gained),
          )

      pub new-IsTaken :
          (s : Attempt P)
          → Holding s
          → (a : Bytes) → Mem a (held s.pf)
          → Mem a (taken ipam s.worker)
      new-IsTaken s h a m = (Perm.mem_iff h.gained).1 (mem-append_left (taken ipam w) m)

      wait_for_pod-Keeps : Keeps (wait_for_pod p ipam world)
      unfolding wait_for_pod
      wait_for_pod-Keeps s h g =
          let st = stop_port_forward-Stopped p ipam world law _ s.worker (new-IsTaken s h) g in
          let (distinct, back) = returned_addresses s _ _ h refl st in
          record {
            same_cidr = st.same_cidr ∙ h.same_cidr;
            same_forwards = st.same_forwards ∙ h.same_forwards;
            same_service = st.same_service ∙ h.same_service;
            distinct = distinct;
            gained =
                subst
                  (λ q.
                    Perm (taken ipam (wait_for_pod p ipam world s).0.worker)
                      (held_ip q ++ taken ipam w))
                  (sym st.cleared) back;
          }

      connect-Keeps :
          (req : CreateRequest) (pod : Option PodInfo)
          → Keeps (elim pod [
            | some q ↦ open_tunnel p ipam world req q
            | none ↦ wait_for_pod p ipam world
          ])
      connect-Keeps req none = wait_for_pod-Keeps
      connect-Keeps req (some q) =
          Same-Keeps (open_tunnel p ipam world req q) (open_tunnel-Same req q)

      -- The whole attempt, from a connection with no address.
      pub attempt-Holding :
          (req : CreateRequest) (s : Attempt P)
          → s.pf.ip ≡ []
          → Holding s
          → goes_on (attempt p ipam world req s).1 ≡ true
          → Holding (attempt p ipam world req s).0
      unfolding attempt
      attempt-Holding req s idle h g =
          let connect : M P (Unit {0}) = elim (find_pod p ipam world req) [
            | some q ↦ open_tunnel p ipam world req q
            | none ↦ wait_for_pod p ipam world
          ] in
          let upgraded = upgrade p ipam world >> connect in
          let saved = save_hosts p ipam world >> upgraded in
          let added = add_host_entry p ipam world req.hostnames >> saved in
          let aliased = alias_ip p ipam world >> added in
          let k_upgraded =
            >>-Keeps (upgrade p ipam world) connect (Same-Keeps (upgrade p ipam world) upgrade-Same)
              (connect-Keeps req (find_pod p ipam world req)) in
          let k_saved =
            >>-Keeps (save_hosts p ipam world) upgraded
              (Same-Keeps (save_hosts p ipam world) save_hosts-Same) k_upgraded in
          let k_added =
            >>-Keeps (add_host_entry p ipam world req.hostnames) saved
              (Same-Keeps (add_host_entry p ipam world req.hostnames)
                (add_host_entry-Same req.hostnames))
              k_saved in
          let k_aliased =
            >>-Keeps (alias_ip p ipam world) added
              (Same-Keeps (alias_ip p ipam world) alias_ip-Same) k_added in
          continue-Holding {A = Unit {0}} {B = Unit {0}} (acquire p ipam world s) (λ _. aliased)
            (acquire-Holding s idle h) (λ _. k_aliased) g
