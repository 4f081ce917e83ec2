-- ===== src/Proxier/Worker/Stopping.antt =====
-- `stopPortForward` of internal/proxier/portforward.go, the pool and the map.
use mathlib.Core.List.{mem-cons_self}
use mathlib.Core.List.Perm
use localizer.Base.{
  ◌≡◌, ◌⊎◌, refl, ap, ap₂, sym, subst, ◌∙◌, true, List, [], ◌∷◌, ◌++◌, Bytes, Result, ok, arith,
  Mem, Perm, inl, inr,
}
use localizer.Hostsfile.Block.{Platform}
use localizer.Proxier.Types.{Connection}
use localizer.Proxier.Worker.{
  Ipam, World, Worker, alias_errors, save_removed, remove_hosts, release, close_tunnel,
  stop_port_forward,
}
use localizer.Proxier.Worker.Addresses.{goes_on, held_ip, held, IsLawful, taken}

pub held_cases : (c : Connection) → (c.ip ≡ []) ⊎ (held c ≡ c.ip ∷ [])
held_cases c = cases c.ip refl
  where
    cases : (ip : Bytes) → c.ip ≡ ip → (c.ip ≡ []) ⊎ (held_ip c.ip ≡ c.ip ∷ [])
    cases [] e = inl e
    cases (x ∷ xs) e = inr (ap held_ip e ∙ ap (λ t. t ∷ []) (sym e))

module _ (p : Platform) {P : Type 0} (ipam : Ipam P) (world : World) where
  -- What is left of the worker and the connection by the part of `stopPortForward` behind the
  -- release.
  abbrev Same : Worker P → Connection → Worker P × Connection × Result (Unit {0}) → Type 0
  Same w conn t =
      goes_on t.2 ≡ true
      → (t.0.ippool ≡ w.ippool)
        × (t.0.ip_cidr ≡ w.ip_cidr)
        × (t.0.port_forwards ≡ w.port_forwards)
        × (t.1.ip ≡ [])
        × (t.1.service ≡ conn.service)

  save_removed-Same :
      (conn : Connection) (w : Worker P) (errs : List Bytes)
      → Same w conn (save_removed p ipam world conn w errs)
  unfolding save_removed
  save_removed-Same conn w errs h = ground arith

  remove_hosts-Same :
      (conn : Connection) (w : Worker P) (errs : List Bytes)
      → Same w conn (remove_hosts p ipam world conn w errs)
  unfolding remove_hosts
  remove_hosts-Same conn w errs h = ground arith

  -- The connection gives its address back, and has none afterwards; the map is as it was.
  pub record Stopped (w : Worker P) (conn : Connection)
      (t : Worker P × Connection × Result (Unit {0})) : Type 0 where
    pub same_cidr : t.0.ip_cidr ≡ w.ip_cidr
    pub same_forwards : t.0.port_forwards ≡ w.port_forwards
    pub cleared : t.1.ip ≡ []
    pub same_service : t.1.service ≡ conn.service
    pub gave_back : Perm (taken ipam w) (held conn ++ taken ipam t.0)

  close_tunnel-same :
      (conn : Connection) (w : Worker P)
      → ((close_tunnel conn w).ippool ≡ w.ippool)
        × ((close_tunnel conn w).ip_cidr ≡ w.ip_cidr)
        × ((close_tunnel conn w).port_forwards ≡ w.port_forwards)
  unfolding close_tunnel
  close_tunnel-same conn w = ground arith

  pub stop_idle :
      (conn : Connection) (w : Worker P)
      → conn.ip ≡ []
      → stop_port_forward p ipam world conn w ≡ (close_tunnel conn w, conn, ok tt)
  unfolding stop_port_forward
  stop_idle conn w e = ground arith

  pub stop_held :
      (conn : Connection) (w : Worker P)
      → held conn ≡ conn.ip ∷ []
      → stop_port_forward p ipam world conn w
        ≡ release p ipam world conn (close_tunnel conn w) (alias_errors world)
  unfolding stop_port_forward
  stop_held conn w e = ground arith

  module _ (law : IsLawful ipam) where
    release_freed :
        (conn : Connection) (w : Worker P) (errs : List Bytes) (pool : P)
        → ipam.release_ip w.ippool w.ip_cidr conn.ip ≡ ok pool
        → release p ipam world conn w errs
          ≡ remove_hosts p ipam world conn (record w { ippool = pool }) errs
    unfolding release
    release_freed conn w errs pool freed = rw (freed, release)

    release-Stopped :
        (conn : Connection) (w : Worker P) (errs : List Bytes)
        → held conn ≡ conn.ip ∷ []
        → Mem conn.ip (taken ipam w)
        → goes_on (release p ipam world conn w errs).2 ≡ true
        → Stopped w conn (release p ipam world conn w errs)
    release-Stopped conn w errs e m h =
        let (pool, freed, perm) = law.released w.ippool w.ip_cidr conn.ip m in
        let w' : Worker P = record w { ippool = pool } in
        let moved = release_freed conn w errs pool freed in
        let same = remove_hosts-Same conn w' errs (subst (λ t. goes_on t.2 ≡ true) moved h) in
        subst (Stopped w conn) (sym moved) (record {
          same_cidr = same.1;
          same_forwards = same.2;
          cleared = same.3;
          same_service = same.4;
          gave_back =
              subst
                (λ q.
                  Perm (taken ipam w) (q ++ taken ipam (remove_hosts p ipam world conn w' errs).0))
                (sym e)
                (subst (λ q. Perm (taken ipam w) (conn.ip ∷ q))
                  (sym (ap₂ ipam.allocated same.0 same.1)) perm);
        })

    -- A connection that holds an address holds one that is taken.
    abbrev pub IsTaken : Worker P → Connection → Type 0
    IsTaken w conn = (a : Bytes) → Mem a (held conn) → Mem a (taken ipam w)

    pub stop_port_forward-Stopped :
        (conn : Connection) (w : Worker P)
        → IsTaken w conn
        → goes_on (stop_port_forward p ipam world conn w).2 ≡ true
        → Stopped w conn (stop_port_forward p ipam world conn w)
    stop_port_forward-Stopped conn w m h = elim (held_cases conn) [
      | inl idle ↦
          let moved = stop_idle conn w idle in
          let closed = close_tunnel-same conn w in
          subst (Stopped w conn) (sym moved) (record {
            same_cidr = closed.1;
            same_forwards = closed.2;
            cleared = idle;
            same_service = refl;
            gave_back =
                subst (λ q. Perm (taken ipam w) (held_ip q ++ taken ipam (close_tunnel conn w)))
                  (sym idle)
                  (subst (Perm (taken ipam w)) (sym (ap₂ ipam.allocated closed.0 closed.1))
                    (Perm.refl _));
          })
      | inr holds ↦
          let moved = stop_held conn w holds in
          let closed = close_tunnel-same conn w in
          let same = ap₂ ipam.allocated closed.0 closed.1 in
          let there : Mem conn.ip (taken ipam w) =
            m conn.ip (subst (Mem conn.ip) (sym holds) mem-cons_self) in
          let s =
            release-Stopped conn (close_tunnel conn w) (alias_errors world) holds
              (subst (Mem conn.ip) (sym same) there) (subst (λ t. goes_on t.2 ≡ true) moved h) in
          subst (Stopped w conn) (sym moved) (record {
            same_cidr = s.same_cidr ∙ closed.1;
            same_forwards = s.same_forwards ∙ closed.2;
            cleared = s.cleared;
            same_service = s.same_service;
            gave_back =
                subst
                  (λ q. Perm q (
                    held conn
                    ++ taken ipam
                        (release p ipam world conn (close_tunnel conn w) (alias_errors world)).0))
                  same s.gave_back;
          })
    ]
