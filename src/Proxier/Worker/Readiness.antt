-- ===== src/Proxier/Worker/Readiness.antt =====
-- When the steps of internal/proxier/portforward.go that stop a port-forward come back.
use localizer.Base.{
  ap, ◌≡◌, refl, sym, subst, ◌∙◌, true, false, List, [], ◌∷◌, Bytes, Result, goes_on, arith,
  Option-cases, inl, inr, is_ok, is_err, is_panic, is_blocked, result_cases,
}
use localizer.Hostsfile.Scanner.{background}
use localizer.Hostsfile.Block.{Platform}
use localizer.Hostsfile.{File, save, remove_address}
use localizer.Hostsfile.Returning.{Answers, methods-answers}
use localizer.Hostsfile.Disks.{IsReadable, save-ready}
use localizer.Proxier.Types.{Connection}
use localizer.Proxier.Worker.Stopping.{held_cases, stop_idle, stop_held}
use localizer.Proxier.Worker.{
  Ipam, World, Worker, alias_errors, save_removed, remove_hosts, release, close_tunnel, error_of,
  stop_port_forward,
}

-- The calls of the pool come back.
pub record IsAnswering {P : Type 0} (ipam : Ipam P) : Type 0 where
  pub acquires : (s : P) (cidr : Bytes) → goes_on (ipam.acquire_ip s cidr) ≡ true
  pub releases : (s : P) (cidr ip : Bytes) → goes_on (ipam.release_ip s cidr ip) ≡ true

-- The lock of the hosts file is free and the disk can be read.
pub record IsReady {P : Type 0} (w : Worker P) : Type 0 where
  pub free : w.dns.locked ≡ false
  pub disk : IsReadable w.disk

-- A stop came back and left the map and the tunnels' goroutines alone.
pub record Calm {P : Type 0} (w : Worker P) (conn : Connection)
    (t : Worker P × Connection × Result (Unit {0})) : Type 0 where
  pub went : goes_on t.2 ≡ true
  pub ready : IsReady t.0
  pub same_forwards : t.0.port_forwards ≡ w.port_forwards
  pub same_tunnels : t.0.forwards ≡ w.forwards
  pub cleared : t.1 ≡ record conn { ip = [] }

error_of-goes_on : (errs : List Bytes) → goes_on (error_of errs) ≡ true
error_of-goes_on [] = refl
error_of-goes_on (e ∷ es) = refl

Calm-from :
    {P : Type 0} (v w : Worker P) (conn : Connection)
    (t : Worker P × Connection × Result (Unit {0}))
    → v.port_forwards ≡ w.port_forwards
    → v.forwards ≡ w.forwards
    → Calm v conn t
    → Calm w conn t
Calm-from v w conn t forwards tunnels c = record {
  went = c.went;
  ready = c.ready;
  same_forwards = c.same_forwards ∙ forwards;
  same_tunnels = c.same_tunnels ∙ tunnels;
  cleared = c.cleared;
}

removed_free : (ip : Bytes) (f : File) → f.locked ≡ false → (remove_address ip f).0.locked ≡ false
unfolding remove_address
removed_free ip f free = ground arith

module _ (p : Platform) (answers : Answers p) {P : Type 0} (ipam : Ipam P)
    (calls : IsAnswering ipam) (world : World) where
  save_removed-Calm :
      (conn : Connection) (w : Worker P) (errs : List Bytes)
      → IsReady w
      → Calm w conn (save_removed p ipam world conn w errs)
  unfolding save_removed
  save_removed-Calm conn w errs r =
      let (unlocked, went, readable) =
        save-ready p answers background world.clock w.dns w.disk r.free r.disk in
      let (dns', disk', saved) = save p background world.clock w.dns w.disk in
      let ready : IsReady (record w { dns = dns'; disk = disk' }) = record {
        free = unlocked;
        disk = readable;
      } in
      elim (result_cases (save p background world.clock w.dns w.disk).2) [
        | is_ok u e ↦
            rw (e, save_removed)
              (record {
                went = error_of-goes_on errs;
                ready = ready;
                same_forwards = refl;
                same_tunnels = refl;
                cleared = refl;
              })
        | is_err m e ↦
            rw (e, save_removed)
              (record {
                went = error_of-goes_on _;
                ready = ready;
                same_forwards = refl;
                same_tunnels = refl;
                cleared = refl;
              })
        | is_panic e ↦ absurd (ground (arith, went))
        | is_blocked e ↦ absurd (ground (arith, went))
      ]

  remove_hosts-Calm :
      (conn : Connection) (w : Worker P) (errs : List Bytes)
      → IsReady w
      → Calm w conn (remove_hosts p ipam world conn w errs)
  unfolding remove_hosts
  remove_hosts-Calm conn w errs r =
      let removed = (methods-answers p answers background w.dns r.free).4 conn.ip in
      let w' : Worker P = record w { dns = (remove_address conn.ip w.dns).0 } in
      rw (removed, remove_hosts)
        (Calm-from w' w conn _ refl refl (
          save_removed-Calm conn w' errs
            (record { free = removed_free conn.ip w.dns r.free; disk = r.disk })))

  release-Calm :
      (conn : Connection) (w : Worker P) (errs : List Bytes)
      → IsReady w
      → Calm w conn (release p ipam world conn w errs)
  unfolding release
  release-Calm conn w errs r = elim (result_cases (ipam.release_ip w.ippool w.ip_cidr conn.ip)) [
    | is_ok pool e ↦
        let w' : Worker P = record w { ippool = pool } in
        rw (e, release)
          (Calm-from w' w conn _ refl refl
            (remove_hosts-Calm conn w' errs (record { free = r.free; disk = r.disk })))
    | is_err m e ↦ rw (e, release) (remove_hosts-Calm conn w _ r)
    | is_panic e ↦ absurd (ground (arith, calls.releases w.ippool w.ip_cidr conn.ip))
    | is_blocked e ↦ absurd (ground (arith, calls.releases w.ippool w.ip_cidr conn.ip))
  ]

  close_tunnel-IsReady :
      (conn : Connection) (w : Worker P) → IsReady w → IsReady (close_tunnel conn w)
  unfolding close_tunnel
  close_tunnel-IsReady conn w r = elim (Option-cases conn.pf) [
    | inl closed ↦ rw (closed, close_tunnel) r
    | inr (t, open_still) ↦ rw (open_still, close_tunnel) (record { free = r.free; disk = r.disk })
  ]

  close_tunnel-same :
      (conn : Connection) (w : Worker P)
      → ((close_tunnel conn w).port_forwards ≡ w.port_forwards)
        × ((close_tunnel conn w).forwards ≡ w.forwards)
  unfolding close_tunnel
  close_tunnel-same conn w = ground arith

  -- A port-forward is stopped: the call comes back, and the worker is ready for the next one.
  pub stop_port_forward-Calm :
      (conn : Connection) (w : Worker P)
      → IsReady w
      → Calm w conn (stop_port_forward p ipam world conn w)
  stop_port_forward-Calm conn w r =
      let closed = close_tunnel-IsReady conn w r in
      let same = close_tunnel-same conn w in
      elim (held_cases conn) [
        | inl e ↦ subst (Calm w conn) (sym (stop_idle p ipam world conn w e)) (record {
          went = refl;
          ready = closed;
          same_forwards = same.0;
          same_tunnels = same.1;
          cleared = ap (λ (q : Bytes). record conn { ip = q }) e;
        })
        | inr e ↦ subst (Calm w conn) (sym (stop_held p ipam world conn w e)) (
            Calm-from (close_tunnel conn w) w conn _ same.0 same.1
              (release-Calm conn (close_tunnel conn w) (alias_errors world) closed))
      ]
