-- ===== src/Proxier/Worker/Touching.antt =====
-- When the worker of internal/proxier/portforward.go was touched last.
use localizer.Base.{
  ◌≡◌, refl, List, Bytes, arith, is_ok, is_err, is_panic, is_blocked, result_cases,
}
use localizer.Hostsfile.Block.{Platform}
use localizer.Hostsfile.{remove_address}
use localizer.Proxier.Types.{Connection, ServiceInfo, Status}
use localizer.Proxier.Worker.{
  Ipam, World, Worker, close_tunnel, remove_hosts, release, save_removed, set_status,
  stop_port_forward, alias_errors,
}

module _ (p : Platform) {P : Type 0} (ipam : Ipam P) (world : World) where
  save_removed-time :
      (conn : Connection) (w : Worker P) (errs : List Bytes)
      → (save_removed p ipam world conn w errs).0.last_touch_time ≡ w.last_touch_time
  unfolding save_removed
  save_removed-time conn w errs = ground arith

  remove_hosts-time :
      (conn : Connection) (w : Worker P) (errs : List Bytes)
      → (remove_hosts p ipam world conn w errs).0.last_touch_time ≡ w.last_touch_time
  unfolding remove_hosts
  remove_hosts-time conn w errs =
      let u : Worker P = record w { dns = (remove_address conn.ip w.dns).0 } in
      elim (result_cases (remove_address conn.ip w.dns).1) [
        | is_ok t e ↦ rw (e, remove_hosts) (save_removed-time conn u errs)
        | is_err m e ↦ rw (e, remove_hosts) (save_removed-time conn u _)
        | is_panic e ↦ rw (e, remove_hosts) refl
        | is_blocked e ↦ rw (e, remove_hosts) refl
      ]

  release-time :
      (conn : Connection) (w : Worker P) (errs : List Bytes)
      → (release p ipam world conn w errs).0.last_touch_time ≡ w.last_touch_time
  unfolding release
  release-time conn w errs = elim (result_cases (ipam.release_ip w.ippool w.ip_cidr conn.ip)) [
    | is_ok pool e ↦ rw (e, release) (remove_hosts-time conn (record w { ippool = pool }) errs)
    | is_err m e ↦ rw (e, release) (remove_hosts-time conn w _)
    | is_panic e ↦ rw (e, release) refl
    | is_blocked e ↦ rw (e, release) refl
  ]

  close_tunnel-time :
      (conn : Connection) (w : Worker P) → (close_tunnel conn w).last_touch_time ≡ w.last_touch_time
  unfolding close_tunnel
  close_tunnel-time conn w = ground arith

  pub stop_port_forward-time :
      (conn : Connection) (w : Worker P)
      → (stop_port_forward p ipam world conn w).0.last_touch_time ≡ w.last_touch_time
  unfolding stop_port_forward
  stop_port_forward-time conn w = ground (
    arith,
    close_tunnel-time conn w,
    release-time conn (close_tunnel conn w) (alias_errors world),
  )

pub set_status-time :
    {P : Type 0} (si : ServiceInfo) (s : Status) (reason : Bytes) (w : Worker P)
    → (set_status si s reason w).last_touch_time ≡ w.last_touch_time
unfolding set_status
set_status-time si s reason w = ground arith
