-- ===== src/Proxier/Worker.antt =====
-- internal/proxier/portforward.go: the worker that makes and removes port-forwards.
pub mod Addresses
pub mod Stopping
pub mod Invariant
pub mod Readiness
pub mod Touching
use localizer.Base.{
  ℕ, ◌+◌, ◌≤◌, ◌-◌, Bool, true, false, List, [], ◌∷◌, ◌++◌, Option, none, some, Bytes, codes, join,
  if◌then◌else◌, Result, ok, err, panic, blocked, leb,
}
use localizer.Base.Dict.{Dict, lookup, insert, delete}
use localizer.Hostsfile.Scanner.{Context, background}
use localizer.Hostsfile.Block.{Platform}
use localizer.Hostsfile.{File, Disk, add_hosts, remove_address, save}
use localizer.Proxier.Types.{
  PodInfo, ServiceInfo, service_key, CreateRequest, DeleteRequest, Request, Status, running,
  recreating, waiting, Tunnel, Connection, Endpoints,
}
use localizer.Proxier.Endpoints.{get_pod_for_service}

-- The pool of addresses, github.com/metal-stack/go-ipam: AcquireIP and ReleaseIPFromPrefix of a
-- prefix, over a state of its own. `allocated` is what is taken of the prefix in that state.
pub record Ipam (P : Type 0) : Type 0 where
  pub acquire_ip : P → Bytes → Result (Bytes × P)
  pub release_ip : P → Bytes → Bytes → Result P
  pub allocated : P → Bytes → List Bytes

-- What the rest of the world answers while one request is handled: the ifconfig calls (made on
-- darwin only, where aliases are not disabled), spdy.RoundTripperFor, the endpoints of the
-- service, portforward.NewOnAddresses, and the clock. An answer is the text of an error; that of
-- `alias_down` begins with what ifconfig printed.
pub record World : Type 0 where
  pub darwin_alias : Bool
  pub alias_up : Option Bytes
  pub alias_down : Option Bytes
  pub round_tripper : Option Bytes
  pub endpoints : Result Endpoints
  pub new_on_addresses : Option Bytes
  pub clock : ℕ
  pub ctx : Context

-- `forwards` are the goroutines at `ForwardPorts`, each with the request that it sends when that
-- returns; `closed` are the tunnels that were closed.
pub record Worker (P : Type 0) : Type 0 where
  pub ippool : P
  pub ip_cidr : Bytes
  pub dns : File
  pub disk : Disk
  pub port_forwards : Dict Connection
  pub last_touch_time : ℕ
  pub forwards : List CreateRequest
  pub closed : List Tunnel

module _ {P : Type 0} where
  unfoldable pub touch : ℕ → Worker P → Worker P
  touch now w = record w { last_touch_time = now }

  -- `time.Since(w.lastTouchTime) >= time.Second*2`, in nanoseconds
  unfoldable pub is_stable : ℕ → Worker P → Bool
  is_stable now w = leb 2000000000 (now - w.last_touch_time)

  -- The map holds pointers, so the change of the connection is one of the map.
  unfoldable pub set_status : ServiceInfo → Status → Bytes → Worker P → Worker P
  unfolding lookup insert service_key
  set_status si status reason w = elim (lookup (service_key si) w.port_forwards) [
    | none ↦ w
    | some pf ↦ record w {
      port_forwards =
          insert (service_key si) (record pf { status = status; status_reason = reason })
            w.port_forwards;
    }
  ]

  unfoldable pub close_tunnel : Connection → Worker P → Worker P
  close_tunnel conn w = elim conn.pf [
    | none ↦ w
    | some t ↦ record w { closed = w.closed ++ (t ∷ []) }
  ]

-- `fmt.Errorf("%v", strs)` of the collected errors, if there is one
abbrev pub error_of : List Bytes → Result (Unit {0})
error_of [] = ok tt
error_of (e ∷ es) = err (codes "[" ++ (join (e ∷ es) b' ' ++ codes "]"))

abbrev pub alias_errors : World → List Bytes
alias_errors world =
    if world.darwin_alias
    then elim world.alias_down [
      | none ↦ []
      | some e ↦ (codes "failed to release ip alias: " ++ e) ∷ []
    ]
    else []

module _ (p : Platform) {P : Type 0} (ipam : Ipam P) (world : World) where
  -- The end of `stopPortForward`: the hosts file is saved under `context.Background()`, whatever
  -- failed before, and the address is cleared.
  save_removed : Connection → Worker P → List Bytes → Worker P × Connection × Result (Unit {0})
  unfolding save
  save_removed conn w errs =
      let (dns', disk', saved) = save p background world.clock w.dns w.disk in
      let w' : Worker P = record w { dns = dns'; disk = disk' } in
      elim saved [
        | ok _ ↦ (w', record conn { ip = [] }, error_of errs)
        | err e ↦ (
          w',
          record conn { ip = [] },
          error_of
              (errs ++ ((codes "failed to save hosts file after modification(s): " ++ e) ∷ [])),
        )
        | panic ↦ (w', conn, panic)
        | blocked ↦ (w', conn, blocked)
      ]

  remove_hosts : Connection → Worker P → List Bytes → Worker P × Connection × Result (Unit {0})
  unfolding save_removed remove_address
  remove_hosts conn w errs =
      let (dns', removed) = remove_address conn.ip w.dns in
      let w' : Worker P = record w { dns = dns' } in
      elim removed [
        | ok _ ↦ save_removed conn w' errs
        | err e ↦
            save_removed conn w'
              (errs ++ ((codes "failed to remove ip address from hostsfile: " ++ e) ∷ []))
        | panic ↦ (w', conn, panic)
        | blocked ↦ (w', conn, blocked)
      ]

  pub release : Connection → Worker P → List Bytes → Worker P × Connection × Result (Unit {0})
  unfolding remove_hosts
  release conn w errs = elim (ipam.release_ip w.ippool w.ip_cidr conn.ip) [
    | ok pool ↦ remove_hosts conn (record w { ippool = pool }) errs
    | err e ↦ remove_hosts conn w (errs ++ ((codes "failed to release ip address: " ++ e) ∷ []))
    | panic ↦ (w, conn, panic)
    | blocked ↦ (w, conn, blocked)
  ]

  unfoldable pub stop_port_forward :
      Connection → Worker P → Worker P × Connection × Result (Unit {0})
  unfolding release close_tunnel
  stop_port_forward conn w = elim conn.ip [
    | [] ↦ (close_tunnel conn w, conn, ok tt)
    | _ ∷ _ ↦ release conn (close_tunnel conn w) (alias_errors world)
  ]

  -- An error of the cleanup is logged only.
  unfoldable pub delete_port_forward : DeleteRequest → Worker P → Worker P × Result (Unit {0})
  unfolding lookup delete service_key touch stop_port_forward
  delete_port_forward req w =
      let key = service_key req.service in
      elim (lookup key w.port_forwards) [
        | none ↦ (w, ok tt)
        | some conn ↦
            let (w', _, r) = stop_port_forward conn (touch world.clock w) in
            let gone : Worker P = record w' { port_forwards = delete key w'.port_forwards } in
            elim r [
              | ok _ ↦ (gone, ok tt)
              | err _ ↦ (gone, ok tt)
              | panic ↦ (w', panic)
              | blocked ↦ (w', blocked)
            ]
      ]
