-- ===== src/Proxier/Create.antt =====
-- internal/proxier/portforward.go: `CreatePortForward`, and the loop of the worker.
pub mod Attempts
pub mod Invariant
pub mod Marking
pub mod Requests
pub mod Failures
pub mod Cleanup
pub mod Lifetime
pub mod Readiness
pub mod Progress
pub mod Outcome
pub mod Placing
pub mod Touching
pub mod Stability
use localizer.Base.{
  ℕ, Bool, true, false, not, ◌&&◌, List, [], ◌∷◌, ◌++◌, Option, none, some, Bytes, codes,
  if◌then◌else◌, Result, ok, err, panic, blocked, wrap,
}
use localizer.Base.Dict.{Dict, lookup, insert, keys}
use localizer.Hostsfile.Block.{Platform}
use localizer.Hostsfile.{File, Disk, add_hosts, save}
use localizer.Proxier.Types.{
  PodInfo, ServiceInfo, service_key, CreateRequest, DeleteRequest, Request, create, delete, Status,
  running, recreating, waiting, Tunnel, Connection,
}
use localizer.Proxier.Endpoints.{get_pod_for_service}
use localizer.Proxier.Worker.{
  Ipam, World, Worker, touch, set_status, stop_port_forward, delete_port_forward,
}

-- The worker, and the connection `pf` that is being made.
pub record Attempt (P : Type 0) : Type 0 where
  pub worker : Worker P
  pub pf : Connection

-- A stretch of the body, which may return with an error.
abbrev pub M : Type 0 → Type 0 → Type 0
M P A = Attempt P → Attempt P × Result A

abbrev pub continue : {P A B : Type 0} → Attempt P × Result A → (A → M P B) → Attempt P × Result B
continue (s, ok a) f = f a s
continue (s, err e) f = (s, err e)
continue (s, panic) f = (s, panic)
continue (s, blocked) f = (s, blocked)

infixl 5 ◌>>=◌ ◌>>◌
abbrev pub ◌>>=◌ : {P A B : Type 0} → M P A → (A → M P B) → M P B
◌>>=◌ m f s = continue (m s) f

abbrev pub ◌>>◌ : {P B : Type 0} → M P (Unit {0}) → M P B → M P B
◌>>◌ m k = m >>= λ _. k

-- `return errors.Wrap(err, message)`, if there is an error
abbrev pub fail_on : {P : Type 0} → Bytes → Option Bytes → M P (Unit {0})
fail_on message none s = (s, ok tt)
fail_on message (some e) s = (s, wrap message (err e))

-- What the goroutine of the tunnel sends when the tunnel ends; the reason is known then.
abbrev pub again : CreateRequest → CreateRequest
again req = record req { endpoint = none; recreate = true; recreate_reason = [] }

abbrev pub new_connection : CreateRequest → Connection
new_connection req = record {
  service = req.service;
  pod = record { name = []; namespace = [] };
  status = running;
  status_reason = [];
  ip = [];
  hostnames = [];
  ports = req.ports;
  pf = none;
}

-- An error is logged only, and the loop goes on.
abbrev pub go_on :
    {P : Type 0}
    → (Worker P → Worker P × Result (Unit {0}))
    → Worker P × Result (Unit {0})
    → Worker P × Result (Unit {0})
go_on rest (w, ok _) = rest w
go_on rest (w, err _) = rest w
go_on rest (w, panic) = (w, panic)
go_on rest (w, blocked) = (w, blocked)

module _ (p : Platform) {P : Type 0} (ipam : Ipam P) (world : World) where
  unfoldable pub acquire : M P (Unit {0})
  acquire s = elim (ipam.acquire_ip s.worker.ippool s.worker.ip_cidr) [
    | ok (ip, pool) ↦ (
      record s { worker = record (s.worker) { ippool = pool }; pf = record (s.pf) { ip = ip } },
      ok tt,
    )
    | err e ↦ (s, wrap (codes "failed to allocate IP") (err e))
    | panic ↦ (s, panic)
    | blocked ↦ (s, blocked)
  ]

  unfoldable pub alias_ip : M P (Unit {0})
  alias_ip =
      fail_on (codes "failed to create ip link")
        (if world.darwin_alias then world.alias_up else none)

  unfoldable pub add_host_entry : List Bytes → M P (Unit {0})
  unfolding add_hosts
  add_host_entry hostnames s =
      let (dns', r) = add_hosts p s.pf.ip hostnames s.worker.dns in
      (
        record s {
          worker = record (s.worker) { dns = dns' };
          pf = record (s.pf) { hostnames = hostnames };
        },
        wrap (codes "failed to add host entry") r,
      )

  unfoldable pub save_hosts : M P (Unit {0})
  unfolding save
  save_hosts s =
      let (dns', disk', r) = save p world.ctx world.clock s.worker.dns s.worker.disk in
      (
        record s { worker = record (s.worker) { dns = dns'; disk = disk' } },
        wrap (codes "failed to save host changes") r,
      )

  unfoldable pub upgrade : M P (Unit {0})
  upgrade = fail_on (codes "failed to upgrade connection") world.round_tripper

  -- The pod asked for, or the first one of the service, or none.
  unfoldable pub find_pod : CreateRequest → Option PodInfo
  unfolding get_pod_for_service
  find_pod req = elim req.endpoint [
    | some pod ↦ some pod
    | none ↦ elim (get_pod_for_service world.endpoints) [ ok pod ↦ some pod | _ ↦ none ]
  ]

  unfoldable pub open_tunnel : CreateRequest → PodInfo → M P (Unit {0})
  open_tunnel req pod s = elim world.new_on_addresses [
    | some e ↦ (
      record s { pf = record (s.pf) { pod = pod } },
      wrap (codes "failed to create port-forward") (err e),
    )
    | none ↦ (
      record s {
        worker = record (s.worker) { forwards = again req ∷ s.worker.forwards };
        pf = record (s.pf) {
          pod = pod;
          pf = some (record { address = s.pf.ip; pod = pod; ports = req.ports });
        };
      },
      ok tt,
    )
  ]

  -- No pod: the connection waits for one, and gives its address back.
  unfoldable pub wait_for_pod : M P (Unit {0})
  unfolding stop_port_forward
  wait_for_pod s =
      let idle : Connection = record (s.pf) {
        status = waiting;
        status_reason = codes "No endpoints were found.";
      } in
      let (w', pf', r) = stop_port_forward p ipam world idle s.worker in
      (record { worker = w'; pf = pf' }, r)

  unfoldable pub attempt : CreateRequest → M P (Unit {0})
  unfolding acquire alias_ip add_host_entry save_hosts upgrade find_pod open_tunnel wait_for_pod
  attempt req = do
    acquire
    alias_ip
    add_host_entry req.hostnames
    save_hosts
    upgrade
    elim (find_pod req) [ some pod ↦ open_tunnel req pod | none ↦ wait_for_pod ]

  -- The error of the deferred cleanup is logged only.
  unfoldable pub give_up : Attempt P → Bytes → Worker P × Result (Unit {0})
  unfolding stop_port_forward
  give_up s e =
      let (w', _, cleanup) = stop_port_forward p ipam world s.pf s.worker in
      elim cleanup [
        | ok _ ↦ (w', err e)
        | err _ ↦ (w', err e)
        | panic ↦ (w', panic)
        | blocked ↦ (w', blocked)
      ]

  unfoldable pub settle : Bytes → Attempt P × Result (Unit {0}) → Worker P × Result (Unit {0})
  unfolding insert give_up
  settle key (s, ok _) =
      (record (s.worker) { port_forwards = insert key s.pf s.worker.port_forwards }, ok tt)
  settle key (s, err e) = give_up s e
  settle key (s, panic) = (s.worker, panic)
  settle key (s, blocked) = (s.worker, blocked)

  -- The body behind the checks: the connection is made, and put in the map or cleaned up.
  unfoldable pub establish : CreateRequest → Worker P → Worker P × Result (Unit {0})
  unfolding attempt settle service_key
  establish req w =
      settle (service_key req.service)
        (attempt req (record { worker = w; pf = new_connection req }))

  unfoldable pub stop_entry : Bytes → Connection → Worker P → Worker P × Result (Unit {0})
  unfolding insert stop_port_forward
  stop_entry key conn w =
      let (w', conn', r) = stop_port_forward p ipam world conn w in
      let kept : Worker P = record w' { port_forwards = insert key conn' w'.port_forwards } in
      elim r [
        | ok _ ↦ (kept, ok tt)
        | err _ ↦ (kept, ok tt)
        | panic ↦ (w', panic)
        | blocked ↦ (w', blocked)
      ]

  -- `stopPortForward` of the entry of the map, through its pointer: no entry is a nil pointer.
  unfoldable pub stop_existing : CreateRequest → Worker P → Worker P × Result (Unit {0})
  unfolding lookup service_key stop_entry
  stop_existing req w = elim (lookup (service_key req.service) w.port_forwards) [
    | none ↦ (w, panic)
    | some conn ↦ stop_entry (service_key req.service) conn w
  ]

  unfoldable pub recreate_port_forward : CreateRequest → Worker P → Worker P × Result (Unit {0})
  unfolding set_status stop_existing establish
  recreate_port_forward req w =
      let (w', r) = stop_existing req (set_status req.service recreating req.recreate_reason w) in
      elim r [
        | ok _ ↦ establish req w'
        | err e ↦ (w', err e)
        | panic ↦ (w', panic)
        | blocked ↦ (w', blocked)
      ]

  unfoldable pub create_port_forward : CreateRequest → Worker P → Worker P × Result (Unit {0})
  unfolding lookup service_key touch recreate_port_forward establish
  create_port_forward req w =
      let w' = touch world.clock w in
      if req.recreate
      then recreate_port_forward req w'
      else elim (lookup (service_key req.service) w.port_forwards) [
        | some _ ↦ (w, err (codes "already have a port-forward for this service"))
        | none ↦ establish req w'
      ]

  -- One request of the loop of `Start`; an error is logged only.
  unfoldable pub handle : Request → Worker P → Worker P × Result (Unit {0})
  unfolding create_port_forward delete_port_forward
  handle (create req) w = create_port_forward req w
  handle (delete req) w = delete_port_forward p ipam world req w

  -- The loop over the map when the context is done, over the keys that it meets.
  unfoldable pub clean_up : List Bytes → Worker P → Worker P × Result (Unit {0})
  unfolding lookup delete_port_forward
  clean_up [] w = (w, ok tt)
  clean_up (key ∷ rest) w = elim (lookup key w.port_forwards) [
    | none ↦ clean_up rest w
    | some conn ↦
        go_on (clean_up rest)
          (delete_port_forward p ipam world (record { service = conn.service }) w)
  ]

module _ (p : Platform) {P : Type 0} (ipam : Ipam P) where
  -- The requests of the channel, each with what the world answers meanwhile, up to one that
  -- panics or waits for ever.
  unfoldable pub handle_all : List (World × Request) → Worker P → Worker P × Result (Unit {0})
  unfolding handle
  handle_all [] w = (w, ok tt)
  handle_all ((world, req) ∷ reqs) w =
      let (w', r) = handle p ipam world req w in
      elim r [
        | ok _ ↦ handle_all reqs w'
        | err _ ↦ handle_all reqs w'
        | panic ↦ (w', panic)
        | blocked ↦ (w', blocked)
      ]
