-- ===== src/Server.antt =====
-- internal/server: expose.go (the port maps, and the instances that expose a service) and the
-- ports of list.go.
pub mod Ports
pub mod Exposing
pub mod Mapping
use localizer.Base.{
  ℕ, suc, ◌+◌, Bool, true, false, not, List, [], ◌∷◌, ◌++◌, map, Option, none, some, Bytes, codes,
  str_eq, split, ◌==◌, if◌then◌else◌, Result, ok, err, panic, blocked, wrap, ◌>>=◌,
}
use localizer.Base.Dict.{Dict, lookup, insert, delete}
use localizer.Proxier.Types.{object_key, Connection, status_text}
use localizer.Proxier.Reconcile.{ServiceStatus, list}
use localizer.Kube.{
  Intstr, Service, ServicePort, ResolvedServicePort, Stores, resolve_service_ports, int_value,
}

-- `strconv.ParseUint(s, 10, 0)`: a number below 2 ^ 64, or an error.
abbrev pub ParseUint : Type 0
ParseUint = Bytes → Result ℕ

module _ (z : Intstr) (parse_uint : ParseUint) where
  unfoldable pub set_mapped : ℕ → ℕ → ResolvedServicePort → ResolvedServicePort
  unfolding int_value
  set_mapped local rem sp =
      if int_value z sp.service_port.target_port == rem
      then record sp { mapped_port = local }
      else sp

  -- `local:remote` of one entry
  unfoldable pub parse_override : Bytes → Result (ℕ × ℕ)
  unfolding split
  parse_override o = elim (split o b':') [
    | a ∷ b ∷ [] ↦
        let message = codes "failed to parse port map '" ++ (o ++ codes "'") in
        wrap message (parse_uint a) >>= λ local.
        wrap message (parse_uint b) >>= λ rem. ok (local, rem)
    | _ ↦ err (codes "invalid port map '" ++ (o ++ codes "', expected 'local:remote'"))
  ]

  -- The ports as they are left, also by a port map that is refused halfway.
  unfoldable pub map_ports :
      List Bytes → List ResolvedServicePort → List ResolvedServicePort × Result (Unit {0})
  unfolding parse_override set_mapped
  map_ports [] ports = (ports, ok tt)
  map_ports (o ∷ os) ports = elim (parse_override o) [
    | ok (local, rem) ↦ map_ports os (map (set_mapped local rem) ports)
    | err e ↦ (ports, err e)
    | panic ↦ (ports, panic)
    | blocked ↦ (ports, blocked)
  ]

-- The text of one port in the answer of `List`: empty for one that is not `source:dest`.
unfoldable pub list_port : Bytes → Bytes
unfolding split str_eq
list_port p = elim (split p b':') [
  | source_port ∷ dest_port ∷ [] ↦
      if str_eq source_port dest_port
      then source_port ++ codes "/tcp"
      else source_port ++ (codes "->" ++ (dest_port ++ codes "/tcp"))
  | _ ↦ []
]

pub record ListService : Type 0 where
  pub namespace : Bytes
  pub name : Bytes
  pub endpoint : Bytes
  pub status_reason : Bytes
  pub status : Bytes
  pub ip : Bytes
  pub ports : List Bytes

-- `s.Statuses[0]` is out of range for a service with no status.
unfoldable pub list_service : ServiceStatus → Result ListService
unfolding list_port
list_service s = elim (s.statuses) [
  | [] ↦ panic
  | first ∷ _ ↦ ok (record {
    namespace = s.service_info.namespace;
    name = s.service_info.name;
    endpoint = s.endpoint.name;
    status_reason = s.reason;
    status = status_text first;
    ip = s.ip;
    ports = map list_port s.ports;
  })
]

unfoldable pub list_each : List ServiceStatus → Result (List ListService)
unfolding list_service
list_each [] = ok []
list_each (s ∷ ss) =
    list_service s >>= λ service. list_each ss >>= λ services. ok (service ∷ services)

unfoldable pub list_services : Option (Dict Connection) → Result (List ListService)
unfolding list list_each
list_services forwards = list forwards >>= list_each

pub record NewExpose : Type 0 where
  pub ports : List ResolvedServicePort
  pub namespace : Bytes
  pub service_name : Bytes

-- The map of the exposer, with a number for the `cancel` of each instance and none for nil; the
-- instances that run, with the key that each frees when it exits; and the numbers cancelled so far.
pub record Exposer : Type 0 where
  pub port_forwards : Dict (Option ℕ)
  pub running : Dict ℕ
  pub cancelled : List ℕ
  pub next : ℕ

abbrev pub start_exposer : Exposer
start_exposer = record { port_forwards = []; running = []; cancelled = []; next = 0 }

-- `e.portForwards[key]`: nil for a key that is not there
unfoldable pub cancel_of : Bytes → Exposer → Option ℕ
unfolding lookup
cancel_of key e = elim (lookup key e.port_forwards) [ some cancel ↦ cancel | none ↦ none ]

-- One message of the worker: `exposed` is what `expose.Client.Expose` answers.
unfoldable pub receive : Result (Unit {0}) → NewExpose → Exposer → Exposer
unfolding cancel_of insert
receive exposed msg e =
    let key = object_key msg.namespace msg.service_name in
    elim (cancel_of key e) [
      | some _ ↦ e
      | none ↦ elim exposed [
        | ok _ ↦ record e {
          port_forwards = insert key (some e.next) e.port_forwards;
          running = (key, e.next) ∷ e.running;
          next = suc e.next;
        }
        | _ ↦ e
      ]
    ]

-- The goroutine of an instance exits: it frees its key.
unfoldable pub exit : Bytes → ℕ → Exposer → Exposer
unfolding insert delete
exit key instance_id e = record e {
  port_forwards = insert key none e.port_forwards;
  running = delete key e.running;
}

unfoldable pub close : Bytes → Bytes → Exposer → Exposer × Result (Unit {0})
unfolding cancel_of
close namespace service_name e =
    let key = object_key namespace service_name in
    elim (cancel_of key e) [
      | none ↦ (e, err (codes "service '" ++ (key ++ codes "' isn't exposed")))
      | some cancel ↦ (record e { cancelled = cancel ∷ e.cancelled }, ok tt)
    ]

-- `ExposeService`, up to the message for the worker.
unfoldable pub expose_service :
    Intstr → ParseUint → Stores → Result Service → List Bytes → Bytes → Bytes → Result NewExpose
unfolding resolve_service_ports map_ports
expose_service z parse_uint stores got port_map namespace service_name =
    wrap (codes "failed to get service '" ++ (object_key namespace service_name ++ codes "'")) got
    >>= λ s. elim (s.ports) [
      | [] ↦ err (codes "service had no defined ports")
      | _ ∷ _ ↦
          wrap (codes "failed to resolve service ports") (resolve_service_ports z stores s)
          >>= λ ports.
              let (mapped, r) = map_ports z parse_uint port_map ports in
              r >>= λ _.
              ok (record { ports = mapped; namespace = namespace; service_name = service_name })
    ]
