-- ===== src/Proxier/Reconcile.antt =====
-- internal/proxier/proxy.go: what the loop over changed services asks of the worker.
pub mod Sending
pub mod Requests
pub mod Retries
use localizer.Base.{
  ℕ, Bool, true, false, not, List, [], ◌∷◌, ◌++◌, map, Option, none, some, Bytes, codes, str_eq,
  if◌then◌else◌, Result, ok, err, panic, blocked, ltb,
}
use localizer.Base.Dict.{Dict, lookup}
use localizer.Kube.{
  Intstr, Service, ServicePort, ResolvedServicePort, Stores, resolve_service_ports, int_value,
}
use localizer.Proxier.Types.{
  PodInfo, pod_key, ServiceInfo, object_key, CreateRequest, DeleteRequest, Request, create, delete,
  Status, running, recreating, waiting, Connection, TargetRef, Address, Subset, Endpoints,
}
use localizer.Proxier.Endpoints.{pod_ref, first_pod, is_active_endpoint}
use localizer.Proxier.Worker.{Worker, is_stable}

-- What `reconcile` reads: the informer of the services (GetByKey), the stores that kube reads, and
-- `cache.SplitMetaNamespaceKey`, which gives a namespace and a name.
pub record Cluster : Type 0 where
  pub services : Bytes → Result (Option Service)
  pub stores : Stores
  pub split_key : Bytes → Result (Bytes × Bytes)
  pub cluster_domain : Bytes

abbrev pub dot : Bytes → Bytes → Bytes
dot a b = a ++ (b'.' ∷ b)

abbrev pub info_of : Service → ServiceInfo
info_of svc = record { name = svc.name; namespace = svc.namespace }

-- `%d:%d` of the port and the target
unfoldable pub port_text : Intstr → ResolvedServicePort → Bytes
unfolding int_value
port_text z r =
    z.itoa r.service_port.port ++ (b':' ∷ z.itoa (int_value z r.service_port.target_port))

module _ (z : Intstr) (c : Cluster) where
  unfoldable pub service_hostnames : Service → List Bytes
  service_hostnames svc =
      svc.name
      ∷ dot svc.name svc.namespace
      ∷ dot (dot svc.name svc.namespace) (codes "svc")
      ∷ dot (dot (dot svc.name svc.namespace) (codes "svc")) c.cluster_domain
      ∷ []

  -- The names of the first pod, for stateful sets; none, if that pod has no name.
  unfoldable pub pod_hostnames : Service → List Bytes
  unfolding first_pod
  pod_hostnames svc = elim (c.stores.endpoints (object_key svc.namespace svc.name)) [
    | none ↦ []
    | some e ↦ elim (first_pod e.subsets) [
      | none ↦ []
      | some r ↦ elim r.name [
        | [] ↦ []
        | _ ∷ _ ↦
            let name = dot (dot r.name svc.name) svc.namespace in
            name ∷ dot name (codes "svc") ∷ dot (dot name (codes "svc")) c.cluster_domain ∷ []
      ]
    ]
  ]

  -- The requests that are sent: none, if the ports cannot be resolved.
  unfoldable pub create_portforward : Service → Bytes → List Request
  unfolding resolve_service_ports port_text service_hostnames pod_hostnames
  create_portforward svc recreate = elim (resolve_service_ports z c.stores svc) [
    | ok resolved ↦
        create (record {
          service = info_of svc;
          hostnames = service_hostnames svc ++ pod_hostnames svc;
          ports = map (port_text z) resolved;
          endpoint = none;
          recreate = not (str_eq recreate []);
          recreate_reason = recreate;
        })
        ∷ []
    | _ ↦ []
  ]

  -- One request for every address of a pod: the loops have no `break`.
  unfoldable pub became_available : Service → List Address → List Request
  unfolding pod_ref create_portforward
  became_available svc [] = []
  became_available svc (a ∷ more) =
      let rest = became_available svc more in
      elim (pod_ref a) [
        | some _ ↦ create_portforward svc (codes "endpoint became available") ++ rest
        | none ↦ rest
      ]

  unfoldable pub became_available_in : Service → List Subset → List Request
  unfolding became_available
  became_available_in svc [] = []
  became_available_in svc (s ∷ ss) = became_available svc s.addresses ++ became_available_in svc ss

  -- A port-forward that is there, against the endpoints.
  unfoldable pub check_forward : Service → Connection → Endpoints → List Request
  unfolding became_available_in is_active_endpoint pod_key create_portforward
  check_forward svc pf e = elim pf.status [
    | waiting ↦ became_available_in svc e.subsets
    | running ↦
        if not (is_active_endpoint pf.pod.name e)
        then create_portforward svc
            (codes "endpoints '" ++ (pod_key pf.pod ++ codes "' was removed"))
        else []
    | recreating ↦ []
  ]

  -- The worker's map, or none while the proxier has no worker: its pointer is nil then.
  unfoldable pub reconcile_service :
      Option (Dict Connection) → Bytes → Service → List Request × Result (Unit {0})
  unfolding lookup create_portforward check_forward
  reconcile_service forwards key svc =
      if svc.deleted
      then (delete (record { service = info_of svc }) ∷ [], ok tt)
      else elim forwards [
        | none ↦ ([], panic)
        | some m ↦ elim (lookup key m) [
          | none ↦ (create_portforward svc [], ok tt)
          | some pf ↦ elim (c.stores.endpoints key) [
            | none ↦ ([], ok tt)
            | some e ↦ (check_forward svc pf e, ok tt)
          ]
        ]
      ]

  -- The service object is gone: its namespace and its name come from the key.
  unfoldable pub reconcile_gone : Bytes → List Request × Result (Unit {0})
  reconcile_gone key = elim (c.split_key key) [
    | ok (namespace, name) ↦
        (delete (record { service = record { name = name; namespace = namespace } }) ∷ [], ok tt)
    | err e ↦ ([], err e)
    | panic ↦ ([], panic)
    | blocked ↦ ([], blocked)
  ]

  unfoldable pub reconcile : Option (Dict Connection) → Bytes → List Request × Result (Unit {0})
  unfolding reconcile_service reconcile_gone
  reconcile forwards key = elim (c.services key) [
    | ok o ↦ elim o [ none ↦ reconcile_gone key | some svc ↦ reconcile_service forwards key svc ]
    | err e ↦ ([], err e)
    | panic ↦ ([], panic)
    | blocked ↦ ([], blocked)
  ]

-- The queue of k8s.io/client-go: its count of the failures of a key, `Forget`, and `AddRateLimited`.
pub record Limiter (Q : Type 0) : Type 0 where
  pub num_requeues : Q → Bytes → ℕ
  pub forget : Q → Bytes → Q
  pub add_rate_limited : Q → Bytes → Q

-- The end of `processNextWorkItem`: a success, or too many failures, is forgotten.
unfoldable pub finish_item : {Q : Type 0} → Limiter Q → Bytes → Result (Unit {0}) → Q → Q
finish_item l key (ok _) q = l.forget q key
finish_item l key (err _) q =
    if ltb (l.num_requeues q key) 5 then l.add_rate_limited q key else l.forget q key
finish_item l key panic q = q
finish_item l key blocked q = q

-- `List`: the text of the address is empty where the connection has none.
pub record ServiceStatus : Type 0 where
  pub service_info : ServiceInfo
  pub endpoint : PodInfo
  pub statuses : List Status
  pub reason : Bytes
  pub ip : Bytes
  pub ports : List Bytes

abbrev pub status_of : Connection → ServiceStatus
status_of pf = record {
  service_info = pf.service;
  endpoint = pf.pod;
  statuses = pf.status ∷ [];
  reason = pf.status_reason;
  ip = pf.ip;
  ports = pf.ports;
}

-- `Proxier.IsStable`: not while there is no worker.
unfoldable pub proxier_is_stable : {P : Type 0} → ℕ → Option (Worker P) → Bool
unfolding is_stable
proxier_is_stable now none = false
proxier_is_stable now (some w) = is_stable now w

unfoldable pub list : Option (Dict Connection) → Result (List ServiceStatus)
list none = err (codes "proxier not running")
list (some m) = ok (map (λ e. status_of (e.1)) m)
