-- ===== src/Expose.antt =====
-- internal/expose: client.go (the controllers of a service and their scale) and port.go (the pod
-- that stands in for the service, and the loop that keeps the tunnel up).
pub mod Controllers
pub mod Scaling
pub mod Tunnel
pub mod Pods
pub mod Returns
pub mod Recovery
pub mod Replicas
use localizer.Base.{
  ℕ, ◌+◌, Bool, true, false, List, [], ◌∷◌, ◌++◌, map, Option, none, some, Bytes, codes, str_eq,
  ◌==◌, if◌then◌else◌, Result, ok, err, panic, blocked, wrap, ◌>>=◌,
}
use localizer.Base.Dict.{Dict, lookup, insert}
use localizer.Kube.{
  Intstr, IntOrString, int, string, Service, ServicePort, ResolvedServicePort, Stores, Controller,
  label, find_controllers_for_service, ContainerPort,
}
use localizer.Proxier.Types.{object_key}
use Controllers.{GoValue, Reflection, ObjectType, get_mapping, get_replicas_from_object}
use localizer.Ssh.{Atoi, Ports, Client, new_reverse_tunnel_client}

abbrev pub exposed_pod_label : Bytes
exposed_pod_label = codes "localizer.jaredallard.github.com/exposed"

abbrev pub objects_pod_label : Bytes
objects_pod_label = codes "localizer.jaredallard.github.com/objects"

-- `scaledObjectType`: the metadata as its key, the scale at the start, and the REST resource.
pub record ScaledObject : Type 0 where
  pub key : Bytes
  pub replicas : ℕ
  pub resource : Bytes

-- The scales that the API server holds, by the object's key; `refuses` says for which patch it
-- answers with an error, by the number of patches that were sent before.
pub record Scales : Type 0 where
  pub scale : Dict ℕ
  pub sent : ℕ

module _ (refuses : ℕ → Option Bytes) where
  unfoldable pub scale_object : ScaledObject → ℕ → Scales → Scales × Result (Unit {0})
  unfolding insert
  scale_object o replicas s =
      let counted : Scales = record s { sent = s.sent + 1 } in
      elim (refuses s.sent) [
        | some e ↦ (counted, err e)
        | none ↦ (record counted { scale = insert o.key replicas s.scale }, ok tt)
      ]

  -- The first loop of `Start`: it ends at the first error, and there is no deferred call yet.
  unfoldable pub scale_down : List ScaledObject → Scales → Scales × Result (Unit {0})
  unfolding scale_object
  scale_down [] s = (s, ok tt)
  scale_down (o ∷ os) s =
      let (t, r) = scale_object o 0 s in
      elim r [
        | ok _ ↦ scale_down os t
        | err e ↦ (t, wrap (codes "failed to scale down object") (err e))
        | panic ↦ (t, panic)
        | blocked ↦ (t, blocked)
      ]

  -- The deferred loop of `Start`, and the loop over the objects of an abandoned pod: an error is
  -- logged only.
  unfoldable pub scale_back : List ScaledObject → Scales → Scales
  unfolding scale_object
  scale_back [] s = s
  scale_back (o ∷ os) s = scale_back os (scale_object o o.replicas s).0

  -- `Start`, seen from the controllers: `between` is what happens to the scales while the tunnel is up.
  unfoldable pub start_scales :
      (Scales → Scales) → List ScaledObject → Scales → Scales × Result (Unit {0})
  unfolding scale_down scale_back
  start_scales between os s =
      let (t, r) = scale_down os s in
      elim r [
        | ok _ ↦ (scale_back os (between t), ok tt)
        | err e ↦ (t, err e)
        | panic ↦ (t, panic)
        | blocked ↦ (t, blocked)
      ]

-- What the objects of the stores are: `meta.Accessor`, their types, and what reflection sees of them;
-- and the discovery.
pub record Objects : Type 0 where
  pub accessor : Controller → Result Bytes
  pub type_of : Controller → ObjectType
  pub value_of : Controller → GoValue
  pub reflection : Reflection
  pub rest_mapping : Bytes → Result Bytes

module _ (objects : Objects) where
  unfoldable pub scaled_object : Controller → Result ScaledObject
  unfolding get_mapping get_replicas_from_object
  scaled_object obj = objects.accessor obj >>= λ key.
      get_mapping objects.rest_mapping (objects.type_of obj) >>= λ resource.
      get_replicas_from_object objects.reflection (objects.value_of obj) >>= λ replicas.
      ok (record { key = key; replicas = replicas; resource = resource })

  -- An object with an error is skipped, with a warning.
  unfoldable pub scaled_objects : List Controller → Result (List ScaledObject)
  unfolding scaled_object
  scaled_objects [] = ok []
  scaled_objects (obj ∷ more) =
      let rest = scaled_objects more in
      elim (scaled_object obj) [
        | ok o ↦ rest >>= λ os. ok (o ∷ os)
        | err _ ↦ rest
        | panic ↦ panic
        | blocked ↦ blocked
      ]

  unfoldable pub get_service_controllers :
      Stores → Result (Option Service) → Result (List ScaledObject)
  unfolding find_controllers_for_service scaled_objects
  get_service_controllers stores got = got >>= λ o. elim o [
    | none ↦ err (codes "failed to find service")
    | some svc ↦ scaled_objects (find_controllers_for_service stores svc)
  ]

-- `ServiceForward`, without its client and logger
pub record ServiceForward : Type 0 where
  pub service_name : Bytes
  pub namespace : Bytes
  pub selector : Dict Bytes
  pub ports : List ResolvedServicePort
  pub objects : List ScaledObject

-- `Expose`: without controllers, or with an error in looking for them, the service is exposed all
-- the same.
unfoldable pub expose :
    Objects
    → Stores
    → Result Service
    → Result (Option Service)
    → List ResolvedServicePort
    → Bytes
    → Bytes
    → Result ServiceForward
unfolding get_service_controllers
expose objects stores got stored ports namespace service_name = got >>= λ s. elim (s.selector) [
  | [] ↦ err (codes "headless services are not supported")
  | _ ∷ _ ↦
      let exposed : List ScaledObject → ServiceForward = λ os. record {
        service_name = service_name;
        namespace = namespace;
        selector = s.selector;
        ports = ports;
        objects = os;
      } in
      elim (get_service_controllers objects stores stored) [
        | ok os ↦ ok (exposed os)
        | err _ ↦ ok (exposed [])
        | panic ↦ panic
        | blocked ↦ blocked
      ]
]

-- The port texts for the tunnel: `%d:%d` of the mapped port and of `TargetPort.IntVal`, which is 0
-- for a name.
abbrev pub int_val : IntOrString → ℕ
int_val (int n) = n
int_val (string t) = 0

unfoldable pub tunnel_port : (ℕ → Bytes) → ResolvedServicePort → Bytes
tunnel_port itoa r = itoa r.mapped_port ++ (b':' ∷ itoa (int_val r.service_port.target_port))

unfoldable pub container_port_of : ResolvedServicePort → ContainerPort
container_port_of r = record {
  name = r.original_target_port;
  container_port = int_val r.service_port.target_port;
}

-- `labels[k] = v` for the selector, over the label that marks the pod.
unfoldable pub with_selector : Dict Bytes → Dict Bytes → Dict Bytes
unfolding insert
with_selector [] labels = labels
with_selector ((k, v) ∷ selector) labels = with_selector selector (insert k v labels)

unfoldable pub server_labels : Dict Bytes → Dict Bytes
unfolding with_selector insert
server_labels selector = with_selector selector (insert exposed_pod_label (codes "true") [])

-- A pod of the store: its key, its labels and its annotations.
pub record Pod : Type 0 where
  pub key : Bytes
  pub labels : Dict Bytes
  pub annotations : Dict Bytes

-- The pod that stands in for a service, as it is created: `marshal` is the JSON of the objects.
unfoldable pub server_pod : (List ScaledObject → Bytes) → Bytes → ServiceForward → Pod
unfolding server_labels insert
server_pod marshal key p = record {
  key = key;
  labels = server_labels p.selector;
  annotations = insert objects_pod_label (marshal p.objects) [];
}

-- The loop of `Client.Start` over the pods of the store: the pods that it deletes, and the scales.
-- An error of a deletion or of `json.Unmarshal` is logged only.
module _ (refuses : ℕ → Option Bytes) (unmarshal : Bytes → Result (List ScaledObject)) where
  unfoldable pub remove_abandoned : List Pod → List Bytes × Scales → List Bytes × Scales
  unfolding scale_back str_eq
  remove_abandoned [] s = s
  remove_abandoned (p ∷ pods) (deleted, scales) =
      if str_eq (label p.labels exposed_pod_label) (codes "true")
      then remove_abandoned pods (
        deleted ++ (p.key ∷ []),
        elim (unmarshal (label p.annotations objects_pod_label)) [
          | ok objects ↦ scale_back refuses objects scales
          | _ ↦ scales
        ],
      )
      else remove_abandoned pods (deleted, scales)
