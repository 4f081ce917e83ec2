-- ===== src/Kube.antt =====
-- internal/kube/client.go: the ports of a service, and the controllers that its selector matches.
pub mod Resolution
use localizer.Base.{
  ℕ, not, Bool, true, false, ◌&&◌, ◌||◌, List, [], ◌∷◌, ◌++◌, map, Option, none, some, Bytes, codes,
  str_eq, if◌then◌else◌, Result, ok, err, panic, blocked, ◌>>=◌,
}
use localizer.Base.Dict.{Dict, lookup, insert}
use localizer.Proxier.Types.{EndpointPort, Subset, Endpoints}

-- `intstr.IntOrString`
pub data IntOrString : Type 0 where
  int : ℕ → IntOrString
  string : Bytes → IntOrString

-- What `intstr` does with numbers and texts: `int_value_of` is what `IntValue` gives for a text
-- (it reads the text with `strconv.Atoi` and gives 0 for one that is no number), as a `uint`;
-- `itoa` is the decimal text of a number.
pub record Intstr : Type 0 where
  pub int_value_of : Bytes → ℕ
  pub itoa : ℕ → Bytes

pub record ServicePort : Type 0 where
  pub name : Bytes
  pub port : ℕ
  pub target_port : IntOrString

pub record ResolvedServicePort : Type 0 where
  pub service_port : ServicePort
  pub original_target_port : Bytes
  pub mapped_port : ℕ

-- corev1.Service; `deleted` says that it has a deletion timestamp.
pub record Service : Type 0 where
  pub name : Bytes
  pub namespace : Bytes
  pub ports : List ServicePort
  pub selector : Dict Bytes
  pub deleted : Bool

pub record ContainerPort : Type 0 where
  pub name : Bytes
  pub container_port : ℕ

pub record Container : Type 0 where
  pub ports : List ContainerPort

-- What a store of controllers lists: an object with a pod template, or one for which the walk by
-- reflection ends with an error.
pub data Controller : Type 0 where
  template : Dict Bytes → List Container → Controller
  other : Bytes → Controller

-- The stores of the cluster's informers that are read here; `endpoints` is by the service's key.
pub record Stores : Type 0 where
  pub endpoints : Bytes → Option Endpoints
  pub stateful_sets : List Controller
  pub deployments : List Controller

-- `target[k]` of a Go map gives the empty text for a key that is not there.
abbrev pub label : Dict Bytes → Bytes → Bytes
label target k = elim (lookup k target) [ some v ↦ v | none ↦ [] ]

unfoldable pub has_all : Dict Bytes → Dict Bytes → Bool
unfolding str_eq lookup
has_all target [] = true
has_all target ((k, v) ∷ matches) =
    let rest = has_all target matches in if str_eq (label target k) v then rest else false

unfoldable pub satisfies_selector : Controller → Dict Bytes → Result Bool
unfolding has_all
satisfies_selector (template labels containers) matches = ok (has_all labels matches)
satisfies_selector (other e) matches = err e

-- An object that cannot be considered is skipped, with a warning.
unfoldable pub matching : Dict Bytes → List Controller → List Controller
unfolding satisfies_selector
matching selector [] = []
matching selector (obj ∷ items) =
    let rest = matching selector items in
    elim (satisfies_selector obj selector) [ ok b ↦ if b then obj ∷ rest else rest | _ ↦ rest ]

unfoldable pub find_controllers_for_service : Stores → Service → List Controller
unfolding matching
find_controllers_for_service stores s =
    matching s.selector (stores.stateful_sets ++ stores.deployments)

unfoldable pub has_named_ports : List ServicePort → Bool
has_named_ports [] = false
has_named_ports (p ∷ ps) =
    let rest = has_named_ports ps in elim p.target_port [ string _ ↦ true | int _ ↦ rest ]

-- `int(p.ContainerPort)` by name; a later port of a name takes the place of an earlier one.
unfoldable pub add_named : List ContainerPort → Dict ℕ → Dict ℕ
unfolding insert
add_named [] ports = ports
add_named (p ∷ ps) ports = elim p.name [
  | [] ↦ add_named ps ports
  | _ ∷ _ ↦ add_named ps (insert p.name p.container_port ports)
]

unfoldable pub container_ports : List Container → Dict ℕ → Dict ℕ
unfolding add_named
container_ports [] ports = ports
container_ports (c ∷ cs) ports = container_ports cs (add_named c.ports ports)

-- The first port of the endpoints that has the name of the service's port or of its target.
unfoldable pub endpoint_port : Bytes → Bytes → List EndpointPort → Option ℕ
unfolding str_eq
endpoint_port name target [] = none
endpoint_port name target (np ∷ nps) =
    let rest = endpoint_port name target nps in
    if str_eq np.name name || str_eq np.name target then some np.port else rest

module _ (z : Intstr) where
  unfoldable pub int_value : IntOrString → ℕ
  int_value (int n) = n
  int_value (string t) = z.int_value_of t

  -- A port whose named target was looked up, with `found` as the answer.
  unfoldable pub resolved : ServicePort → Option ℕ → ResolvedServicePort
  unfolding int_value
  resolved p found = elim p.target_port [
    | int n ↦ record { service_port = p; original_target_port = []; mapped_port = n }
    | string t ↦ elim found [
      | some n ↦ record {
        service_port = record p { target_port = int n };
        original_target_port = t;
        mapped_port = n;
      }
      | none ↦ record {
        service_port = p;
        original_target_port = [];
        mapped_port = int_value (string t);
      }
    ]
  ]

  abbrev pub target_text : ServicePort → Bytes
  target_text p = elim p.target_port [ string t ↦ t | int n ↦ z.itoa n ]

  unfoldable pub resolve_from_endpoints :
      List EndpointPort → List ServicePort → List ResolvedServicePort
  unfolding endpoint_port
  resolve_from_endpoints eps = map (λ p. resolved p (endpoint_port p.name (target_text p) eps))

  -- The loop over the map of container ports finds the one entry of the name.
  unfoldable pub resolve_service_ports_from_controllers :
      Stores → Service → Result (List ResolvedServicePort)
  unfolding find_controllers_for_service container_ports lookup
  resolve_service_ports_from_controllers stores s = elim (find_controllers_for_service stores s) [
    | [] ↦ err (
        codes
          "failed to find any controllers, please ensure a deployment or other type exists for this service")
    | controller ∷ _ ↦ elim controller [
      | other e ↦ err e
      | template labels containers ↦
          let ports = container_ports containers [] in
          ok (map (λ p. resolved p (lookup (target_text p) ports)) s.ports)
    ]
  ]

  unfoldable pub resolve_service_ports : Stores → Service → Result (List ResolvedServicePort)
  unfolding has_named_ports resolve_from_endpoints resolve_service_ports_from_controllers
  resolve_service_ports stores s =
      if not (has_named_ports s.ports)
      then ok (
          map (λ p. record { service_port = p; original_target_port = []; mapped_port = p.port })
            s.ports)
      else elim (stores.endpoints (s.namespace ++ (b'/' ∷ s.name))) [
        | none ↦ resolve_service_ports_from_controllers stores s
        | some e ↦ elim e.subsets [
          | [] ↦ resolve_service_ports_from_controllers stores s
          | subset ∷ _ ↦ ok (resolve_from_endpoints subset.ports s.ports)
        ]
      ]
