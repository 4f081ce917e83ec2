-- ===== src/Proxier/Endpoints.antt =====
-- The walks over endpoints in internal/proxier: `getPodForService` of portforward.go, and
-- `isActiveEndpoint` and the first pod name of proxy.go.
pub mod Search
use localizer.Base.{
  Bool, true, false, ◌&&◌, List, [], ◌∷◌, Option, none, some, Bytes, codes, str_eq, if◌then◌else◌,
  Result, ok, err, panic, blocked,
}
use localizer.Proxier.Types.{pod_kind, PodInfo, TargetRef, Address, Subset, Endpoints}

-- `addr.TargetRef != nil && addr.TargetRef.Kind == PodKind`
unfoldable pub pod_ref : Address → Option TargetRef
unfolding str_eq
pod_ref a = elim a.target_ref [
  | none ↦ none
  | some r ↦ if str_eq r.kind pod_kind then some r else none
]

-- The first pod among the addresses: a loop with `continue`, left by `break`.
unfoldable pub first_ref : List Address → Option TargetRef
unfolding pod_ref
first_ref [] = none
first_ref (a ∷ more) =
    let rest = first_ref more in elim (pod_ref a) [ some r ↦ some r | none ↦ rest ]

unfoldable pub first_pod : List Subset → Option TargetRef
unfolding first_ref
first_pod [] = none
first_pod (s ∷ ss) =
    let rest = first_pod ss in elim (first_ref s.addresses) [ some r ↦ some r | none ↦ rest ]

-- The argument is what the API server answers for the service's endpoints.
unfoldable pub get_pod_for_service : Result Endpoints → Result PodInfo
unfolding first_pod
get_pod_for_service (ok e) = elim (first_pod e.subsets) [
  | some r ↦ ok (record { name = r.name; namespace = r.namespace })
  | none ↦ err (codes "failed to find endpoint for service")
]
get_pod_for_service (err e) = err e
get_pod_for_service panic = panic
get_pod_for_service blocked = blocked

unfoldable pub active_in : Bytes → List Address → Bool
unfolding str_eq
active_in pod_name [] = false
active_in pod_name (a ∷ more) =
    let rest = active_in pod_name more in
    elim a.target_ref [
      | none ↦ rest
      | some r ↦ if str_eq r.kind pod_kind && str_eq r.name pod_name then true else rest
    ]

unfoldable pub active_in_subsets : Bytes → List Subset → Bool
unfolding active_in
active_in_subsets pod_name [] = false
active_in_subsets pod_name (s ∷ ss) =
    let rest = active_in_subsets pod_name ss in
    if active_in pod_name s.addresses then true else rest

unfoldable pub is_active_endpoint : Bytes → Endpoints → Bool
unfolding active_in_subsets
is_active_endpoint pod_name endpoints = active_in_subsets pod_name endpoints.subsets
