-- ===== src/Proxier/Endpoints/Search.antt =====
-- The pod that a tunnel is made to, internal/proxier/portforward.go, against the test of
-- proxy.go that a tunnel's pod is still there.
use localizer.Base.{
  ◌≡◌, refl, inl, inr, Option-cases, true, false, List, [], ◌∷◌, none, some, Bytes, str_eq_refl, ok,
  err, arith,
}
use localizer.Proxier.Types.{PodInfo, TargetRef, Address, Subset, Endpoints}
use localizer.Proxier.Endpoints.{
  pod_ref, first_ref, first_pod, get_pod_for_service, active_in, active_in_subsets,
  is_active_endpoint,
}

active_in-first_ref :
    (addresses : List Address) (r : TargetRef)
    → first_ref addresses ≡ some r
    → active_in r.name addresses ≡ true
unfolding first_ref pod_ref active_in
active_in-first_ref [] r h = cc
active_in-first_ref (a ∷ more) r h = ground (arith, active_in-first_ref more r, str_eq_refl r.name)

not-active_in :
    (addresses : List Address) (name : Bytes)
    → first_ref addresses ≡ none
    → active_in name addresses ≡ false
unfolding first_ref pod_ref active_in
not-active_in [] name h = refl
not-active_in (a ∷ more) name h = ground (arith, not-active_in more name)

active-first_pod :
    (subsets : List Subset) (r : TargetRef)
    → first_pod subsets ≡ some r
    → active_in_subsets r.name subsets ≡ true
unfolding first_pod active_in_subsets
active-first_pod [] r h = cc
active-first_pod (s ∷ more) r h =
    ground (arith, active-first_pod more r, active_in-first_ref s.addresses r)

not-active_in_subsets :
    (subsets : List Subset) (name : Bytes)
    → first_pod subsets ≡ none
    → active_in_subsets name subsets ≡ false
unfolding first_pod active_in_subsets
not-active_in_subsets [] name h = refl
not-active_in_subsets (s ∷ more) name h =
    ground (arith, not-active_in_subsets more name, not-active_in s.addresses name)

-- The pod found for a service is active in the same endpoints, so it is not taken for removed;
-- and when none is found, no pod name is active in them.
pub get_pod_for_service-is_active :
    (e : Endpoints)
    → ((pod : PodInfo) → get_pod_for_service (ok e) ≡ ok pod → is_active_endpoint pod.name e ≡ true)
      × ((why name : Bytes)
          → get_pod_for_service (ok e) ≡ err why
          → is_active_endpoint name e ≡ false)
unfolding get_pod_for_service is_active_endpoint
get_pod_for_service-is_active e = elim (Option-cases (first_pod e.subsets)) [
  | inl gone ↦ (λ pod h. ground arith, λ why name h. not-active_in_subsets e.subsets name gone)
  | inr (r, found) ↦
      (λ pod h. ground (arith, active-first_pod e.subsets r found), λ why name h. ground arith)
]
