-- ===== src/Proxier/Reconcile/Sending.antt =====
-- What holds of every request that `reconcile` of internal/proxier/proxy.go sends for a service, if it
-- holds of what `createPortforward` sends for it.
use localizer.Base.{
  ◌≡◌, refl, false, List, [], ◌∷◌, ◌++◌, none, some, Bytes, codes, All, All-append, Bool-cases,
  Option-cases, inl, inr, ok,
}
use localizer.Base.Dict.{Dict, lookup}
use localizer.Kube.{Intstr, Service}
use localizer.Proxier.Types.{
  pod_key, Request, Status, running, recreating, waiting, Connection, Address, Subset, Endpoints,
}
use localizer.Proxier.Endpoints.{pod_ref, is_active_endpoint}
use localizer.Proxier.Reconcile.{
  Cluster, create_portforward, became_available, became_available_in, check_forward,
  reconcile_service, reconcile,
}

module _ (z : Intstr) (c : Cluster) (svc : Service) (Q : Request → Type 0)
    (sent : (reason : Bytes) → All Q (create_portforward z c svc reason)) where
  available-All : (as' : List Address) → All Q (became_available z c svc as')
  unfolding became_available
  available-All [] = tt
  available-All (a ∷ more) = elim (Option-cases (pod_ref a)) [
    | inl skip ↦ rw (skip, became_available) (available-All more)
    | inr (r, hit) ↦
        rw (hit, became_available)
          (All-append Q (create_portforward z c svc (codes "endpoint became available"))
            (became_available z c svc more) (sent (codes "endpoint became available"))
            (available-All more))
  ]

  available_in-All : (ss : List Subset) → All Q (became_available_in z c svc ss)
  unfolding became_available_in
  available_in-All [] = tt
  available_in-All (s ∷ ss) =
      All-append Q (became_available z c svc s.addresses) (became_available_in z c svc ss)
        (available-All s.addresses) (available_in-All ss)

  pub check_forward-All : (pf : Connection) (e : Endpoints) → All Q (check_forward z c svc pf e)
  unfolding check_forward
  check_forward-All pf e = at pf.status refl
    where
      at : (st : Status) → pf.status ≡ st → All Q (check_forward z c svc pf e)
      at waiting h = rw (h, check_forward) (available_in-All e.subsets)
      at running h = elim (Bool-cases (is_active_endpoint pf.pod.name e)) [
        | inl there ↦ rw (h, there, check_forward) tt
        | inr gone ↦
            rw (h, gone, check_forward)
              (sent (codes "endpoints '" ++ (pod_key pf.pod ++ codes "' was removed")))
      ]
      at recreating h = rw (h, check_forward) tt

-- For a service that is there and not deleted: the first request of a service with no port-forward is no
-- recreation, and any other request is one of `check_forward`.
pub reconcile-All :
    (z : Intstr) (c : Cluster) (m : Dict Connection) (key : Bytes) (svc : Service)
    (Q : Request → Type 0)
    → c.services key ≡ ok (some svc)
    → svc.deleted ≡ false
    → (lookup key m ≡ none → All Q (create_portforward z c svc []))
    → ((pf : Connection)
        → lookup key m ≡ some pf
        → (reason : Bytes) → All Q (create_portforward z c svc reason))
    → All Q (reconcile z c (some m) key).0
unfolding reconcile reconcile_service
reconcile-All z c m key svc Q stored stays first later = elim (Option-cases (lookup key m)) [
  | inl absent ↦ rw (stored, reconcile, stays, reconcile_service, absent) (first absent)
  | inr (pf, e) ↦ elim (Option-cases (c.stores.endpoints key)) [
    | inl unknown ↦ rw (stored, reconcile, stays, reconcile_service, e, unknown) tt
    | inr (eps, known) ↦
        rw (stored, reconcile, stays, reconcile_service, e, known)
          (check_forward-All z c svc Q (later pf e) pf eps)
  ]
]
