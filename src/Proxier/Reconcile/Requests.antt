-- ===== src/Proxier/Reconcile/Requests.antt =====
-- Which requests `reconcile` of internal/proxier/proxy.go sends, and what the worker makes of them.
use localizer.Base.{
  ◌≡◌, refl, ap, subst, ◌∙◌, true, false, [], Option, some, Bytes, ok, arith, All, Bool-cases,
  Option-cases, inl, inr, is_ok, is_err, is_panic, is_blocked, result_cases,
}
use localizer.Base.Dict.{Dict, lookup}
use localizer.Kube.{Intstr, Service}
use localizer.Proxier.Types.{
  ServiceInfo, service_key, object_key, Request, create, delete, running, Connection, Endpoints,
}
use localizer.Proxier.Endpoints.{get_pod_for_service, is_active_endpoint}
use localizer.Proxier.Endpoints.Search.{get_pod_for_service-is_active}
use localizer.Proxier.Worker.{Worker}
use localizer.Proxier.Reconcile.Sending.{check_forward-All}
use localizer.Proxier.Reconcile.{
  Cluster, create_portforward, check_forward, reconcile_service, reconcile_gone, reconcile,
}

-- The service that a request is about.
abbrev pub service_of : Request → ServiceInfo
service_of (create req) = req.service
service_of (delete req) = req.service

abbrev pub AsksFor : Bytes → Request → Type 0
AsksFor key r = service_key (service_of r) ≡ key

-- Documented behaviour of the informer and of `SplitMetaNamespaceKey`: an object stands under its
-- own key, and a key is split into its parts.
pub record IsKeyed (c : Cluster) : Type 0 where
  pub stored :
      (key : Bytes) (svc : Service)
      → c.services key ≡ ok (some svc)
      → object_key svc.namespace svc.name ≡ key
  pub splits :
      (key namespace name : Bytes)
      → c.split_key key ≡ ok (namespace, name)
      → object_key namespace name ≡ key

module _ (z : Intstr) (c : Cluster) where
  pub create-AsksFor :
      (svc : Service) (reason : Bytes)
      → All (AsksFor (object_key svc.namespace svc.name)) (create_portforward z c svc reason)
  unfolding create_portforward service_key
  create-AsksFor svc reason = ground arith

  service-AsksFor :
      (forwards : Option (Dict Connection)) (key : Bytes) (svc : Service)
      → All (AsksFor (object_key svc.namespace svc.name)) (reconcile_service z c forwards key svc).0
  unfolding reconcile_service service_key
  service-AsksFor forwards key svc = elim (Bool-cases svc.deleted) [
    | inl gone ↦ rw (gone, reconcile_service) (refl, tt)
    | inr here ↦ elim (Option-cases forwards) [
      | inl early ↦ rw (here, early, reconcile_service) tt
      | inr (m, started) ↦ elim (Option-cases (lookup key m)) [
        | inl absent ↦ rw (here, started, reconcile_service, absent) (create-AsksFor svc [])
        | inr (pf, e) ↦ elim (Option-cases (c.stores.endpoints key)) [
          | inl unknown ↦ rw (here, started, reconcile_service, e, unknown) tt
          | inr (eps, known) ↦
              rw (here, started, reconcile_service, e, known)
                (check_forward-All z c svc (AsksFor (object_key svc.namespace svc.name))
                  (create-AsksFor svc) pf eps)
        ]
      ]
    ]
  ]

  gone-AsksFor : (key : Bytes) → IsKeyed c → All (AsksFor key) (reconcile_gone z c key).0
  unfolding reconcile_gone service_key
  gone-AsksFor key law = elim (result_cases (c.split_key key)) [
    | is_ok (namespace, name) e ↦ rw (e, reconcile_gone) (law.splits key namespace name e, tt)
    | is_err m e ↦ rw (e, reconcile_gone) tt
    | is_panic e ↦ rw (e, reconcile_gone) tt
    | is_blocked e ↦ rw (e, reconcile_gone) tt
  ]

  -- Whatever the state of the port-forwards and of the cluster, every request that is sent for a
  -- key is about the service of that key, where the informer keeps objects under their own keys and
  -- keys are split into their parts.
  pub reconcile-AsksFor :
      (forwards : Option (Dict Connection)) (key : Bytes)
      → IsKeyed c
      → All (AsksFor key) (reconcile z c forwards key).0
  unfolding reconcile
  reconcile-AsksFor forwards key law = elim (result_cases (c.services key)) [
    | is_ok o e ↦ elim (Option-cases o) [
      | inl gone ↦ rw (e, gone, reconcile) (gone-AsksFor key law)
      | inr (svc, here) ↦
          rw (e, here, reconcile)
            (subst (λ k. All (AsksFor k) (reconcile_service z c forwards key svc).0)
              (law.stored key svc (e ∙ ap ok here)) (service-AsksFor forwards key svc))
    ]
    | is_err m e ↦ rw (e, reconcile) tt
    | is_panic e ↦ rw (e, reconcile) tt
    | is_blocked e ↦ rw (e, reconcile) tt
  ]

  -- A port-forward to the pod that the worker finds in the endpoints is left alone as long as the
  -- endpoints are those: a tunnel that runs is not replaced again and again. For a service that is
  -- in the cluster and not deleted, with a running port-forward under its key.
  pub reconcile-settled :
      (m : Dict Connection) (key : Bytes) (svc : Service) (pf : Connection) (e : Endpoints)
      → c.services key ≡ ok (some svc)
      → svc.deleted ≡ false
      → lookup key m ≡ some pf
      → pf.status ≡ running
      → c.stores.endpoints key ≡ some e
      → get_pod_for_service (ok e) ≡ ok pf.pod
      → reconcile z c (some m) key ≡ ([], ok tt)
  unfolding reconcile reconcile_service check_forward
  reconcile-settled m key svc pf e stored here there runs known chosen =
      let active : is_active_endpoint pf.pod.name e ≡ true =
        (get_pod_for_service-is_active e).0 pf.pod chosen in
      rw (stored, reconcile, here, reconcile_service, there, known, runs, check_forward, active)
        refl
