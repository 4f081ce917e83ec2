-- ===== src/Expose/Replicas.antt =====
-- The controllers that internal/expose/client.go finds for a service, and their scale.
use localizer.Base.{
  ℕ, ◌≡◌, refl, ap, subst, Option-cases, inl, inr, ◌∙◌, List, [], ◌∷◌, Option, none, some, Bytes,
  codes, ok, err, arith, ◌>>=◌,
}
use localizer.Kube.{Controller, Service, Stores, find_controllers_for_service}
use localizer.Expose.{ScaledObject, Objects, scaled_object, scaled_objects, get_service_controllers}
use localizer.Expose.Controllers.{
  Fields, GoValue, Reflection, enforce_struct, field_by_name, find_field, get_mapping,
  get_replicas_from_object, int32, kind_text, nil_pointer, number_of, pointer, struct,
}

-- Documented behaviour of `EnforcePtr`: the value behind a pointer, and an error for a nil one.
pub record IsEnforcing (r : Reflection) : Type 0 where
  pub behind : (v : GoValue) → r.enforce_ptr (pointer v) ≡ ok v
  pub refuses : (e : Bytes) × (r.enforce_ptr nil_pointer ≡ err e)

abbrev pub replicas_pointer : Option ℕ → GoValue
replicas_pointer none = nil_pointer
replicas_pointer (some n) = pointer (int32 n)

-- A deployment or a stateful set: a pointer to a struct with a `Spec` with `Replicas`, which may be unset.
pub record IsWorkload (v : GoValue) (replicas : Option ℕ) : Type 0 where
  pub fields : Fields
  pub spec : Fields
  pub is_struct : v ≡ pointer (struct fields)
  pub has_spec : find_field (codes "Spec") fields ≡ some (struct spec)
  pub has_replicas : find_field (codes "Replicas") spec ≡ some (replicas_pointer replicas)

module _ (r : Reflection) (law : IsEnforcing r) where
  reached :
      (v : GoValue) (replicas : Option ℕ)
      → IsWorkload v replicas
      → get_replicas_from_object r v ≡ (r.enforce_ptr (replicas_pointer replicas) >>= number_of r)
  unfolding get_replicas_from_object enforce_struct field_by_name
  reached v replicas w =
      rw (w.is_struct, law.behind (struct w.fields), w.has_spec, w.has_replicas) refl

  read_set : (v : GoValue) (n : ℕ) → IsWorkload v (some n) → get_replicas_from_object r v ≡ ok n
  read_set v n w = reached v (some n) w ∙ ap (λ q. q >>= number_of r) (law.behind (int32 n))

  read_unset :
      (v : GoValue) → IsWorkload v none → (e : Bytes) × (get_replicas_from_object r v ≡ err e)
  read_unset v w =
      let (e, nil) = law.refuses in (e, reached v none w ∙ ap (λ q. q >>= number_of r) nil)

-- The objects with a scale, each with its key, its scale and its resource.
abbrev pub scaled_of :
    (Controller → Bytes)
    → (Controller → Bytes)
    → (Controller → Option ℕ)
    → List Controller
    → List ScaledObject
scaled_of key resource replicas [] = []
scaled_of key resource replicas (c ∷ cs) =
    let rest = scaled_of key resource replicas cs in
    elim (replicas c) [
      | none ↦ rest
      | some n ↦ record { key = key c; replicas = n; resource = resource c } ∷ rest
    ]

module _ (objects : Objects) (key resource : Controller → Bytes)
    (replicas : Controller → Option ℕ) where
  -- What the API server and the discovery say of the objects of the stores.
  pub record IsListed : Type 0 where
    pub enforcing : IsEnforcing objects.reflection
    pub named : (c : Controller) → objects.accessor c ≡ ok (key c)
    pub mapped :
        (c : Controller) → objects.rest_mapping (kind_text (objects.type_of c)) ≡ ok (resource c)
    pub workload : (c : Controller) → IsWorkload (objects.value_of c) (replicas c)

  module _ (listed : IsListed) where
    scaled_set :
        (c : Controller) (n : ℕ)
        → replicas c ≡ some n
        → scaled_object objects c ≡ ok (record { key = key c; replicas = n; resource = resource c })
    unfolding scaled_object get_mapping
    scaled_set c n e =
        let read =
          read_set objects.reflection listed.enforcing (objects.value_of c) n
            (subst (IsWorkload (objects.value_of c)) e (listed.workload c)) in
        rw (listed.named c, listed.mapped c, read) refl

    scaled_unset :
        (c : Controller) → replicas c ≡ none → (e : Bytes) × (scaled_object objects c ≡ err e)
    unfolding scaled_object get_mapping
    scaled_unset c e =
        let (m, fails) =
          read_unset objects.reflection listed.enforcing (objects.value_of c)
            (subst (IsWorkload (objects.value_of c)) e (listed.workload c)) in
        (m, rw (listed.named c, listed.mapped c, fails) refl)

    scaled_objects_eq :
        (cs : List Controller) → scaled_objects objects cs ≡ ok (scaled_of key resource replicas cs)
    unfolding scaled_objects
    scaled_objects_eq [] = refl
    scaled_objects_eq (c ∷ cs) = elim (Option-cases (replicas c)) [
      | inl unset ↦
          let (m, skipped) = scaled_unset c unset in
          ground (arith, skipped, unset, scaled_objects_eq cs)
      | inr (n, set) ↦ ground (arith, scaled_set c n set, set, scaled_objects_eq cs)
    ]

    -- The controllers of a service are found with their scales, read by reflection: each controller
    -- whose labels answer the selector, in the order of the stores, with its key, the replicas of
    -- its `Spec` and its REST resource; one whose replicas are not set is left out. For
    -- deployments and stateful sets that have these fields, and a discovery that knows them.
    pub get_service_controllers-scaled_of :
        (stores : Stores) (svc : Service)
        → get_service_controllers objects stores (ok (some svc))
          ≡ ok (scaled_of key resource replicas (find_controllers_for_service stores svc))
    unfolding get_service_controllers
    get_service_controllers-scaled_of stores svc =
        scaled_objects_eq (find_controllers_for_service stores svc)
