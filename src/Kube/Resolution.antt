-- ===== src/Kube/Resolution.antt =====
-- What `ResolveServicePorts` of internal/kube/client.go keeps of a service's ports, and which
-- controllers its selector finds.
use localizer.Base.{
  ℕ, suc, ◌≡◌, ◌∙◌, ◌↔◌, ◌⊎◌, refl, sym, ap, subst, Bool, true, false, List, [], ◌∷◌, ◌++◌, map,
  Option, Bytes, str_eq_iff, ok, arith, All, Bool-cases, Option-cases, inl, inr, length,
}
use localizer.Base.Dict.{Dict, lookup}
use localizer.Proxier.Types.{EndpointPort, Subset}
use localizer.Kube.{
  int, Intstr, ServicePort, ResolvedServicePort, Service, Container, Controller, template, other,
  Stores, label, has_all, satisfies_selector, matching, find_controllers_for_service,
  has_named_ports, container_ports, endpoint_port, int_value, resolved, target_text,
  resolve_from_endpoints, resolve_service_ports_from_controllers, resolve_service_ports,
}

-- Every pair of the selector is a label of the object's pod template.
abbrev pub Selects : Dict Bytes → Controller → Type 0
Selects selector (template labels containers) = All (λ kv. label labels kv.0 ≡ kv.1) selector
Selects selector (other e) = ⊥

-- The loop over the selector decides that every pair of it is a label.
pub has_all_iff :
    (labels matches : Dict Bytes)
    → (has_all labels matches ≡ true) ↔ All (λ kv. label labels kv.0 ≡ kv.1) matches
unfolding has_all
has_all_iff labels [] = (λ h. tt, λ h. refl)
has_all_iff labels ((k, v) ∷ matches) =
    ground (arith, has_all_iff labels matches, str_eq_iff (label labels k) v)

-- A port that was resolved is the service's port, with another target at most where that was a name.
abbrev pub Resolves : Intstr → ServicePort → ResolvedServicePort → Type 0
Resolves z p r =
    (r.service_port.name ≡ p.name)
    × (r.service_port.port ≡ p.port)
    × ((n : ℕ) → p.target_port ≡ int n → (r.service_port ≡ p) × (r.original_target_port ≡ []))

resolved-Resolves :
    (z : Intstr) (p : ServicePort) (found : Option ℕ) → Resolves z p (resolved z p found)
unfolding int_value resolved
resolved-Resolves z p found = ground arith

-- Item by item, the two lists are related.
abbrev pub Pairs : {A B : Type 0} → (A → B → Type 0) → List A → List B → Type 0
Pairs R [] [] = Unit
Pairs R (x ∷ xs) (y ∷ ys) = R x y × Pairs R xs ys
Pairs R _ _ = ⊥

map-Pairs :
    {A B : Type 0} (R : A → B → Type 0) (f : A → B) (xs : List A)
    → ((a : A) → R a (f a))
    → Pairs R xs (map f xs)
map-Pairs R f [] h = tt
map-Pairs R f (x ∷ xs) h = (h x, map-Pairs R f xs h)

pub Pairs-length :
    {A B : Type 0} (R : A → B → Type 0) (xs : List A) (ys : List B)
    → Pairs R xs ys
    → length xs ≡ length ys
Pairs-length R [] [] h = refl
Pairs-length R [] (y ∷ ys) h = absurd h
Pairs-length R (x ∷ xs) [] h = absurd h
Pairs-length R (x ∷ xs) (y ∷ ys) h = ap suc (Pairs-length R xs ys h.1)

module _ (z : Intstr) (stores : Stores) where
  from_controllers :
      (s : Service) (rs : List ResolvedServicePort)
      → resolve_service_ports_from_controllers z stores s ≡ ok rs
      → Pairs (Resolves z) s.ports rs
  unfolding resolve_service_ports_from_controllers
  from_controllers s rs h = elim (controller_cases (find_controllers_for_service stores s)) [
    | inl none_found ↦ absurd (ground arith)
    | inr (inl (e, more, first)) ↦ absurd (ground arith)
    | inr (inr (labels, containers, more, first)) ↦
        let ports = container_ports containers [] in
        let f : ServicePort → ResolvedServicePort =
          λ p. resolved z p (lookup (target_text z p) ports) in
        let same : rs ≡ map f s.ports = ground arith in
        subst (Pairs (Resolves z) s.ports) (sym same) (
          map-Pairs (Resolves z) f s.ports
            (λ p. resolved-Resolves z p (lookup (target_text z p) ports)))
  ]
    where
      controller_cases :
          (cs : List Controller)
          → (cs ≡ [])
            ⊎ ((e : Bytes) × (more : List Controller) × (cs ≡ other e ∷ more))
            ⊎ ((labels : Dict Bytes) × (containers : List Container) × (more : List Controller)
                × (cs ≡ template labels containers ∷ more))
      controller_cases [] = inl refl
      controller_cases (other e ∷ more) = inr (inl (e, more, refl))
      controller_cases (template labels containers ∷ more) =
          inr (inr (labels, containers, more, refl))

  unnamed :
      (s : Service)
      → has_named_ports s.ports ≡ false
      → resolve_service_ports z stores s
        ≡ ok (
            map
              (λ p. record { service_port = p; original_target_port = []; mapped_port = p.port })
              s.ports)
  unfolding resolve_service_ports
  unnamed s h = rw (h, resolve_service_ports) refl

  -- The three ways in which a service's ports are resolved.
  resolution_cases :
      (s : Service)
      → let r = resolve_service_ports z stores s in
        (r
          ≡ ok (
              map
                (λ p. record { service_port = p; original_target_port = []; mapped_port = p.port })
                s.ports))
        ⊎ (r ≡ resolve_service_ports_from_controllers z stores s)
        ⊎ ((eps : List EndpointPort) × (r ≡ ok (resolve_from_endpoints z eps s.ports)))
  unfolding resolve_service_ports
  resolution_cases s = elim (Bool-cases (has_named_ports s.ports)) [
    | inr plain ↦ inl (unnamed s plain)
    | inl named ↦ inr (elim (Option-cases (stores.endpoints (s.namespace ++ (b'/' ∷ s.name)))) [
      | inl absent ↦ inl (rw (named, absent, resolve_service_ports) refl)
      | inr (e, there) ↦ elim (subset_cases e.subsets) [
        | inl empty ↦ inl (ground arith)
        | inr (subset, more, first) ↦ inr (subset.ports, ground arith)
      ]
    ])
  ]
    where
      subset_cases :
          (ss : List Subset) → (ss ≡ []) ⊎ ((s : Subset) × (more : List Subset) × (ss ≡ s ∷ more))
      subset_cases [] = inl refl
      subset_cases (s ∷ more) = inr (s, more, refl)

  -- The resolved ports are the service's, one for each and in order, with the names and the ports
  -- kept, and with the target kept where it is a number; this holds for every way of resolving them
  -- that ends without an error. So a caller may index one list by the other.
  pub resolve_service_ports-Resolves :
      (s : Service) (rs : List ResolvedServicePort)
      → resolve_service_ports z stores s ≡ ok rs
      → Pairs (Resolves z) s.ports rs × (length s.ports ≡ length rs)
  unfolding resolve_from_endpoints
  resolve_service_ports-Resolves s rs h =
      let pairs : Pairs (Resolves z) s.ports rs = elim (resolution_cases s) [
        | inl plain ↦
            by_map s rs
              (λ p. record { service_port = p; original_target_port = []; mapped_port = p.port })
              (λ p. (refl, refl, λ n e. (refl, refl))) (sym h ∙ plain)
        | inr (inl controlled) ↦ from_controllers s rs (sym controlled ∙ h)
        | inr (inr (eps, found)) ↦
            by_map s rs (λ p. resolved z p (endpoint_port p.name (target_text z p) eps))
              (λ p. resolved-Resolves z p (endpoint_port p.name (target_text z p) eps))
              (sym h ∙ found)
      ] in
      (pairs, Pairs-length (Resolves z) s.ports rs pairs)
    where
      by_map :
          (s : Service) (rs : List ResolvedServicePort) (f : ServicePort → ResolvedServicePort)
          → ((p : ServicePort) → Resolves z p (f p))
          → ok rs ≡ ok (map f s.ports)
          → Pairs (Resolves z) s.ports rs
      by_map s rs f h e =
          let same : rs ≡ map f s.ports = ground arith in
          subst (Pairs (Resolves z) s.ports) (sym same) (map-Pairs (Resolves z) f s.ports h)

abbrev pub In : {A : Type 0} → A → List A → Type 0
In c [] = ⊥
In c (x ∷ xs) = (c ≡ x) ⊎ In c xs

-- An object of the stores is kept just when it can be considered and its labels answer the selector.
verdict :
    (selector : Dict Bytes) (x : Controller) (items : List Controller)
    → (Selects selector x × (matching selector (x ∷ items) ≡ x ∷ matching selector items))
      ⊎ ((¬ Selects selector x) × (matching selector (x ∷ items) ≡ matching selector items))
unfolding matching satisfies_selector
verdict selector (template labels containers) items = elim (Bool-cases (has_all labels selector)) [
  | inl all ↦ inl ((has_all_iff labels selector).0 all, ground arith)
  | inr miss ↦ inr (λ h. true-ne-false ((has_all_iff labels selector).1 h) miss, ground arith)
]
  where
    true-ne-false : {b : Bool} → b ≡ true → b ≡ false → ⊥
    true-ne-false h k = cc
verdict selector (other e) items = inr (λ h. h, refl)

matching-In :
    (selector : Dict Bytes) (items : List Controller) (c : Controller)
    → In c (matching selector items) ↔ (In c items × Selects selector c)
matching-In selector [] c = (λ h. absurd (unfold matching in h), λ h. absurd h.0)
matching-In selector (x ∷ items) c =
    let (into, back) = matching-In selector items c in
    elim (verdict selector x items) [
      | inl (selected, kept) ↦
          subst (λ l. In c l ↔ (In c (x ∷ items) × Selects selector c)) (sym kept)
            (
              λ h. elim h [
                | inl e ↦ (inl e, subst (Selects selector) (sym e) selected)
                | inr m ↦ (inr (into m).0, (into m).1)
              ],
              λ h. elim (h.0) [ inl e ↦ inl e | inr m ↦ inr (back (m, h.1)) ],
            )
      | inr (refused, dropped) ↦
          subst (λ l. In c l ↔ (In c (x ∷ items) × Selects selector c)) (sym dropped)
            (
              λ h. (inr (into h).0, (into h).1),
              λ h. elim (h.0) [
                | inl e ↦ absurd (refused (subst (Selects selector) e h.1))
                | inr m ↦ back (m, h.1)
              ],
            )
    ]

-- The controllers of a service are the stateful sets and the deployments of the stores whose pod
-- template has every label of the selector, a label that is missing counting as an empty one;
-- objects that cannot be considered are left out.
pub find_controllers_for_service-In :
    (stores : Stores) (s : Service) (c : Controller)
    → In c (find_controllers_for_service stores s)
      ↔ (In c (stores.stateful_sets ++ stores.deployments) × Selects s.selector c)
unfolding find_controllers_for_service
find_controllers_for_service-In stores s c =
    matching-In s.selector (stores.stateful_sets ++ stores.deployments) c
