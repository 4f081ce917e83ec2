-- ===== src/Proxier/Create/Requests.antt =====
-- The invariant of internal/proxier/portforward.go over the requests that its worker handles.
use localizer.Base.{
  ℕ, ◌≡◌, refl, sym, subst, true, List, [], ◌∷◌, none, Bytes, arith, ◌⊎◌, Bool-cases, Option-cases,
  inl, inr,
}
use localizer.Base.Dict.{lookup}
use localizer.Hostsfile.Block.{Platform}
use localizer.Proxier.Types.{recreating, service_key, CreateRequest, Request, create, delete}
use localizer.Proxier.Worker.{Ipam, World, Worker, touch, set_status}
use localizer.Proxier.Worker.Addresses.{goes_on, IsLawful, Inv}
use localizer.Proxier.Worker.Invariant.{touch-Inv, delete_port_forward-Inv}
use localizer.Proxier.Create.{
  establish, stop_existing, recreate_port_forward, create_port_forward, handle, handle_all,
}
use localizer.Proxier.Create.Invariant.{IsIdle, establish-Inv}
use localizer.Proxier.Create.Marking.{set_status-Inv, stop_existing-Inv}

module _ (p : Platform) {P : Type 0} (ipam : Ipam P) (law : IsLawful ipam) (world : World)
    (reserved : List Bytes) where
  -- The entry was stopped, and its successor is made.
  recreate_eq :
      (req : CreateRequest) (w : Worker P)
      → goes_on (recreate_port_forward p ipam world req w).1 ≡ true
      → let t =
          stop_existing p ipam world req
            (set_status req.service recreating req.recreate_reason w) in
        (goes_on t.1 ≡ true)
        × ((recreate_port_forward p ipam world req w ≡ establish p ipam world req t.0)
            ⊎ ((recreate_port_forward p ipam world req w).0 ≡ t.0))
  unfolding recreate_port_forward
  recreate_eq req w g = ground arith

  recreate-Inv :
      (req : CreateRequest) (w : Worker P)
      → Inv ipam reserved w
      → goes_on (recreate_port_forward p ipam world req w).1 ≡ true
      → Inv ipam reserved (recreate_port_forward p ipam world req w).0
  recreate-Inv req w v g =
      let (went, so) = recreate_eq req w g in
      let u = set_status req.service recreating req.recreate_reason w in
      let (inv, idle) =
        stop_existing-Inv p ipam law world reserved req u
          (set_status-Inv p ipam law world reserved req.service recreating req.recreate_reason w v)
          went in
      elim so [
        | inl made ↦
            subst (λ t. Inv ipam reserved t.0) (sym made)
              (establish-Inv p ipam law world reserved req (stop_existing p ipam world req u).0 inv
                idle (subst (λ t. goes_on t.1 ≡ true) made g))
        | inr left ↦ subst (Inv ipam reserved) (sym left) inv
      ]

  create_eq :
      (req : CreateRequest) (w : Worker P)
      → let t = create_port_forward p ipam world req w in
        let u = touch world.clock w in
        (t ≡ recreate_port_forward p ipam world req u)
        ⊎ (t.0 ≡ w)
        ⊎ ((lookup (service_key req.service) w.port_forwards ≡ none)
            × (t ≡ establish p ipam world req u))
  unfolding create_port_forward
  create_eq req w = elim (Bool-cases req.recreate) [
    | inl again ↦ inl (rw (again, create_port_forward) refl)
    | inr first ↦ elim (Option-cases (lookup (service_key req.service) w.port_forwards)) [
      | inl absent ↦ inr (inr (absent, rw (first, absent, create_port_forward) refl))
      | inr (c, e) ↦ inr (inl (rw (first, e, create_port_forward) refl))
    ]
  ]

  touch-IsIdle :
      (now : ℕ) (k : Bytes) (w : Worker P)
      → lookup k w.port_forwards ≡ none
      → IsIdle k (touch now w).port_forwards
  unfolding touch
  touch-IsIdle now k w e c found = absurd (ground arith)

  -- Handling a create request keeps the invariant on every path: the first one for a service, a
  -- duplicate, the replacement of a broken one, a failure at any of the steps.
  pub create_port_forward-Inv :
      (req : CreateRequest) (w : Worker P)
      → Inv ipam reserved w
      → goes_on (create_port_forward p ipam world req w).1 ≡ true
      → Inv ipam reserved (create_port_forward p ipam world req w).0
  create_port_forward-Inv req w v g =
      let u = touch world.clock w in
      let vu = touch-Inv p ipam law world reserved world.clock w v in
      elim (create_eq req w) [
        | inl again ↦
            subst (λ t. Inv ipam reserved t.0) (sym again)
              (recreate-Inv req u vu (subst (λ t. goes_on t.1 ≡ true) again g))
        | inr (inl left) ↦ subst (Inv ipam reserved) (sym left) v
        | inr (inr (absent, made)) ↦
            subst (λ t. Inv ipam reserved t.0) (sym made)
              (establish-Inv p ipam law world reserved req u vu
                (touch-IsIdle world.clock (service_key req.service) w absent)
                (subst (λ t. goes_on t.1 ≡ true) made g))
      ]

  pub handle-Inv :
      (req : Request) (w : Worker P)
      → Inv ipam reserved w
      → goes_on (handle p ipam world req w).1 ≡ true
      → Inv ipam reserved (handle p ipam world req w).0
  unfolding handle
  handle-Inv (create req) w v g = create_port_forward-Inv req w v g
  handle-Inv (delete req) w v g = delete_port_forward-Inv p ipam law world reserved req w v g

module _ (p : Platform) {P : Type 0} (ipam : Ipam P) (law : IsLawful ipam)
    (reserved : List Bytes) where
  handle_all_eq :
      (world : World) (req : Request) (reqs : List (World × Request)) (w : Worker P)
      → goes_on (handle_all p ipam ((world, req) ∷ reqs) w).1 ≡ true
      → let t = handle p ipam world req w in
        (goes_on t.1 ≡ true)
        × (handle_all p ipam ((world, req) ∷ reqs) w ≡ handle_all p ipam reqs t.0)
  unfolding handle_all
  handle_all_eq world req reqs w g = ground arith

  -- The pool and the map of the worker agree after any sequence of create and delete requests that
  -- is handled without a panic and without a wait that does not end, whatever the world answers
  -- meanwhile: what the pool has given out is what the connections hold and the reserved addresses,
  -- each once. So no address is lost and no two connections have the same one. The pool has to
  -- keep its promises, and the worker has to start in such a state.
  pub handle_all-Inv :
      (reqs : List (World × Request)) (w : Worker P)
      → Inv ipam reserved w
      → goes_on (handle_all p ipam reqs w).1 ≡ true
      → Inv ipam reserved (handle_all p ipam reqs w).0
  unfolding handle_all
  handle_all-Inv [] w v g = v
  handle_all-Inv ((world, req) ∷ reqs) w v g =
      let (went, rest) = handle_all_eq world req reqs w g in
      let t = handle p ipam world req w in
      subst (λ u. Inv ipam reserved u.0) (sym rest)
        (handle_all-Inv reqs t.0 (handle-Inv p ipam law world reserved req w v went)
          (subst (λ u. goes_on u.1 ≡ true) rest g))
