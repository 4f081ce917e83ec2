-- ===== src/Proxier/Create/Stability.antt =====
-- What `IsStable` of internal/proxier/proxy.go says of the requests that the worker handled.
use localizer.Base.{
  ℕ, ◌+◌, ◌<◌, ◌≡◌, ◌⊎◌, refl, sym, ap, subst, ◌∙◌, true, List, [], ◌∷◌, some, arith, Bool-cases,
  Option-cases, inl, inr,
}
use localizer.Base.Dict.{lookup}
use localizer.Hostsfile.Block.{Platform}
use localizer.Proxier.Types.{CreateRequest, DeleteRequest, Request, create, delete, service_key}
use localizer.Proxier.Worker.{Ipam, World, Worker, delete_port_forward, is_stable, touch}
use localizer.Proxier.Reconcile.{proxier_is_stable}
use localizer.Proxier.Worker.Touching.{stop_port_forward-time}
use localizer.Proxier.Create.{create_port_forward, handle, handle_all}
use localizer.Proxier.Create.Touching.{time, establish-time, recreate-time}

module _ (p : Platform) {P : Type 0} (ipam : Ipam P) (world : World) where
  -- A request either does nothing at all, or the worker is touched.
  Touched : Worker P → Worker P → Type 0
  Touched w t = (t ≡ w) ⊎ (time t ≡ world.clock)

  create_port_forward-Touched :
      (req : CreateRequest) (w : Worker P) → Touched w (create_port_forward p ipam world req w).0
  unfolding create_port_forward touch Touched
  create_port_forward-Touched req w = elim (Bool-cases req.recreate) [
    | inl again ↦
        inr (rw (again, create_port_forward) (recreate-time p ipam world req (touch world.clock w)))
    | inr first ↦ elim (Option-cases (lookup (service_key req.service) w.port_forwards)) [
      | inl absent ↦ inr (
          rw (first, create_port_forward, absent)
            (establish-time p ipam world req (touch world.clock w)))
      | inr (c, there) ↦ inl (rw (first, create_port_forward, there) refl)
    ]
  ]

  delete_port_forward-Touched :
      (req : DeleteRequest) (w : Worker P) → Touched w (delete_port_forward p ipam world req w).0
  unfolding delete_port_forward touch Touched
  delete_port_forward-Touched req w =
      elim (Option-cases (lookup (service_key req.service) w.port_forwards)) [
        | inl absent ↦ inl (rw (absent, delete_port_forward) refl)
        | inr (c, there) ↦ inr (
            rw (there, delete_port_forward)
              (ground (arith, stop_port_forward-time p ipam world c (touch world.clock w))))
      ]

  handle-Touched : (r : Request) (w : Worker P) → Touched w (handle p ipam world r w).0
  unfolding handle
  handle-Touched (create req) w = create_port_forward-Touched req w
  handle-Touched (delete req) w = delete_port_forward-Touched req w

module _ (p : Platform) {P : Type 0} (ipam : Ipam P) where
  -- A time is that of one of the requests.
  abbrev ClockOf : ℕ → List (World × Request) → Type 0
  ClockOf t [] = ⊥
  ClockOf t ((world, req) ∷ reqs) = (t ≡ world.clock) ⊎ ClockOf t reqs

  abbrev Leaves : List (World × Request) → Worker P → Worker P → Type 0
  Leaves reqs w t = (t ≡ w) ⊎ ClockOf (time t) reqs

  -- The worker goes on from a request with the others, or stops there.
  handle_all-cases :
      (world : World) (req : Request) (reqs : List (World × Request)) (w : Worker P)
      → let t = (handle p ipam world req w).0 in
        ((handle_all p ipam ((world, req) ∷ reqs) w).0 ≡ (handle_all p ipam reqs t).0)
        ⊎ ((handle_all p ipam ((world, req) ∷ reqs) w).0 ≡ t)
  unfolding handle_all
  handle_all-cases world req reqs w = ground arith

  handle_all-Leaves :
      (reqs : List (World × Request)) (w : Worker P) → Leaves reqs w (handle_all p ipam reqs w).0
  unfolding handle_all Touched
  handle_all-Leaves [] w = inl refl
  handle_all-Leaves ((world, req) ∷ reqs) w =
      let t = (handle p ipam world req w).0 in
      let one = handle-Touched p ipam world req w in
      elim (handle_all-cases world req reqs w) [
        | inr stops ↦ elim one [
          | inl same ↦ inl (stops ∙ same)
          | inr touched ↦ inr (inl (ap time stops ∙ touched))
        ]
        | inl goes ↦ elim (handle_all-Leaves reqs t) [
          | inr clock ↦ inr (inr (subst (λ u. ClockOf (time u) reqs) (sym goes) clock))
          | inl kept ↦ elim one [
            | inl same ↦ inl (goes ∙ (kept ∙ same))
            | inr touched ↦ inr (inl (ap time (goes ∙ kept) ∙ touched))
          ]
        ]
      ]

  -- Each of the requests was taken less than two seconds ago, in nanoseconds.
  abbrev pub Recent : ℕ → List (World × Request) → Type 0
  Recent now [] = Unit
  Recent now ((world, req) ∷ reqs) = (now < world.clock + 2000000000) × Recent now reqs

  ends_late :
      (now t : ℕ) (reqs : List (World × Request))
      → Recent now reqs
      → ClockOf t reqs
      → now < t + 2000000000
  ends_late now t [] h c = absurd c
  ends_late now t ((world, req) ∷ reqs) h (inl same) = omega (arith, same, h.0)
  ends_late now t ((world, req) ∷ reqs) h (inr more) = ends_late now t reqs h.1 more

  -- `IsStable` tells the truth: if the proxier says that it is stable, then all requests that were
  -- taken in the last two seconds have changed nothing, neither a port-forward nor an address,
  -- the hosts file or the disk. For requests that all were taken in that time.
  pub stable-unchanged :
      (reqs : List (World × Request)) (w : Worker P) (now : ℕ)
      → Recent now reqs
      → proxier_is_stable now (some (handle_all p ipam reqs w).0) ≡ true
      → (handle_all p ipam reqs w).0 ≡ w
  unfolding proxier_is_stable is_stable
  stable-unchanged reqs w now recent stable = elim (handle_all-Leaves reqs w) [
    | inl same ↦ same
    | inr clock ↦
        let late = ends_late now (time (handle_all p ipam reqs w).0) reqs recent clock in
        absurd (ground arith)
  ]
