-- ===== src/Proxier/Create/Failures.antt =====
-- What internal/proxier/portforward.go does with a create request that is marked as a recreation,
-- when the map has no entry for it.
use localizer.Base.{
  Bytes, ◌≡◌, refl, sym, subst, true, List, [], ◌∷◌, none, panic, arith, str_eq_refl, Option-cases,
  inl, inr,
}
use localizer.Base.Dict.{Dict, lookup, delete as delete_key, lookup-delete}
use localizer.Hostsfile.Block.{Platform}
use localizer.Proxier.Types.{service_key, CreateRequest, DeleteRequest, Request, create, delete}
use localizer.Proxier.Worker.{
  Ipam, World, Worker, touch, set_status, delete_port_forward, stop_port_forward,
}
use localizer.Proxier.Worker.Addresses.{goes_on}
use localizer.Proxier.Create.{
  again, stop_existing, recreate_port_forward, create_port_forward, handle, handle_all,
}

module _ {P : Type 0} (p : Platform) (ipam : Ipam P) where
  recreate_missing :
      (world : World) (req : CreateRequest) (w : Worker P)
      → req.recreate ≡ true
      → lookup (service_key req.service) w.port_forwards ≡ none
      → (create_port_forward p ipam world req w).1 ≡ panic
  unfolding create_port_forward recreate_port_forward set_status touch stop_existing
  recreate_missing world req w marked absent =
      rw
        (
          marked, create_port_forward, recreate_port_forward, absent, set_status, absent,
          stop_existing,
        )
        refl

  lookup-delete_same : {V : Type 0} (k : Bytes) (m : Dict V) → lookup k (delete_key k m) ≡ none
  lookup-delete_same k m = ground (arith, lookup-delete k k m, str_eq_refl k)

  -- After a delete request that goes on, there is no entry under the key.
  pub deleted :
      (world : World) (req : DeleteRequest) (w : Worker P)
      → let u = delete_port_forward p ipam world req w in
        goes_on u.1 ≡ true → lookup (service_key req.service) u.0.port_forwards ≡ none
  unfolding delete_port_forward
  deleted world req w g = elim (Option-cases (lookup (service_key req.service) w.port_forwards)) [
    | inl absent ↦ rw (absent, delete_port_forward) absent
    | inr (c, e) ↦
        let t = stop_port_forward p ipam world c (touch world.clock w) in
        ground (arith, lookup-delete_same (service_key req.service) t.0.port_forwards)
  ]

  went_on :
      (world : World) (r : Request) (rs : List (World × Request)) (w : Worker P)
      → goes_on (handle p ipam world r w).1 ≡ true
      → handle_all p ipam ((world, r) ∷ rs) w ≡ handle_all p ipam rs (handle p ipam world r w).0
  unfolding handle_all
  went_on world r rs w g = ground arith

  stopped :
      (world : World) (r : Request) (rs : List (World × Request)) (w : Worker P)
      → (handle p ipam world r w).1 ≡ panic
      → (handle_all p ipam ((world, r) ∷ rs) w).1 ≡ panic
  unfolding handle_all
  stopped world r rs w e = ground arith

  again_panics :
      (world : World) (req : CreateRequest) (w : Worker P)
      → lookup (service_key req.service) w.port_forwards ≡ none
      → (handle p ipam world (create (again req)) w).1 ≡ panic
  unfolding handle
  again_panics world req w absent = recreate_missing world (again req) w refl absent

  -- The same of the delete request as the loop handles it.
  pub deleted_by_handle :
      (world : World) (req : DeleteRequest) (w : Worker P)
      → goes_on (handle p ipam world (delete req) w).1 ≡ true
      → lookup (service_key req.service) (handle p ipam world (delete req) w).0.port_forwards ≡ none
  unfolding handle
  deleted_by_handle = deleted

  -- A tunnel whose service was deleted ends, and then its goroutine asks for a recreation, while
  -- the context is not done. That request makes the worker panic, whatever the world answers: the
  -- entry is gone, and `stopPortForward` gets a nil pointer. Stated for a delete request for the
  -- service of `req` that goes on, followed by the request that the goroutine of `req` sends.
  pub again_after_delete_panics :
      (world world' : World) (req : CreateRequest) (w : Worker P)
      → goes_on (handle p ipam world (delete (record { service = req.service })) w).1 ≡ true
      → (handle_all p ipam
          ((world, delete (record { service = req.service })) ∷ (world', create (again req)) ∷ [])
          w).1
        ≡ panic
  again_after_delete_panics world world' req w g =
      let gone : DeleteRequest = record { service = req.service } in
      let u = (handle p ipam world (delete gone) w).0 in
      subst (λ t. t.1 ≡ panic) (sym (went_on world (delete gone) _ w g))
        (stopped world' (create (again req)) [] u
          (again_panics world' req u (deleted_by_handle world gone w g)))
