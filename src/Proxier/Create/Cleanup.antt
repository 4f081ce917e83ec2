-- ===== src/Proxier/Create/Cleanup.antt =====
-- The loop of internal/proxier/portforward.go over its map when the context is done.
use localizer.Base.{
  ◌≡◌, refl, sym, ap, subst, ◌∙◌, true, List, [], ◌∷◌, ◌++◌, Option, none, some, Bytes, Result, ok,
  err, panic, blocked, goes_on, arith, str_eq_iff, str_eq_refl, if◌then◌else◌, Perm, Option-cases,
  inl, inr,
}
use localizer.Base.Dict.{Dict, lookup, keys, delete, lookup-delete}
use localizer.Hostsfile.Block.{Platform}
use localizer.Hostsfile.Block.Sorting.{elem, elem-keys}
use localizer.Proxier.Types.{service_key, DeleteRequest, Connection}
use localizer.Proxier.Worker.{Ipam, World, Worker, delete_port_forward, touch}
use localizer.Proxier.Worker.Addresses.{IsLawful, Inv, taken, ips}
use localizer.Proxier.Worker.Stopping.{stop_port_forward-Stopped}
use localizer.Proxier.Worker.Invariant.{
  entry-IsTaken, touch-Inv, delete_port_forward_present, delete_port_forward-Inv,
}
use localizer.Proxier.Create.{go_on, clean_up}

go_on_eq :
    {P : Type 0} (rest : Worker P → Worker P × Result (Unit {0})) (t : Worker P × Result (Unit {0}))
    → goes_on (go_on rest t).1 ≡ true
    → (goes_on t.1 ≡ true) × (go_on rest t ≡ rest t.0)
go_on_eq rest (w, ok _) g = (refl, refl)
go_on_eq rest (w, err _) g = (refl, refl)
go_on_eq rest (w, panic) g = cc
go_on_eq rest (w, blocked) g = cc

none_left : (m : Dict Connection) → ((k : Bytes) → lookup k m ≡ none) → m ≡ []
unfolding lookup
none_left [] h = refl
none_left ((k, c) ∷ m) h = absurd (ground (arith, h k, str_eq_refl k))

lookup_after :
    (k j : Bytes) (ks : List Bytes) (m n : Dict Connection) (found : Option Connection)
    → n ≡ delete k m
    → found ≡ (if elem j ks then none else lookup j n)
    → found ≡ (if elem j (k ∷ ks) then none else lookup j m)
unfolding elem
lookup_after k j ks m n found e h =
    h
    ∙ subst
        (λ q.
          (if elem j ks then none else lookup j q) ≡ (if elem j (k ∷ ks) then none else lookup j m))
        (sym e) (ground (arith, lookup-delete k j m))

module _ (p : Platform) {P : Type 0} (ipam : Ipam P) (law : IsLawful ipam) (world : World)
    (reserved : List Bytes) where
  -- What a delete request leaves of the map, when there is an entry.
  deleted_forwards :
      (req : DeleteRequest) (w : Worker P) (c : Connection)
      → Inv ipam reserved w
      → lookup (service_key req.service) w.port_forwards ≡ some c
      → goes_on (delete_port_forward p ipam world req w).1 ≡ true
      → (delete_port_forward p ipam world req w).0.port_forwards
        ≡ delete (service_key req.service) w.port_forwards
  unfolding touch
  deleted_forwards req w c v e g =
      let (settled, gone) = delete_port_forward_present p ipam law world reserved req w c e g in
      let u = touch world.clock w in
      let st =
        stop_port_forward-Stopped p ipam world law c u
          (entry-IsTaken ipam reserved u (service_key req.service) c
            (touch-Inv p ipam law world reserved world.clock w v) e)
          settled in
      ap (λ t. t.port_forwards) gone ∙ ap (delete (service_key req.service)) st.same_forwards

  clean_up_absent :
      (k : Bytes) (ks : List Bytes) (w : Worker P)
      → lookup k w.port_forwards ≡ none
      → clean_up p ipam world (k ∷ ks) w ≡ clean_up p ipam world ks w
  unfolding clean_up
  clean_up_absent k ks w e = rw (e, clean_up) refl

  clean_up_present :
      (k : Bytes) (ks : List Bytes) (w : Worker P) (c : Connection)
      → lookup k w.port_forwards ≡ some c
      → goes_on (clean_up p ipam world (k ∷ ks) w).1 ≡ true
      → let t = delete_port_forward p ipam world (record { service = c.service }) w in
        (goes_on t.1 ≡ true) × (clean_up p ipam world (k ∷ ks) w ≡ clean_up p ipam world ks t.0)
  unfolding clean_up
  clean_up_present k ks w c e g =
      let t = delete_port_forward p ipam world (record { service = c.service }) w in
      let same : clean_up p ipam world (k ∷ ks) w ≡ go_on (clean_up p ipam world ks) t =
        rw (e, clean_up) refl in
      let (went, next) =
        go_on_eq (clean_up p ipam world ks) t (subst (λ u. goes_on u.1 ≡ true) same g) in
      (went, same ∙ next)

  -- The keys that were met are free, and the others have what they had.
  cleaned :
      (ks : List Bytes) (w : Worker P)
      → Inv ipam reserved w
      → goes_on (clean_up p ipam world ks w).1 ≡ true
      → let u = (clean_up p ipam world ks w).0 in
        Inv ipam reserved u
        × ((j : Bytes)
            → lookup j u.port_forwards ≡ (if elem j ks then none else lookup j w.port_forwards))
  unfolding clean_up elem
  cleaned [] w v g = (v, λ j. refl)
  cleaned (k ∷ ks) w v g = elim (Option-cases (lookup k w.port_forwards)) [
    | inl absent ↦
        let same = clean_up_absent k ks w absent in
        let (inv, found) = cleaned ks w v (subst (λ t. goes_on t.1 ≡ true) same g) in
        subst
          (λ t.
            Inv ipam reserved t.0
            × ((j : Bytes)
                → lookup j t.0.port_forwards
                  ≡ (if elem j (k ∷ ks) then none else lookup j w.port_forwards)))
          (sym same) (inv, λ j. ground (arith, found j, absent, str_eq_iff k j))
    | inr (c, e) ↦
        let (went, same) = clean_up_present k ks w c e g in
        let w' = (delete_port_forward p ipam world (record { service = c.service }) w).0 in
        let here : lookup (service_key c.service) w.port_forwards ≡ some c =
          ap (λ q. lookup q w.port_forwards) (v.filed k c e) ∙ e in
        let left : w'.port_forwards ≡ delete k w.port_forwards =
          deleted_forwards (record { service = c.service }) w c v here went
          ∙ ap (λ q. delete q w.port_forwards) (v.filed k c e) in
        let v' =
          delete_port_forward-Inv p ipam law world reserved (record { service = c.service }) w v
            went in
        let (inv, found) = cleaned ks w' v' (subst (λ t. goes_on t.1 ≡ true) same g) in
        subst
          (λ t.
            Inv ipam reserved t.0
            × ((j : Bytes)
                → lookup j t.0.port_forwards
                  ≡ (if elem j (k ∷ ks) then none else lookup j w.port_forwards)))
          (sym same)
          (
            inv,
            λ j.
                lookup_after k j ks w.port_forwards w'.port_forwards
                  (lookup j (clean_up p ipam world ks w').0.port_forwards) left (found j),
          )
  ]

  -- When the context is done and the loop has met every key of the map, no port-forward is left and
  -- the pool has just the reserved addresses: every connection gave its address back. For a pool
  -- that keeps its promises, a worker whose pool and map agree, and a loop in which no deletion panics or waits for ever.
  pub clean_up-empty :
      (w : Worker P)
      → Inv ipam reserved w
      → goes_on (clean_up p ipam world (keys w.port_forwards) w).1 ≡ true
      → let u = (clean_up p ipam world (keys w.port_forwards) w).0 in
        (u.port_forwards ≡ []) × Perm (taken ipam u) reserved
  clean_up-empty w v g =
      let u = (clean_up p ipam world (keys w.port_forwards) w).0 in
      let (inv, found) = cleaned (keys w.port_forwards) w v g in
      let empty : u.port_forwards ≡ [] =
        none_left u.port_forwards (λ j. ground (arith, found j, elem-keys j w.port_forwards)) in
      (empty, subst (λ m. Perm (taken ipam u) (ips m ++ reserved)) empty inv.balanced)
