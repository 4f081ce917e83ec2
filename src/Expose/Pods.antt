-- ===== src/Expose/Pods.antt =====
-- The pods of the loop of internal/expose/port.go in the cluster, and its open port-forwards.
use localizer.Base.{
  ℕ, ◌≡◌, ◌⊎◌, refl, sym, ap, subst, ◌∙◌, true, List, [], ◌∷◌, Option, none, some, Bytes, Result,
  ok, arith, inl, inr, is_ok, is_err, is_panic, is_blocked, result_cases,
}
use localizer.Ssh.{Atoi}
use localizer.Expose.Tunnel.{
  Condition, without, create_server_pod, Round, create_transport, Loop, start_loop, run_cleanup,
  run_tunnel, make_tunnel, round, rounds, start,
}

-- What the cleanup function would delete.
abbrev pub held : Option ℕ → List ℕ
held none = []
held (some po) = po ∷ []

-- The pods of the cluster are just the one that the cleanup would delete, if there is one.
abbrev pub IsTidy : Loop → Type 0
IsTidy s = s.pods ≡ held s.cleanup

cleaned : (s : Loop) → IsTidy s → (run_cleanup s).pods ≡ []
unfolding run_cleanup without
cleaned s h = ground arith

created-IsTidy :
    (created : Result ℕ) (checks : List (Option (List Condition))) (pods : List ℕ)
    → pods ≡ []
    → let t = create_server_pod created checks pods in t.0 ≡ held t.1
unfolding create_server_pod without
created-IsTidy created checks pods h = ground arith

run_tunnel-pods :
    (atoi : Atoi) (ports : List Bytes) (local_port fw : ℕ) (s : Loop)
    → let t = run_tunnel atoi ports local_port fw s in
      (t.0.pods ≡ s.pods) × (t.0.cleanup ≡ s.cleanup)
unfolding run_tunnel
run_tunnel-pods atoi ports local_port fw s = ground arith

module _ (atoi : Atoi) (ports : List Bytes) where
  -- With a pod and a transport, the tunnel runs.
  pub reached :
      (r : Round) (s : Loop) (po local_port fw : ℕ)
      → let c = create_server_pod r.created r.checks s.pods in
        let x = create_transport r s.forwards in
        c.2 ≡ ok po
        → x.1 ≡ ok (local_port, fw)
        → make_tunnel atoi ports r s
          ≡ run_tunnel atoi ports local_port fw
              (record s { pods = c.0; cleanup = c.1; forwards = x.0 })
  unfolding make_tunnel
  reached r s po local_port fw e q = ground arith

  make_tunnel-pods :
      (r : Round) (s : Loop)
      → let t = make_tunnel atoi ports r s in
        let c = create_server_pod r.created r.checks s.pods in
        (t.0.pods ≡ c.0) × (t.0.cleanup ≡ c.1)
  unfolding make_tunnel
  make_tunnel-pods r s =
      let c = create_server_pod r.created r.checks s.pods in
      let t : Loop = record s { pods = c.0; cleanup = c.1 } in
      let x = create_transport r t.forwards in
      let u : Loop = record t { forwards = x.0 } in
      elim (result_cases (c.2)) [
        | is_ok po e ↦ elim (result_cases (x.1)) [
          | is_ok (local_port, fw) q ↦
              subst (λ v. (v.0.pods ≡ c.0) × (v.0.cleanup ≡ c.1))
                (sym (reached r s po local_port fw e q))
                (run_tunnel-pods atoi ports local_port fw u)
          | is_err m q ↦ ground arith
          | is_panic q ↦ ground arith
          | is_blocked q ↦ ground arith
        ]
        | is_err m e ↦ ground arith
        | is_panic e ↦ ground arith
        | is_blocked e ↦ ground arith
      ]

  make_tunnel-IsTidy : (r : Round) (s : Loop) → s.pods ≡ [] → IsTidy (make_tunnel atoi ports r s).0
  make_tunnel-IsTidy r s h =
      let (same_pods, same_cleanup) = make_tunnel-pods r s in
      same_pods ∙ created-IsTidy r.created r.checks s.pods h ∙ ap held (sym same_cleanup)

  round_cases :
      (r : Round) (s : Loop)
      → ((round atoi ports r s).0 ≡ s)
        ⊎ (round atoi ports r s
            ≡ make_tunnel atoi ports r (run_cleanup (record s { initialized = true })))
  unfolding round
  round_cases r s = ground arith

  round-IsTidy : (r : Round) (s : Loop) → IsTidy s → IsTidy (round atoi ports r s).0
  round-IsTidy r s h = elim (round_cases r s) [
    | inl same ↦ subst IsTidy (sym same) h
    | inr made ↦
        let t : Loop = record s { initialized = true } in
        subst (λ u. IsTidy u.0) (sym made) (make_tunnel-IsTidy r (run_cleanup t) (cleaned t h))
  ]

  rounds_cases :
      (r : Round) (rs : List Round) (s : Loop)
      → let t = round atoi ports r s in
        ((rounds atoi ports (r ∷ rs) s).0 ≡ t.0)
        ⊎ (rounds atoi ports (r ∷ rs) s ≡ rounds atoi ports rs t.0)
  unfolding rounds
  rounds_cases r rs s = ground arith

  pub rounds-IsTidy : (rs : List Round) (s : Loop) → IsTidy s → IsTidy (rounds atoi ports rs s).0
  unfolding rounds
  rounds-IsTidy [] s h = h
  rounds-IsTidy (r ∷ rs) s h =
      let t = round-IsTidy r s h in
      elim (rounds_cases r rs s) [
        | inl ended ↦ subst IsTidy (sym ended) t
        | inr went ↦
            subst (λ u. IsTidy u.0) (sym went) (rounds-IsTidy rs (round atoi ports r s).0 t)
      ]

  start_ended :
      (rs : List Round)
      → (start atoi ports rs start_loop).1 ≡ ok tt
      → (start atoi ports rs start_loop).0.pods
        ≡ (run_cleanup (rounds atoi ports rs start_loop).0).pods
  unfolding start
  start_ended rs h = ground arith

  -- When `Start` returns, no pod of its own is left in the cluster, after any number of rounds and
  -- whatever failed in them.
  pub start-pods :
      (rs : List Round)
      → (start atoi ports rs start_loop).1 ≡ ok tt
      → (start atoi ports rs start_loop).0.pods ≡ []
  start-pods rs h =
      let t = (rounds atoi ports rs start_loop).0 in
      start_ended rs h ∙ cleaned t (rounds-IsTidy rs start_loop refl)
