-- ===== src/Expose/Returns.antt =====
-- The end of `Start` of internal/expose/port.go, with the ports that it prints itself.
use localizer.Base.{
  ℕ, ◌≡◌, refl, sym, ap, subst, Bool, true, false, List, [], ◌∷◌, map, Option, Bytes, goes_on,
  codes, Result, ok, arith, is_ok, is_err, is_panic, is_blocked, result_cases,
}
use localizer.Kube.{ResolvedServicePort}
use localizer.Ssh.{Atoi, new_reverse_tunnel_client}
use localizer.Ssh.Tunnels.{ReadsBack, pair_text, new_reverse_tunnel_client-pair_text}
use localizer.Expose.{int_val, tunnel_port}
use localizer.Expose.Tunnel.{
  Condition, create_server_pod, Round, Forwards, create_transport, Loop, run_tunnel, make_tunnel,
}
use localizer.Expose.Pods.{reached}

abbrev succeeds : {A : Type 0} → Result A → Bool
succeeds (ok _) = true
succeeds _ = false

abbrev pub RoundAnswers : Round → Type 0
RoundAnswers r = (goes_on r.created ≡ true) × (goes_on r.forwarded ≡ true)

-- The port texts of `Start` are pairs of the mapped port and the target.
abbrev pub tunnel_pair : ResolvedServicePort → ℕ × ℕ
tunnel_pair r = (r.mapped_port, int_val r.service_port.target_port)

pub tunnel_ports_pairs :
    (itoa : ℕ → Bytes) (rs : List ResolvedServicePort)
    → map (tunnel_port itoa) rs ≡ map (pair_text itoa) (map tunnel_pair rs)
unfolding tunnel_port
tunnel_ports_pairs itoa [] = refl
tunnel_ports_pairs itoa (r ∷ rs) = ap (◌∷◌ (tunnel_port itoa r)) (tunnel_ports_pairs itoa rs)

created-answers :
    (created : Result ℕ) (checks : List (Option (List Condition))) (pods : List ℕ)
    → goes_on created ≡ true
    → goes_on (create_server_pod created checks pods).2 ≡ true
unfolding create_server_pod
created-answers created checks pods h = ground arith

transport-answers :
    (r : Round) (f : Forwards)
    → goes_on r.forwarded ≡ true
    → goes_on (create_transport r f).1 ≡ true
unfolding create_transport
transport-answers r f h = ground arith

module _ (itoa : ℕ → Bytes) (atoi : Atoi) (law : ReadsBack itoa atoi)
    (rs : List ResolvedServicePort) where
  abbrev pub ports : List Bytes
  ports = map (tunnel_port itoa) rs

  client_made :
      (local_port : ℕ)
      → succeeds (new_reverse_tunnel_client atoi (codes "127.0.0.1") local_port ports) ≡ true
  client_made local_port =
      let (c, made, found) =
        new_reverse_tunnel_client-pair_text itoa atoi law (codes "127.0.0.1") local_port
          (map tunnel_pair rs) in
      subst (λ t. succeeds (new_reverse_tunnel_client atoi (codes "127.0.0.1") local_port t) ≡ true)
        (sym (tunnel_ports_pairs itoa rs)) (ap succeeds made)

  tunnel_runs :
      (local_port fw : ℕ) (s : Loop) → succeeds (run_tunnel atoi ports local_port fw s).1 ≡ true
  unfolding run_tunnel
  tunnel_runs local_port fw s = ground (arith, client_made local_port)

  made : (r : Round) (s : Loop) → RoundAnswers r → succeeds (make_tunnel atoi ports r s).1 ≡ true
  unfolding make_tunnel
  made r s h =
      let c = create_server_pod r.created r.checks s.pods in
      let x = create_transport r s.forwards in
      let pod_answers = created-answers r.created r.checks s.pods h.0 in
      let answers = transport-answers r s.forwards h.1 in
      elim (result_cases (c.2)) [
        | is_ok po e ↦ elim (result_cases (x.1)) [
          | is_ok (local_port, fw) q ↦
              subst (λ t. succeeds t.1 ≡ true) (sym (reached atoi ports r s po local_port fw e q))
                (tunnel_runs local_port fw (record s { pods = c.0; cleanup = c.1; forwards = x.0 }))
          | is_err m q ↦ ground arith
          | is_panic q ↦ absurd (ground arith)
          | is_blocked q ↦ absurd (ground arith)
        ]
        | is_err m e ↦ ground arith
        | is_panic e ↦ absurd (ground arith)
        | is_blocked e ↦ absurd (ground arith)
      ]
