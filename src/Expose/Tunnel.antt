-- ===== src/Expose/Tunnel.antt =====
-- internal/expose/port.go: the pod that stands in for a service, the transport to it, and the loop
-- of `Start` that makes both again when they die.
use localizer.Base.{
  ℕ, zero, suc, Bool, true, false, ◌&&◌, List, [], ◌∷◌, Option, none, some, Bytes, codes, str_eq,
  ◌==◌, if◌then◌else◌, Result, ok, err, panic, blocked, wrap,
}
use localizer.Ssh.{Atoi, new_reverse_tunnel_client}

pub record Condition : Type 0 where
  pub kind : Bytes
  pub status : Bytes

unfoldable pub is_ready : List Condition → Bool
unfolding str_eq
is_ready [] = false
is_ready (c ∷ cs) =
    let rest = is_ready cs in
    if str_eq c.kind (codes "Ready") && str_eq c.status (codes "True") then true else rest

-- The checks of a new pod at each tick, none for one that the store does not have, until the
-- context is done behind the last of them.
unfoldable pub becomes_ready : List (Option (List Condition)) → Bool
unfolding is_ready
becomes_ready [] = false
becomes_ready (check ∷ checks) =
    let rest = becomes_ready checks in
    elim check [ none ↦ rest | some conditions ↦ if is_ready conditions then true else rest ]

-- The pods without a deleted one, and the port-forwards without a closed one, by their numbers.
unfoldable pub without : ℕ → List ℕ → List ℕ
without po [] = []
without po (q ∷ pods) = let rest = without po pods in if q == po then rest else q ∷ rest

-- The pods of the cluster that were created here, what `cleanupFn` deletes (nothing, or a pod), and
-- the error: `created` is what the API server answers.
unfoldable pub create_server_pod :
    Result ℕ → List (Option (List Condition)) → List ℕ → List ℕ × Option ℕ × Result ℕ
unfolding becomes_ready without
create_server_pod created checks pods = elim (wrap (codes "failed to create pod") created) [
  | ok po ↦
      if becomes_ready checks
      then (po ∷ pods, some po, ok po)
      else (without po (po ∷ pods), none, err (codes "context canceled"))
  | err e ↦ (pods, none, err e)
  | panic ↦ (pods, none, panic)
  | blocked ↦ (pods, none, blocked)
]

-- What ends the wait for the transport.
pub data Wake : Type 0 where
  ready deadline cancelled : Wake

-- `portforward.ForwardedPort`
pub record ForwardedPort : Type 0 where
  pub local_port : ℕ
  pub remote_port : ℕ

-- The last of the ports to 2222 gives the local port.
unfoldable pub find_local : List ForwardedPort → ℕ → ℕ
find_local [] local_port = local_port
find_local (p ∷ ps) local_port =
    find_local ps (if p.remote_port == 2222 then p.local_port else local_port)

-- What the outside does in one round of the loop. `cancelled_first` and `cancelled_waiting` are the
-- two looks at the context.
pub record Round : Type 0 where
  pub cancelled_first : Bool
  pub cancelled_waiting : Bool
  pub created : Result ℕ
  pub checks : List (Option (List Condition))
  pub forward : Option Bytes
  pub wake : Wake
  pub forwarded : Result (List ForwardedPort)

-- The port-forwards that were started and not closed, and the number of the next one.
pub record Forwards : Type 0 where
  pub opened : List ℕ
  pub next : ℕ

-- With no local port known. The port-forward that was started is not given back with an error.
unfoldable pub create_transport : Round → Forwards → Forwards × Result (ℕ × ℕ)
unfolding find_local
create_transport r f = elim r.forward [
  | some e ↦ (f, wrap (codes "failed to create tunnel for underlying transport") (err e))
  | none ↦
      let g : Forwards = record { opened = f.next ∷ f.opened; next = suc f.next } in
      elim r.wake [
        | ready ↦ elim r.forwarded [
          | ok ports ↦ elim (find_local ports 0) [
            | zero ↦ (g, err (codes "failed to determine the generated underlying transport port"))
            | suc n ↦ (g, ok (suc n, f.next))
          ]
          | err e ↦ (g, wrap (codes "failed to get generated underlying transport port") (err e))
          | panic ↦ (g, panic)
          | blocked ↦ (g, blocked)
        ]
        | deadline ↦ (g, err (codes "deadline exceeded"))
        | cancelled ↦ (g, err (codes "context canceled"))
      ]
]

-- The variables of `Start` and what they stand for in the cluster; `initialized` says that
-- `lastErr` is no longer `ErrNotInitialized`.
pub record Loop : Type 0 where
  pub pods : List ℕ
  pub cleanup : Option ℕ
  pub initialized : Bool
  pub forwards : Forwards

abbrev pub start_loop : Loop
start_loop = record {
  pods = [];
  cleanup = none;
  initialized = false;
  forwards = record { opened = []; next = 0 };
}

-- `cleanupFn()`
unfoldable pub run_cleanup : Loop → Loop
unfolding without
run_cleanup s = elim s.cleanup [ none ↦ s | some po ↦ record s { pods = without po s.pods } ]

module _ (atoi : Atoi) (ports : List Bytes) where
  -- The tunnel runs until it dies or the context is done, and its port-forward is closed.
  unfoldable pub run_tunnel : ℕ → ℕ → Loop → Loop × Result Bool
  unfolding new_reverse_tunnel_client without
  run_tunnel local_port fw s =
      elim (new_reverse_tunnel_client atoi (codes "127.0.0.1") local_port ports) [
        | ok _ ↦ (
          record s { forwards = record (s.forwards) { opened = without fw s.forwards.opened } },
          ok true,
        )
        | err e ↦ (s, err e)
        | panic ↦ (s, panic)
        | blocked ↦ (s, blocked)
      ]

  -- The body behind the looks at the context; the result says whether the loop goes on.
  unfoldable pub make_tunnel : Round → Loop → Loop × Result Bool
  unfolding create_server_pod create_transport run_tunnel
  make_tunnel r s =
      let (pods', cleanup', created) = create_server_pod r.created r.checks s.pods in
      let t : Loop = record s { pods = pods'; cleanup = cleanup' } in
      elim created [
        | ok po ↦
            let (forwards', transport) = create_transport r t.forwards in
            let u : Loop = record t { forwards = forwards' } in
            elim transport [
              | ok (local_port, fw) ↦ run_tunnel local_port fw u
              | err _ ↦ (u, ok true)
              | panic ↦ (u, panic)
              | blocked ↦ (u, blocked)
            ]
        | err _ ↦ (t, ok true)
        | panic ↦ (t, panic)
        | blocked ↦ (t, blocked)
      ]

  unfoldable pub round : Round → Loop → Loop × Result Bool
  unfolding run_cleanup make_tunnel
  round r s =
      if r.cancelled_first
      then (s, ok false)
      else if s.initialized && r.cancelled_waiting
      then (s, ok false)
      else make_tunnel r (run_cleanup (record s { initialized = true }))

  unfoldable pub rounds : List Round → Loop → Loop × Result (Unit {0})
  unfolding round
  rounds [] s = (s, ok tt)
  rounds (r ∷ rs) s =
      let (t, went) = round r s in
      elim went [
        | ok more ↦ if more then rounds rs t else (t, ok tt)
        | err e ↦ (t, err e)
        | panic ↦ (t, panic)
        | blocked ↦ (t, blocked)
      ]

  -- `Start` behind the scaling: the rounds, and the last cleanup when the context is done.
  unfoldable pub start : List Round → Loop → Loop × Result (Unit {0})
  unfolding rounds run_cleanup
  start rs s =
      let (t, r) = rounds rs s in
      elim r [
        | ok _ ↦ (run_cleanup t, ok tt)
        | err e ↦ (t, err e)
        | panic ↦ (t, panic)
        | blocked ↦ (t, blocked)
      ]
