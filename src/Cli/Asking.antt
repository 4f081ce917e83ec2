-- ===== src/Cli/Asking.antt =====
-- `localizer expose` of cmd/localizer/expose.go: what the daemon is asked for.
use localizer.Base.{
  ◌≡◌, ◌↔◌, refl, sym, ap, ap₂, subst, ◌∙◌, Bool, true, false, List, [], ◌∷◌, some, Bytes, split,
  join, Result, ok, arith, Lacks, Bool-cases, inl, inr, split-join, join-split, split-Lacks, All,
  is_ok, is_err, is_panic, is_blocked, result_cases, Option,
}
use localizer.Proxier.Types.{object_key}
use localizer.Daemon.{SocketFile, is_running}
use localizer.Cli.{parse_service, expose_command, Received, asked, Asked}

abbrev pub SlashFree : Bytes → Type 0
SlashFree = Lacks b'/'

joined : (namespace name : Bytes) → join (namespace ∷ name ∷ []) b'/' ≡ object_key namespace name
unfolding join
joined namespace name = refl

parse_service_eq :
    (arg namespace name : Bytes)
    → parse_service arg ≡ ok (namespace, name)
    → split arg b'/' ≡ namespace ∷ name ∷ []
unfolding parse_service
parse_service_eq arg namespace name h = ground arith

parse_service-ok :
    (arg namespace name : Bytes)
    → (parse_service arg ≡ ok (namespace, name))
      ↔ ((arg ≡ object_key namespace name) × SlashFree namespace × SlashFree name)
parse_service-ok arg namespace name = (
  (λ h.
      let pieces = parse_service_eq arg namespace name h in
      let free = subst (All SlashFree) pieces (split-Lacks b'/' arg) in
      (
        sym (join-split b'/' arg) ∙ (ap (λ q. join q b'/') pieces ∙ joined namespace name),
        free.0,
        free.1.0,
      )),
  λ h.
      let (same, left, right) = h in
      let pieces : split arg b'/' ≡ namespace ∷ name ∷ [] =
        ap (λ t. split t b'/') (same ∙ sym (joined namespace name))
        ∙ split-join b'/' (namespace ∷ name ∷ []) (λ e. cc) (left, (right, tt)) in
      unfold parse_service in rw (pieces, parse_service) refl,
)

asked-injective :
    (stop : Bool) (port_map : List Bytes) (a b c d : Bytes)
    → asked stop port_map a b ≡ asked stop port_map c d
    → (a ≡ c) × (b ≡ d)
asked-injective true port_map a b c d h = ground arith
asked-injective false port_map a b c d h = ground arith

module _ (arg : Bytes) (stop : Bool) (port_map : List Bytes) (file : SocketFile)
    (connected opened : Result (Unit {0})) (stream : List Received) where
  sends :
      (namespace name : Bytes)
      → parse_service arg ≡ ok (namespace, name)
      → is_running file ≡ true
      → connected ≡ ok tt
      → (expose_command arg stop port_map file connected opened stream).request
        ≡ some (asked stop port_map namespace name)
  unfolding expose_command
  sends namespace name parsed running dialed = rw (parsed, running, dialed, expose_command) refl

  abbrev Sent : Option Asked → Type 0
  Sent r =
      (a : Asked)
      → r ≡ some a
      → (namespace : Bytes) × (name : Bytes) × (parse_service arg ≡ ok (namespace, name))
        × (is_running file ≡ true)
        × (connected ≡ ok tt)
        × (a ≡ asked stop port_map namespace name)

  sent : Sent (expose_command arg stop port_map file connected opened stream).request
  unfolding expose_command
  sent a h = elim (result_cases (parse_service arg)) [
    | is_err e p ↦ absurd (ground arith)
    | is_panic p ↦ absurd (ground arith)
    | is_blocked p ↦ absurd (ground arith)
    | is_ok (namespace, name) p ↦ elim (Bool-cases (is_running file)) [
      | inr off ↦ absurd (ground arith)
      | inl on ↦ elim (result_cases connected) [
        | is_err e c ↦ absurd (ground arith)
        | is_panic c ↦ absurd (ground arith)
        | is_blocked c ↦ absurd (ground arith)
        | is_ok u c ↦ (namespace, name, p, on, c, ground arith)
      ]
    ]
  ]

  -- `localizer expose` asks the daemon to expose a service, or to stop that, just when the argument
  -- is the namespace and the name of the service with one slash between, a daemon has its
  -- socket there, and the dial succeeds: with these two, and with the port maps of the flags.
  pub expose_command-request :
      (namespace name : Bytes)
      → ((expose_command arg stop port_map file connected opened stream).request
          ≡ some (asked stop port_map namespace name))
        ↔ ((arg ≡ object_key namespace name)
            × SlashFree namespace
            × SlashFree name
            × (is_running file ≡ true)
            × (connected ≡ ok tt))
  expose_command-request namespace name = (
    (λ h.
        let (a, b, parsed, running, dialed, same) = sent (asked stop port_map namespace name) h in
        let (left, right) = asked-injective stop port_map namespace name a b same in
        let (whole, free_left, free_right) = (parse_service-ok arg a b).0 parsed in
        (
          whole ∙ sym (ap₂ object_key left right),
          subst SlashFree (sym left) free_left,
          subst SlashFree (sym right) free_right,
          running,
          dialed,
        )),
    λ h.
        let (whole, free_left, free_right, running, dialed) = h in
        sends namespace name
          ((parse_service-ok arg namespace name).1 (whole, free_left, free_right)) running dialed,
  )
