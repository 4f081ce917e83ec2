-- ===== src/Cli/Start.antt =====
-- cmd/localizer/localizer.go: the command as a whole, and the start of the daemon.
use localizer.Base.{
  ℕ, ◌≡◌, Bytes, codes, str_eq, Option, none, some, if◌then◌else◌, Result, ok, err, panic, blocked,
  wrap,
}
use localizer.Daemon.{Answers, Phase, ended, SocketFile, run}

-- `c.String` of urfave/cli: the value of a flag by its name.
abbrev pub Flags : Type 0
Flags = Bytes → Bytes

-- `server.RunOpts`
pub record RunOpts : Type 0 where
  pub cluster_domain : Bytes
  pub ip_cidr : Bytes
  pub kube_context : Bytes

unfoldable pub run_opts : Flags → RunOpts
run_opts flag = record {
  cluster_domain = flag (codes "cluster-domain");
  ip_cidr = flag (codes "ip-cidr");
  kube_context = flag (codes "context");
}

-- What the arguments ask for: the daemon, or one of the other commands, with how it comes back.
pub data Command : Type 0 where
  daemon : Command
  other : Result (Unit {0}) → Command

-- What the program did: the options that the daemon was run with, the socket file, and its result.
pub record Outcome : Type 0 where
  pub started : Option RunOpts
  pub file : SocketFile
  pub result : Result (Unit {0})

-- `Before`: every command needs a client of the cluster, and the cache gets the namespace.
unfoldable pub before : (Bytes → Result (Unit {0})) → Flags → Result Bytes
before get_kube_client flag = elim (get_kube_client (flag (codes "context"))) [
  | ok _ ↦ ok (flag (codes "namespace"))
  | err e ↦ err e
  | panic ↦ panic
  | blocked ↦ blocked
]

abbrev unstarted : SocketFile → Result (Unit {0}) → Outcome
unstarted file r = record { started = none; file = file; result = r }

-- `Run` comes back at its end only.
abbrev pub result_of : Phase → Result (Unit {0})
result_of (ended r log) = r
result_of _ = blocked

-- `Action`, for the uid that `user.Current` gives.
unfoldable pub action : Answers → ℕ → Flags → Result Bytes → SocketFile → Outcome
unfolding run run_opts str_eq
action a n flag uid file = elim uid [
  | ok u ↦
      if str_eq u (codes "0")
      then (let (phase, file') = run a n file in
          record { started = some (run_opts flag); file = file'; result = result_of phase })
      else unstarted file (err (codes "must be run as root/Administrator"))
  | err e ↦ unstarted file (wrap (codes "failed to get current user") (err e))
  | panic ↦ unstarted file panic
  | blocked ↦ unstarted file blocked
]

-- `app.Run`
unfoldable pub run_app :
    Answers
    → ℕ
    → Flags
    → (Bytes → Result (Unit {0}))
    → Result Bytes
    → Command
    → SocketFile
    → Outcome
unfolding before action
run_app a n flag get_kube_client uid command file = elim (before get_kube_client flag) [
  | ok _ ↦ elim command [ daemon ↦ action a n flag uid file | other r ↦ unstarted file r ]
  | err e ↦ unstarted file (err e)
  | panic ↦ unstarted file panic
  | blocked ↦ unstarted file blocked
]

-- The end of `main`, where the error of `app.Run` is logged: the text, and the exit status of a process
-- that comes back.
unfoldable pub exit_of : Result (Unit {0}) → Option (Option Bytes × ℕ)
exit_of (ok _) = some (none, 0)
exit_of (err e) = some (some e, 0)
exit_of panic = some (none, 2)
exit_of blocked = none

module _ (a : Answers) (n : ℕ) (flag : Flags) (get_kube_client : Bytes → Result (Unit {0}))
    (uid : Result Bytes) (file : SocketFile) where
  abbrev pub MayStart : Command → Type 0
  MayStart command =
      (command ≡ daemon)
      × (get_kube_client (flag (codes "context")) ≡ ok tt)
      × (uid ≡ ok (codes "0"))

  abbrev pub ran : Outcome
  ran =
      let (phase, file') = run a n file in
      record { started = some (run_opts flag); file = file'; result = result_of phase }
