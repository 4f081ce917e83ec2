-- ===== src/Daemon.antt =====
-- internal/server/grpc.go, grpc_server.go, kill.go and stable.go, and pkg/localizer/localizer.go: the
-- socket of the daemon, from its start to its end.
pub mod Running
pub mod Starting
pub mod Owning
pub mod Exclusion
pub mod Race
use localizer.Base.{
  ◌==◌, ℕ, zero, suc, Bool, true, false, List, [], ◌∷◌, ◌++◌, Option, none, some, Bytes, codes,
  if◌then◌else◌, Result, ok, err, wrap, ◌>>=◌,
}

abbrev pub socket : Bytes
socket = codes "/var/run/localizer.sock"

-- Who is behind the socket file: a daemon, by its number, that answers pings or has stopped to, or
-- nobody any more.
pub data Peer : Type 0 where
  alive : ℕ → Peer
  hung : ℕ → Peer
  dead : Peer

-- The socket file, if it is there.
abbrev pub SocketFile : Type 0
SocketFile = Option Peer

unfoldable pub is_running : SocketFile → Bool
is_running none = false
is_running (some _) = true

-- `Connect` with a blocking dial: only a process that listens takes the connection.
unfoldable pub connect : SocketFile → Result Peer
connect none = wrap (codes "dial localizer") (err (codes "context deadline exceeded"))
connect (some dead) = wrap (codes "dial localizer") (err (codes "context deadline exceeded"))
connect (some (alive n)) = ok (alive n)
connect (some (hung n)) = ok (hung n)

unfoldable pub ping : Peer → Result (Unit {0})
ping (alive n) = ok tt
ping (hung n) = err (codes "context deadline exceeded")
ping dead = err (codes "context deadline exceeded")

-- What the calls of one daemon answer: os.Remove, net.Listen and os.Chmod of the socket,
-- `kube.GetKubeClient`, `NewExposer` and `NewProxier`, and the `Start` of the exposer and of the proxier.
pub record Answers : Type 0 where
  pub remove : Option Bytes
  pub listen : Option Bytes
  pub chmod : Option Bytes
  pub kube_client : Result (Unit {0})
  pub exposer : Result (Unit {0})
  pub proxier : Result (Unit {0})
  pub exposer_start : Option Bytes
  pub proxier_start : Option Bytes

-- `NewServiceHandler`
unfoldable pub new_service_handler : Answers → Result (Unit {0})
new_service_handler a = wrap (codes "failed to create kube client") a.kube_client >>= λ _.
    wrap (codes "failed to start expose container") a.exposer >>= λ _.
    wrap (codes "Failed to create proxier") a.proxier

-- Where a daemon is in `Run`: before it looks at the socket; in `CleanupPreviousInstance`, before it
-- dials and before it removes the socket; before it listens; before the mode is set and the handler
-- made; serving, until its context is done; and back, with the errors that were logged on the way.
pub data Phase : Type 0 where
  looking dialing removing listening preparing serving : Phase
  ended : Result (Unit {0}) → List Bytes → Phase

abbrev pub remove_socket : Answers → SocketFile → SocketFile × Option Bytes
remove_socket a none = (none, some (codes "remove: no such file or directory"))
remove_socket a (some peer) = elim a.remove [ none ↦ (none, none) | some e ↦ (some peer, some e) ]

abbrev pub cleanup_message : Bytes
cleanup_message = codes "failed to cleanup socket from old localizer instance"

-- The second half of `CleanupPreviousInstance`
unfoldable pub remove_previous : Answers → SocketFile → Phase × SocketFile
remove_previous a file =
    let (file', fault) = remove_socket a file in
    elim fault [
      | none ↦ (listening, file')
      | some e ↦ (ended (wrap cleanup_message (err e)) [], file')
    ]

-- The first half: it ends with an error, if an instance answers.
unfoldable pub dial_previous : SocketFile → Phase
unfolding connect ping
dial_previous file = elim (connect file >>= ping) [
  | ok _ ↦ ended (err (codes "localizer instance is already running")) []
  | _ ↦ removing
]

-- `net.Listen` makes the file, and fails where there is one.
unfoldable pub listen : Answers → ℕ → SocketFile → Phase × SocketFile
listen a n (some peer) = (
  ended (wrap (codes "failed to listen on socket") (err (codes "address already in use"))) [],
  some peer,
)
listen a n none = elim a.listen [
  | none ↦ (preparing, some (alive n))
  | some e ↦ (ended (wrap (codes "failed to listen on socket") (err e)) [], none)
]

abbrev logged : Option Bytes → List Bytes
logged none = []
logged (some e) = e ∷ []

-- The process of a daemon ends: nobody listens at its socket file any more.
unfoldable pub die : ℕ → SocketFile → SocketFile
die n none = none
die n (some dead) = some dead
die n (some (alive m)) = if m == n then some dead else some (alive m)
die n (some (hung m)) = if m == n then some dead else some (hung m)

-- The deferred `os.Remove` of the socket, whose error is dropped, and the end of the process.
unfoldable pub leave : Answers → ℕ → SocketFile → SocketFile
unfolding die
leave a n file = die n (remove_socket a file).0

unfoldable pub prepare : Answers → ℕ → SocketFile → Phase × SocketFile
unfolding new_service_handler leave
prepare a n file = elim a.chmod [
  | some e ↦ (ended (err e) [], leave a n file)
  | none ↦ elim (new_service_handler a) [
    | ok _ ↦ (serving, file)
    | r ↦ (ended r [], leave a n file)
  ]
]

-- The next step of `Run` in the daemon of that number.
unfoldable pub advance : Answers → ℕ → Phase → SocketFile → Phase × SocketFile
unfolding is_running dial_previous remove_previous listen prepare leave
advance a n looking file = ((if is_running file then dialing else listening), file)
advance a n dialing file = (dial_previous file, file)
advance a n removing file = remove_previous a file
advance a n listening file = listen a n file
advance a n preparing file = prepare a n file
advance a n serving file =
    (ended (ok tt) (logged a.exposer_start ++ logged a.proxier_start), leave a n file)
advance a n (ended r log) file = (ended r log, file)

unfoldable pub advance_by : Answers → ℕ → ℕ → Phase × SocketFile → Phase × SocketFile
unfolding advance
advance_by a n zero s = s
advance_by a n (suc k) s = let (phase, file) = s in advance_by a n k (advance a n phase file)

-- `Run`, of a daemon that is alone: it has six steps at most.
unfoldable pub run : Answers → ℕ → SocketFile → Phase × SocketFile
unfolding advance_by
run a n file = advance_by a n 6 (looking, file)

-- `Kill`, behind its answer: the socket is removed, and the process ends where it is.
unfoldable pub kill : Answers → ℕ → SocketFile → SocketFile
unfolding leave
kill a n file = leave a n file
