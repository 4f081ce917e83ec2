-- ===== src/Daemon/Starting.antt =====
-- Several daemons at one socket: internal/server/grpc.go as steps that interleave.
use localizer.Base.{ℕ, [], ◌∷◌, Bool, ◌≡◌, ◌≢◌, ◌==◌, true, false, some, panic, List, if◌then◌else◌}
use localizer.Daemon.{
  alive, SocketFile, Answers, Phase, looking, dialing, removing, listening, preparing, serving,
  ended, advance, die, kill,
}

-- The socket file, and where each daemon is.
pub record System : Type 0 where
  pub file : SocketFile
  pub phase : ℕ → Phase

abbrev pub at : (ℕ → Phase) → ℕ → Phase → ℕ → Phase
at phases n p m = if n == m then p else phases m

unfoldable pub move : Answers → ℕ → System → System
unfolding advance
move a n s =
    let (p, file) = advance a n (s.phase n) s.file in record { file = file; phase = at s.phase n p }

-- A process that is killed from outside leaves its socket file.
unfoldable pub crash : ℕ → System → System
unfolding die
crash n s = record { file = die n s.file; phase = at s.phase n (ended panic []) }

unfoldable pub kill_daemon : Answers → ℕ → System → System
unfolding kill
kill_daemon a n s = record { file = kill a n s.file; phase = at s.phase n (ended panic []) }

abbrev pub settled : Phase → Bool
settled looking = true
settled serving = true
settled (ended r log) = true
settled dialing = false
settled removing = false
settled listening = false
settled preparing = false

abbrev pub in_service : Phase → Bool
in_service preparing = true
in_service serving = true
in_service looking = false
in_service dialing = false
in_service removing = false
in_service listening = false
in_service (ended r log) = false

abbrev pub freeing : Phase → Bool
freeing removing = true
freeing listening = true
freeing preparing = false
freeing serving = false
freeing looking = false
freeing dialing = false
freeing (ended r log) = false

-- No other daemon is between its first look at the socket and the service.
abbrev pub IsAlone : ℕ → System → Type 0
IsAlone n s = (m : ℕ) → m ≢ n → settled (s.phase m) ≡ true

-- A start waits until no other one is under way; a daemon ends, crashes or is killed at any time.
pub data Step : System → System → Type 0 where
  moved : (a : Answers) (n : ℕ) (s : System) → IsAlone n s → Step s (move a n s)
  left : (a : Answers) (n : ℕ) (s : System) → s.phase n ≡ serving → Step s (move a n s)
  crashed : (n : ℕ) (s : System) → Step s (crash n s)
  killed : (a : Answers) (n : ℕ) (s : System) → s.phase n ≡ serving → Step s (kill_daemon a n s)

pub data Reach (s : System) : System → Type 0 where
  here : Reach s s
  later : {t u : System} → Reach s t → Step t u → Reach s u

pub record Inv (s : System) : Type 0 where
  pub owner : (n : ℕ) → in_service (s.phase n) ≡ true → s.file ≡ some (alive n)
  pub clear : (n m : ℕ) → freeing (s.phase n) ≡ true → s.file ≢ some (alive m)
  pub one : (m n : ℕ) → m ≢ n → settled (s.phase m) ≡ false → settled (s.phase n) ≡ true

-- Any order of the moves of daemons that all get the same answers.
unfoldable pub interleave : Answers → List ℕ → System → System
unfolding move
interleave a [] s = s
interleave a (n ∷ ns) s = interleave a ns (move a n s)
