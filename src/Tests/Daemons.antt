-- ===== src/Tests/Daemons.antt =====
-- Runs of the start of the daemon.
use localizer.Base.{ℕ, ◌≡◌, refl, [], ◌∷◌, none, some, ok, arith}
use localizer.Daemon.{alive, dead, Answers, looking, serving, new_service_handler}
use localizer.Daemon.Running.{Comes}
use localizer.Daemon.Starting.{System, move, interleave}
use localizer.Daemon.Race.{both_serve}

-- Every call succeeds.
abbrev pub quiet : Answers
quiet = record {
  remove = none;
  listen = none;
  chmod = none;
  kube_client = ok tt;
  exposer = ok tt;
  proxier = ok tt;
  exposer_start = none;
  proxier_start = none;
}

quiet-Comes : Comes quiet
unfolding new_service_handler
quiet-Comes = record { listens = refl; opens = refl; handles = refl }

-- Before any start, with the file of a daemon that died.
abbrev still : System
still = record { file = some dead; phase = λ n. looking }

both_serve_example :
    let t = interleave quiet (1 ∷ 2 ∷ 1 ∷ 2 ∷ 1 ∷ 1 ∷ 2 ∷ 2 ∷ 1 ∷ 2 ∷ []) still in
    (t.phase 1 ≡ serving) × (t.phase 2 ≡ serving) × (t.file ≡ some (alive 2))
both_serve_example = both_serve quiet 1 2 (omega arith) still quiet-Comes refl refl refl refl

-- The first daemon starts alone.
abbrev up_by : ℕ → System → System
up_by n s = move quiet n s

abbrev s1 : System
s1 = up_by 1 still

abbrev s2 : System
s2 = up_by 1 s1

abbrev s3 : System
s3 = up_by 1 s2

abbrev s4 : System
s4 = up_by 1 s3

abbrev s5 : System
s5 = up_by 1 s4
