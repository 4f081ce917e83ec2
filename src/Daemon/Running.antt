-- ===== src/Daemon/Running.antt =====
-- `Run` of internal/server/grpc.go in a daemon that is alone.
use localizer.Base.{◌≡◌, ◌↔◌, List, none, Bytes, Result, ok}
use localizer.Daemon.{SocketFile, Answers, Phase, ended, new_service_handler, listen}

-- Nothing between the socket and the service fails.
pub record Comes (a : Answers) : Type 0 where
  pub listens : a.listen ≡ none
  pub opens : a.chmod ≡ none
  pub handles : new_service_handler a ≡ ok tt

-- A run is over and the socket is gone; it is a success if nothing failed on the way, and only then.
pub record Leaves (a : Answers) (s : Phase × SocketFile) : Type 0 where
  pub result : Result (Unit {0})
  pub log : List Bytes
  pub over : s ≡ (ended result log, none)
  pub served : (result ≡ ok tt) ↔ Comes a
