-- ===== src/Proxier/System/Progress.antt =====
-- That internal/proxier goes on while no service is deleted.
use localizer.Base.{◌≡◌, true, [], All}
use localizer.Base.Dict.{Dict}
use localizer.Proxier.Types.{CreateRequest, Request, create, delete, service_key, Connection}
use localizer.Proxier.Worker.{Worker}
use localizer.Proxier.Worker.Readiness.{IsReady}
use localizer.Proxier.Create.Progress.{has}
use localizer.Proxier.System.{System}

-- A recreation finds the entry that it replaces, and there is no deletion.
abbrev Finds : Dict Connection → Request → Type 0
Finds m (create r) = r.recreate ≡ true → has m (service_key r.service) ≡ true
Finds m (delete r) = ⊥

abbrev HasEntry : Dict Connection → CreateRequest → Type 0
HasEntry m r = has m (service_key r.service) ≡ true

record Sound {P : Type 0} (s : System P) : Type 0 where
  ready : IsReady s.worker
  finds : All (Finds s.worker.port_forwards) s.pending
  tunnels : All (HasEntry s.worker.port_forwards) s.worker.forwards

-- A worker at its start: nothing runs and nothing waits.
pub record IsFresh {P : Type 0} (s : System P) : Type 0 where
  pub ready : IsReady s.worker
  pub quiet : s.pending ≡ []
  pub none_open : s.worker.forwards ≡ []
