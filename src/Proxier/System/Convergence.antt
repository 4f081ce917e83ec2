-- ===== src/Proxier/System/Convergence.antt =====
-- internal/proxier: what the reconciler sends for a new service, and what it sends once the worker
-- has handled it.
use localizer.Base.{Option, none, some, ok}
use localizer.Base.Dict.{Dict}
use localizer.Proxier.Types.{Endpoints, PodInfo}
use localizer.Proxier.Endpoints.{get_pod_for_service}
use localizer.Proxier.Worker.{Worker}

-- The pod of a service, if its endpoints have one.
abbrev pub pod_of : Endpoints → Option PodInfo
pod_of e = elim (get_pod_for_service (ok e)) [ ok pod ↦ some pod | _ ↦ none ]
