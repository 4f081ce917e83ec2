-- ===== src/Tests/Convergence.antt =====
-- A service that is new in the cluster, from the reconciler to the worker and back.
use localizer.Base.{ok}
use localizer.Proxier.Worker.{World}
use localizer.Tests.Workers.{world}
use localizer.Tests.Objects.{web_endpoints}

-- The API server has the endpoints that the informer has.
abbrev agreeing : World
agreeing = record world { endpoints = ok web_endpoints }
