-- ===== src/Tests/Systems.antt =====
-- Runs of internal/proxier as a whole.
use localizer.Base.{
  ◌≡◌, refl, Bool, true, false, List, [], ◌∷◌, none, some, Bytes, codes, str_eq, ok, goes_on, arith,
}
use localizer.Proxier.Types.{CreateRequest, Request, create, delete}
use localizer.Proxier.Worker.{World}
use localizer.Proxier.Worker.Readiness.{IsAnswering, IsReady}
use localizer.Proxier.Create.{again}
use localizer.Proxier.System.{System, ending, reconciling, handling}
use localizer.Proxier.Lifecycle.{Forwards}
use localizer.Tests.Samples.{decoding}
use localizer.Tests.Workers.{take, give_back, pool, start, world, request, web}
use localizer.Tests.Cluster.{cluster}
use localizer.Tests.Objects.{numbers, web as web_service}

take-goes_on : (s : Bool) → goes_on (take s) ≡ true
take-goes_on true = refl
take-goes_on false = refl

give_back-goes_on : (s : Bool) (ip : Bytes) → goes_on (give_back s ip) ≡ true
give_back-goes_on true ip = ground arith
give_back-goes_on false ip = refl

pub pool-IsAnswering : IsAnswering pool
pool-IsAnswering = record {
  acquires = λ s cidr. take-goes_on s;
  releases = λ s cidr ip. give_back-goes_on s ip;
}

pub start-IsReady : IsReady start
start-IsReady = record { free = refl; disk = record { readable = refl; rewritable = refl } }

abbrev before : System Bool
before = record { worker = start; pending = [] }

abbrev pub key : Bytes
key = codes "default/web"

-- The service is seen, its request is handled, and the tunnel ends.
abbrev first_of : List Request → Request
first_of [] = create request
first_of (r ∷ rs) = r

abbrev tunnel_of : List CreateRequest → CreateRequest
tunnel_of [] = request
tunnel_of (r ∷ rs) = r

abbrev seen : System Bool
seen = reconciling numbers cluster key before

abbrev opened : System Bool
opened = handling decoding pool world (first_of seen.pending) [] seen

abbrev lost : System Bool
lost = ending (tunnel_of opened.worker.forwards) (codes "lost connection to pod") [] opened

pub stored : cluster.services key ≡ ok (some web_service)
unfolding str_eq
stored = refl

-- A port-forward is made, made again, and deleted.
abbrev turns : List (World × Request)
turns =
    (world, create request)
    ∷ (world, create (again request))
    ∷ (world, delete (record { service = web }))
    ∷ []

abbrev nothing : Forwards
nothing k = none
