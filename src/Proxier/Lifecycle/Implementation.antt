-- ===== src/Proxier/Lifecycle/Implementation.antt =====
-- Any sequence of requests of internal/proxier/portforward.go against the specification.
use localizer.Base.{◌≡◌, true, List, [], ◌∷◌, Bytes, Result, goes_on}
use localizer.Base.Dict.{delete as delete_key}
use localizer.Hostsfile.Block.{Platform}
use localizer.Proxier.Types.{Request, delete, service_key}
use localizer.Proxier.Lifecycle.{again, kind_of, Forwards}
use localizer.Proxier.Lifecycle.Refinement.{GoesTo}
use localizer.Proxier.Worker.{Ipam, World, Worker}
use localizer.Proxier.Worker.Readiness.{IsReady}
use localizer.Proxier.Create.{handle}
use localizer.Proxier.Create.Progress.{has}
use localizer.Proxier.Reconcile.Requests.{service_of}

abbrev pub key_of : Request → Bytes
key_of r = service_key (service_of r)

-- A request that is handled goes where the specification lets it, and the worker is ready again.
record Implements {P : Type 0} (r : Request) (f : Forwards) (t : Worker P × Result (Unit {0}))
    : Type 0 where
  went : goes_on t.1 ≡ true
  ready : IsReady t.0
  step : GoesTo (kind_of r) (key_of r) f t.0.port_forwards

module _ (p : Platform) {P : Type 0} (ipam : Ipam P) where
  -- Every recreation in the sequence finds an entry, when its turn comes.
  abbrev pub FindsEntries : List (World × Request) → Worker P → Type 0
  FindsEntries [] w = Unit
  FindsEntries ((world, r) ∷ rs) w =
      (kind_of r ≡ again → has w.port_forwards (key_of r) ≡ true)
      × FindsEntries rs (handle p ipam world r w).0
