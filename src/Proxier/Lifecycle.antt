-- ===== src/Proxier/Lifecycle.antt =====
-- What a port-forward of internal/proxier is to the rest of the program: the specification of the
-- worker, without addresses, files and errors.
pub mod Refinement
pub mod Implementation
use localizer.Base.{
  ◌≡◌, Bytes, Option, none, some, List, [], ◌∷◌, str_eq, if◌then◌else◌, Bool, true, false,
}
use localizer.Proxier.Types.{
  PodInfo, Status, running, recreating, waiting, Tunnel, Connection, Request, create, delete,
}

-- A port-forward leads to a pod, waits for one, or is broken and waits for its recreation.
pub data Phase : Type 0 where
  up : PodInfo → Phase
  idle broken : Phase

-- What the connection of a port-forward looks like then.
abbrev pub Represents : Connection → Phase → Type 0
Represents c (up pod) =
    (c.status ≡ running)
    × (c.pod ≡ pod)
    × (c.pf ≡ some (record { address = c.ip; pod = pod; ports = c.ports }))
Represents c idle = (c.status ≡ waiting) × (c.ip ≡ []) × (c.pf ≡ none)
Represents c broken = (c.status ≡ recreating) × (c.ip ≡ [])

-- The kinds of request.
pub data Kind : Type 0 where
  first again removal : Kind

abbrev pub kind_of : Request → Kind
kind_of (create req) = if req.recreate then again else first
kind_of (delete req) = removal

-- What a request may do to the port-forward of its service.
pub data Goes : Kind → Option Phase → Option Phase → Type 0 where
  failed : Goes first none none
  refused : (x : Phase) → Goes first (some x) (some x)
  opened : (pod : PodInfo) → Goes first none (some (up pod))
  waited : Goes first none (some idle)
  broke : (x : Phase) → Goes again (some x) (some broken)
  reopened : (x : Phase) (pod : PodInfo) → Goes again (some x) (some (up pod))
  waited_again : (x : Phase) → Goes again (some x) (some idle)
  removed : (x : Option Phase) → Goes removal x none

-- The port-forwards of all services, by the keys of these.
abbrev pub Forwards : Type 0
Forwards = Bytes → Option Phase

abbrev pub set : Bytes → Option Phase → Forwards → Forwards
set key x f j = if str_eq key j then x else f j

-- What the requests of a sequence may do, one after the other; `key` gives the key of a request.
pub data Runs (key : Request → Bytes) : List Request → Forwards → Forwards → Type 0 where
  over : (f : Forwards) → Runs key [] f f
  after :
      (r : Request) (rs : List Request) (f g : Forwards) (x : Option Phase)
      → Goes (kind_of r) (f (key r)) x
      → Runs key rs (set (key r) x f) g
      → Runs key (r ∷ rs) f g
