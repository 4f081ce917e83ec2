-- ===== src/Proxier/Events/Draining.antt =====
-- What becomes of the events of the informers, internal/proxier/proxy.go.
use localizer.Base.{◌≡◌, List, [], ◌∷◌, ◌++◌, Option, some, Bytes, Result, ok, blocked}
use localizer.Base.Dict.{Dict}
use localizer.Kube.{Intstr}
use localizer.Kube.Resolution.{In}
use localizer.Proxier.Types.{Connection, Request}
use localizer.Proxier.Reconcile.{Cluster, reconcile}
use localizer.Proxier.Events.{
  Event, WorkQueue, endpoints_added, endpoints_deleted, endpoints_updated, service_added,
  service_deleted, service_updated,
}

-- Documented behaviour of the queue: it has a key at most once, and gives out the keys in order;
-- a key that succeeded, and was not added since it was taken, does not come back.
pub record IsQueue {Q : Type 0} (queue : WorkQueue Q) : Type 0 where
  pub items : Q → List Bytes
  pub adds : (q : Q) (key : Bytes) → In key (items (queue.add q key))
  pub keeps : (q : Q) (key k : Bytes) → In k (items q) → In k (items (queue.add q key))
  pub gives :
      (q : Q) (key : Bytes) (keys : List Bytes)
      → items q ≡ key ∷ keys
      → (taken : Q) × (queue.get q ≡ some (key, taken)) × (items taken ≡ keys)
  pub ends :
      (q taken : Q) (key : Bytes)
      → queue.get q ≡ some (key, taken)
      → items (queue.done (queue.limiter.forget taken key) key) ≡ items taken

-- The key of an event that is listened to.
abbrev pub key_of : Event → Result Bytes
key_of (service_added key) = key
key_of (service_updated key) = key
key_of (service_deleted key) = key
key_of (endpoints_updated key) = key
key_of (endpoints_added key) = blocked
key_of (endpoints_deleted key) = blocked

module _ {Q : Type 0} (queue : WorkQueue Q) (law : IsQueue queue) where
  module _ (z : Intstr) (c : Cluster) where
    -- The keys can be reconciled, each with the map of its turn.
    abbrev pub Succeeds : List (Option (Dict Connection)) → List Bytes → Type 0
    Succeeds [] [] = Unit
    Succeeds (m ∷ ms) (k ∷ ks) = ((reconcile z c m k).1 ≡ ok tt) × Succeeds ms ks
    Succeeds _ _ = ⊥

    -- The requests that are sent for the keys.
    abbrev pub sent_for : List (Option (Dict Connection)) → List Bytes → List Request
    sent_for [] ks = []
    sent_for (m ∷ ms) [] = []
    sent_for (m ∷ ms) (k ∷ ks) = (reconcile z c m k).0 ++ sent_for ms ks

    -- The requests for the key of one turn are among those that are sent.
    abbrev pub Sends : Bytes → List Request → Type 0
    Sends k sent =
        (m : Option (Dict Connection)) × (before : List Request) × (after : List Request) × (sent
          ≡ before ++ ((reconcile z c m k).0 ++ after))
