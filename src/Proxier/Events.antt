-- ===== src/Proxier/Events.antt =====
-- internal/proxier/proxy.go: the events of the informers, the work queue between them and the
-- reconciler, and the loop of the reconciler.
pub mod Draining
use localizer.Base.{
  ℕ, suc, ◌≡◌, ◌⊎◌, refl, sym, ap, subst, ◌∙◌, Bool, true, false, List, [], ◌∷◌, ◌++◌, Option, none,
  some, Bytes, Result, ok, err, panic, blocked, if◌then◌else◌, length, arith,
}
use localizer.Base.Dict.{Dict}
use localizer.Kube.{Intstr}
use localizer.Proxier.Types.{Connection, Request}
use localizer.Proxier.Reconcile.{Cluster, Limiter, finish_item, reconcile}

-- An event of an informer, with the key that `MetaNamespaceKeyFunc` gives for its object.
pub data Event : Type 0 where
  service_added service_updated service_deleted : Result Bytes → Event
  endpoints_added endpoints_updated endpoints_deleted : Result Bytes → Event

-- The rate limiting queue of k8s.io/client-go; `get` is none once it is shut down.
pub record WorkQueue (Q : Type 0) : Type 0 where
  pub add : Q → Bytes → Q
  pub get : Q → Option (Bytes × Q)
  pub done : Q → Bytes → Q
  pub limiter : Limiter Q

module _ {Q : Type 0} (queue : WorkQueue Q) where
  -- The body of a handler: a key with an error is left out.
  abbrev pub enqueue : Result Bytes → Q → Q
  enqueue (ok key) q = queue.add q key
  enqueue (err _) q = q
  enqueue panic q = q
  enqueue blocked q = q

  -- The endpoints have a handler for updates alone.
  unfoldable pub on_event : Event → Q → Q
  on_event (service_added key) q = enqueue key q
  on_event (service_updated key) q = enqueue key q
  on_event (service_deleted key) q = enqueue key q
  on_event (endpoints_updated key) q = enqueue key q
  on_event (endpoints_added key) q = q
  on_event (endpoints_deleted key) q = q

  unfoldable pub on_events : List Event → Q → Q
  unfolding on_event
  on_events [] q = q
  on_events (e ∷ es) q = on_events es (on_event e q)

  module _ (z : Intstr) (c : Cluster) where
    -- Against the map of the worker as it is by then: the queue, the requests that were sent, and
    -- whether the loop goes on.
    unfoldable pub process_next_work_item :
        Option (Dict Connection) → Q → Q × List Request × Result Bool
    unfolding reconcile finish_item
    process_next_work_item forwards q = elim (queue.get q) [
      | none ↦ (q, [], ok false)
      | some (key, taken) ↦
          let (requests, r) = reconcile z c forwards key in
          let left = queue.done (finish_item queue.limiter key r taken) key in
          elim r [
            | ok _ ↦ (left, requests, ok true)
            | err _ ↦ (left, requests, ok true)
            | panic ↦ (left, requests, panic)
            | blocked ↦ (taken, requests, blocked)
          ]
    ]

    -- Some turns of the loop, each with the map as it is by then.
    unfoldable pub run_worker : List (Option (Dict Connection)) → Q → Q × List Request × Result Bool
    unfolding process_next_work_item
    run_worker [] q = (q, [], ok true)
    run_worker (m ∷ ms) q =
        let (q', sent, r) = process_next_work_item m q in
        let (q'', more, end) = run_worker ms q' in
        elim r [
          | ok goes ↦ if goes then (q'', sent ++ more, end) else (q', sent, ok false)
          | err e ↦ (q', sent, err e)
          | panic ↦ (q', sent, panic)
          | blocked ↦ (q', sent, blocked)
        ]
