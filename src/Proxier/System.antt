-- ===== src/Proxier/System.antt =====
-- internal/proxier as a whole: the reconciler, the worker and the goroutines of the tunnels, in any
-- order of their steps.
pub mod Progress
pub mod Convergence
use localizer.Base.{
  ◌≡◌, refl, sym, ap, subst, ◌∙◌, Bool, true, false, List, [], ◌∷◌, ◌++◌, Option, none, some, Bytes,
  Result, ok, err, goes_on, arith, All, All-append, All-append_left, All-mono, inl, inr, not,
  str_eq, str_eq_refl, result_cases, is_ok, is_err, is_panic, is_blocked,
}
use localizer.Base.Dict.{Dict, lookup}
use localizer.Hostsfile.Block.{Platform}
use localizer.Hostsfile.Returning.{Answers}
use localizer.Kube.{Intstr, Service, resolve_service_ports}
use localizer.Proxier.Types.{
  CreateRequest, Request, create, delete, service_key, object_key, Connection,
}
use localizer.Proxier.Worker.{Ipam, World, Worker}
use localizer.Proxier.Worker.Addresses.{IsLawful, Inv}
use localizer.Proxier.Worker.Readiness.{IsAnswering, IsReady}
use localizer.Proxier.Create.{handle, again}
use localizer.Proxier.Create.Progress.{has, Served, create_port_forward-Served}
use localizer.Proxier.Create.Requests.{handle-Inv}
use localizer.Proxier.Reconcile.{Cluster, reconcile, create_portforward, info_of}
use localizer.Proxier.Reconcile.Sending.{reconcile-All}
use localizer.Proxier.Reconcile.Requests.{IsKeyed, create-AsksFor, AsksFor}

-- The worker, and the requests that wait for it in the channel.
pub record System (P : Type 0) : Type 0 where
  pub worker : Worker P
  pub pending : List Request

-- `ForwardPorts` of a tunnel returned: its goroutine sends its request, with what it knows by then.
abbrev pub ending : {P : Type 0} → CreateRequest → Bytes → List CreateRequest → System P → System P
ending req reason others s = record {
  worker = record (s.worker) { forwards = others };
  pending = s.pending ++ (create (record req { recreate_reason = reason }) ∷ []);
}

-- `reconcile` of a key, against the map as it is: its requests are sent.
unfoldable pub reconciling : {P : Type 0} → Intstr → Cluster → Bytes → System P → System P
unfolding reconcile
reconciling z c key s = record s {
  pending = s.pending ++ (reconcile z c (some s.worker.port_forwards) key).0;
}

module _ (p : Platform) {P : Type 0} (ipam : Ipam P) where
  -- One turn of the loop of the worker, with the request that it takes from the channel.
  unfoldable pub handling : World → Request → List Request → System P → System P
  unfolding handle
  handling world r rest s = record { worker = (handle p ipam world r s.worker).0; pending = rest }

  -- While no service is deleted: a service of the cluster is looked at, as it is by then; a
  -- tunnel ends; the worker handles a request, whatever the world answers meanwhile.
  pub data Step (z : Intstr) : System P → System P → Type 0 where
    reconciled :
        (c : Cluster) (key : Bytes) (svc : Service) (s : System P)
        → IsKeyed c
        → c.services key ≡ ok (some svc)
        → svc.deleted ≡ false
        → Step z s (reconciling z c key s)
    ended :
        (req : CreateRequest) (reason : Bytes) (before after : List CreateRequest) (s : System P)
        → s.worker.forwards ≡ before ++ (req ∷ after)
        → Step z s (ending req reason (before ++ after) s)
    handled :
        (world : World) (r : Request) (rest : List Request) (s : System P)
        → s.pending ≡ r ∷ rest
        → Step z s (handling world r rest s)

  pub data Reach (z : Intstr) (s : System P) : System P → Type 0 where
    here : Reach z s s
    next : {t u : System P} → Reach z s t → Step z t u → Reach z s u
