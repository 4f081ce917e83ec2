-- ===== src/Tests/Cluster.antt =====
-- Runs of the models of internal/kube, internal/server, and of
-- internal/proxier/proxy.go.
use localizer.Base.{
  ℕ, ◌≡◌, ◌∙◌, split, Bool-cases, inl, inr, str_eq_iff, refl, sym, ap, List, [], ◌∷◌, map, none,
  some, Bytes, codes, str_eq, length, if◌then◌else◌, ok, err, arith,
}
use localizer.Base.Dict.{Dict, lookup}
use localizer.Kube.{ResolvedServicePort, Service}
use localizer.Kube.Resolution.{Pairs, Resolves, resolve_service_ports-Resolves}
use localizer.Proxier.Types.{running, Connection, object_key}
use localizer.Proxier.Reconcile.{Cluster, reconcile}
use localizer.Proxier.Reconcile.Requests.{IsKeyed, reconcile-settled}
use localizer.Proxier.Endpoints.{get_pod_for_service}
use localizer.Server.{ParseUint, map_ports, NewExpose, Exposer, start_exposer, receive, close}
use localizer.Server.Ports.{Reads, mapped, map_ports-mapped}
use localizer.Server.Exposing.{
  Reachable, started, stepped, received, IsConsistent, Reachable-IsConsistent, close-running,
}
use localizer.Tests.Objects.{numbers, web, web_pod, web_endpoints, stores, web_port, web_ports}

resolve_service_ports-Resolves_example :
    Pairs (Resolves numbers) web.ports (web_port ∷ []) × (length web.ports ≡ length (web_port ∷ []))
resolve_service_ports-Resolves_example =
    resolve_service_ports-Resolves numbers stores web (web_port ∷ []) web_ports

abbrev pub cluster : Cluster
cluster = record {
  services = λ key. ok (if str_eq key (codes "default/web") then some web else none);
  stores = stores;
  split_key = λ key.
      if str_eq key (codes "default/gone")
      then ok (codes "default", codes "gone")
      else err (codes "unexpected key format");
  cluster_domain = codes "cluster.local";
}

services_stored :
    (key : Bytes) (svc : Service)
    → cluster.services key ≡ ok (some svc)
    → object_key svc.namespace svc.name ≡ key
services_stored key svc e = elim (Bool-cases (str_eq key (codes "default/web"))) [
  | inl hit ↦
      let same : web ≡ svc = ground arith in
      ap (λ q. object_key q.namespace q.name) (sym same)
      ∙ sym ((str_eq_iff key (codes "default/web")).0 hit)
  | inr miss ↦ absurd (ground arith)
]

keys_split :
    (key namespace name : Bytes)
    → cluster.split_key key ≡ ok (namespace, name)
    → object_key namespace name ≡ key
keys_split key namespace name e = elim (Bool-cases (str_eq key (codes "default/gone"))) [
  | inl hit ↦
      let same : ◌≡◌ {A = Bytes × Bytes} (codes "default", codes "gone") (namespace, name) =
        ground arith in
      ap (λ q. object_key q.0 q.1) (sym same) ∙ sym ((str_eq_iff key (codes "default/gone")).0 hit)
  | inr miss ↦ absurd (ground arith)
]

pub cluster-IsKeyed : IsKeyed cluster
cluster-IsKeyed = record { stored = services_stored; splits = keys_split }

abbrev pub forward : Connection
forward = record {
  service = record { name = codes "web"; namespace = codes "default" };
  pod = web_pod;
  status = running;
  status_reason = [];
  ip = codes "127.0.0.2";
  hostnames = codes "web" ∷ [];
  ports = codes "80:8080" ∷ [];
  pf = none;
}

abbrev forwards : Dict Connection
forwards = (codes "default/web", forward) ∷ []

reconcile-settled_example :
    reconcile numbers cluster (some forwards) (codes "default/web") ≡ ([], ok tt)
unfolding str_eq lookup get_pod_for_service
reconcile-settled_example =
    reconcile-settled numbers cluster forwards (codes "default/web") web forward web_endpoints refl
      refl refl refl refl refl

abbrev pub parse_uint : ParseUint
parse_uint t = ok (length t)

abbrev mapped_port : ResolvedServicePort
mapped_port = record web_port { mapped_port = 2 }

map_ports-mapped_example :
    (pairs : List (ℕ × ℕ)) × Reads numbers parse_uint (codes "11:111111111" ∷ []) pairs
    × (mapped_port ∷ [] ≡ map (mapped numbers parse_uint pairs) (web_port ∷ []))
unfolding map_ports split
map_ports-mapped_example =
    map_ports-mapped numbers parse_uint (codes "11:111111111" ∷ []) (web_port ∷ [])
      (mapped_port ∷ []) refl

abbrev message : NewExpose
message = record { ports = web_port ∷ []; namespace = codes "default"; service_name = codes "web" }

abbrev exposing : Exposer
exposing = receive (ok tt) message start_exposer

exposing-Reachable : Reachable exposing
exposing-Reachable = stepped started (received (ok tt) message start_exposer)

Reachable-IsConsistent_example : IsConsistent exposing
Reachable-IsConsistent_example = Reachable-IsConsistent exposing-Reachable

close-running_example :
    ((instance_id : ℕ)
      → lookup (codes "default/web") exposing.running ≡ some instance_id
      → close (codes "default") (codes "web") exposing
        ≡ (record exposing { cancelled = instance_id ∷ exposing.cancelled }, ok tt))
    × (lookup (codes "default/web") exposing.running ≡ none
        → close (codes "default") (codes "web") exposing
          ≡ (exposing, err (codes "service 'default/web' isn't exposed")))
close-running_example = close-running (codes "default") (codes "web") exposing-Reachable
