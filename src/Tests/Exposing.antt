-- ===== src/Tests/Exposing.antt =====
-- Runs of the models of internal/ssh and internal/expose.
use localizer.Base.{
  ℕ, ◌≡◌, refl, false, List, [], ◌∷◌, Option, none, some, Bytes, codes, str_eq, All, if◌then◌else◌,
  ◌==◌, ok, err,
}
use localizer.Base.Dict.{lookup}
use localizer.Expose.{ScaledObject, Scales, start_scales, ServiceForward}
use localizer.Expose.Scaling.{start_scales-restores, start_scales_abandons}
use localizer.Expose.Tunnel.{Round, deadline}
use localizer.Tests.Objects.{web, web_port}

abbrev port_pairs : List (ℕ × ℕ)
port_pairs = (2, 9) ∷ (3, 4) ∷ (5, 9) ∷ []

abbrev web_object : ScaledObject
web_object = record { key = codes "web"; replicas = 3; resource = codes "deployments" }

abbrev db_object : ScaledObject
db_object = record { key = codes "db"; replicas = 1; resource = codes "statefulsets" }

abbrev scales : Scales
scales = record { scale = []; sent = 0 }

start_scales-restores_example :
    let t = start_scales (λ n. none) (λ s. s) (web_object ∷ db_object ∷ []) scales in
    (t.1 ≡ ok tt)
    × All (λ o. lookup o.key t.0.scale ≡ some o.replicas) (web_object ∷ db_object ∷ [])
unfolding str_eq
start_scales-restores_example =
    start_scales-restores (λ n. none) (λ s. s) (web_object ∷ db_object ∷ []) scales (λ n. refl)
      ((refl, tt), (tt, tt))

abbrev refuse_second : ℕ → Option Bytes
refuse_second n = if n == 1 then some (codes "conflict") else none

start_scales_abandons_example :
    let t = start_scales refuse_second (λ s. s) (web_object ∷ db_object ∷ []) scales in
    (lookup (codes "web") t.0.scale ≡ some 0)
    × (t.1 ≡ err (codes "failed to scale down object: conflict"))
start_scales_abandons_example =
    start_scales_abandons refuse_second (λ s. s) web_object db_object [] scales (codes "conflict")
      refl refl

abbrev late_round : Round
late_round = record {
  cancelled_first = false;
  cancelled_waiting = false;
  created = ok 4;
  checks = some (record { kind = codes "Ready"; status = codes "True" } ∷ []) ∷ [];
  forward = none;
  wake = deadline;
  forwarded = ok [];
}

abbrev objects : List ScaledObject
objects = web_object ∷ db_object ∷ []

abbrev exposed : ServiceForward
exposed = record {
  service_name = codes "web";
  namespace = codes "default";
  selector = web.selector;
  ports = web_port ∷ [];
  objects = objects;
}
