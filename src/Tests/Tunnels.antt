-- ===== src/Tests/Tunnels.antt =====
-- A run from a request to expose a service to the tunnel.
use localizer.Base.{str_eq, ◌≡◌, refl, ◌++◌, err, [], ◌∷◌, some, codes, Result, ok}
use localizer.Kube.{find_controllers_for_service}
use localizer.Expose.{Objects, ServiceForward, get_service_controllers}
use localizer.Expose.Controllers.{
  GoValue, pointer, struct, int32, field, no_fields, Reflection, deployment, find_field, kind_text,
}
use localizer.Expose.Replicas.{
  IsEnforcing, IsWorkload, IsListed, scaled_of, get_service_controllers-scaled_of,
}
use localizer.Server.{NewExpose}
use localizer.Tests.Objects.{stores, web, web_port}

abbrev deref : GoValue → Result GoValue
deref (pointer v) = ok v
deref v = err (codes "expected pointer")

abbrev pub reflection : Reflection
reflection = record { enforce_ptr = deref; described = λ v. codes "another kind" }

abbrev three_replicas : GoValue
three_replicas = pointer (
    struct (
      field (codes "Spec") (struct (field (codes "Replicas") (pointer (int32 3)) no_fields))
        no_fields))

abbrev pub objects : Objects
objects = record {
  accessor = λ o. ok (codes "web");
  type_of = λ o. deployment;
  value_of = λ o. three_replicas;
  reflection = reflection;
  rest_mapping = λ kind. ok (kind ++ codes "s");
}

-- What is accepted for `--map 11:111111111`, where a number is a row of ones.
abbrev message : NewExpose
message = record {
  ports = record web_port { mapped_port = 2 } ∷ [];
  namespace = codes "default";
  service_name = codes "web";
}

abbrev forward : ServiceForward
forward = record {
  service_name = codes "web";
  namespace = codes "default";
  selector = web.selector;
  ports = message.ports;
  objects = record { key = codes "web"; replicas = 3; resource = codes "deployments" } ∷ [];
}

reflection-IsEnforcing : IsEnforcing reflection
reflection-IsEnforcing = record { behind = λ v. refl; refuses = (codes "expected pointer", refl) }

three_replicas-IsWorkload : IsWorkload three_replicas (some 3)
unfolding find_field str_eq
three_replicas-IsWorkload = record {
  fields =
      field (codes "Spec") (struct (field (codes "Replicas") (pointer (int32 3)) no_fields))
        no_fields;
  spec = field (codes "Replicas") (pointer (int32 3)) no_fields;
  is_struct = refl;
  has_spec = refl;
  has_replicas = refl;
}

listed : IsListed objects (λ c. codes "web") (λ c. codes "deployments") (λ c. some 3)
unfolding kind_text
listed = record {
  enforcing = reflection-IsEnforcing;
  named = λ c. refl;
  mapped = λ c. refl;
  workload = λ c. three_replicas-IsWorkload;
}

get_service_controllers-scaled_of_example :
    get_service_controllers objects stores (ok (some web))
    ≡ ok (
        scaled_of
          (λ c. codes "web")
          (λ c. codes "deployments")
          (λ c. some 3)
          (find_controllers_for_service stores web))
get_service_controllers-scaled_of_example =
    get_service_controllers-scaled_of objects (λ c. codes "web") (λ c. codes "deployments")
      (λ c. some 3) listed stores web
