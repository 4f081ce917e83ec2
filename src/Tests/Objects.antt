-- ===== src/Tests/Objects.antt =====
-- A service of a cluster with its endpoints and its controller, and numbers.
use localizer.Base.{
  ℕ, zero, suc, ◌≡◌, ◌≢◌, ◌∙◌, refl, sym, ap, false, [], ◌∷◌, none, some, Bytes, codes, str_eq,
  length, Lacks, if◌then◌else◌, ok, arith,
}
use localizer.Kube.{
  Intstr, int, string, ResolvedServicePort, Service, Controller, template, Stores, resolved,
  resolve_service_ports,
}
use localizer.Proxier.Types.{PodInfo, Endpoints}
use localizer.Server.Ports.{IsDecimal}
use localizer.Ssh.{Atoi}
use localizer.Ssh.Tunnels.{ReadsBack}

-- Numbers in unary.
abbrev pub itoa : ℕ → Bytes
itoa zero = []
itoa (suc n) = b'1' ∷ itoa n

abbrev pub atoi : Atoi
atoi t = some (length t)

one-ne-colon : ◌≢◌ {A = ℕ} b'1' b':'
one-ne-colon e = omega (arith, e)

itoa-Lacks : (n : ℕ) → Lacks b':' (itoa n)
itoa-Lacks zero = tt
itoa-Lacks (suc n) = (one-ne-colon, itoa-Lacks n)

length-itoa : (n : ℕ) → length (itoa n) ≡ n
length-itoa zero = refl
length-itoa (suc n) = ap suc (length-itoa n)

pub itoa-ReadsBack : ReadsBack itoa atoi
itoa-ReadsBack = record { plain = itoa-Lacks; read = λ n. ap some (length-itoa n) }

abbrev pub numbers : Intstr
numbers = record { int_value_of = λ t. 0; itoa = itoa }

pub numbers-IsDecimal : IsDecimal numbers
numbers-IsDecimal = record {
  plain = itoa-Lacks;
  distinct = λ m n e. sym (length-itoa m) ∙ (ap length e ∙ length-itoa n);
}

-- A service with a named port, its endpoints, and a controller.
abbrev pub web : Service
web = record {
  name = codes "web";
  namespace = codes "default";
  ports = record { name = codes "http"; port = 8; target_port = string (codes "main") } ∷ [];
  selector = (codes "app", codes "web") ∷ [];
  deleted = false;
}

abbrev pub web_pod : PodInfo
web_pod = record { name = codes "web-0"; namespace = codes "default" }

abbrev pub web_endpoints : Endpoints
web_endpoints = record {
  subsets =
      record {
        addresses =
            record {
              target_ref = some (record {
                kind = codes "Pod";
                name = codes "web-0";
                namespace = codes "default";
              });
            }
            ∷ [];
        ports = record { name = codes "http"; port = 9 } ∷ [];
      }
      ∷ [];
}

abbrev pub web_controller : Controller
web_controller = template ((codes "app", codes "web") ∷ []) []

abbrev pub stores : Stores
stores = record {
  endpoints = λ key. if str_eq key (codes "default/web") then some web_endpoints else none;
  stateful_sets = [];
  deployments = web_controller ∷ template [] [] ∷ [];
}

abbrev pub web_port : ResolvedServicePort
web_port = record {
  service_port = record { name = codes "http"; port = 8; target_port = int 9 };
  original_target_port = codes "main";
  mapped_port = 9;
}

pub web_ports : resolve_service_ports numbers stores web ≡ ok (web_port ∷ [])
unfolding resolve_service_ports resolved str_eq
web_ports = refl
