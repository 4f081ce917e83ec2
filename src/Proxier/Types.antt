-- ===== src/Proxier/Types.antt =====
-- internal/proxier/types.go, and the fields of the Kubernetes objects that the proxier reads.
use localizer.Base.{ℕ, Bool, List, ◌∷◌, ◌++◌, Option, Bytes, codes}

abbrev pub pod_kind : Bytes
pod_kind = codes "Pod"

pub record PodInfo : Type 0 where
  pub name : Bytes
  pub namespace : Bytes

pub record ServiceInfo : Type 0 where
  pub name : Bytes
  pub namespace : Bytes

-- `%s/%s` of the namespace and the name
abbrev pub object_key : Bytes → Bytes → Bytes
object_key namespace name = namespace ++ (b'/' ∷ name)

unfoldable pub pod_key : PodInfo → Bytes
pod_key s = object_key s.namespace s.name

unfoldable pub service_key : ServiceInfo → Bytes
service_key s = object_key s.namespace s.name

pub record CreateRequest : Type 0 where
  pub service : ServiceInfo
  pub hostnames : List Bytes
  pub ports : List Bytes
  pub endpoint : Option PodInfo
  pub recreate : Bool
  pub recreate_reason : Bytes

pub record DeleteRequest : Type 0 where
  pub service : ServiceInfo

-- The source has a struct of two pointers, one of them nil.
pub data Request : Type 0 where
  create : CreateRequest → Request
  delete : DeleteRequest → Request

pub data Status : Type 0 where
  running recreating waiting : Status

abbrev pub status_text : Status → Bytes
status_text running = codes "running"
status_text recreating = codes "recreating"
status_text waiting = codes "waiting"

-- A `portforward.PortForwarder` as it was made: the address it listens at, the pod, the ports.
pub record Tunnel : Type 0 where
  pub address : Bytes
  pub pod : PodInfo
  pub ports : List Bytes

-- `ip` is the text of the address, empty for the nil and the empty `net.IP`.
pub record Connection : Type 0 where
  pub service : ServiceInfo
  pub pod : PodInfo
  pub status : Status
  pub status_reason : Bytes
  pub ip : Bytes
  pub hostnames : List Bytes
  pub ports : List Bytes
  pub pf : Option Tunnel

-- corev1.Endpoints
pub record TargetRef : Type 0 where
  pub kind : Bytes
  pub name : Bytes
  pub namespace : Bytes

pub record Address : Type 0 where
  pub target_ref : Option TargetRef

pub record EndpointPort : Type 0 where
  pub name : Bytes
  pub port : ℕ

pub record Subset : Type 0 where
  pub addresses : List Address
  pub ports : List EndpointPort

pub record Endpoints : Type 0 where
  pub subsets : List Subset
