-- ===== src/Tests/Workers.antt =====
-- Runs of the models of internal/proxier.
use mathlib.Core.List.Perm
use mathlib.Core.List.{Nodup-nil, mem-singleton, not-mem-nil}
use localizer.Base.{
  Nodup, ◌≡◌, ◌≢◌, refl, subst, sym, ap, Bool, true, false, List, [], ◌∷◌, none, some, Bytes, codes,
  str_eq, str_eq_iff, if◌then◌else◌, Result, ok, err, panic, goes_on, arith, Mem, Perm,
}
use localizer.Base.Dict.{keys, lookup}
use localizer.Hostsfile.Scanner.{background}
use localizer.Proxier.Types.{
  PodInfo, ServiceInfo, CreateRequest, Request, create, delete, Endpoints,
}
use localizer.Proxier.Worker.{Ipam, World, Worker}
use localizer.Proxier.Worker.Addresses.{taken, IsLawful, Inv}
use localizer.Proxier.Setup.{Setup, new_port_forwarder}
use localizer.Proxier.Create.Lifetime.{IsFresh, lifetime-Perm}
use localizer.Proxier.Create.{clean_up, handle, handle_all, again}
use localizer.Proxier.Create.Requests.{handle_all-Inv}
use localizer.Proxier.Create.Failures.{again_after_delete_panics}
use localizer.Proxier.Reconcile.{proxier_is_stable}
use localizer.Proxier.Create.Stability.{stable-unchanged}
use localizer.Proxier.Worker.{is_stable}
use localizer.Tests.Samples.{old_text, platform, a_file, a_disk}

abbrev pub only : Bytes
only = codes "127.0.0.2"

-- A pool of one address; the state says whether it is taken.
abbrev pub taken_of : Bool → List Bytes
taken_of true = only ∷ []
taken_of false = []

abbrev pub take : Bool → Result (Bytes × Bool)
take true = err (codes "no free address")
take false = ok (only, true)

abbrev pub give_back : Bool → Bytes → Result Bool
give_back true ip = if str_eq ip only then ok false else err (codes "not taken")
give_back false ip = err (codes "not taken")

abbrev pub pool : Ipam Bool
pool = record {
  acquire_ip = λ s cidr. take s;
  release_ip = λ s cidr ip. give_back s ip;
  allocated = λ s cidr. taken_of s;
}

taken_first :
    (s t : Bool) (ip : Bytes)
    → take s ≡ ok (ip, t)
    → (ip ≢ []) × (¬ Mem ip (taken_of s)) × (taken_of t ≡ ip ∷ taken_of s)
taken_first true t ip e = cc
taken_first false t ip e =
    let same : only ≡ ip = ground arith in
    let now : true ≡ t = ground arith in
    subst (λ q. (q ≢ []) × (¬ Mem q []) × (taken_of t ≡ q ∷ [])) same
      ((λ h. cc), not-mem-nil, ap taken_of (sym now))

given_back :
    (s : Bool) (ip : Bytes)
    → Mem ip (taken_of s)
    → (t : Bool) × (give_back s ip ≡ ok t) × Perm (taken_of s) (ip ∷ taken_of t)
given_back false ip m = absurd (not-mem-nil m)
given_back true ip m =
    let same : ip ≡ only = (mem-singleton hlevel).0 m in
    (
      false,
      ground (arith, str_eq_iff ip only, same),
      subst (λ q. Perm (only ∷ []) (q ∷ [])) (sym same) (Perm.refl _),
    )

pub pool-IsLawful : IsLawful pool
pool-IsLawful = record {
  acquired = λ s t cidr ip e. taken_first s t ip e;
  released = λ s cidr ip m. given_back s ip m;
}

abbrev pub web : ServiceInfo
web = record { name = codes "web"; namespace = codes "default" }

abbrev pub web_pod : PodInfo
web_pod = record { name = codes "web-0"; namespace = codes "default" }

abbrev pub web_endpoints : Endpoints
web_endpoints = record {
  subsets =
      record {
        addresses =
            record {
              target_ref = some (record {
                kind = codes "Pod";
                name = codes "web-0";
                namespace = codes "default";
              });
            }
            ∷ [];
        ports = [];
      }
      ∷ [];
}

-- Everything works.
abbrev pub world : World
world = record {
  darwin_alias = false;
  alias_up = none;
  alias_down = none;
  round_tripper = none;
  endpoints = ok web_endpoints;
  new_on_addresses = none;
  clock = 7;
  ctx = background;
}

abbrev pub request : CreateRequest
request = record {
  service = web;
  hostnames = codes "web" ∷ [];
  ports = codes "80:8080" ∷ [];
  endpoint = none;
  recreate = false;
  recreate_reason = [];
}

abbrev pub start : Worker Bool
start = record {
  ippool = false;
  ip_cidr = codes "127.0.0.0/8";
  dns = record a_file { hosts_file = [] };
  disk = a_disk;
  port_forwards = [];
  last_touch_time = 0;
  forwards = [];
  closed = [];
}

pub start-Inv : Inv pool [] start
unfolding lookup
start-Inv = record { distinct = Nodup-nil; balanced = Perm.refl _; keyed = tt; filed = λ k c e. cc }

abbrev requests : List (World × Request)
requests = (world, create request) ∷ (world, create (again request)) ∷ []

goes : goes_on (handle_all platform pool requests start).1 ≡ true
unfolding handle_all
goes = refl

handle_all-Inv_example : Inv pool [] (handle_all platform pool requests start).0
handle_all-Inv_example = handle_all-Inv platform pool pool-IsLawful [] requests start start-Inv goes

-- The worker with the port-forward made.
abbrev pub made : Worker Bool
made = (handle_all platform pool ((world, create request) ∷ []) start).0

gone_well : goes_on (handle platform pool world (delete (record { service = web })) made).1 ≡ true
unfolding handle handle_all
gone_well = refl

again_after_delete_panics_example :
    (handle_all platform pool
      ((world, delete (record { service = web })) ∷ (world, create (again request)) ∷ [])
      made).1
    ≡ panic
again_after_delete_panics_example =
    again_after_delete_panics platform pool world world request made gone_well

-- A worker with a port-forward for a service that the cluster does not have.
abbrev gone_request : CreateRequest
gone_request = record request {
  service = record { name = codes "gone"; namespace = codes "default" };
}

abbrev with_gone : Worker Bool
with_gone = (handle_all platform pool ((world, create gone_request) ∷ []) start).0

-- The worker as it is made, with a prefix that does not hold the default address.
abbrev setup : Setup Bool
setup = record {
  parse_cidr = λ cidr. ok (λ ip. false);
  new_prefix = λ cidr. ok (cidr, false);
  acquire_specific_ip = λ s cidr ip. err (codes "taken");
}

setup-IsFresh : IsFresh setup pool
setup-IsFresh = record { prefixed = first; specific = λ s t cidr ip e. cc }
  where
    first :
        (cidr prefix : Bytes) (s : Bool)
        → setup.new_prefix cidr ≡ ok (prefix, s)
        → Nodup (taken_of s)
    first cidr prefix s e =
        let same : ◌≡◌ {A = Bytes × Bool} (cidr, false) (prefix, s) = ground arith in
        subst (λ t. Nodup (taken_of (t.1))) same Nodup-nil

abbrev fresh : Worker Bool
fresh = record start { dns = record a_file { hosts_file = [] }; last_touch_time = 3 }

fresh_made :
    new_port_forwarder setup (λ path. ok old_text) a_disk 3 (codes "127.0.0.0/8") ≡ ok fresh
unfolding new_port_forwarder str_eq
fresh_made = refl

abbrev worked : Worker Bool
worked = (handle_all platform pool requests fresh).0

works : goes_on (handle_all platform pool requests fresh).1 ≡ true
unfolding handle_all
works = refl

ends : goes_on (clean_up platform pool world (keys worked.port_forwards) worked).1 ≡ true
unfolding handle_all clean_up
ends = refl

lifetime-Perm_example :
    let t = clean_up platform pool world (keys worked.port_forwards) worked in
    (t.0.port_forwards ≡ []) × Perm (taken pool t.0) (taken pool fresh)
lifetime-Perm_example =
    lifetime-Perm setup pool (λ path. ok old_text) a_disk 3 (codes "127.0.0.0/8") fresh fresh_made
      platform world requests pool-IsLawful setup-IsFresh works ends

fresh-Inv : Inv pool [] fresh
unfolding lookup
fresh-Inv = record { distinct = Nodup-nil; balanced = Perm.refl _; keyed = tt; filed = λ k c e. cc }

worked-Inv : Inv pool [] worked
worked-Inv = handle_all-Inv platform pool pool-IsLawful [] requests fresh fresh-Inv works

-- A request to delete what is not there.
abbrev nothing_to_do : List (World × Request)
nothing_to_do = (world, delete (record { service = web })) ∷ []

unchanged_stable :
    proxier_is_stable 2000000000 (some (handle_all platform pool nothing_to_do start).0) ≡ true
unfolding proxier_is_stable is_stable handle_all handle lookup
unchanged_stable = refl

stable-unchanged_example : (handle_all platform pool nothing_to_do start).0 ≡ start
stable-unchanged_example =
    stable-unchanged platform pool nothing_to_do start 2000000000 (omega arith, tt) unchanged_stable
