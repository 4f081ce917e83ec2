-- ===== src/Hostsfile/Block/Sorting.antt =====
-- The sorted keys of `generateBlock`, pkg/hostsfile/parser.go.
use localizer.Base.{
  ◌≡◌, refl, Bool, true, false, ◌||◌, List, [], ◌∷◌, Option, none, some, Bytes, str_eq, All, arith,
  if◌then◌else◌,
}
use localizer.Base.Dict.{Dict, lookup, keys}
use localizer.Hostsfile.Block.{HostLine, Platform, insert_ip, sort_ips, addresses_of}

unfoldable pub elem : Bytes → List Bytes → Bool
elem k [] = false
elem k (j ∷ js) = str_eq j k || elem k js

abbrev pub is_some {ℓ} : {A : Type ℓ} → Option A → Bool
is_some none = false
is_some (some a) = true

pub elem-keys {ℓ} : {V : Type ℓ} (k : Bytes) (m : Dict V) → elem k (keys m) ≡ is_some (lookup k m)
unfolding elem lookup
elem-keys k [] = refl
elem-keys k ((j, v) ∷ m) = ground (arith, elem-keys k m)

-- A key of the map has its addresses.
pub lookup-addresses_of :
    (hosts : Dict HostLine) (k : Bytes)
    → lookup k hosts
      ≡ (if elem k (keys hosts) then some (record { addresses = addresses_of hosts k }) else none)
unfolding addresses_of
lookup-addresses_of hosts k = ground (arith, elem-keys k hosts)

module _ (p : Platform) where
  elem-insert_ip :
      (k ip : Bytes) (ips : List Bytes) → elem k (insert_ip p ip ips) ≡ (str_eq ip k || elem k ips)
  unfolding elem insert_ip
  elem-insert_ip k ip [] = refl
  elem-insert_ip k ip (j ∷ ips) = ground (arith, elem-insert_ip k ip ips)

  pub elem-sort_ips : (k : Bytes) (ips : List Bytes) → elem k (sort_ips p ips) ≡ elem k ips
  unfolding elem sort_ips
  elem-sort_ips k [] = refl
  elem-sort_ips k (ip ∷ ips) =
      ground (arith, elem-insert_ip k ip (sort_ips p ips), elem-sort_ips k ips)

  module _ {κ} (P : Bytes → Type κ) where
    All-insert_ip : (ip : Bytes) (ips : List Bytes) → P ip → All P ips → All P (insert_ip p ip ips)
    unfolding insert_ip
    All-insert_ip ip [] h hs = (h, hs)
    All-insert_ip ip (j ∷ ips) h hs = ground (arith, All-insert_ip ip ips h hs.1)

    pub All-sort_ips : (ips : List Bytes) → All P ips → All P (sort_ips p ips)
    unfolding sort_ips
    All-sort_ips [] hs = hs
    All-sort_ips (ip ∷ ips) hs = All-insert_ip ip (sort_ips p ips) hs.0 (All-sort_ips ips hs.1)
