-- ===== src/Hostsfile/Block.antt =====
-- pkg/hostsfile/parser.go: the metadata line, the markers, and `generateBlock`.
pub mod Sorting
use localizer.Base.{
  ℕ, Bool, true, false, not, ◌&&◌, List, [], ◌∷◌, ◌++◌, map, Option, none, some, Bytes, codes,
  str_eq, join, ltb, ◌==◌, if◌then◌else◌, Result, ok, err, ◌>>=◌, wrap,
}
use localizer.Base.Dict.{Dict, lookup, keys}

pub record Metadata : Type 0 where
  pub block_name : Bytes
  pub last_modified : ℕ

pub record HostLine : Type 0 where
  pub addresses : List Bytes

-- What the file calls outside this repository: encoding/json at `Metadata` (a JSON null decodes
-- to a nil pointer, `ok none`), net.ParseIP (to the 16 bytes) and IP.String, and
-- govalidator.IsDNSName.
pub record Platform : Type 0 where
  pub to_json : Metadata → Result Bytes
  pub from_json : Bytes → Result (Option Metadata)
  pub parse_ip : Bytes → Option Bytes
  pub ip_string : Bytes → Bytes
  pub is_dns_name : Bytes → Bool

strip_prefix : Bytes → Bytes → Option Bytes
strip_prefix [] s = some s
strip_prefix (o ∷ os) [] = none
strip_prefix (o ∷ os) (c ∷ cs) = let rest = strip_prefix os cs in if o == c then rest else none

-- `strings.Replace(s, old, "", 1)`
strip_first : Bytes → Bytes → Bytes
unfolding strip_prefix
strip_first old [] = []
strip_first old (c ∷ cs) = elim (strip_prefix old (c ∷ cs)) [
  | some rest ↦ rest
  | none ↦ c ∷ strip_first old cs
]

abbrev pub hashes : Bytes
hashes = codes "###"

abbrev pub start_marker : Bytes
start_marker = codes "###start-hostfile"

abbrev pub end_marker : Bytes
end_marker = codes "###end-hostfile"

pub data Marker : Type 0 where
  block_start block_end plain : Marker

-- The switch on the first chunk of a line.
unfoldable pub marker : Bytes → Marker
unfolding str_eq
marker chunk =
    if str_eq chunk start_marker
    then block_start
    else if str_eq chunk end_marker
    then block_end
    else plain

-- `bytes.Compare(a, b) < 0`
unfoldable pub bytes_less : Bytes → Bytes → Bool
bytes_less [] [] = false
bytes_less [] (y ∷ ys) = true
bytes_less (x ∷ xs) [] = false
bytes_less (x ∷ xs) (y ∷ ys) =
    let rest = bytes_less xs ys in if ltb x y then true else if x == y then rest else false

-- `f.hostsFile[ip].Addresses`; the loop asks for keys of the map only.
unfoldable pub addresses_of : Dict HostLine → Bytes → List Bytes
unfolding lookup
addresses_of hosts ip = elim (lookup ip hosts) [ none ↦ [] | some h ↦ h.addresses ]

unfoldable pub host_line : Dict HostLine → Bytes → Bytes
unfolding addresses_of join
host_line hosts ip = ip ++ (b' ' ∷ join (addresses_of hosts ip) b' ')

-- The lines of the block around its entries.
abbrev pub block_lines : Bytes → List Bytes → List Bytes
block_lines json entries = start_marker ∷ (hashes ++ json) ∷ (entries ++ (end_marker ∷ []))

module _ (p : Platform) where
  unfoldable pub parse_metadata : Bytes → Result (Option Metadata)
  unfolding strip_first
  parse_metadata line =
      wrap (codes "failed to parse metadata, is the file corrupted?")
        (p.from_json (strip_first hashes line))

  -- The nil of a text that is no address is the empty slice.
  unfoldable pub ip_bytes : Bytes → Bytes
  ip_bytes ip = elim (p.parse_ip ip) [ none ↦ [] | some b ↦ b ]

  unfoldable pub ip_less : Bytes → Bytes → Bool
  unfolding bytes_less ip_bytes
  ip_less a b = bytes_less (ip_bytes a) (ip_bytes b)

  unfoldable pub insert_ip : Bytes → List Bytes → List Bytes
  unfolding ip_less
  insert_ip ip [] = ip ∷ []
  insert_ip ip (j ∷ ips) =
      let rest = insert_ip ip ips in if ip_less j ip then j ∷ rest else ip ∷ j ∷ ips

  -- `sort.Slice` of the addresses
  unfoldable pub sort_ips : List Bytes → List Bytes
  unfolding insert_ip
  sort_ips [] = []
  sort_ips (ip ∷ ips) = insert_ip ip (sort_ips ips)

  -- The clock reads `now`.
  unfoldable pub generate_block : Bytes → ℕ → Dict HostLine → Result Bytes
  unfolding sort_ips host_line
  generate_block name now hosts = do
    m ← p.to_json (record { block_name = name; last_modified = now })
    let entries = map (host_line hosts) (sort_ips (keys hosts))
    ok (join (block_lines m entries) b'\n')
