-- ===== src/Hostsfile/Layout.antt =====
-- How pkg/hostsfile/parser.go sees the lines of a hosts file: markers, blocks, and all else.
use localizer.Base.{
  ℕ, ◌+◌, ◌≤◌, ◌<◌, ◌≢◌, none, join, length, ◌≡◌, false, List, [], ◌∷◌, ◌++◌, some, Bytes, split,
  All, ok,
}
use localizer.Hostsfile.Scanner.{scan_lines, max_token}
use localizer.Hostsfile.Block.{
  Platform, Metadata, Marker, block_start, block_end, plain, marker, parse_metadata,
}

abbrev pub chunks_marker : List Bytes → Marker
chunks_marker [] = plain
chunks_marker (chunk ∷ chunks) = marker chunk

-- The marker that the first chunk of a line is.
abbrev pub line_marker : Bytes → Marker
line_marker line = chunks_marker (split line b' ')

abbrev pub IsPlain : Bytes → Type 0
IsPlain line = line_marker line ≡ plain

-- The metadata line `meta` names the block `name`.
pub record Names (p : Platform) (meta name : Bytes) : Type 0 where
  pub metadata : Metadata
  pub decoded : parse_metadata p meta ≡ ok (some metadata)
  pub named : metadata.block_name ≡ name

-- A block called `name`: a start marker, its metadata, lines with no marker, an end marker.
pub record IsBlock (p : Platform) (name first meta : Bytes) (body : List Bytes) (last : Bytes)
    : Type 0 where
  pub opens : line_marker first ≡ block_start
  pub names : Names p meta name
  pub inside : All IsPlain body
  pub closes : line_marker last ≡ block_end

-- Where the block goes: in the place of a block of that name, or behind the last line.
pub data Place (p : Platform) (name : Bytes) (lines pre post : List Bytes) : Type 0 where
  own :
      (first meta : Bytes) (body : List Bytes) (last : Bytes)
      → lines ≡ pre ++ (first ∷ meta ∷ (body ++ (last ∷ post)))
      → IsBlock p name first meta body last
      → Place p name lines pre post
  absent : lines ≡ pre → post ≡ [] → Place p name lines pre post

-- The lines of a file, with one place for the block between `pre` and `post`, and no other marker.
pub record HasLayout (p : Platform) (name contents : Bytes) (pre post : List Bytes) : Type 0 where
  pub lines : List Bytes
  pub scanned : scan_lines contents ≡ record { lines = lines; too_long = false }
  pub place : Place p name lines pre post
  pub before : All IsPlain pre
  pub after : All IsPlain post

-- What the calls outside the repository promise for the block `name`: the metadata that was
-- written is read back, as one line of printable bytes; the text of an address is read back as
-- that address, and no text that begins with a number sign is an address.
pub record IsLawful (p : Platform) (name : Bytes) : Type 0 where
  pub decodes :
      (now : ℕ) (j : Bytes)
      → p.to_json (record { block_name = name; last_modified = now }) ≡ ok j
      → (m : Metadata) × (p.from_json j ≡ ok (some m)) × (m.block_name ≡ name)
  pub json_printable :
      (now : ℕ) (j : Bytes)
      → p.to_json (record { block_name = name; last_modified = now }) ≡ ok j
      → All (λ c. b' ' ≤ c) j
  pub json_short :
      (now : ℕ) (j : Bytes)
      → p.to_json (record { block_name = name; last_modified = now }) ≡ ok j
      → length j + 3 < max_token
  pub ip_text : (s b : Bytes) → p.parse_ip s ≡ some b → All (λ c. b' ' < c) s
  pub hash_not_ip : (s : Bytes) → p.parse_ip (b'#' ∷ s) ≡ none

-- An entry of the map that a line of the block can hold.
pub record IsEntry (p : Platform) (ip : Bytes) (addresses : List Bytes) : Type 0 where
  pub parsed : Bytes
  pub parses : p.parse_ip ip ≡ some parsed
  pub canonical : p.ip_string parsed ≡ ip
  pub some_host : addresses ≢ []
  pub words : All (All (λ c. b' ' < c)) addresses
  pub short : length (ip ++ (b' ' ∷ join addresses b' ')) < max_token
