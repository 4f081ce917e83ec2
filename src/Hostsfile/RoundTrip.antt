-- ===== src/Hostsfile/RoundTrip.antt =====
-- `Marshal` and `Load` of pkg/hostsfile/parser.go, one after the other.
use localizer.Base.{ℕ, ◌≡◌, false, List, [], ◌∷◌, ◌++◌, map, Bytes, join, All, ok}
use localizer.Base.Dict.{keys}
use localizer.Hostsfile.Scanner.Lines.{IsLine, EndsFull}
use localizer.Hostsfile.Block.{Platform, end_marker, host_line, sort_ips, block_lines}
use localizer.Hostsfile.Layout.{HasLayout, IsLawful}
use localizer.Hostsfile.Generated.{EntriesFit}
use localizer.Hostsfile.{File}

-- What a file must meet for a round trip, besides its layout: the lines around the block are
-- lines that a scan and a join keep, and each entry of the map can be written on a line.
pub record CanRoundTrip (p : Platform) (f : File) (pre post : List Bytes) : Type 0 where
  pub lawful : IsLawful p f.block_name
  pub layout : HasLayout p f.block_name f.contents pre post
  pub free : f.locked ≡ false
  pub fits : EntriesFit p f.hosts_file
  pub pre_lines : All IsLine pre
  pub post_lines : All IsLine post
  pub ends_full : EndsFull (end_marker ∷ post)

module _ (p : Platform) (f : File) (pre post : List Bytes) (now : ℕ) (j : Bytes) where
  abbrev entry_lines : List Bytes
  entry_lines = map (host_line f.hosts_file) (sort_ips p (keys f.hosts_file))

  abbrev written : Bytes
  written = join (pre ++ (join (block_lines j entry_lines) b'\n' ∷ post)) b'\n'

  module _ (can : CanRoundTrip p f pre post)
      (json : p.to_json (record { block_name = f.block_name; last_modified = now }) ≡ ok j) where
    fresh : File
    fresh = record {
      file_location = [];
      contents = written;
      block_name = f.block_name;
      locked = false;
      hosts_file = [];
    }
