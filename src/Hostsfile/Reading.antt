-- ===== src/Hostsfile/Reading.antt =====
-- What `Load` of pkg/hostsfile/parser.go makes of the lines of its own block.
use localizer.Base.{
  ℕ, suc, ◌≡◌, ◌≢◌, refl, ap, ◌∙◌, true, false, List, [], ◌∷◌, ◌++◌, map, some, Bytes, split, All,
  ok, arith, str_eq_iff, str_eq_refl, if◌then◌else◌,
}
use localizer.Base.Dict.{Dict, lookup, insert, lookup-insert, keys}
use localizer.Hostsfile.Scanner.{background, next, skip, each_line}
use localizer.Hostsfile.Scanner.Steps.{
  run_lines, each_line-next, each_line-skip, each_line-stretch, each_line-run_lines_end,
}
use localizer.Hostsfile.Block.{
  HostLine, Platform, block_end, hashes, start_marker, end_marker, addresses_of, host_line,
  sort_ips,
}
use localizer.Hostsfile.Block.Sorting.{elem, All-sort_ips}
use localizer.Hostsfile.Layout.{line_marker, IsPlain, Names, IsLawful, IsEntry}
use localizer.Hostsfile.Generated.{EntriesFit, split-host_line, generated-IsBlock}
use localizer.Hostsfile.{Loading, enter, load_entry, load_line}

module _ (p : Platform) (name : Bytes) where
  abbrev pub loading : Loading → Bytes → Loading
  loading s line = load_entry p (split line b' ') s

  pub load_line-IsPlain :
      (s : Loading) (line more : Bytes)
      → IsPlain line
      → load_line p name s line more ≡ next (loading s line)
  unfolding load_line
  load_line-IsPlain s line more h = ground arith

  pub load_line-end :
      (s : Loading) (line more : Bytes)
      → line_marker line ≡ block_end
      → load_line p name s line more ≡ next (record s { found = false })
  unfolding load_line
  load_line-end s line more h = ground arith

  -- The start marker alone on its line.
  load_line-start :
      (s : Loading) (more : Bytes)
      → Names p more name
      → load_line p name s start_marker more ≡ skip (record s { found = true })
  unfolding load_line load_entry
  load_line-start s more n = ground (arith, n.decoded, n.named, str_eq_refl name)

  pub run_lines-outside :
      (s : Loading) (ls : List Bytes) → s.found ≡ false → run_lines loading s ls ≡ s
  unfolding load_entry
  run_lines-outside s [] h = refl
  run_lines-outside s (l ∷ ls) h =
      let same : loading s l ≡ s = ground arith in
      ap (λ t. run_lines loading t ls) same ∙ run_lines-outside s ls h

-- The map after the entries of `ips` are read.
pub fill : Dict HostLine → List Bytes → Dict HostLine → Dict HostLine
fill hosts [] m = m
fill hosts (ip ∷ ips) m =
    fill hosts ips (insert ip (record { addresses = addresses_of hosts ip }) m)

pub lookup-fill :
    (hosts : Dict HostLine) (k : Bytes) (ips : List Bytes) (m : Dict HostLine)
    → lookup k (fill hosts ips m)
      ≡ (if elem k ips then some (record { addresses = addresses_of hosts k }) else lookup k m)
unfolding fill elem
lookup-fill hosts k [] m = refl
lookup-fill hosts k (ip ∷ ips) m = ground (
  arith,
  lookup-fill hosts k ips (insert ip (record { addresses = addresses_of hosts ip }) m),
  lookup-insert {V = HostLine} ip k (record { addresses = addresses_of hosts ip }) m,
  str_eq_iff ip k,
)

enter-IsEntry :
    (p : Platform) (ip : Bytes) (addresses : List Bytes) (m : Dict HostLine) {b : Bytes}
    → p.parse_ip ip ≡ some b
    → p.ip_string b ≡ ip
    → addresses ≢ []
    → enter p (ip ∷ addresses) m ≡ insert ip (record { addresses = addresses }) m
unfolding enter
enter-IsEntry p ip [] m parses canonical ne = absurd (ne refl)
enter-IsEntry p ip (h ∷ hs) m parses canonical ne = ground arith

module _ (p : Platform) (name : Bytes) (law : IsLawful p name) where
  loading-host_line :
      (hosts : Dict HostLine) (ip : Bytes) (m : Dict HostLine)
      → IsEntry p ip (addresses_of hosts ip)
      → loading p name (record { found = true; hosts = m }) (host_line hosts ip) ≡ record {
        found = true;
        hosts = insert ip (record { addresses = addresses_of hosts ip }) m;
      }
  unfolding load_entry
  loading-host_line hosts ip m e =
      ap (λ t. load_entry p t (record { found = true; hosts = m }))
        (split-host_line p name law hosts ip e)
      ∙ ap (λ t. record { found = true; hosts = t })
          (enter-IsEntry p ip (addresses_of hosts ip) m e.parses e.canonical e.some_host)

  pub run_lines-inside :
      (hosts : Dict HostLine) (ips : List Bytes) (m : Dict HostLine)
      → All (λ ip. IsEntry p ip (addresses_of hosts ip)) ips
      → run_lines (loading p name) (record { found = true; hosts = m }) (map (host_line hosts) ips)
        ≡ record { found = true; hosts = fill hosts ips m }
  unfolding fill
  run_lines-inside hosts [] m h = refl
  run_lines-inside hosts (ip ∷ ips) m h =
      ap (λ t. run_lines (loading p name) t (map (host_line hosts) ips))
        (loading-host_line hosts ip m h.0)
      ∙ run_lines-inside hosts ips (insert ip (record { addresses = addresses_of hosts ip }) m) h.1

  -- The loop of `Load` over a file that `Marshal` wrote.
  module _ (hosts : Dict HostLine) (now : ℕ) (j : Bytes)
      (json : p.to_json (record { block_name = name; last_modified = now }) ≡ ok j)
      (fit : EntriesFit p hosts) (pre post : List Bytes) where
    abbrev ips : List Bytes
    ips = sort_ips p (keys hosts)

    abbrev entries : List Bytes
    entries = map (host_line hosts) ips

    pub load_loop :
        (m : Dict HostLine)
        → All IsPlain pre
        → All IsPlain post
        → each_line background false
            (load_line p name)
            0
            (record { found = false; hosts = m })
            (pre ++ (start_marker ∷ (hashes ++ j) ∷ (entries ++ (end_marker ∷ post))))
          ≡ (record { found = false; hosts = fill hosts ips m }, ok tt)
    load_loop m hpre hpost =
        let outside : Loading = record { found = false; hosts = m } in
        let inside : Loading = record { found = true; hosts = m } in
        let full : Loading = record { found = true; hosts = fill hosts ips m } in
        let done : Loading = record { found = false; hosts = fill hosts ips m } in
        let block = generated-IsBlock p name law now j json hosts fit in
        let step = load_line-IsPlain p name in
        let body = load_line p name in
        let (k, e) =
          each_line-stretch false body (loading p name) IsPlain step 0 outside outside pre
            (start_marker ∷ (hashes ++ j) ∷ (entries ++ (end_marker ∷ post))) hpre
            (run_lines-outside p name outside pre refl) in
        let (n, e') =
          each_line-stretch false body (loading p name) IsPlain step (suc k) inside full entries
            (end_marker ∷ post) block.inside
            (run_lines-inside hosts ips m (All-sort_ips p _ (keys hosts) fit)) in
        e
        ∙ each_line-skip false body k outside inside start_marker (hashes ++ j)
            (entries ++ (end_marker ∷ post))
            (load_line-start p name outside (hashes ++ j) block.names)
        ∙ e'
        ∙ each_line-next false body n full done end_marker post
            (λ more. load_line-end p name full end_marker more block.closes)
        ∙ each_line-run_lines_end false body (loading p name) IsPlain step (suc n) done done post
            hpost (run_lines-outside p name done post refl)
