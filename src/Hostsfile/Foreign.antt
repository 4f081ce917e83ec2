-- ===== src/Hostsfile/Foreign.antt =====
-- What `Load` and `Marshal` of pkg/hostsfile/parser.go do at blocks of another name, and at
-- metadata that is the JSON null.
use localizer.Base.{
  ℕ, suc, ◌≡◌, ◌≢◌, refl, ◌∙◌, true, false, List, [], ◌∷◌, ◌++◌, map, some, none, Bytes, join, All,
  Result, ok, panic, arith, str_eq_iff, if◌then◌else◌,
}
use localizer.Base.Dict.{Dict, lookup}
use localizer.Hostsfile.Scanner.{scan_lines, background, next, skip, stop, each_line}
use localizer.Hostsfile.Scanner.Steps.{
  each_line-next, each_line-skip, each_line-stop, each_line-stretch, each_line-run_lines_end,
}
use localizer.Hostsfile.Block.{
  HostLine, Platform, block_start, parse_metadata, addresses_of, host_line, generate_block,
}
use localizer.Hostsfile.Block.Sorting.{elem}
use localizer.Hostsfile.Layout.{line_marker, IsPlain, Names, IsBlock, IsLawful, IsEntry}
use localizer.Hostsfile.Preserve.{
  copying, run_lines-copying, start_state, turn, marshal_line-IsPlain, marshal_line-end,
  marshal_line-foreign,
}
use localizer.Hostsfile.Reading.{
  loading, load_line-IsPlain, load_line-end, run_lines-outside, run_lines-inside, fill, lookup-fill,
}
use localizer.Hostsfile.{File, Loading, Rendering, load_line, load, marshal_line, render, marshal}

module _ (p : Platform) (f : File) (other first meta : Bytes) (last : Bytes)
    (differs : other ≢ f.block_name) where
  load_line-foreign :
      (s : Loading)
      → line_marker first ≡ block_start
      → Names p meta other
      → load_line p f.block_name s first meta ≡ skip (record s { found = true })
  unfolding load_line
  load_line-foreign s opens n =
      ground (arith, n.decoded, n.named, str_eq_iff n.metadata.block_name f.block_name)

  -- The entries of a block of another name go into the map: `Load` of a file whose lines are
  -- such a block succeeds, each address of the block then has the hosts that it has there, and
  -- every other address what it had.
  pub load_foreign :
      (hosts : Dict HostLine) (ips : List Bytes)
      → IsLawful p f.block_name
      → f.locked ≡ false
      → All (λ ip. IsEntry p ip (addresses_of hosts ip)) ips
      → IsBlock p other first meta (map (host_line hosts) ips) last
      → scan_lines f.contents ≡ record {
        lines = first ∷ meta ∷ (map (host_line hosts) ips ++ (last ∷ []));
        too_long = false;
      }
      → (k : Bytes)
      → ((load p background f).1 ≡ ok tt)
        × (lookup k (load p background f).0.hosts_file ≡ (
            if elem k ips
            then some (record { addresses = addresses_of hosts k })
            else lookup k f.hosts_file))
  unfolding load
  load_foreign hosts ips law free fits block scanned k =
      rw (free, scanned, loop) (refl, lookup-fill hosts k ips f.hosts_file)
    where
      outside : Loading
      outside = record { found = false; hosts = f.hosts_file }

      inside : Loading
      inside = record outside { found = true }

      full : Loading
      full = record { found = true; hosts = fill hosts ips f.hosts_file }

      loop :
          each_line background false
            (load_line p f.block_name)
            0
            (record { found = false; hosts = f.hosts_file })
            (first ∷ meta ∷ (map (host_line hosts) ips ++ (last ∷ [])))
          ≡ (record { found = false; hosts = fill hosts ips f.hosts_file }, ok tt)
      loop =
          let body = load_line p f.block_name in
          let (n, e) =
            each_line-stretch false body (loading p f.block_name) IsPlain
              (load_line-IsPlain p f.block_name) 1 inside full (map (host_line hosts) ips)
              (last ∷ []) block.inside
              (run_lines-inside p f.block_name law hosts ips f.hosts_file fits) in
          each_line-skip false body 0 outside inside first meta _
            (load_line-foreign outside block.opens block.names)
          ∙ e
          ∙ each_line-next false body n full (record full { found = false }) last []
              (λ more. load_line-end p f.block_name full last more block.closes)
          ∙ each_line-run_lines_end false body (loading p f.block_name) IsPlain
              (load_line-IsPlain p f.block_name) (suc n) (record full { found = false })
              (record full { found = false }) [] tt refl

  -- `Marshal` drops the start marker, the metadata and the end marker of a block of another name,
  -- and keeps the lines between as lines of no block; its own block goes to the end.
  pub marshal_foreign :
      (now : ℕ) (b : Bytes) (pre body post : List Bytes)
      → f.locked ≡ false
      → All IsPlain pre
      → IsBlock p other first meta body last
      → All IsPlain post
      → scan_lines f.contents
        ≡ record { lines = pre ++ (first ∷ meta ∷ (body ++ (last ∷ post))); too_long = false }
      → generate_block p f.block_name now f.hosts_file ≡ ok b
      → marshal p background now f ≡ (f, ok (join (((pre ++ body) ++ post) ++ (b ∷ [])) b'\n'))
  unfolding marshal render
  marshal_foreign now b pre body post free hpre block hpost scanned gen =
      rw (free, scanned, gen, loop)
    where
      copied : List Bytes → Rendering
      copied ls = record start_state { lines = ls }

      step :
          (s : Rendering) (line more : Bytes)
          → IsPlain line
          → turn p f.block_name b s line more ≡ next (copying s line)
      step = marshal_line-IsPlain p f.block_name (ok b)

      loop :
          each_line background false
            (turn p f.block_name b)
            0
            start_state
            (pre ++ (first ∷ meta ∷ (body ++ (last ∷ post))))
          ≡ (copied ((pre ++ body) ++ post), ok tt)
      loop =
          let act = turn p f.block_name b in
          let (k, e) =
            each_line-stretch false act copying IsPlain step 0 start_state (copied pre) pre
              (first ∷ meta ∷ (body ++ (last ∷ post))) hpre
              (run_lines-copying start_state pre refl) in
          let (n, e') =
            each_line-stretch false act copying IsPlain step (suc k) (copied pre)
              (copied (pre ++ body)) body (last ∷ post) block.inside
              (run_lines-copying (copied pre) body refl) in
          e
          ∙ each_line-skip false act k (copied pre) (copied pre) first meta _ (
              marshal_line-foreign p f.block_name (ok b) (copied pre) first meta other block.opens
                block.names differs)
          ∙ e'
          ∙ each_line-next false act n (copied (pre ++ body)) (copied (pre ++ body)) last post
              (λ more.
                marshal_line-end p f.block_name (ok b) (copied (pre ++ body)) last more
                  block.closes)
          ∙ each_line-run_lines_end false act copying IsPlain step (suc n) (copied (pre ++ body))
              (copied ((pre ++ body) ++ post)) post hpost
              (run_lines-copying (copied (pre ++ body)) post refl)

module _ (p : Platform) (name first meta : Bytes) (opens : line_marker first ≡ block_start)
    (null : parse_metadata p meta ≡ ok none) where
  load_line-null :
      (s : Loading) → load_line p name s first meta ≡ stop (record s { found = true }) panic
  unfolding load_line
  load_line-null s = ground arith

  marshal_line-null :
      (block : Result Bytes) (s : Rendering) → marshal_line p name block s first meta ≡ stop s panic
  unfolding marshal_line
  marshal_line-null block s = ground arith

-- Metadata that is the JSON null, in the first block of a file, makes `Load` and `Marshal` panic.
pub null_metadata_panics :
    (p : Platform) (f : File) (now : ℕ) (pre : List Bytes) (first meta : Bytes) (rest : List Bytes)
    → f.locked ≡ false
    → All IsPlain pre
    → line_marker first ≡ block_start
    → parse_metadata p meta ≡ ok none
    → scan_lines f.contents ≡ record { lines = pre ++ (first ∷ meta ∷ rest); too_long = false }
    → ((load p background f).1 ≡ panic) × ((marshal p background now f).1 ≡ panic)
unfolding load marshal render
null_metadata_panics p f now pre first meta rest free hpre opens null scanned =
    (rw (free, scanned, loading_loop), rw (free, scanned, marshal_loop))
  where
    block : Result Bytes
    block = generate_block p f.block_name now f.hosts_file

    outside : Loading
    outside = record { found = false; hosts = f.hosts_file }

    there : Rendering
    there = record start_state { lines = pre }

    loading_loop :
        each_line background false
          (load_line p f.block_name)
          0
          (record { found = false; hosts = f.hosts_file })
          (pre ++ (first ∷ meta ∷ rest))
        ≡ (record { found = true; hosts = f.hosts_file }, panic)
    loading_loop =
        let (k, e) =
          each_line-stretch false (load_line p f.block_name) (loading p f.block_name) IsPlain
            (load_line-IsPlain p f.block_name) 0 outside outside pre (first ∷ meta ∷ rest) hpre
            (run_lines-outside p f.block_name outside pre refl) in
        e
        ∙ each_line-stop false (load_line p f.block_name) k outside _ panic first meta rest
            (load_line-null p f.block_name first meta opens null outside)

    marshal_loop :
        each_line background false
          (marshal_line p f.block_name (generate_block p f.block_name now f.hosts_file))
          0
          (record { lines = []; wrote_block = false; copy_lines = true })
          (pre ++ (first ∷ meta ∷ rest))
        ≡ (record { lines = pre; wrote_block = false; copy_lines = true }, panic)
    marshal_loop =
        let act = marshal_line p f.block_name block in
        let (k, e) =
          each_line-stretch false act copying IsPlain (marshal_line-IsPlain p f.block_name block) 0
            start_state there pre (first ∷ meta ∷ rest) hpre
            (run_lines-copying start_state pre refl) in
        e
        ∙ each_line-stop false act k there _ panic first meta rest
            (marshal_line-null p f.block_name first meta opens null block there)
