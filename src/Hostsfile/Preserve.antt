-- ===== src/Hostsfile/Preserve.antt =====
-- `Marshal` of pkg/hostsfile/parser.go and the lines outside the block.
use localizer.Base.{
  ◌≡◌, ◌≢◌, refl, ◌∙◌, true, false, List, [], ◌∷◌, ◌++◌, Bytes, All, Result, ok, arith, str_eq_iff,
  append_assoc, append-nil,
}
use localizer.Hostsfile.Scanner.{background, Turn, next, skip, each_line}
use localizer.Hostsfile.Scanner.Steps.{run_lines, each_line-run_lines_end}
use localizer.Hostsfile.Block.{Platform, block_start, block_end}
use localizer.Hostsfile.Layout.{line_marker, IsPlain, Names}
use localizer.Hostsfile.{Rendering, copy_line, marshal_line}

abbrev pub copying : Rendering → Bytes → Rendering
copying s line = copy_line line s

pub run_lines-copying :
    (s : Rendering) (ls : List Bytes)
    → s.copy_lines ≡ true
    → run_lines copying s ls ≡ record s { lines = s.lines ++ ls }
run_lines-copying s [] h = rw append-nil
run_lines-copying s (l ∷ ls) h =
    run_lines-copying (copy_line l s) ls h ∙ ground (arith, append_assoc s.lines (l ∷ []) ls)

module _ (p : Platform) (name : Bytes) (block : Result Bytes) where
  pub marshal_line-IsPlain :
      (s : Rendering) (line more : Bytes)
      → IsPlain line
      → marshal_line p name block s line more ≡ next (copy_line line s)
  unfolding marshal_line
  marshal_line-IsPlain s line more h = ground arith

  pub marshal_line-end :
      (s : Rendering) (line more : Bytes)
      → line_marker line ≡ block_end
      → marshal_line p name block s line more ≡ next (record s { copy_lines = true })
  unfolding marshal_line
  marshal_line-end s line more h = ground arith

  pub marshal_line-foreign :
      (s : Rendering) (line more other : Bytes)
      → line_marker line ≡ block_start
      → Names p more other
      → other ≢ name
      → marshal_line p name block s line more ≡ skip s
  unfolding marshal_line
  marshal_line-foreign s line more other h n ne =
      ground (arith, n.decoded, n.named, str_eq_iff n.metadata.block_name name)

abbrev pub start_state : Rendering
start_state = record { lines = []; wrote_block = false; copy_lines = true }

module _ (p : Platform) (name b : Bytes) where
  -- The body of the loop of `Marshal` where the block renders to `b`.
  abbrev pub turn : Rendering → Bytes → Bytes → Turn Rendering
  turn = marshal_line p name (ok b)

  pub loop_plain :
      (ls : List Bytes)
      → All IsPlain ls
      → each_line background false turn 0 start_state ls
        ≡ (record start_state { lines = ls }, ok tt)
  loop_plain ls h =
      each_line-run_lines_end false turn copying IsPlain (marshal_line-IsPlain p name (ok b)) 0
        start_state (record start_state { lines = ls }) ls h (run_lines-copying start_state ls refl)
