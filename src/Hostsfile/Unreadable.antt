-- ===== src/Hostsfile/Unreadable.antt =====
-- What `Save` of pkg/hostsfile/parser.go does to the file with a host entry that is too long.
use localizer.Base.{
  ℕ, ◌≡◌, ◌≢◌, ◌≤◌, refl, sym, ap, subst, ◌∙◌, Bool, true, false, List, [], ◌∷◌, ◌++◌, none, some,
  Option, Bytes, split, join, Lacks, length, Result, ok, err, panic, blocked, arith, str_eq,
  if◌then◌else◌, Bool-cases, inl, inr, is_ok, is_err, is_panic, is_blocked, result_cases,
  append_assoc, split_cons,
}
use localizer.Base.Dict.{lookup}
use localizer.Hostsfile.Scanner.{max_token, scan_lines, Context, each_line}
use localizer.Hostsfile.Scanner.Limits.{AllShort, AtEnd, each_line-keeps}
use localizer.Hostsfile.Block.{
  Platform, HostLine, Metadata, Marker, host_line, generate_block, marker, block_start, block_end,
  plain, parse_metadata,
}
use localizer.Hostsfile.{
  File, Disk, Rendering, copy_line, write_block, marshal_line, marshal, render, load, save,
  save_marshalled, write_file,
}
use localizer.Hostsfile.Limits.{methods-short}
use localizer.Hostsfile.Oversized.{
  Contains, Among, Contains-trans, Contains-join-Among, short_of_Contains, generate_block-Contains,
}

-- Once the block was written, it is among the lines.
abbrev Wrote : Result Bytes → Rendering → Type 0
Wrote block s = s.wrote_block ≡ true → (b : Bytes) × (block ≡ ok b) × Among b s.lines

Among-more :
    (b : Bytes) (s : Bool) (lines : List Bytes) (line : Bytes)
    → Among b lines
    → Among b (if s then lines ++ (line ∷ []) else lines)
Among-more b true lines line (x, y, e) =
    (x, y ++ (line ∷ []), ap (λ q. q ++ (line ∷ [])) e ∙ append_assoc x (b ∷ y) (line ∷ []))
Among-more b false lines line h = h

copy_line-Wrote :
    (block : Result Bytes) (line : Bytes) (s : Rendering)
    → Wrote block s
    → Wrote block (copy_line line s)
copy_line-Wrote block line s h w =
    let (b, e, there) = h w in (b, e, Among-more b s.copy_lines s.lines line there)

write_block-Wrote :
    (block : Result Bytes) (s : Rendering)
    → Wrote block s
    → AtEnd (Wrote block) (write_block block s)
write_block-Wrote (ok b) s h = λ w. (b, refl, (s.lines, [], refl))
write_block-Wrote (err e) s h = h
write_block-Wrote panic s h = h
write_block-Wrote blocked s h = h

module _ (p : Platform) where
  marshal_line-Wrote :
      (name : Bytes) (block : Result Bytes) (s : Rendering) (line more : Bytes)
      → Wrote block s
      → AtEnd (Wrote block) (marshal_line p name block s line more)
  unfolding marshal_line
  marshal_line-Wrote name block s line more h =
      let (chunk, chunks, e) = split_cons b' ' line in by_marker chunk chunks e (marker chunk) refl
    where
      by_metadata :
          (o : Option Metadata) (chunk : Bytes) (chunks : List Bytes)
          → split line b' ' ≡ chunk ∷ chunks
          → marker chunk ≡ block_start
          → parse_metadata p more ≡ ok o
          → AtEnd (Wrote block) (marshal_line p name block s line more)
      by_metadata none chunk chunks e q r = rw (e, q, r, marshal_line) h
      by_metadata (some m) chunk chunks e q r = elim (Bool-cases (str_eq m.block_name name)) [
        | inl own ↦ rw (e, q, r, own, marshal_line) (write_block-Wrote block s h)
        | inr other ↦ rw (e, q, r, other, marshal_line) h
      ]

      by_marker :
          (chunk : Bytes) (chunks : List Bytes)
          → split line b' ' ≡ chunk ∷ chunks
          → (k : Marker) → marker chunk ≡ k
          → AtEnd (Wrote block) (marshal_line p name block s line more)
      by_marker chunk chunks e block_start q = elim (result_cases (parse_metadata p more)) [
        | is_ok o r ↦ by_metadata o chunk chunks e q r
        | is_err m r ↦ rw (e, q, r, marshal_line) h
        | is_panic r ↦ rw (e, q, r, marshal_line) h
        | is_blocked r ↦ rw (e, q, r, marshal_line) h
      ]
      by_marker chunk chunks e block_end q = rw (e, q, marshal_line) h
      by_marker chunk chunks e plain q = rw (e, q, marshal_line) (copy_line-Wrote block line s h)

  -- What `Marshal` returns has the block in it.
  render-Contains :
      (block : Result Bytes) (t : Rendering × Result (Unit {0})) (b : Bytes)
      → Wrote block t.0
      → render block t ≡ ok b
      → (blk : Bytes) × (block ≡ ok blk) × Contains blk b
  unfolding render
  render-Contains block (s, err e) b w h = cc
  render-Contains block (s, panic) b w h = cc
  render-Contains block (s, blocked) b w h = cc
  render-Contains block (s, ok _) b w h = elim (Bool-cases s.wrote_block) [
    | inl wrote ↦
        let (blk, e, there) = w wrote in
        let same : join s.lines b'\n' ≡ b = ground arith in
        (blk, e, subst (Contains blk) same (Contains-join-Among blk s.lines there))
    | inr not_yet ↦ elim (result_cases block) [
      | is_ok blk e ↦
          let same : join (s.lines ++ (blk ∷ [])) b'\n' ≡ b = ground arith in
          (
            blk,
            e,
            subst (Contains blk) same
                (Contains-join-Among blk (s.lines ++ (blk ∷ [])) (s.lines, [], refl)),
          )
      | is_err m e ↦ absurd (ground arith)
      | is_panic e ↦ absurd (ground arith)
      | is_blocked e ↦ absurd (ground arith)
    ]
  ]

  marshal-Contains :
      (ctx : Context) (now : ℕ) (f : File) (b ip : Bytes) (h : HostLine)
      → lookup ip f.hosts_file ≡ some h
      → (marshal p ctx now f).1 ≡ ok b
      → Contains (host_line f.hosts_file ip) b
  unfolding marshal
  marshal-Contains ctx now f b ip h there made = elim (Bool-cases f.locked) [
    | inl held ↦ absurd (ground arith)
    | inr free ↦
        let sc = scan_lines f.contents in
        let block = generate_block p f.block_name now f.hosts_file in
        let start : Rendering = record { lines = []; wrote_block = false; copy_lines = true } in
        let body = marshal_line p f.block_name block in
        let run = each_line ctx sc.too_long body 0 start sc.lines in
        let rendered : render block run ≡ ok b = ground arith in
        let wrote =
          each_line-keeps (Wrote block) ctx sc.too_long body (marshal_line-Wrote f.block_name block)
            0 start sc.lines (λ w. cc) in
        let (blk, e, inside) = render-Contains block run b wrote rendered in
        Contains-trans (host_line f.hosts_file ip) blk b
          (generate_block-Contains p f.block_name blk now f.hosts_file ip h there e) inside
  ]

  -- `Save` writes what `Marshal` makes of the text on the disk.
  save-writes :
      (ctx : Context) (now : ℕ) (f : File) (d : Disk)
      → (save p ctx now f d).2 ≡ ok tt
      → (text : Bytes) × (b : Bytes) × ((marshal p ctx now (record f { contents = text })).1 ≡ ok b)
        × ((save p ctx now f d).1.text ≡ ok b)
  unfolding save save_marshalled write_file
  save-writes ctx now f d h = elim (Bool-cases (str_eq f.file_location [])) [
    | inl nowhere ↦ absurd (ground arith)
    | inr somewhere ↦ elim (Bool-cases f.locked) [
      | inl held ↦ absurd (ground arith)
      | inr free ↦ elim (result_cases d.text) [
        | is_err m e ↦ absurd (ground arith)
        | is_panic e ↦ absurd (ground arith)
        | is_blocked e ↦ absurd (ground arith)
        | is_ok text e ↦ elim (result_cases (marshal p ctx now (record f { contents = text })).1) [
          | is_ok b q ↦ (text, b, q, ground arith)
          | is_err m q ↦ absurd (ground arith)
          | is_panic q ↦ absurd (ground arith)
          | is_blocked q ↦ absurd (ground arith)
        ]
      ]
    ]
  ]

  -- An address with so many or so long hosts that its line has 65536 bytes or more makes the hosts file
  -- unreadable: a `Save` that succeeds writes the line, and from then on no `Load` of that
  -- text and no `Save` over that disk succeeds, at any time and by any file. For hosts with no newline.
  pub save_unreadable :
      (ctx : Context) (now : ℕ) (f : File) (d : Disk) (ip : Bytes) (h : HostLine)
      → lookup ip f.hosts_file ≡ some h
      → Lacks b'\n' (host_line f.hosts_file ip)
      → max_token ≤ length (host_line f.hosts_file ip)
      → (save p ctx now f d).2 ≡ ok tt
      → let d' = (save p ctx now f d).1 in
        (text : Bytes) × (d'.text ≡ ok text)
        × ((ctx' : Context) (g : File) → g.contents ≡ text → (load p ctx' g).1 ≢ ok tt)
        × ((ctx' : Context) (now' : ℕ) (g : File) → (save p ctx' now' g d').2 ≢ ok tt)
  save_unreadable ctx now f d ip h there free long saved =
      let (text, b, made, written) = save-writes ctx now f d saved in
      let inside = marshal-Contains ctx now (record f { contents = text }) b ip h there made in
      let refused : AllShort b → ⊥ = λ short.
        let bound = short_of_Contains (host_line f.hosts_file ip) b free inside short in
        omega arith in
      (
        b,
        written,
        (λ ctx' g e loaded. refused (subst AllShort e ((methods-short p ctx' now g d).0 loaded))),
        λ ctx' now' g again.
            let (t, e, short) = (methods-short p ctx' now' g (save p ctx now f d).1).2 again in
            let same : t ≡ b = ok-injective (sym e ∙ written) in
            refused (subst AllShort same short),
      )
    where
      ok-injective : {x y : Bytes} → ok x ≡ ok y → x ≡ y
      ok-injective e = cc
