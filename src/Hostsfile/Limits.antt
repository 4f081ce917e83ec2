-- ===== src/Hostsfile/Limits.antt =====
-- How long the lines of a hosts file may be for pkg/hostsfile/parser.go.
use localizer.Base.{
  ℕ, ◌≡◌, refl, sym, ◌∙◌, true, false, [], Bytes, split, Result, ok, err, panic, blocked, arith,
  str_eq, Bool-cases, inl, inr, is_ok, is_err, is_panic, is_blocked, result_cases,
}
use localizer.Hostsfile.Scanner.{scan_lines, Context, each_line}
use localizer.Hostsfile.Scanner.Limits.{
  scan_lines-long, AllShort, short_lines, GoesOn, each_line-ok,
}
use localizer.Hostsfile.Block.{Platform, generate_block}
use localizer.Hostsfile.{
  File, Disk, Loading, Rendering, load_line, load, marshal_line, marshal, render, save_marshalled,
  save,
}

module _ (p : Platform) where
  load_line-GoesOn :
      (name : Bytes) (s : Loading) (line more : Bytes) → GoesOn (load_line p name s line more)
  unfolding load_line
  load_line-GoesOn name s line more = ground arith

  marshal_line-GoesOn :
      (name : Bytes) (block : Result Bytes) (s : Rendering) (line more : Bytes)
      → GoesOn (marshal_line p name block s line more)
  unfolding marshal_line
  marshal_line-GoesOn name block s line more = ground arith

  short_of_scan : (text : Bytes) → (scan_lines text).too_long ≡ false → AllShort text
  short_of_scan text h = short_lines (split text b'\n') (sym (scan_lines-long text) ∙ h)

  load-short : (ctx : Context) (f : File) → (load p ctx f).1 ≡ ok tt → AllShort f.contents
  unfolding load
  load-short ctx f h = elim (Bool-cases f.locked) [
    | inl held ↦ absurd (ground arith)
    | inr free ↦
        let sc = scan_lines f.contents in
        short_of_scan f.contents (
          each_line-ok ctx sc.too_long (load_line p f.block_name) (load_line-GoesOn f.block_name) 0
            (record { found = false; hosts = f.hosts_file }) sc.lines (ground arith))
  ]

  render-ok :
      (block : Result Bytes) (t : Rendering × Result (Unit {0})) (b : Bytes)
      → render block t ≡ ok b
      → t.1 ≡ ok tt
  unfolding render
  render-ok block (s, ok _) b h = refl
  render-ok block (s, err e) b h = cc
  render-ok block (s, panic) b h = cc
  render-ok block (s, blocked) b h = cc

  marshal-short :
      (ctx : Context) (now : ℕ) (f : File) (b : Bytes)
      → (marshal p ctx now f).1 ≡ ok b
      → AllShort f.contents
  unfolding marshal
  marshal-short ctx now f b h = elim (Bool-cases f.locked) [
    | inl held ↦ absurd (ground arith)
    | inr free ↦
        let sc = scan_lines f.contents in
        let block = generate_block p f.block_name now f.hosts_file in
        let start : Rendering = record { lines = []; wrote_block = false; copy_lines = true } in
        let run = each_line ctx sc.too_long (marshal_line p f.block_name block) 0 start sc.lines in
        let rendered : render block run ≡ ok b = ground arith in
        short_of_scan f.contents (
          each_line-ok ctx sc.too_long (marshal_line p f.block_name block)
            (marshal_line-GoesOn f.block_name block) 0 start sc.lines
            (render-ok block run b rendered))
  ]

  save-marshals :
      (ctx : Context) (now : ℕ) (f : File) (d : Disk)
      → (save p ctx now f d).2 ≡ ok tt
      → (text : Bytes) × (d.text ≡ ok text)
        × (b : Bytes) × ((marshal p ctx now (record f { contents = text })).1 ≡ ok b)
  unfolding save save_marshalled
  save-marshals ctx now f d h = elim (Bool-cases (str_eq f.file_location [])) [
    | inl nowhere ↦ absurd (ground arith)
    | inr somewhere ↦ elim (Bool-cases f.locked) [
      | inl held ↦ absurd (ground arith)
      | inr free ↦ elim (result_cases d.text) [
        | is_err m e ↦ absurd (ground arith)
        | is_panic e ↦ absurd (ground arith)
        | is_blocked e ↦ absurd (ground arith)
        | is_ok text e ↦ elim (result_cases (marshal p ctx now (record f { contents = text })).1) [
          | is_ok b q ↦ (text, e, b, q)
          | is_err m q ↦ absurd (ground arith)
          | is_panic q ↦ absurd (ground arith)
          | is_blocked q ↦ absurd (ground arith)
        ]
      ]
    ]
  ]

  -- A hosts file is read and written only if each of its lines is shorter than 65536 bytes: `Load`
  -- and `Marshal` succeed only on such a text, and `Save` only where the disk has one.
  pub methods-short :
      (ctx : Context) (now : ℕ) (f : File) (d : Disk)
      → ((load p ctx f).1 ≡ ok tt → AllShort f.contents)
        × ((b : Bytes) → (marshal p ctx now f).1 ≡ ok b → AllShort f.contents)
        × ((save p ctx now f d).2 ≡ ok tt → (text : Bytes) × (d.text ≡ ok text) × AllShort text)
  methods-short ctx now f d = (
    load-short ctx f,
    marshal-short ctx now f,
    λ h.
        let (text, e, b, q) = save-marshals ctx now f d h in
        (text, e, marshal-short ctx now (record f { contents = text }) b q),
  )
