-- ===== src/Hostsfile/Returning.antt =====
-- The calls of pkg/hostsfile/parser.go that come back.
use localizer.Base.{
  ℕ, suc, ◌≡◌, refl, sym, subst, Bool, true, false, List, [], ◌∷◌, Option, none, some, Bytes, codes,
  Result, ok, err, panic, blocked, goes_on, wrap, arith, str_eq, Option-cases, Bool-cases, inl, inr,
}
use localizer.Base.Dict.{Dict}
use localizer.Hostsfile.Scanner.{scan_lines, Context, Turn, next, skip, stop, each_line}
use localizer.Hostsfile.Scanner.Limits.{turn_cases}
use localizer.Hostsfile.Block.{Metadata, HostLine, Platform, parse_metadata, generate_block}
use localizer.Hostsfile.{
  File, Disk, Loading, Rendering, load_line, load, marshal_line, marshal, render, save_marshalled,
  save, write_file, first_invalid, add_hosts, remove_address,
}

-- A turn of a loop that does not end it by a panic or a wait.
abbrev ends_well {ℓ} : {S : Type ℓ} → Turn S → Bool
ends_well (next s) = true
ends_well (skip s) = true
ends_well (stop s r) = goes_on r

each_line-answers {ℓ} :
    {S : Type ℓ} (ctx : Context) (too_long : Bool) (body : S → Bytes → Bytes → Turn S)
    → ((s : S) (line more : Bytes) → ends_well (body s line more) ≡ true)
    → (n : ℕ) (s : S) (ls : List Bytes) → goes_on (each_line ctx too_long body n s ls).1 ≡ true
unfolding each_line
each_line-answers ctx too_long body h n s [] = ground arith
each_line-answers ctx too_long body h n s (line ∷ []) = ground (arith, h s line [])
each_line-answers ctx too_long body h n s (line ∷ more ∷ rest) = elim (Option-cases (ctx n)) [
  | inr (e, done) ↦ ground arith
  | inl live ↦ elim (turn_cases (body s line more)) [
    | inl (t, e) ↦
        rw (live, e, each_line) (each_line-answers ctx too_long body h (suc n) t (more ∷ rest))
    | inr (inl (t, e)) ↦
        rw (live, e, each_line) (each_line-answers ctx too_long body h (suc n) t rest)
    | inr (inr (t, r, e)) ↦ ground (arith, h s line more)
  ]
]

-- Metadata, or an error; no nil pointer.
abbrev pub decodes : Result (Option Metadata) → Bool
decodes (ok (some m)) = true
decodes (ok none) = false
decodes (err e) = true
decodes panic = false
decodes blocked = false

-- The JSON encoder and decoder come back, and the decoder never gives a nil pointer.
pub record Answers (p : Platform) : Type 0 where
  pub encoded : (m : Metadata) → goes_on (p.to_json m) ≡ true
  pub decoded : (j : Bytes) → decodes (p.from_json j) ≡ true

wrap_decodes :
    (message : Bytes) (r : Result (Option Metadata))
    → decodes r ≡ true
    → decodes (wrap message r) ≡ true
wrap_decodes message (ok (some m)) h = refl
wrap_decodes message (ok none) h = cc
wrap_decodes message (err e) h = refl
wrap_decodes message panic h = cc
wrap_decodes message blocked h = cc

module _ (p : Platform) (answers : Answers p) where
  metadata-answers : (line : Bytes) → decodes (parse_metadata p line) ≡ true
  unfolding parse_metadata
  metadata-answers line =
      wrap_decodes (codes "failed to parse metadata, is the file corrupted?") (p.from_json _)
        (answers.decoded _)

  load_line-answers :
      (name : Bytes) (s : Loading) (line more : Bytes)
      → ends_well (load_line p name s line more) ≡ true
  unfolding load_line
  load_line-answers name s line more = ground (arith, metadata-answers more)

  block-answers :
      (name : Bytes) (now : ℕ) (hosts : Dict HostLine)
      → goes_on (generate_block p name now hosts) ≡ true
  unfolding generate_block
  block-answers name now hosts =
      ground (arith, answers.encoded (record { block_name = name; last_modified = now }))

  marshal_line-answers :
      (name : Bytes) (block : Result Bytes)
      → goes_on block ≡ true
      → (s : Rendering) (line more : Bytes)
      → ends_well (marshal_line p name block s line more) ≡ true
  unfolding marshal_line
  marshal_line-answers name block h s line more = ground (arith, metadata-answers more)

  render-answers :
      (block : Result Bytes) (s : Rendering) (r : Result (Unit {0}))
      → goes_on block ≡ true
      → goes_on r ≡ true
      → goes_on (render block (s, r)) ≡ true
  unfolding render
  render-answers block s r h g = ground arith

  marshal-answers :
      (ctx : Context) (now : ℕ) (f : File)
      → f.locked ≡ false
      → ((marshal p ctx now f).0 ≡ f) × (goes_on (marshal p ctx now f).1 ≡ true)
  unfolding marshal
  marshal-answers ctx now f free =
      let block = generate_block p f.block_name now f.hosts_file in
      let made = block-answers f.block_name now f.hosts_file in
      let sc = scan_lines f.contents in
      let ran =
        each_line ctx sc.too_long (marshal_line p f.block_name block) 0
          (record { lines = []; wrote_block = false; copy_lines = true }) sc.lines in
      let looped =
        each_line-answers ctx sc.too_long (marshal_line p f.block_name block)
          (marshal_line-answers f.block_name block made) 0
          (record { lines = []; wrote_block = false; copy_lines = true }) sc.lines in
      rw free (refl, render-answers block ran.0 ran.1 made looped)

  load-answers :
      (ctx : Context) (f : File)
      → f.locked ≡ false
      → ((load p ctx f).0.locked ≡ false) × (goes_on (load p ctx f).1 ≡ true)
  unfolding load
  load-answers ctx f free =
      let sc = scan_lines f.contents in
      ground (
        arith,
        each_line-answers ctx sc.too_long (load_line p f.block_name)
            (load_line-answers f.block_name) 0 (record { found = false; hosts = f.hosts_file })
            sc.lines,
      )

  add_hosts-answers :
      (ip : Bytes) (hosts : List Bytes) (f : File)
      → f.locked ≡ false
      → ((add_hosts p ip hosts f).0.locked ≡ false) × (goes_on (add_hosts p ip hosts f).1 ≡ true)
  unfolding add_hosts
  add_hosts-answers ip hosts f free = elim (Option-cases (first_invalid p hosts)) [
    | inl valid ↦ ground arith
    | inr (h, bad) ↦ ground arith
  ]

  save_marshalled-answers :
      (ctx : Context) (now : ℕ) (f : File) (d : Disk)
      → f.locked ≡ false
      → ((save_marshalled p ctx now f d).0.locked ≡ false)
        × (goes_on (save_marshalled p ctx now f d).2 ≡ true)
  unfolding save_marshalled write_file
  save_marshalled-answers ctx now f d free =
      let (same, went) = marshal-answers ctx now f free in ground (arith, went)

  save-answers :
      (ctx : Context) (now : ℕ) (f : File) (d : Disk) (text : Bytes)
      → f.locked ≡ false
      → d.text ≡ ok text
      → ((save p ctx now f d).0.locked ≡ false) × (goes_on (save p ctx now f d).2 ≡ true)
  unfolding save
  save-answers ctx now f d text free read = elim (Bool-cases (str_eq f.file_location [])) [
    | inl nowhere ↦ rw (nowhere, save) (free, refl)
    | inr somewhere ↦
        subst (λ t. (t.0.locked ≡ false) × (goes_on t.2 ≡ true)) (sym (reads somewhere))
          (save_marshalled-answers ctx now (record f { contents = text }) d free)
  ]
    where
      reads :
          str_eq f.file_location [] ≡ false
          → save p ctx now f d ≡ save_marshalled p ctx now (record f { contents = text }) d
      reads somewhere = ground arith

  pub methods-answers :
      (ctx : Context) (f : File)
      → f.locked ≡ false
      → ((load p ctx f).0.locked ≡ false)
        × (goes_on (load p ctx f).1 ≡ true)
        × ((now : ℕ) → ((marshal p ctx now f).0 ≡ f) × (goes_on (marshal p ctx now f).1 ≡ true))
        × ((ip : Bytes) (hosts : List Bytes)
            → ((add_hosts p ip hosts f).0.locked ≡ false)
              × (goes_on (add_hosts p ip hosts f).1 ≡ true))
        × ((ip : Bytes) → (remove_address ip f).1 ≡ ok tt)
        × ((now : ℕ) (d : Disk) (text : Bytes)
            → d.text ≡ ok text
            → ((save p ctx now f d).0.locked ≡ false) × (goes_on (save p ctx now f d).2 ≡ true))
  unfolding remove_address
  methods-answers ctx f free =
      let (unlocked, loaded) = load-answers ctx f free in
      (
        unlocked,
        loaded,
        λ now. marshal-answers ctx now f free,
        λ ip hosts. add_hosts-answers ip hosts f free,
        λ ip. rw free refl,
        λ now d text read. save-answers ctx now f d text free read,
      )
