-- ===== src/Hostsfile.antt =====
-- pkg/hostsfile/parser.go: a hosts file with one managed block.
pub mod Scanner
pub mod Block
pub mod Layout
pub mod Preserve
pub mod Generated
pub mod Reading
pub mod RoundTrip
pub mod Edits
pub mod Saving
pub mod Foreign
pub mod Returning
pub mod Disks
pub mod Limits
pub mod Oversized
pub mod Unreadable
use localizer.Base.{
  ℕ, Bool, true, false, List, [], ◌∷◌, ◌++◌, Option, none, some, Bytes, codes, str_eq, split, join,
  if◌then◌else◌, Result, ok, err, panic, blocked, ◌>>=◌, wrap,
}
use localizer.Base.Dict.{Dict, delete, insert}
use Scanner.{scan_lines, Context, Turn, next, skip, stop, each_line}
use Block.{
  HostLine, Platform, block_start, block_end, plain, marker, parse_metadata, generate_block,
}

-- `locked` is the state of `lock`. `saveLock` is always given back, and is left out.
pub record File : Type 0 where
  pub file_location : Bytes
  pub contents : Bytes
  pub block_name : Bytes
  pub locked : Bool
  pub hosts_file : Dict HostLine

unfoldable pub new_with_contents : Bytes → Bytes → File
unfolding str_eq
new_with_contents section_name contents = record {
  file_location = [];
  contents = contents;
  block_name = if str_eq section_name [] then codes "localizer" else section_name;
  locked = false;
  hosts_file = [];
}

-- The argument `read` is `ioutil.ReadFile`.
unfoldable pub new : (Bytes → Result Bytes) → Bytes → Bytes → Result File
unfolding new_with_contents
new read location section_name = do
  let path = if str_eq location [] then codes "/etc/hosts" else location
  b ← read path
  ok (record (new_with_contents section_name b) { file_location = path })

-- A method waits for `lock`, and gives it back when it returns.
abbrev pub with_lock {ℓ} : {A : Type ℓ} → (File → File × Result A) → File → File × Result A
with_lock action f = if f.locked then (f, blocked) else action f

pub record Loading : Type 0 where
  pub found : Bool
  pub hosts : Dict HostLine

pub record Rendering : Type 0 where
  pub lines : List Bytes
  pub wrote_block : Bool
  pub copy_lines : Bool

-- `contents = append(contents, scanner.Text())`, unless lines are being discarded
abbrev pub copy_line : Bytes → Rendering → Rendering
copy_line line s = record s { lines = if s.copy_lines then s.lines ++ (line ∷ []) else s.lines }

-- The block stands in the place of the old one, whose lines are discarded.
abbrev pub write_block : Result Bytes → Rendering → Turn Rendering
write_block (ok b) s =
    skip (record { lines = s.lines ++ (b ∷ []); wrote_block = true; copy_lines = false })
write_block (err e) s = stop s (wrap (codes "failed to generate hosts entries") (err e))
write_block panic s = stop s panic
write_block blocked s = stop s blocked

-- What stands behind the loop: the block goes to the end, if no place for it was found.
unfoldable pub render : Result Bytes → Rendering × Result (Unit {0}) → Result Bytes
unfolding join
render block (s, done) = do
  _ ← done
  if s.wrote_block then ok (join s.lines b'\n') else (do
    b ← wrap (codes "failed to generate hosts entries") block
    ok (join (s.lines ++ (b ∷ [])) b'\n'))

module _ (p : Platform) where
  -- Behind the test of `foundBlock`: a line with an address and one host or more is an entry.
  enter : List Bytes → Dict HostLine → Dict HostLine
  unfolding insert
  enter (chunk ∷ host ∷ hosts) m = elim (p.parse_ip chunk) [
    | none ↦ m
    | some ip ↦ insert (p.ip_string ip) (record { addresses = host ∷ hosts }) m
  ]
  enter _ m = m

  -- The part of the loop of `Load` behind the switch.
  unfoldable pub load_entry : List Bytes → Loading → Loading
  unfolding enter
  load_entry chunks s = if s.found then record s { hosts = enter chunks s.hosts } else s

  unfoldable pub load_line : Bytes → Loading → Bytes → Bytes → Turn Loading
  unfolding load_entry marker parse_metadata split
  load_line name s line more = elim (split line b' ') [
    | [] ↦ next s
    | chunk ∷ chunks ↦ elim (marker chunk) [
      | block_start ↦
          let s' = record s { found = true } in
          elim (parse_metadata p more) [
            | ok (some m) ↦
                if str_eq m.block_name name then skip (load_entry (chunk ∷ chunks) s') else skip s'
            | ok none ↦ stop s' panic
            | err e ↦ stop s' (err e)
            | panic ↦ stop s' panic
            | blocked ↦ stop s' blocked
          ]
      | block_end ↦ next (record s { found = false })
      | plain ↦ next (load_entry (chunk ∷ chunks) s)
    ]
  ]

  unfoldable pub load : Context → File → File × Result (Unit {0})
  unfolding load_line each_line scan_lines
  load ctx = with_lock λ f.
      let sc = scan_lines f.contents in
      let (s, r) =
        each_line ctx sc.too_long (load_line f.block_name) 0
          (record { found = false; hosts = f.hosts_file }) sc.lines in
      (record f { hosts_file = s.hosts }, r)

  -- The loop body, where `block` is what `generateBlock` returns.
  unfoldable pub marshal_line : Bytes → Result Bytes → Rendering → Bytes → Bytes → Turn Rendering
  unfolding marker parse_metadata split
  marshal_line name block s line more = elim (split line b' ') [
    | [] ↦ next (copy_line line s)
    | chunk ∷ chunks ↦ elim (marker chunk) [
      | block_start ↦ elim (parse_metadata p more) [
        | ok (some m) ↦ if str_eq m.block_name name then write_block block s else skip s
        | ok none ↦ stop s panic
        | err e ↦ stop s (err e)
        | panic ↦ stop s panic
        | blocked ↦ stop s blocked
      ]
      | block_end ↦ next (record s { copy_lines = true })
      | plain ↦ next (copy_line line s)
    ]
  ]

  unfoldable pub marshal : Context → ℕ → File → File × Result Bytes
  unfolding marshal_line each_line scan_lines generate_block render
  marshal ctx now = with_lock λ f.
      let sc = scan_lines f.contents in
      let block = generate_block p f.block_name now f.hosts_file in
      (
        f,
        render block (
            each_line ctx sc.too_long (marshal_line f.block_name block) 0
              (record { lines = []; wrote_block = false; copy_lines = true }) sc.lines),
      )

-- The hosts file on disk as `Save` finds it, and what a failing write answers and leaves.
pub record Disk : Type 0 where
  pub text : Result Bytes
  pub write_fault : Option (Bytes × Result Bytes)

write_file : Bytes → Disk → Disk × Result (Unit {0})
write_file b d = elim d.write_fault [
  | none ↦ (record d { text = ok b }, ok tt)
  | some (e, left) ↦ (record d { text = left }, err e)
]

module _ (p : Platform) where
  -- `Save` behind the read of the disk.
  save_marshalled : Context → ℕ → File → Disk → File × Disk × Result (Unit {0})
  unfolding marshal write_file
  save_marshalled ctx now f d =
      elim (wrap (codes "failed to marshal hostsfile") (marshal p ctx now f).1) [
        | ok b ↦ let (d', r) = write_file b d in (f, d', r)
        | err e ↦ (f, d, err e)
        | panic ↦ (f, d, panic)
        | blocked ↦ (f, d, blocked)
      ]

  -- A failing read returns between `Lock` and `Unlock`.
  unfoldable pub save : Context → ℕ → File → Disk → File × Disk × Result (Unit {0})
  unfolding save_marshalled
  save ctx now f d =
      if str_eq f.file_location []
      then (f, d, err (codes "can't write, was not loaded from a file"))
      else if f.locked
      then (f, d, blocked)
      else elim d.text [
        | ok b ↦ save_marshalled ctx now (record f { contents = b }) d
        | err e ↦ (record f { locked = true }, d, err e)
        | panic ↦ (record f { locked = true }, d, panic)
        | blocked ↦ (record f { locked = true }, d, blocked)
      ]

  -- The first host that is no DNS name.
  unfoldable pub first_invalid : List Bytes → Option Bytes
  first_invalid [] = none
  first_invalid (h ∷ hosts) =
      let rest = first_invalid hosts in if p.is_dns_name h then rest else some h

  unfoldable pub add_hosts : Bytes → List Bytes → File → File × Result (Unit {0})
  unfolding first_invalid insert
  add_hosts ip_address hosts = with_lock λ f. elim (first_invalid hosts) [
    | some h ↦ (f, err (codes "'" ++ (h ++ codes "' is not a valid dns name")))
    | none ↦ (
      record f { hosts_file = insert ip_address (record { addresses = hosts }) f.hosts_file },
      ok tt,
    )
  ]

unfoldable pub remove_address : Bytes → File → File × Result (Unit {0})
unfolding delete
remove_address ip_address =
    with_lock λ f. (record f { hosts_file = delete ip_address f.hosts_file }, ok tt)
