-- ===== src/Tests/Hosts.antt =====
-- Runs of the models of pkg/hostsfile.
use localizer.Base.{
  ℕ, ◌≡◌, refl, List, [], ◌∷◌, none, some, Bytes, codes, join, split, str_eq, All, if◌then◌else◌,
  ok, err, panic, blocked, arith,
}
use localizer.Base.Dict.{Dict, lookup}
use localizer.Hostsfile.Scanner.{scan_lines, Context, background}
use localizer.Hostsfile.Block.{
  HostLine, marker, parse_metadata, generate_block, addresses_of, host_line,
}
use localizer.Hostsfile.Layout.{Names, IsBlock, IsEntry}
use localizer.Hostsfile.Block.Sorting.{elem}
use localizer.Hostsfile.Saving.{save_keeps_lock}
use localizer.Hostsfile.Foreign.{load_foreign, marshal_foreign, null_metadata_panics}
use localizer.Hostsfile.{Disk, load, marshal, save, add_hosts, remove_address}
use localizer.Tests.Samples.{
  platform, block_name, platform-IsLawful, a_file, new_block, foreign_file, other_only, null_file,
}

generated : generate_block platform block_name 7 a_file.hosts_file ≡ ok new_block
unfolding generate_block
generated = refl

names : Names platform (codes "###localizer") block_name
unfolding parse_metadata str_eq
names = record {
  metadata = record { block_name = block_name; last_modified = 0 };
  decoded = refl;
  named = refl;
}

save_keeps_lock_example :
    let gone : Disk = record { text = err (codes "permission denied"); write_fault = none } in
    let g = (save platform background 7 a_file gone).0 in
    ((save platform background 7 a_file gone).2 ≡ err (codes "permission denied"))
    × ((c : Context) → (load platform c g).1 ≡ blocked)
    × ((c : Context) (n : ℕ) → (marshal platform c n g).1 ≡ blocked)
    × ((ip : Bytes) (hosts : List Bytes) → (add_hosts platform ip hosts g).1 ≡ blocked)
    × ((ip : Bytes) → (remove_address ip g).1 ≡ blocked)
    × ((c : Context) (n : ℕ) (disk : Disk) → (save platform c n g disk).2 ≡ blocked)
save_keeps_lock_example =
    save_keeps_lock platform a_file
      (record { text = err (codes "permission denied"); write_fault = none }) (λ e. cc) refl
      background 7 (codes "permission denied") refl

other-Names : Names platform (codes "###other") (codes "other")
unfolding parse_metadata str_eq
other-Names = record {
  metadata = record { block_name = codes "other"; last_modified = 0 };
  decoded = refl;
  named = refl;
}

other-IsBlock :
    IsBlock platform
      (codes "other")
      (codes "###start-hostfile")
      (codes "###other")
      (codes "127.0.0.9 gone" ∷ [])
      (codes "###end-hostfile")
unfolding split marker
other-IsBlock = record { opens = refl; names = other-Names; inside = (refl, tt); closes = refl }

marshal_foreign_example : marshal platform background 7 foreign_file ≡ (
  foreign_file,
  ok (join (codes "first" ∷ codes "127.0.0.9 gone" ∷ codes "last" ∷ new_block ∷ []) b'\n'),
)
unfolding split marker scan_lines
marshal_foreign_example =
    marshal_foreign platform foreign_file (codes "other") (codes "###start-hostfile")
      (codes "###other") (codes "###end-hostfile") (λ e. cc) 7 new_block (codes "first" ∷ [])
      (codes "127.0.0.9 gone" ∷ []) (codes "last" ∷ []) refl (refl, tt) other-IsBlock (refl, tt)
      refl generated

abbrev gone_hosts : Dict HostLine
gone_hosts = (codes "127.0.0.9", record { addresses = codes "gone" ∷ [] }) ∷ []

gone_fits : All (λ ip. IsEntry platform ip (addresses_of gone_hosts ip)) (codes "127.0.0.9" ∷ [])
unfolding addresses_of lookup str_eq join
gone_fits = (
  record {
    parsed = codes "127.0.0.9";
    parses = refl;
    canonical = refl;
    some_host = λ e. cc;
    words = ground arith;
    short = ground arith;
  },
  tt,
)

load_foreign_example :
    ((load platform background other_only).1 ≡ ok tt)
    × (lookup (codes "127.0.0.9") (load platform background other_only).0.hosts_file ≡ (
        if elem (codes "127.0.0.9") (codes "127.0.0.9" ∷ [])
        then some (record { addresses = addresses_of gone_hosts (codes "127.0.0.9") })
        else lookup (codes "127.0.0.9") a_file.hosts_file))
unfolding scan_lines split host_line addresses_of lookup str_eq join
load_foreign_example =
    load_foreign platform other_only (codes "other") (codes "###start-hostfile") (codes "###other")
      (codes "###end-hostfile") (λ e. cc) gone_hosts (codes "127.0.0.9" ∷ []) platform-IsLawful refl
      gone_fits other-IsBlock refl (codes "127.0.0.9")

null_metadata_panics_example :
    ((load platform background null_file).1 ≡ panic)
    × ((marshal platform background 7 null_file).1 ≡ panic)
unfolding scan_lines split marker parse_metadata str_eq
null_metadata_panics_example =
    null_metadata_panics platform null_file 7 (codes "first" ∷ []) (codes "###start-hostfile")
      (codes "###null") (codes "last" ∷ []) refl (refl, tt) refl refl refl
