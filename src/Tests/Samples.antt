-- ===== src/Tests/Samples.antt =====
-- Simple stand-ins for what the program calls, and that they keep the promises that are asked.
use localizer.Base.{
  ℕ, ◌+◌, ◌≤◌, ◌<◌, ◌≡◌, refl, subst, Bool, true, false, ◌&&◌, List, [], ◌∷◌, Option, none, some,
  Bytes, codes, str_eq, length, All, ltb, if◌then◌else◌, Result, ok, arith, Bool-cases, inl, inr,
}
use localizer.Hostsfile.Scanner.{max_token}
use localizer.Hostsfile.Block.{Metadata, Platform}
use localizer.Hostsfile.Layout.{IsLawful}
use localizer.Hostsfile.{File, Disk}
use localizer.Hostsfile.Returning.{Answers}

abbrev all_within : ℕ → ℕ → Bytes → Bool
all_within low high [] = true
all_within low high (c ∷ cs) = let rest = all_within low high cs in ltb low c && ltb c high && rest

abbrev pub parse_digits : Bytes → Option Bytes
parse_digits [] = none
parse_digits (c ∷ cs) = if all_within b'-' b':' (c ∷ cs) then some (c ∷ cs) else none

-- Metadata is written as its name; `null` is read as a nil pointer.
abbrev pub platform : Platform
platform = record {
  to_json = λ m. ok (m.block_name);
  from_json = λ j.
      if str_eq j (codes "null")
      then ok none
      else ok (some (record { block_name = j; last_modified = 0 }));
  parse_ip = parse_digits;
  ip_string = λ b. b;
  is_dns_name = all_within b' ' b'~';
}

within-All : (s : Bytes) → all_within b'-' b':' s ≡ true → All (λ c. b' ' < c) s
within-All [] h = tt
within-All (c ∷ cs) h = ground (arith, within-All cs)

digits-All : (s b : Bytes) → parse_digits s ≡ some b → All (λ c. b' ' < c) s
digits-All [] b h = tt
digits-All (c ∷ cs) b h = elim (Bool-cases (all_within b'-' b':' (c ∷ cs))) [
  | inl digits ↦ within-All (c ∷ cs) digits
  | inr other ↦ absurd (ground arith)
]

abbrev pub block_name : Bytes
block_name = codes "localizer"

name_of_ok : (j : Bytes) → ◌≡◌ {A = Result Bytes} (ok block_name) (ok j) → block_name ≡ j
name_of_ok j e = ground arith

printable_name : All (λ c. b' ' ≤ c) block_name
printable_name = ground arith

abbrev named : Metadata
named = record { block_name = block_name; last_modified = 0 }

read_back :
    (m : Metadata) × (platform.from_json block_name ≡ ok (some m)) × (m.block_name ≡ block_name)
unfolding str_eq
read_back = (named, refl, refl)

pub platform-IsLawful : IsLawful platform block_name
platform-IsLawful = record {
  decodes = λ now j e.
      subst
        (λ q. (m : Metadata) × (platform.from_json q ≡ ok (some m)) × (m.block_name ≡ block_name))
        (name_of_ok j e) read_back;
  json_printable = λ now j e. subst (All (λ c. b' ' ≤ c)) (name_of_ok j e) printable_name;
  json_short = λ now j e. subst (λ q. length q + 3 < max_token) (name_of_ok j e) (ground arith);
  ip_text = digits-All;
  hash_not_ip = λ s. refl;
}

-- A file with two lines of its own and a block with one entry.
abbrev pub old_text : Bytes
old_text =
    codes
      "127.0.0.1 localhost\n###start-hostfile\n###localizer\n127.0.0.9 gone\n###end-hostfile\n::1 ip6"

abbrev pub own_before : List Bytes
own_before = codes "127.0.0.1 localhost" ∷ []

abbrev pub own_after : List Bytes
own_after = codes "::1 ip6" ∷ []

abbrev pub a_file : File
a_file = record {
  file_location = codes "/etc/hosts";
  contents = old_text;
  block_name = block_name;
  locked = false;
  hosts_file =
      (codes "127.0.0.2", record { addresses = codes "web" ∷ codes "web.default" ∷ [] }) ∷ [];
}

abbrev pub new_block : Bytes
new_block = codes "###start-hostfile\n###localizer\n127.0.0.2 web web.default\n###end-hostfile"

abbrev pub a_disk : Disk
a_disk = record { text = ok old_text; write_fault = none }

-- A file of another block, and one with metadata that is null.
abbrev pub foreign_file : File
foreign_file = record a_file {
  contents = codes "first\n###start-hostfile\n###other\n127.0.0.9 gone\n###end-hostfile\nlast";
}

abbrev pub other_only : File
other_only = record a_file {
  contents = codes "###start-hostfile\n###other\n127.0.0.9 gone\n###end-hostfile";
}

abbrev pub null_file : File
null_file = record a_file { contents = codes "first\n###start-hostfile\n###null\nlast" }

-- With a decoder that takes every text for a name.
abbrev pub decoding : Platform
decoding = record platform {
  from_json = λ j. ok (some (record { block_name = j; last_modified = 0 }));
}

pub decoding-Answers : Answers decoding
decoding-Answers = record { encoded = λ m. refl; decoded = λ j. refl }
