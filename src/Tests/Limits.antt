-- ===== src/Tests/Limits.antt =====
-- A host entry that pkg/hostsfile cannot read back.
use localizer.Base.{
  All-append, ℕ, zero, suc, ◌≤◌, ◌≡◌, ◌≢◌, refl, ap, [], ◌∷◌, ◌++◌, length-append, Bytes, codes,
  Lacks, length, ok, arith, str_eq,
}
use localizer.Base.Dict.{lookup}
use localizer.Hostsfile.Scanner.{max_token, Context, background}
use localizer.Hostsfile.Scanner.Limits.{AllShort}
use localizer.Hostsfile.Block.{host_line}
use localizer.Hostsfile.{File, load, marshal, save}
use localizer.Hostsfile.Limits.{methods-short}
use localizer.Hostsfile.Unreadable.{save_unreadable}
use localizer.Tests.Samples.{platform, old_text, a_file, a_disk}

methods-short_example :
    ((load platform background a_file).1 ≡ ok tt → AllShort old_text)
    × ((b : Bytes) → (marshal platform background 7 a_file).1 ≡ ok b → AllShort old_text)
    × ((save platform background 7 a_file a_disk).2 ≡ ok tt
        → (text : Bytes) × (a_disk.text ≡ ok text) × AllShort text)
methods-short_example = methods-short platform background 7 a_file a_disk

-- A name of so many letters.
unfoldable letters : ℕ → Bytes
letters zero = []
letters (suc n) = b'a' ∷ letters n

length-letters : (n : ℕ) → length (letters n) ≡ n
unfolding letters
length-letters zero = refl
length-letters (suc n) = ap suc (length-letters n)

letters-Lacks : (n : ℕ) → Lacks b'\n' (letters n)
unfolding letters
letters-Lacks zero = tt
letters-Lacks (suc n) = ((λ e. cc), letters-Lacks n)

-- A file with one entry of one host.
abbrev of_host : Bytes → File
of_host host = record a_file {
  hosts_file = (codes "127.0.0.2", record { addresses = host ∷ [] }) ∷ [];
}

of_host-saved : (host : Bytes) → (save platform background 7 (of_host host) a_disk).2 ≡ ok tt
unfolding save
of_host-saved host = refl

of_host-line :
    (host : Bytes)
    → host_line (of_host host).hosts_file (codes "127.0.0.2") ≡ codes "127.0.0.2 " ++ host
unfolding host_line lookup str_eq
of_host-line host = refl

abbrev long_file : File
long_file = of_host (letters max_token)

long_line : Lacks b'\n' (host_line long_file.hosts_file (codes "127.0.0.2"))
long_line = rw (of_host-line (letters max_token)) (
    All-append (λ c. c ≢ b'\n') (codes "127.0.0.2 ") (letters max_token) (ground arith)
      (letters-Lacks max_token))

long_enough : max_token ≤ length (host_line long_file.hosts_file (codes "127.0.0.2"))
long_enough =
    rw
      (
        of_host-line (letters max_token),
        length-append (codes "127.0.0.2 ") (letters max_token),
        length-letters max_token,
      )
      (omega arith)

save_unreadable_example :
    let d' = (save platform background 7 long_file a_disk).1 in
    (text : Bytes) × (d'.text ≡ ok text)
    × ((ctx' : Context) (g : File) → g.contents ≡ text → (load platform ctx' g).1 ≢ ok tt)
    × ((ctx' : Context) (now' : ℕ) (g : File) → (save platform ctx' now' g d').2 ≢ ok tt)
unfolding lookup str_eq
save_unreadable_example =
    save_unreadable platform background 7 long_file a_disk (codes "127.0.0.2")
      (record { addresses = letters max_token ∷ [] }) refl long_line long_enough
      (of_host-saved (letters max_token))
