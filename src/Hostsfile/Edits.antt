-- ===== src/Hostsfile/Edits.antt =====
-- `AddHosts` and `RemoveAddress` of pkg/hostsfile/parser.go.
use localizer.Base.{
  ◌≡◌, refl, true, false, List, [], ◌∷◌, ◌++◌, some, none, Bytes, codes, All, ok, err, arith,
  str_eq, if◌then◌else◌,
}
use localizer.Base.Dict.{lookup, insert, lookup-insert, lookup-delete}
use localizer.Hostsfile.Block.{HostLine, Platform}
use localizer.Hostsfile.{File, first_invalid, add_hosts, remove_address}

module _ (p : Platform) where
  abbrev pub AllDnsNames : List Bytes → Type 0
  AllDnsNames = All (λ h. p.is_dns_name h ≡ true)

  first_invalid-none : (hosts : List Bytes) → AllDnsNames hosts → first_invalid p hosts ≡ none
  unfolding first_invalid
  first_invalid-none [] h = refl
  first_invalid-none (x ∷ hosts) h = ground (arith, first_invalid-none hosts h.1)

  first_invalid-some :
      (before : List Bytes) (h : Bytes) (after : List Bytes)
      → AllDnsNames before
      → p.is_dns_name h ≡ false
      → first_invalid p (before ++ (h ∷ after)) ≡ some h
  unfolding first_invalid
  first_invalid-some [] h after v bad = ground arith
  first_invalid-some (x ∷ before) h after v bad =
      ground (arith, first_invalid-some before h after v.1 bad)

  module _ (ip : Bytes) (hosts : List Bytes) (f : File) (free : f.locked ≡ false) where
    -- With DNS names only, `AddHosts` succeeds; the address then has just these hosts, and every
    -- other address what it had.
    pub lookup-add_hosts :
        AllDnsNames hosts
        → (k : Bytes)
        → ((add_hosts p ip hosts f).1 ≡ ok tt)
          × (lookup k (add_hosts p ip hosts f).0.hosts_file ≡ (
              if str_eq ip k then some (record { addresses = hosts }) else lookup k f.hosts_file))
    unfolding add_hosts
    lookup-add_hosts valid k =
        rw (free, first_invalid-none hosts valid)
          (refl, lookup-insert {V = HostLine} ip k (record { addresses = hosts }) f.hosts_file)

    -- Adding an address and removing it leaves that address without hosts, and every other address
    -- what it had.
    pub lookup-remove_address-add_hosts :
        AllDnsNames hosts
        → (k : Bytes)
        → lookup k (remove_address ip (add_hosts p ip hosts f).0).0.hosts_file
          ≡ (if str_eq ip k then none else lookup k f.hosts_file)
    unfolding add_hosts remove_address
    lookup-remove_address-add_hosts valid k = ground (
      arith,
      first_invalid-none hosts valid,
      lookup-delete {V = HostLine} ip k (insert ip (record { addresses = hosts }) f.hosts_file),
      lookup-insert {V = HostLine} ip k (record { addresses = hosts }) f.hosts_file,
    )

  -- At the first host that is no DNS name, `AddHosts` fails, names that host, and changes nothing.
  pub add_hosts_refused :
      (ip : Bytes) (before : List Bytes) (h : Bytes) (after : List Bytes) (f : File)
      → f.locked ≡ false
      → AllDnsNames before
      → p.is_dns_name h ≡ false
      → add_hosts p ip (before ++ (h ∷ after)) f
        ≡ (f, err (codes "'" ++ (h ++ codes "' is not a valid dns name")))
  unfolding add_hosts
  add_hosts_refused ip before h after f free valid bad =
      ground (arith, first_invalid-some before h after valid bad)
