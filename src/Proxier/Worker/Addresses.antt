-- ===== src/Proxier/Worker/Addresses.antt =====
-- Which addresses the connections of internal/proxier/portforward.go hold, and the pool's promises.
use mathlib.Core.List.{append_assoc, perm_append_comm}
use mathlib.Core.List.Perm
use localizer.Base.{
  ◌≡◌, ◌≢◌, ◌∙◌, sym, ap, List, [], ◌∷◌, ◌++◌, none, some, Bytes, ok, arith, str_eq, str_eq_iff,
  Mem, Perm, Nodup, Bool-cases, inl, inr,
}
pub use localizer.Base.{goes_on}
use localizer.Base.Dict.{
  Dict, lookup, insert, delete, NodupKeys, delete-absent, lookup-delete, lookup-insert,
}
use localizer.Proxier.Types.{Connection, service_key}
use localizer.Proxier.Worker.{Ipam, Worker}

abbrev pub held_ip : Bytes → List Bytes
held_ip [] = []
held_ip (c ∷ cs) = (c ∷ cs) ∷ []

-- The address that a connection holds, if it has one.
abbrev pub held : Connection → List Bytes
held c = held_ip c.ip

abbrev pub ips : Dict Connection → List Bytes
ips [] = []
ips ((k, c) ∷ m) = held c ++ ips m

-- Documented behaviour of the pool: an acquired address is not empty, was free and is taken; a
-- taken address can be released, and then is not taken.
pub record IsLawful {P : Type 0} (ipam : Ipam P) : Type 0 where
  pub acquired :
      (s t : P) (cidr ip : Bytes)
      → ipam.acquire_ip s cidr ≡ ok (ip, t)
      → (ip ≢ [])
        × (¬ Mem ip (ipam.allocated s cidr))
        × (ipam.allocated t cidr ≡ ip ∷ ipam.allocated s cidr)
  pub released :
      (s : P) (cidr ip : Bytes)
      → Mem ip (ipam.allocated s cidr)
      → (t : P) × (ipam.release_ip s cidr ip ≡ ok t)
        × Perm (ipam.allocated s cidr) (ip ∷ ipam.allocated t cidr)

-- Every port-forward stands under the key of its service.
abbrev pub IsFiled : Dict Connection → Type 0
IsFiled m = (k : Bytes) (c : Connection) → lookup k m ≡ some c → service_key c.service ≡ k

pub IsFiled-delete : (k : Bytes) (m : Dict Connection) → IsFiled m → IsFiled (delete k m)
IsFiled-delete k m h j c e = h j c (ground (arith, lookup-delete k j m))

pub IsFiled-insert :
    (k : Bytes) (b : Connection) (m : Dict Connection)
    → service_key b.service ≡ k
    → IsFiled m
    → IsFiled (insert k b m)
IsFiled-insert k b m own h j c e = elim (Bool-cases (str_eq k j)) [
  | inl hit ↦
      let same : b ≡ c = ground (arith, lookup-insert k j b m) in
      ap (λ q. service_key q.service) (sym same) ∙ (own ∙ (str_eq_iff k j).0 hit)
  | inr miss ↦ h j c (ground (arith, lookup-insert k j b m))
]

abbrev pub taken : {P : Type 0} → Ipam P → Worker P → List Bytes
taken ipam w = ipam.allocated w.ippool w.ip_cidr

-- The addresses in `reserved` are taken for no connection, as the loopback address is at start.
pub record Inv {P : Type 0} (ipam : Ipam P) (reserved : List Bytes) (w : Worker P) : Type 0 where
  pub distinct : Nodup (taken ipam w)
  pub balanced : Perm (taken ipam w) (ips w.port_forwards ++ reserved)
  pub keyed : NodupKeys w.port_forwards
  pub filed : IsFiled w.port_forwards

-- The entry of a key accounts for its share of the addresses.
pub ips-lookup :
    (k : Bytes) (m : Dict Connection) (c : Connection)
    → NodupKeys m
    → lookup k m ≡ some c
    → Perm (ips m) (held c ++ ips (delete k m))
unfolding lookup delete
ips-lookup k [] c n h = cc
ips-lookup k ((i, d) ∷ m) c n h = elim (Bool-cases (str_eq i k)) [
  | inl hit ↦
      let gone : lookup k m ≡ none = ground (arith, str_eq_iff i k) in
      let same : d ≡ c = ground arith in rw (hit, delete-absent k m gone, same) (Perm.refl _)
  | inr miss ↦
      let rest : lookup k m ≡ some c = ground arith in
      rw miss (
        Perm.trans (Perm.append_left (held d) (ips-lookup k m c n.1 rest))
          (exchange (held d) (held c) (ips (delete k m))))
]
  where
    exchange : (xs ys zs : List Bytes) → Perm (xs ++ (ys ++ zs)) (ys ++ (xs ++ zs))
    exchange xs ys zs =
        rw (← append_assoc xs ys zs, ← append_assoc ys xs zs)
          (Perm.append_right zs (perm_append_comm xs ys))
