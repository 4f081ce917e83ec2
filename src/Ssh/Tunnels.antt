-- ===== src/Ssh/Tunnels.antt =====
-- The ports that internal/expose/port.go prints for a tunnel, as internal/ssh/client.go reads them.
use localizer.Base.{
  ℕ, ◌≡◌, refl, ap, ◌∙◌, List, [], ◌∷◌, ◌++◌, map, Option, none, some, Bytes, join, split-join,
  Lacks, ◌==◌, if◌then◌else◌, ok, arith,
}
use localizer.Ssh.{
  Atoi, Ports, lookup_port, delete_port, set_port, number, parse_port, parse_ports, Client,
  new_reverse_tunnel_client,
}

lookup-delete_port :
    (k j : ℕ) (m : Ports)
    → lookup_port j (delete_port k m) ≡ (if k == j then none else lookup_port j m)
unfolding lookup_port delete_port
lookup-delete_port k j [] = ground arith
lookup-delete_port k j ((i, v) ∷ m) = ground (arith, lookup-delete_port k j m)

lookup-set_port :
    (k j v : ℕ) (m : Ports)
    → lookup_port j (set_port k v m) ≡ (if k == j then some v else lookup_port j m)
unfolding set_port lookup_port
lookup-set_port k j v m = ground (arith, lookup-delete_port k j m)

-- Documented behaviour of `%d` and `strconv.Atoi`: a printed number has no colon and is read back.
pub record ReadsBack (itoa : ℕ → Bytes) (atoi : Atoi) : Type 0 where
  pub plain : (n : ℕ) → Lacks b':' (itoa n)
  pub read : (n : ℕ) → atoi (itoa n) ≡ some n

abbrev pub pair_text : (ℕ → Bytes) → ℕ × ℕ → Bytes
pair_text itoa (local, remote) = itoa local ++ (b':' ∷ itoa remote)

-- The local port of the last pair for a remote port, or what was there.
abbrev pub last_local : ℕ → List (ℕ × ℕ) → Option ℕ → Option ℕ
last_local k [] before = before
last_local k ((local, remote) ∷ more) before =
    last_local k more (if remote == k then some local else before)

module _ (itoa : ℕ → Bytes) (atoi : Atoi) (law : ReadsBack itoa atoi) where
  number_read : (n : ℕ) → number atoi (itoa n) ≡ ok n
  number_read n = ground (arith, law.read n)

  parse_pair :
      (local remote : ℕ) → parse_port atoi (pair_text itoa (local, remote)) ≡ ok (remote, local)
  unfolding parse_port join
  parse_pair local remote =
      let pieces =
        split-join b':' (itoa local ∷ itoa remote ∷ []) (λ e. cc)
          (law.plain local, (law.plain remote, tt)) in
      rw (pieces, parse_port, number_read local, number_read remote) refl

  parse_pairs :
      (pairs : List (ℕ × ℕ)) (m : Ports)
      → (n : Ports) × (parse_ports atoi (map (pair_text itoa) pairs) m ≡ ok n)
        × ((k : ℕ) → lookup_port k n ≡ last_local k pairs (lookup_port k m))
  unfolding parse_ports
  parse_pairs [] m = (m, refl, λ k. refl)
  parse_pairs ((local, remote) ∷ more) m =
      let (n, read, found) = parse_pairs more (set_port remote local m) in
      (
        n,
        rw (parse_pair local remote, parse_ports) read,
        λ k. found k ∙ ap (last_local k more) (lookup-set_port remote k local m),
      )

  -- Port texts `local:remote` that are printed in decimal always give a client, without a panic,
  -- and it serves each remote port from the local port of the last text for it, and no others.
  pub new_reverse_tunnel_client-pair_text :
      (host : Bytes) (port : ℕ) (pairs : List (ℕ × ℕ))
      → (c : Client) × (new_reverse_tunnel_client atoi host port (map (pair_text itoa) pairs)
          ≡ ok c)
        × ((k : ℕ) → lookup_port k c.ports ≡ last_local k pairs none)
  unfolding new_reverse_tunnel_client lookup_port
  new_reverse_tunnel_client-pair_text host port pairs =
      let (n, read, found) = parse_pairs pairs [] in
      (
        record { host = host; port = port; ports = n },
        rw (new_reverse_tunnel_client, read) refl,
        found,
      )
