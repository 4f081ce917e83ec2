-- ===== src/Ssh.antt =====
-- internal/ssh/client.go: the ports of a reverse tunnel, and what is listened to.
pub mod Tunnels
use localizer.Base.{
  ℕ, List, [], ◌∷◌, ◌++◌, Option, none, some, Bytes, codes, split, ◌==◌, if◌then◌else◌, Result, ok,
  err, panic, blocked, ◌>>=◌,
}

-- `strconv.Atoi`, with the `uint` of its value.
abbrev pub Atoi : Type 0
Atoi = Bytes → Option ℕ

-- A Go map from numbers: the value under a key, if there is one.
abbrev pub Ports : Type 0
Ports = List (ℕ × ℕ)

unfoldable pub lookup_port : ℕ → Ports → Option ℕ
lookup_port k [] = none
lookup_port k ((j, v) ∷ m) = let rest = lookup_port k m in if j == k then some v else rest

unfoldable pub delete_port : ℕ → Ports → Ports
delete_port k [] = []
delete_port k ((j, v) ∷ m) = let rest = delete_port k m in if j == k then rest else (j, v) ∷ rest

unfoldable pub set_port : ℕ → ℕ → Ports → Ports
unfolding delete_port
set_port k v m = (k, v) ∷ delete_port k m

module _ (atoi : Atoi) where
  -- `panic(err)`, if the text is no number
  abbrev pub number : Bytes → Result ℕ
  number t = elim (atoi t) [ some n ↦ ok n | none ↦ panic ]

  -- The remote and the local port of one text; both are 0 for one with more than two parts.
  unfoldable pub parse_port : Bytes → Result (ℕ × ℕ)
  unfolding split
  parse_port t = elim (split t b':') [
    | a ∷ [] ↦ number a >>= λ n. ok (n, n)
    | a ∷ b ∷ [] ↦ number a >>= λ local. number b >>= λ remote. ok (remote, local)
    | _ ↦ ok (0, 0)
  ]

  unfoldable pub parse_ports : List Bytes → Ports → Result Ports
  unfolding parse_port set_port
  parse_ports [] m = ok m
  parse_ports (t ∷ ts) m = elim (parse_port t) [
    | ok (remote, local) ↦ parse_ports ts (set_port remote local m)
    | err e ↦ err e
    | panic ↦ panic
    | blocked ↦ blocked
  ]

-- `Client`, without its logger
pub record Client : Type 0 where
  pub host : Bytes
  pub port : ℕ
  pub ports : Ports

unfoldable pub new_reverse_tunnel_client : Atoi → Bytes → ℕ → List Bytes → Result Client
unfolding parse_ports
new_reverse_tunnel_client atoi host port texts =
    parse_ports atoi texts [] >>= λ m. ok (record { host = host; port = port; ports = m })

-- What `Start` asks of the network: the dial, the ssh handshake, the remote listeners by address.
pub record Network : Type 0 where
  pub dial : Bytes → Result (Unit {0})
  pub new_client_conn : Bytes → Result (Unit {0})
  pub listen : Bytes → Result (Unit {0})

pub record Listener : Type 0 where
  pub remote_addr : Bytes
  pub local_addr : Bytes

module _ (itoa : ℕ → Bytes) (net : Network) where
  -- The loop over the map: the listeners that were made before one is refused.
  unfoldable pub listen_all : Ports → List Listener × Result (Unit {0})
  listen_all [] = ([], ok tt)
  listen_all ((remote, local) ∷ m) =
      let remote_addr = codes "0.0.0.0:" ++ itoa remote in
      let local_addr = codes "127.0.0.1:" ++ itoa local in
      let (listeners, r) = listen_all m in
      elim (net.listen remote_addr) [
        | ok _ ↦ (record { remote_addr = remote_addr; local_addr = local_addr } ∷ listeners, r)
        | err e ↦ (
          [],
          err (
              codes "failed to request remote to listen on " ++ (remote_addr ++ (codes ": " ++ e))),
        )
        | panic ↦ ([], panic)
        | blocked ↦ ([], blocked)
      ]

  -- `Start`, up to where the listeners accept
  unfoldable pub start : Client → List Listener × Result (Unit {0})
  unfolding listen_all
  start c =
      let addr = c.host ++ (b':' ∷ itoa c.port) in
      elim (net.dial addr) [
        | ok _ ↦ elim (net.new_client_conn addr) [
          | ok _ ↦ listen_all c.ports
          | err e ↦ ([], err e)
          | panic ↦ ([], panic)
          | blocked ↦ ([], blocked)
        ]
        | err e ↦ ([], err e)
        | panic ↦ ([], panic)
        | blocked ↦ ([], blocked)
      ]
