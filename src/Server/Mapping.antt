-- ===== src/Server/Mapping.antt =====
-- From the request ExposeService of internal/server/expose.go to the tunnel of internal/expose and
-- internal/ssh: where a port of the cluster is served.
use localizer.Base.{ℕ, List, map, Option, none, some}
use localizer.Kube.{ResolvedServicePort}
use localizer.Ssh.Tunnels.{last_local}
use localizer.Expose.Returns.{tunnel_pair}
use localizer.Server.Ports.{chosen}

-- Where a remote port is served: at the local port of the last entry of the port map that names it,
-- or else at the one that the resolved port has; and nowhere if it is the target of no port.
abbrev pub served_at : ℕ → List (ℕ × ℕ) → List ResolvedServicePort → Option ℕ
served_at k pairs rs = elim (last_local k (map tunnel_pair rs) none) [
  | none ↦ none
  | some local ↦ some (chosen k pairs local)
]

abbrev chosen_of : ℕ → List (ℕ × ℕ) → Option ℕ → Option ℕ
chosen_of k pairs none = none
chosen_of k pairs (some local) = some (chosen k pairs local)
