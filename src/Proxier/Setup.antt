-- ===== src/Proxier/Setup.antt =====
-- `NewPortForwarder` of internal/proxier/portforward.go.
use localizer.Base.{ℕ, Bool, [], Bytes, codes, Result, ok, ◌>>=◌, wrap, if◌then◌else◌}
use localizer.Hostsfile.{Disk, new}
use localizer.Proxier.Worker.{Worker}

-- What the setup calls: net.ParseCIDR (the answer is `Contains`, at the text of an address), and
-- NewPrefix and AcquireSpecificIP of the pool.
pub record Setup (P : Type 0) : Type 0 where
  pub parse_cidr : Bytes → Result (Bytes → Bool)
  pub new_prefix : Bytes → Result (Bytes × P)
  pub acquire_specific_ip : P → Bytes → Bytes → Result P

abbrev pub default_ip : Bytes
default_ip = codes "127.0.0.1"

module _ {P : Type 0} (setup : Setup P) where
  abbrev pub reserve : (Bytes → Bool) → Bytes × P → Result P
  reserve contains (prefix, pool) =
      if contains default_ip
      then wrap (codes "failed to create ip pool")
          (setup.acquire_specific_ip pool prefix default_ip)
      else ok pool

  -- The worker that is made, with the disk as it is and at the time `now`.
  unfoldable pub new_port_forwarder : (Bytes → Result Bytes) → Disk → ℕ → Bytes → Result (Worker P)
  unfolding new
  new_port_forwarder read disk now ip_cidr =
      wrap (codes "failed to parse provided cidr") (setup.parse_cidr ip_cidr) >>= λ contains.
      wrap (codes "failed to create ip pool") (setup.new_prefix ip_cidr) >>= λ made.
      reserve contains made >>= λ pool.
      wrap (codes "failed to open up hosts file for r/w") (new read [] []) >>= λ hosts. ok (record {
        ippool = pool;
        ip_cidr = made.0;
        dns = hosts;
        disk = disk;
        port_forwards = [];
        last_touch_time = now;
        forwards = [];
        closed = [];
      })
