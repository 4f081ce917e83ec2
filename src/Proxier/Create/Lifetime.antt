-- ===== src/Proxier/Create/Lifetime.antt =====
-- `NewPortForwarder` of internal/proxier/portforward.go, and the worker from there to its end.
use mathlib.Core.List.{Nodup-cons}
use mathlib.Core.List.Perm
use localizer.Base.{
  ℕ, ◌≡◌, sym, ap, ◌∙◌, subst, Bool, true, List, [], ◌∷◌, ◌++◌, Bytes, Result, ok, goes_on, arith,
  Mem, Perm, Nodup, is_ok, is_err, is_panic, is_blocked, result_cases, Bool-cases, inl, inr,
}
use localizer.Base.Dict.{lookup, keys, NodupKeys}
use localizer.Hostsfile.Block.{Platform}
use localizer.Hostsfile.{Disk, new}
use localizer.Proxier.Types.{Request}
use localizer.Proxier.Setup.{Setup, default_ip, reserve, new_port_forwarder}
use localizer.Proxier.Worker.{Ipam, World, Worker}
use localizer.Proxier.Worker.Addresses.{IsLawful, IsFiled, Inv, taken, ips}
use localizer.Proxier.Create.{handle_all, clean_up}
use localizer.Proxier.Create.Requests.{handle_all-Inv}
use localizer.Proxier.Create.Cleanup.{clean_up-empty}

module _ {P : Type 0} (setup : Setup P) (ipam : Ipam P) where
  -- Documented behaviour of the pool at the start: a new prefix has no address taken twice, and an
  -- address that is acquired by name was free.
  pub record IsFresh : Type 0 where
    pub prefixed :
        (cidr prefix : Bytes) (pool : P)
        → setup.new_prefix cidr ≡ ok (prefix, pool)
        → Nodup (ipam.allocated pool prefix)
    pub specific :
        (s t : P) (cidr ip : Bytes)
        → setup.acquire_specific_ip s cidr ip ≡ ok t
        → (¬ Mem ip (ipam.allocated s cidr)) × (ipam.allocated t cidr ≡ ip ∷ ipam.allocated s cidr)

  reserve-Nodup :
      (contains : Bytes → Bool) (prefix : Bytes) (start pool : P)
      → IsFresh
      → Nodup (ipam.allocated start prefix)
      → reserve setup contains (prefix, start) ≡ ok pool
      → Nodup (ipam.allocated pool prefix)
  reserve-Nodup contains prefix start pool fresh n e = elim (Bool-cases (contains default_ip)) [
    | inl inside ↦
        let taken_now : setup.acquire_specific_ip start prefix default_ip ≡ ok pool =
          ground arith in
        let (free, more) = fresh.specific start pool prefix default_ip taken_now in
        subst Nodup (sym more) (Nodup-cons.1 (free, n))
    | inr outside ↦
        let same : start ≡ pool = ground arith in
        subst (λ q. Nodup (ipam.allocated q prefix)) same n
  ]

  module _ (read : Bytes → Result Bytes) (disk : Disk) (now : ℕ) (cidr : Bytes) (w : Worker P)
      (started : new_port_forwarder setup read disk now cidr ≡ ok w) where
    setup_parts :
        (contains : Bytes → Bool) × (prefix : Bytes) × (start : P) × (setup.new_prefix cidr
          ≡ ok (prefix, start))
        × (reserve setup contains (prefix, start) ≡ ok (w.ippool))
        × (w.ip_cidr ≡ prefix)
        × (w.port_forwards ≡ [])
    unfolding new_port_forwarder
    setup_parts = elim (result_cases (setup.parse_cidr cidr)) [
      | is_err m e ↦ absurd (ground arith)
      | is_panic e ↦ absurd (ground arith)
      | is_blocked e ↦ absurd (ground arith)
      | is_ok contains e ↦ elim (result_cases (setup.new_prefix cidr)) [
        | is_err m q ↦ absurd (ground arith)
        | is_panic q ↦ absurd (ground arith)
        | is_blocked q ↦ absurd (ground arith)
        | is_ok (prefix, start) q ↦ elim (result_cases (reserve setup contains (prefix, start))) [
          | is_err m r ↦ absurd (ground arith)
          | is_panic r ↦ absurd (ground arith)
          | is_blocked r ↦ absurd (ground arith)
          | is_ok pool r ↦ elim (result_cases (new read [] [])) [
            | is_err m h ↦ absurd (ground arith)
            | is_panic h ↦ absurd (ground arith)
            | is_blocked h ↦ absurd (ground arith)
            | is_ok hosts h ↦
                let made : Worker P = record {
                  ippool = pool;
                  ip_cidr = prefix;
                  dns = hosts;
                  disk = disk;
                  port_forwards = [];
                  last_touch_time = now;
                  forwards = [];
                  closed = [];
                } in
                let same : made ≡ w = ground arith in
                (
                  contains,
                  prefix,
                  start,
                  q,
                  r ∙ ap (λ u. ok (u.ippool)) same,
                  ap (λ u. u.ip_cidr) (sym same),
                  ap (λ u. u.port_forwards) (sym same),
                )
          ]
        ]
      ]
    ]

    -- Pool and map agree at the start: what is taken then is reserved.
    started-Inv : IsFresh → Inv ipam (taken ipam w) w
    unfolding lookup
    started-Inv fresh =
        let (contains, prefix, start, made, reserved, same, none_yet) = setup_parts in
        let fresh_pool =
          reserve-Nodup contains prefix start w.ippool fresh (fresh.prefixed cidr prefix start made)
            reserved in
        record {
          distinct = subst (λ q. Nodup (ipam.allocated w.ippool q)) (sym same) fresh_pool;
          balanced =
              subst (λ m. Perm (taken ipam w) (ips m ++ taken ipam w)) (sym none_yet) (Perm.refl _);
          keyed = subst NodupKeys (sym none_yet) tt;
          filed = subst IsFiled (sym none_yet) (λ k c e. cc);
        }

    -- From the start of the worker to its end no address is lost: after any sequence of requests,
    -- whatever the world answers meanwhile, and the loop over all keys of the map when the context
    -- is done, no port-forward is left, and the pool has just the addresses that it had at the
    -- start. For a pool that keeps its promises, where the worker was made, and no request and no
    -- deletion panics or waits for ever.
    pub lifetime-Perm :
        (p : Platform) (world : World) (reqs : List (World × Request))
        → IsLawful ipam
        → IsFresh
        → let u = (handle_all p ipam reqs w).0 in
          let t = clean_up p ipam world (keys u.port_forwards) u in
          goes_on (handle_all p ipam reqs w).1 ≡ true
          → goes_on t.1 ≡ true
          → (t.0.port_forwards ≡ []) × Perm (taken ipam t.0) (taken ipam w)
    lifetime-Perm p world reqs law fresh handled cleaned =
        clean_up-empty p ipam law world (taken ipam w) (handle_all p ipam reqs w).0
          (handle_all-Inv p ipam law (taken ipam w) reqs w (started-Inv fresh) handled) cleaned
