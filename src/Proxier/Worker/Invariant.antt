-- ===== src/Proxier/Worker/Invariant.antt =====
-- The invariant of internal/proxier/portforward.go under `DeletePortForward`.
use mathlib.Core.List.{perm-append_left_iff, mem-append_left, append_assoc}
use mathlib.Core.List.Perm
use mathlib.Core.List.Nodup
use localizer.Base.{
  ℕ, ◌≡◌, sym, subst, true, List, ◌++◌, none, some, Bytes, arith, Mem, Perm, Option-cases, inl, inr,
}
use localizer.Base.Dict.{lookup, delete, NodupKeys, delete-NodupKeys}
use localizer.Hostsfile.Block.{Platform}
use localizer.Proxier.Types.{Connection, service_key, DeleteRequest}
use localizer.Proxier.Worker.{Ipam, World, Worker, stop_port_forward, delete_port_forward, touch}
use localizer.Proxier.Worker.Addresses.{
  IsFiled, IsFiled-delete, goes_on, held, ips, IsLawful, taken, Inv, ips-lookup,
}
use localizer.Proxier.Worker.Stopping.{stop_port_forward-Stopped}

-- The address of an entry of the map is taken.
pub entry-IsTaken :
    {P : Type 0} (ipam : Ipam P) (reserved : List Bytes) (w : Worker P) (k : Bytes) (c : Connection)
    → Inv ipam reserved w
    → lookup k w.port_forwards ≡ some c
    → (a : Bytes) → Mem a (held c)
    → Mem a (taken ipam w)
entry-IsTaken ipam reserved w k c v e a m = (Perm.mem_iff v.balanced).1 (
    mem-append_left reserved (
      (Perm.mem_iff (ips-lookup k w.port_forwards c v.keyed e)).1
        (mem-append_left (ips (delete k w.port_forwards)) m)))

pub share :
    {P : Type 0} {ipam : Ipam P} {reserved : List Bytes} (w : Worker P) (k : Bytes) (c : Connection)
    → Inv ipam reserved w
    → lookup k w.port_forwards ≡ some c
    → Perm
        (ips w.port_forwards ++ reserved)
        (held c ++ (ips (delete k w.port_forwards) ++ reserved))
share {reserved} w k c v e =
    subst (Perm (ips w.port_forwards ++ reserved))
      (append_assoc (held c) (ips (delete k w.port_forwards)) reserved)
      (Perm.append_right reserved (ips-lookup k w.port_forwards c v.keyed e))

module _ (p : Platform) {P : Type 0} (ipam : Ipam P) (law : IsLawful ipam) (world : World)
    (reserved : List Bytes) where
  -- Stopping the connection of an entry and taking the entry out keeps the invariant.
  pub stop-delete-Inv :
      (w : Worker P) (k : Bytes) (c : Connection)
      → Inv ipam reserved w
      → lookup k w.port_forwards ≡ some c
      → let t = stop_port_forward p ipam world c w in
        goes_on t.2 ≡ true
        → Inv ipam reserved (record (t.0) { port_forwards = delete k t.0.port_forwards })
  stop-delete-Inv w k c v e h =
      let t = stop_port_forward p ipam world c w in
      let s =
        stop_port_forward-Stopped p ipam world law c w (entry-IsTaken ipam reserved w k c v e) h in
      record {
        distinct = Nodup.of_append_right (held c) (Perm.nodup s.gave_back v.distinct);
        balanced =
            subst (λ m. Perm (taken ipam t.0) (ips (delete k m) ++ reserved)) (sym s.same_forwards)
              ((perm-append_left_iff (held c)).0
                (Perm.trans (Perm.symm s.gave_back) (Perm.trans v.balanced (share w k c v e))));
        keyed =
            subst (λ m. NodupKeys (delete k m)) (sym s.same_forwards)
              (delete-NodupKeys k w.port_forwards v.keyed);
        filed =
            subst (λ m. IsFiled (delete k m)) (sym s.same_forwards)
              (IsFiled-delete k w.port_forwards v.filed);
      }

  -- A touch leaves the map alone.
  pub lookup-touch :
      (k : Bytes) (w : Worker P) (c : Connection)
      → lookup k w.port_forwards ≡ some c
      → lookup k (touch world.clock w).port_forwards ≡ some c
  unfolding touch
  lookup-touch k w c e = e

  pub touch-Inv : (now : ℕ) (w : Worker P) → Inv ipam reserved w → Inv ipam reserved (touch now w)
  unfolding touch
  touch-Inv now w v = record {
    distinct = v.distinct;
    balanced = v.balanced;
    keyed = v.keyed;
    filed = v.filed;
  }

  delete_port_forward_absent :
      (req : DeleteRequest) (w : Worker P)
      → lookup (service_key req.service) w.port_forwards ≡ none
      → (delete_port_forward p ipam world req w).0 ≡ w
  unfolding delete_port_forward
  delete_port_forward_absent req w absent = rw (absent, delete_port_forward)

  -- With an entry: the connection is stopped, and the entry is taken out.
  pub delete_port_forward_present :
      (req : DeleteRequest) (w : Worker P) (c : Connection)
      → lookup (service_key req.service) w.port_forwards ≡ some c
      → goes_on (delete_port_forward p ipam world req w).1 ≡ true
      → let t = stop_port_forward p ipam world c (touch world.clock w) in
        (goes_on t.2 ≡ true)
        × ((delete_port_forward p ipam world req w).0
            ≡ record (t.0) { port_forwards = delete (service_key req.service) t.0.port_forwards })
  unfolding delete_port_forward
  delete_port_forward_present req w c e h = ground arith

  -- Handling a delete request keeps the invariant, unless the worker panics or waits for ever.
  pub delete_port_forward-Inv :
      (req : DeleteRequest) (w : Worker P)
      → Inv ipam reserved w
      → goes_on (delete_port_forward p ipam world req w).1 ≡ true
      → Inv ipam reserved (delete_port_forward p ipam world req w).0
  delete_port_forward-Inv req w v h =
      elim (Option-cases (lookup (service_key req.service) w.port_forwards)) [
        | inl absent ↦ subst (Inv ipam reserved) (sym (delete_port_forward_absent req w absent)) v
        | inr (c, e) ↦
            let (settled, gone) = delete_port_forward_present req w c e h in
            subst (Inv ipam reserved) (sym gone) (
              stop-delete-Inv (touch world.clock w) (service_key req.service) c
                (touch-Inv world.clock w v) (lookup-touch (service_key req.service) w c e) settled)
      ]
