-- ===== src/Proxier/Create/Marking.antt =====
-- What the stop of an entry before a recreation, internal/proxier/portforward.go, keeps.
use mathlib.Core.List.Perm
use localizer.Base.{
  ◌∙◌, ap, ◌≡◌, refl, sym, subst, true, List, [], ◌++◌, none, some, Bytes, arith, str_eq_refl, Perm,
  Option-cases, inl, inr,
}
use localizer.Base.Dict.{
  Dict, lookup, insert, delete as delete_key, NodupKeys, insert-NodupKeys, lookup-insert,
}
use localizer.Hostsfile.Block.{Platform}
use localizer.Proxier.Types.{Connection, ServiceInfo, Status, service_key, CreateRequest}
use localizer.Proxier.Worker.{Ipam, World, Worker, stop_port_forward, set_status}
use localizer.Proxier.Worker.Addresses.{
  IsFiled, IsFiled-insert, goes_on, held_ip, ips, IsLawful, taken, Inv, ips-lookup,
}
use localizer.Proxier.Worker.Stopping.{stop_port_forward-Stopped}
use localizer.Proxier.Worker.Invariant.{entry-IsTaken, stop-delete-Inv}
use localizer.Proxier.Create.{stop_entry, stop_existing}
use localizer.Proxier.Create.Invariant.{IsIdle}

module _ (p : Platform) {P : Type 0} (ipam : Ipam P) (law : IsLawful ipam) (world : World)
    (reserved : List Bytes) where
  stop_entry_eq :
      (k : Bytes) (c : Connection) (w : Worker P)
      → goes_on (stop_entry p ipam world k c w).1 ≡ true
      → let t = stop_port_forward p ipam world c w in
        (goes_on t.2 ≡ true)
        × ((stop_entry p ipam world k c w).0
            ≡ record (t.0) { port_forwards = insert k t.1 t.0.port_forwards })
  unfolding stop_entry
  stop_entry_eq k c w g = ground arith

  stopped-Inv :
      (w : Worker P) (k : Bytes) (c : Connection)
      → Inv ipam reserved w
      → lookup k w.port_forwards ≡ some c
      → let t = stop_port_forward p ipam world c w in
        goes_on t.2 ≡ true
        → Inv ipam reserved (record (t.0) { port_forwards = insert k t.1 t.0.port_forwards })
          × (t.1.ip ≡ [])
  unfolding insert
  stopped-Inv w k c v e g =
      let t = stop_port_forward p ipam world c w in
      let st =
        stop_port_forward-Stopped p ipam world law c w (entry-IsTaken ipam reserved w k c v e) g in
      let gone = stop-delete-Inv p ipam law world reserved w k c v e g in
      (
        record {
          distinct = gone.distinct;
          balanced =
              subst
                (λ q.
                  Perm (taken ipam t.0)
                    ((held_ip q ++ ips (delete_key k t.0.port_forwards)) ++ reserved))
                (sym st.cleared) gone.balanced;
          keyed =
              insert-NodupKeys k t.1 t.0.port_forwards
                (subst NodupKeys (sym st.same_forwards) v.keyed);
          filed =
              IsFiled-insert k t.1 t.0.port_forwards
                (ap service_key st.same_service ∙ v.filed k c e)
                (subst IsFiled (sym st.same_forwards) v.filed);
        },
        st.cleared,
      )

  stop_entry-Inv :
      (k : Bytes) (c : Connection) (w : Worker P)
      → Inv ipam reserved w
      → lookup k w.port_forwards ≡ some c
      → goes_on (stop_entry p ipam world k c w).1 ≡ true
      → Inv ipam reserved (stop_entry p ipam world k c w).0
        × IsIdle k (stop_entry p ipam world k c w).0.port_forwards
  stop_entry-Inv k c w v e g =
      let t = stop_port_forward p ipam world c w in
      let (went, same) = stop_entry_eq k c w g in
      let (inv, cleared) = stopped-Inv w k c v e went in
      subst (λ u. Inv ipam reserved u × IsIdle k u.port_forwards) (sym same)
        (inv, λ d found. idle t.1 t.0.port_forwards d cleared found)
    where
      idle :
          (b : Connection) (m : Dict Connection) (d : Connection)
          → b.ip ≡ []
          → lookup k (insert k b m) ≡ some d
          → d.ip ≡ []
      idle b m d cleared found = ground (arith, lookup-insert k k b m, str_eq_refl k)

  set_status_absent :
      (si : ServiceInfo) (s : Status) (reason : Bytes) (w : Worker P)
      → lookup (service_key si) w.port_forwards ≡ none
      → set_status si s reason w ≡ w
  unfolding set_status
  set_status_absent si s reason w e = rw (e, set_status) refl

  set_status_present :
      (si : ServiceInfo) (s : Status) (reason : Bytes) (w : Worker P) (c : Connection)
      → lookup (service_key si) w.port_forwards ≡ some c
      → set_status si s reason w ≡ record w {
        port_forwards =
            insert
              (service_key si)
              (record c { status = s; status_reason = reason })
              w.port_forwards;
      }
  unfolding set_status
  set_status_present si s reason w c e = rw (e, set_status) refl

  pub set_status-Inv :
      (si : ServiceInfo) (s : Status) (reason : Bytes) (w : Worker P)
      → Inv ipam reserved w
      → Inv ipam reserved (set_status si s reason w)
  unfolding insert
  set_status-Inv si s reason w v =
      let k = service_key si in
      elim (Option-cases (lookup k w.port_forwards)) [
        | inl absent ↦ subst (Inv ipam reserved) (sym (set_status_absent si s reason w absent)) v
        | inr (c, e) ↦
            subst (Inv ipam reserved) (sym (set_status_present si s reason w c e)) (record {
              distinct = v.distinct;
              balanced =
                  Perm.trans v.balanced
                    (Perm.append_right reserved (ips-lookup k w.port_forwards c v.keyed e));
              keyed =
                  insert-NodupKeys k (record c { status = s; status_reason = reason })
                    w.port_forwards v.keyed;
              filed =
                  IsFiled-insert k (record c { status = s; status_reason = reason }) w.port_forwards
                    (v.filed k c e) v.filed;
            })
      ]

  stop_existing_eq :
      (req : CreateRequest) (w : Worker P)
      → goes_on (stop_existing p ipam world req w).1 ≡ true
      → (c : Connection) × (lookup (service_key req.service) w.port_forwards ≡ some c)
        × (stop_existing p ipam world req w ≡ stop_entry p ipam world (service_key req.service) c w)
  unfolding stop_existing
  stop_existing_eq req w g =
      elim (Option-cases (lookup (service_key req.service) w.port_forwards)) [
        | inl absent ↦ absurd (ground arith)
        | inr (c, e) ↦ (c, e, rw (e, stop_existing) refl)
      ]

  pub stop_existing-Inv :
      (req : CreateRequest) (w : Worker P)
      → Inv ipam reserved w
      → goes_on (stop_existing p ipam world req w).1 ≡ true
      → Inv ipam reserved (stop_existing p ipam world req w).0
        × IsIdle (service_key req.service) (stop_existing p ipam world req w).0.port_forwards
  stop_existing-Inv req w v g =
      let (c, e, same) = stop_existing_eq req w g in
      subst (λ u. Inv ipam reserved u.0 × IsIdle (service_key req.service) u.0.port_forwards)
        (sym same)
        (stop_entry-Inv (service_key req.service) c w v e (subst (λ u. goes_on u.1 ≡ true) same g))
