-- ===== src/Proxier/Create/Invariant.antt =====
-- The invariant of internal/proxier/portforward.go under `CreatePortForward`, on every path.
use mathlib.Core.List.Perm
use localizer.Base.{
  ap, ◌≡◌, refl, sym, subst, ◌∙◌, true, List, [], ◌++◌, some, Bytes, Result, ok, err, panic,
  blocked, arith, Perm, Option-cases, inl, inr, append_assoc,
}
use localizer.Base.Dict.{Dict, lookup, insert, delete, NodupKeys, delete-absent, insert-NodupKeys}
use localizer.Hostsfile.Block.{Platform}
use localizer.Proxier.Types.{ServiceInfo, Connection, service_key, CreateRequest}
use localizer.Proxier.Worker.{Ipam, World, Worker, stop_port_forward}
use localizer.Proxier.Worker.Addresses.{
  IsFiled, IsFiled-insert, goes_on, held_ip, held, ips, IsLawful, taken, Inv, ips-lookup,
}
use localizer.Proxier.Worker.Stopping.{stop_port_forward-Stopped}
use localizer.Proxier.Create.{Attempt, attempt, new_connection, give_up, settle, establish}
use localizer.Proxier.Create.Attempts.{Holding, attempt-Holding, returned_addresses, new-IsTaken}

-- An entry of the key that holds an address is an obstacle: a new one would lose it.
abbrev pub IsIdle : Bytes → Dict Connection → Type 0
IsIdle k m = (c : Connection) → lookup k m ≡ some c → c.ip ≡ []

ips-delete_idle :
    (k : Bytes) (m : Dict Connection) → NodupKeys m → IsIdle k m → Perm (ips m) (ips (delete k m))
ips-delete_idle k m n idle = elim (Option-cases (lookup k m)) [
  | inl absent ↦ subst (λ q. Perm (ips m) (ips q)) (sym (delete-absent k m absent)) (Perm.refl _)
  | inr (c, e) ↦
      subst (λ q. Perm (ips m) (held_ip q ++ ips (delete k m))) (idle c e) (ips-lookup k m c n e)
]

module _ (p : Platform) {P : Type 0} (ipam : Ipam P) (law : IsLawful ipam) (world : World)
    (reserved : List Bytes) where
  made-Inv :
      (w : Worker P) (si : ServiceInfo) (s : Attempt P)
      → Inv ipam reserved w
      → IsIdle (service_key si) w.port_forwards
      → Holding ipam w si s
      → Inv ipam reserved (record (s.worker) {
        port_forwards = insert (service_key si) s.pf s.worker.port_forwards;
      })
  unfolding insert
  made-Inv w si s v idle h =
      let k = service_key si in
      record {
        distinct = h.distinct;
        balanced =
            subst (λ m. Perm (taken ipam s.worker) ((held s.pf ++ ips (delete k m)) ++ reserved))
              (sym h.same_forwards)
              (Perm.trans h.gained (
                subst (Perm (held s.pf ++ taken ipam w))
                  (sym (append_assoc (held s.pf) (ips (delete k w.port_forwards)) reserved))
                  (Perm.append_left (held s.pf) (
                    Perm.trans v.balanced (
                      Perm.append_right reserved
                        (ips-delete_idle k w.port_forwards v.keyed idle))))));
        keyed =
            subst (λ m. NodupKeys (insert k s.pf m)) (sym h.same_forwards)
              (insert-NodupKeys k s.pf w.port_forwards v.keyed);
        filed =
            subst (λ m. IsFiled (insert k s.pf m)) (sym h.same_forwards)
              (IsFiled-insert k s.pf w.port_forwards (ap service_key h.same_service) v.filed);
      }

  given_up-Inv :
      (w : Worker P) (si : ServiceInfo) (s : Attempt P)
      → Inv ipam reserved w
      → Holding ipam w si s
      → goes_on (stop_port_forward p ipam world s.pf s.worker).2 ≡ true
      → Inv ipam reserved (stop_port_forward p ipam world s.pf s.worker).0
  given_up-Inv w si s v h g =
      let st =
        stop_port_forward-Stopped p ipam world law s.pf s.worker
          (new-IsTaken ipam w si p world law s h) g in
      let (distinct, back) = returned_addresses ipam w si p world law s s.pf _ h refl st in
      let forwards = st.same_forwards ∙ h.same_forwards in
      record {
        distinct = distinct;
        balanced =
            subst
              (λ m.
                Perm (taken ipam (stop_port_forward p ipam world s.pf s.worker).0)
                  (ips m ++ reserved))
              (sym forwards) (Perm.trans back v.balanced);
        keyed = subst NodupKeys (sym forwards) v.keyed;
        filed = subst IsFiled (sym forwards) v.filed;
      }

  give_up_eq :
      (s : Attempt P) (e : Bytes)
      → goes_on (give_up p ipam world s e).1 ≡ true
      → let t = stop_port_forward p ipam world s.pf s.worker in
        ((give_up p ipam world s e).0 ≡ t.0) × (goes_on t.2 ≡ true)
  unfolding give_up
  give_up_eq s e g = ground arith

  settled_went_on :
      (k : Bytes) (s : Attempt P) (r : Result (Unit {0}))
      → goes_on (settle p ipam world k (s, r)).1 ≡ true
      → goes_on r ≡ true
  unfolding settle
  settled_went_on k s (ok _) g = refl
  settled_went_on k s (err e) g = refl
  settled_went_on k s panic g = cc
  settled_went_on k s blocked g = cc

  settle-Inv :
      (w : Worker P) (si : ServiceInfo) (s : Attempt P) (r : Result (Unit {0}))
      → Inv ipam reserved w
      → IsIdle (service_key si) w.port_forwards
      → Holding ipam w si s
      → goes_on (settle p ipam world (service_key si) (s, r)).1 ≡ true
      → Inv ipam reserved (settle p ipam world (service_key si) (s, r)).0
  unfolding settle
  settle-Inv w si s (ok _) v idle h g = made-Inv w si s v idle h
  settle-Inv w si s (err e) v idle h g =
      let (same, settled) = give_up_eq s e g in
      subst (Inv ipam reserved) (sym same) (given_up-Inv w si s v h settled)
  settle-Inv w si s panic v idle h g = cc
  settle-Inv w si s blocked v idle h g = cc

  fresh-Holding :
      (w : Worker P) (req : CreateRequest)
      → Inv ipam reserved w
      → Holding ipam w req.service (record { worker = w; pf = new_connection req })
  fresh-Holding w req v = record {
    same_cidr = refl;
    same_forwards = refl;
    same_service = refl;
    distinct = v.distinct;
    gained = Perm.refl _;
  }

  pub establish-Inv :
      (req : CreateRequest) (w : Worker P)
      → Inv ipam reserved w
      → IsIdle (service_key req.service) w.port_forwards
      → goes_on (establish p ipam world req w).1 ≡ true
      → Inv ipam reserved (establish p ipam world req w).0
  unfolding establish
  establish-Inv req w v idle g =
      let s : Attempt P = record { worker = w; pf = new_connection req } in
      let t = attempt p ipam world req s in
      let go = settled_went_on (service_key req.service) t.0 t.1 g in
      settle-Inv w req.service t.0 t.1 v idle
        (attempt-Holding ipam w req.service p world law req s refl (fresh-Holding w req v) go) g
