-- ===== src/Proxier/Lifecycle/Refinement.antt =====
-- The worker of internal/proxier/portforward.go implements the specification of its port-forwards.
use localizer.Base.{
  ◌≡◌, ◌⊎◌, refl, sym, ap, subst, true, Option, none, some, Bytes, Result, arith, Bool-cases, inl,
  inr, str_eq, str_eq_iff,
}
use localizer.Base.Dict.{Dict, lookup}
use localizer.Hostsfile.Block.{Platform}
use localizer.Hostsfile.Returning.{Answers}
use localizer.Proxier.Types.{Connection, CreateRequest, service_key, recreating}
use localizer.Proxier.Lifecycle.{
  Phase, up, idle, broken, Represents, Kind, first, again, Goes, failed, opened, waited, broke,
  reopened, waited_again, Forwards, set,
}
use localizer.Proxier.Worker.{Ipam, World, Worker, touch, set_status}
use localizer.Proxier.Worker.Readiness.{IsAnswering, IsReady}
use localizer.Proxier.Create.{establish, recreate_port_forward}
use localizer.Proxier.Create.Outcome.{
  IsSetTo, IsSetTo-again, establish-Established, stop_existing-IsSetTo,
}
use localizer.Proxier.Create.Progress.{has, set_status-Kept, stop_existing-Kept, recreate-eq}

abbrev pub Match : Option Connection → Option Phase → Type 0
Match none none = Unit
Match (some c) (some x) = Represents c x
Match none (some x) = ⊥
Match (some c) none = ⊥

-- The map of the worker is what the specification says of every service.
abbrev pub Refines : Dict Connection → Forwards → Type 0
Refines m f = (k : Bytes) → Match (lookup k m) (f k)

pub Match-cases :
    (o : Option Connection) (x : Option Phase)
    → Match o x
    → ((o ≡ none) × (x ≡ none))
      ⊎ ((c : Connection) × (y : Phase) × (o ≡ some c) × (x ≡ some y) × Represents c y)
Match-cases none none m = inl (refl, refl)
Match-cases (some c) (some y) m = inr (c, y, refl, refl, m)
Match-cases none (some y) m = absurd m
Match-cases (some c) none m = absurd m

pub Refines-set :
    (key : Bytes) (o : Option Connection) (x : Option Phase) (m m' : Dict Connection) (f : Forwards)
    → Match o x
    → IsSetTo key o m m'
    → Refines m f
    → Refines m' (set key x f)
Refines-set key o x m m' f own h r j = elim (Bool-cases (str_eq key j)) [
  | inl hit ↦ rw (h j, hit) own
  | inr miss ↦ rw (h j, miss) (r j)
]

pub IsSetTo-same : (key : Bytes) (m : Dict Connection) → IsSetTo key (lookup key m) m m
IsSetTo-same key m j = elim (Bool-cases (str_eq key j)) [
  | inl hit ↦ let same = (str_eq_iff key j).0 hit in rw hit (ap (λ k. lookup k m) (sym same))
  | inr miss ↦ rw miss refl
]

-- The map goes where the specification lets a request of that kind go.
pub record GoesTo (kind : Kind) (key : Bytes) (f : Forwards) (m : Dict Connection) : Type 0 where
  pub phase : Option Phase
  pub goes : Goes kind (f key) phase
  pub refines : Refines m (set key phase f)

module _ (p : Platform) (answers : Answers p) {P : Type 0} (ipam : Ipam P)
    (calls : IsAnswering ipam) (world : World) where
  -- The first request for a service.
  pub establish-Goes :
      (req : CreateRequest) (w : Worker P) (f : Forwards)
      → IsReady w
      → Refines w.port_forwards f
      → f (service_key req.service) ≡ none
      → GoesTo first (service_key req.service) f (establish p ipam world req w).0.port_forwards
  establish-Goes req w f r ref nothing =
      let k = service_key req.service in
      let m' = (establish p ipam world req w).0.port_forwards in
      elim (establish-Established p answers ipam calls world req w r) [
        | inl same ↦ record {
          phase = none;
          goes = subst (λ q. Goes first q none) (sym nothing) failed;
          refines =
              Refines-set k (lookup k w.port_forwards) none w.port_forwards m' f
                (subst (Match (lookup k w.port_forwards)) nothing (ref k))
                (subst (IsSetTo k (lookup k w.port_forwards) w.port_forwards) (sym same)
                  (IsSetTo-same k w.port_forwards))
                ref;
        }
        | inr (c, made, changed) ↦ elim made [
          | inl (pod, leads) ↦ record {
            phase = some (up pod);
            goes = subst (λ q. Goes first q (some (up pod))) (sym nothing) (opened pod);
            refines = Refines-set k (some c) (some (up pod)) w.port_forwards m' f leads changed ref;
          }
          | inr waits ↦ record {
            phase = some idle;
            goes = subst (λ q. Goes first q (some idle)) (sym nothing) waited;
            refines = Refines-set k (some c) (some idle) w.port_forwards m' f waits changed ref;
          }
        ]
      ]

  -- A recreation, behind the stop of what there was.
  reopen-Goes :
      (req : CreateRequest) (w u : Worker P) (f : Forwards) (x : Phase) (d : Connection)
      → IsReady u
      → Refines w.port_forwards f
      → f (service_key req.service) ≡ some x
      → Represents d broken
      → IsSetTo (service_key req.service) (some d) w.port_forwards u.port_forwards
      → GoesTo again (service_key req.service) f (establish p ipam world req u).0.port_forwards
  reopen-Goes req w u f x d r ref there stopped left =
      let k = service_key req.service in
      let m' = (establish p ipam world req u).0.port_forwards in
      elim (establish-Established p answers ipam calls world req u r) [
        | inl same ↦ record {
          phase = some broken;
          goes = subst (λ q. Goes again q (some broken)) (sym there) (broke x);
          refines =
              Refines-set k (some d) (some broken) w.port_forwards m' f stopped
                (subst (IsSetTo k (some d) w.port_forwards) (sym same) left) ref;
        }
        | inr (c, made, changed) ↦
            let over =
              IsSetTo-again k (some d) (some c) w.port_forwards u.port_forwards m' left changed in
            elim made [
              | inl (pod, leads) ↦ record {
                phase = some (up pod);
                goes = subst (λ q. Goes again q (some (up pod))) (sym there) (reopened x pod);
                refines =
                    Refines-set k (some c) (some (up pod)) w.port_forwards m' f leads over ref;
              }
              | inr waits ↦ record {
                phase = some idle;
                goes = subst (λ q. Goes again q (some idle)) (sym there) (waited_again x);
                refines = Refines-set k (some c) (some idle) w.port_forwards m' f waits over ref;
              }
            ]
      ]

  pub touch-same : (w : Worker P) → (touch world.clock w).port_forwards ≡ w.port_forwards
  unfolding touch
  touch-same w = refl

  pub recreate-Goes :
      (req : CreateRequest) (w : Worker P) (f : Forwards)
      → IsReady w
      → Refines w.port_forwards f
      → has w.port_forwards (service_key req.service) ≡ true
      → GoesTo again
          (service_key req.service)
          f
          (recreate_port_forward p ipam world req w).0.port_forwards
  recreate-Goes req w f r ref there =
      let k = service_key req.service in
      let v = set_status req.service recreating req.recreate_reason w in
      let marked =
        set_status-Kept p answers ipam calls world req req.service recreating req.recreate_reason w
          r in
      let (u, stopped, kept) =
        stop_existing-Kept p answers ipam calls world req v marked.ready (marked.kept k there) in
      let again_up =
        ap (λ (t : Worker P × Result (Unit {0})). t.0.port_forwards)
          (recreate-eq p answers ipam calls world req w u stopped) in
      elim (Match-cases (lookup k w.port_forwards) (f k) (ref k)) [
        | inl (absent, _) ↦ absurd (ground (arith, absent))
        | inr (c, x, e, is_x, _) ↦
            let (d, is_broken, left) =
              stop_existing-IsSetTo p answers ipam calls world req w c e marked.ready in
            let left_u =
              subst
                (λ (t : Worker P × Result (Unit {0})).
                  IsSetTo k (some d) w.port_forwards t.0.port_forwards)
                stopped left in
            subst (GoesTo again k f) (sym again_up)
              (reopen-Goes req w u f x d kept.ready ref is_x is_broken left_u)
      ]
