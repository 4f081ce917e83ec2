-- ===== src/Proxier/Create/Progress.antt =====
-- A request of the worker of internal/proxier/portforward.go comes back, and what is left of the map
-- and the tunnels' goroutines.
use localizer.Base.{
  ℕ, ◌≡◌, ◌⊎◌, refl, sym, ap, subst, ◌∙◌, Bool, true, false, ◌∷◌, none, some, Bytes, codes, Result,
  ok, err, panic, blocked, goes_on, arith, Option-cases, Bool-cases, inl, inr, str_eq_refl,
}
use localizer.Base.Dict.{Dict, lookup, insert, lookup-insert}
use localizer.Hostsfile.Block.{Platform}
use localizer.Hostsfile.Returning.{Answers}
use localizer.Proxier.Types.{
  Connection, CreateRequest, service_key, ServiceInfo, Status, recreating,
}
use localizer.Proxier.Worker.{Ipam, World, Worker, stop_port_forward, touch, set_status}
use localizer.Proxier.Worker.Readiness.{IsAnswering, IsReady, stop_port_forward-Calm}
use localizer.Proxier.Create.{
  Attempt, attempt, again, settle, give_up, establish, new_connection, stop_entry, stop_existing,
  recreate_port_forward, create_port_forward,
}
use localizer.Proxier.Create.Readiness.{Grown, attempt-Grown}

abbrev pub has : Dict Connection → Bytes → Bool
has m k = elim (lookup k m) [ some _ ↦ true | none ↦ false ]

-- A request came back; no entry went; and a goroutine was started at most for a service with an entry.
pub record Served {P : Type 0} (req : CreateRequest) (w : Worker P)
    (t : Worker P × Result (Unit {0})) : Type 0 where
  pub went : goes_on t.1 ≡ true
  pub ready : IsReady t.0
  pub kept : (k : Bytes) → has w.port_forwards k ≡ true → has t.0.port_forwards k ≡ true
  pub tunnels :
      (t.0.forwards ≡ w.forwards)
      ⊎ ((t.0.forwards ≡ again req ∷ w.forwards)
          × (has t.0.port_forwards (service_key req.service) ≡ true))

has-insert :
    (key k : Bytes) (c : Connection) (m : Dict Connection)
    → has m k ≡ true
    → has (insert key c m) k ≡ true
has-insert key k c m h = ground (arith, lookup-insert key k c m)

has-insert_self :
    (key : Bytes) (c : Connection) (m : Dict Connection) → has (insert key c m) key ≡ true
has-insert_self key c m = ground (arith, lookup-insert key key c m, str_eq_refl key)

module _ (p : Platform) (answers : Answers p) {P : Type 0} (ipam : Ipam P)
    (calls : IsAnswering ipam) (world : World) (req : CreateRequest) where
  pub give_up-eq :
      (s : Attempt P) (e : Bytes)
      → let t = stop_port_forward p ipam world s.pf s.worker in
        goes_on t.2 ≡ true → give_up p ipam world s e ≡ (t.0, err e)
  unfolding give_up
  give_up-eq s e h = ground arith

  settle-Served :
      (w : Worker P) (s u : Attempt P) (r : Result (Unit {0}))
      → s.worker ≡ w
      → Grown req s (u, r)
      → Served req w (settle p ipam world (service_key req.service) (u, r))
  unfolding settle
  settle-Served w s u (ok _) same g =
      let k = service_key req.service in
      let forwards : u.worker.port_forwards ≡ w.port_forwards =
        g.same_forwards ∙ ap (λ (v : Worker P). v.port_forwards) same in
      record {
        went = refl;
        ready = record { free = g.ready.free; disk = g.ready.disk };
        kept = λ j h.
            has-insert k j u.pf u.worker.port_forwards
              (subst (λ m. has m j ≡ true) (sym forwards) h);
        tunnels = elim (g.tunnels) [
          | inl none_new ↦ inl (none_new ∙ ap (λ (v : Worker P). v.forwards) same)
          | inr (done, more) ↦ inr (
            more ∙ ap (λ (v : Worker P). again req ∷ v.forwards) same,
            has-insert_self k u.pf u.worker.port_forwards,
          )
        ];
      }
  settle-Served w s u (err e) same g =
      let c = stop_port_forward-Calm p answers ipam calls world u.pf u.worker g.ready in
      let forwards =
        c.same_forwards ∙ (g.same_forwards ∙ ap (λ (v : Worker P). v.port_forwards) same) in
      let tunnels : u.worker.forwards ≡ s.worker.forwards = elim (g.tunnels) [
        | inl none_new ↦ none_new
        | inr (done, more) ↦ absurd (ground arith)
      ] in
      subst (Served req w) (sym (give_up-eq u e c.went)) (record {
        went = refl;
        ready = c.ready;
        kept = λ j h. subst (λ m. has m j ≡ true) (sym forwards) h;
        tunnels = inl (c.same_tunnels ∙ (tunnels ∙ ap (λ (v : Worker P). v.forwards) same));
      })
  settle-Served w s u panic same g = let h = g.went in absurd (ground arith)
  settle-Served w s u blocked same g = let h = g.went in absurd (ground arith)

  pub establish-Served : (w : Worker P) → IsReady w → Served req w (establish p ipam world req w)
  unfolding establish
  establish-Served w r =
      let s : Attempt P = record { worker = w; pf = new_connection req } in
      let t = attempt p ipam world req s in
      settle-Served w s t.0 t.1 refl (attempt-Grown p answers ipam calls world req s r)

  -- What went before an attempt: no entry goes, and no goroutine is started.
  pub record Kept (w u : Worker P) : Type 0 where
    pub ready : IsReady u
    pub kept : (k : Bytes) → has w.port_forwards k ≡ true → has u.port_forwards k ≡ true
    pub same_tunnels : u.forwards ≡ w.forwards

  Served-after :
      (w u : Worker P) (t : Worker P × Result (Unit {0}))
      → Kept w u
      → Served req u t
      → Served req w t
  Served-after w u t before s = record {
    went = s.went;
    ready = s.ready;
    kept = λ k h. s.kept k (before.kept k h);
    tunnels = elim (s.tunnels) [
      | inl same ↦ inl (same ∙ before.same_tunnels)
      | inr (more, there) ↦ inr (more ∙ ap (λ q. again req ∷ q) before.same_tunnels, there)
    ];
  }

  Kept-trans : (w u v : Worker P) → Kept w u → Kept u v → Kept w v
  Kept-trans w u v a b = record {
    ready = b.ready;
    kept = λ k h. b.kept k (a.kept k h);
    same_tunnels = b.same_tunnels ∙ a.same_tunnels;
  }

  pub touch-Kept : (now : ℕ) (w : Worker P) → IsReady w → Kept w (touch now w)
  unfolding touch
  touch-Kept now w r = record {
    ready = record { free = r.free; disk = r.disk };
    kept = λ k h. h;
    same_tunnels = refl;
  }

  pub set_status-Kept :
      (si : ServiceInfo) (st : Status) (reason : Bytes) (w : Worker P)
      → IsReady w
      → Kept w (set_status si st reason w)
  unfolding set_status
  set_status-Kept si st reason w r = elim (Option-cases (lookup (service_key si) w.port_forwards)) [
    | inl absent ↦
        rw (absent, set_status) (record { ready = r; kept = λ k h. h; same_tunnels = refl })
    | inr (c, e) ↦
        rw (e, set_status)
          (record {
            ready = record { free = r.free; disk = r.disk };
            kept = λ k h.
                has-insert (service_key si) k (record c { status = st; status_reason = reason })
                  w.port_forwards h;
            same_tunnels = refl;
          })
  ]

  pub stop_entry-eq :
      (k : Bytes) (c : Connection) (w : Worker P)
      → let t = stop_port_forward p ipam world c w in
        goes_on t.2 ≡ true
        → stop_entry p ipam world k c w
          ≡ (record (t.0) { port_forwards = insert k t.1 t.0.port_forwards }, ok tt)
  unfolding stop_entry
  stop_entry-eq k c w h = ground arith

  -- The entry of a service is stopped, and stays.
  pub stop_existing-Kept :
      (w : Worker P)
      → IsReady w
      → has w.port_forwards (service_key req.service) ≡ true
      → (u : Worker P) × (stop_existing p ipam world req w ≡ (u, ok tt)) × Kept w u
  unfolding stop_existing
  stop_existing-Kept w r there =
      elim (Option-cases (lookup (service_key req.service) w.port_forwards)) [
        | inl absent ↦ absurd (ground arith)
        | inr (c, e) ↦
            let k = service_key req.service in
            let t = stop_port_forward p ipam world c w in
            let calm = stop_port_forward-Calm p answers ipam calls world c w r in
            (
              record (t.0) { port_forwards = insert k t.1 t.0.port_forwards },
              rw (e, stop_existing) (stop_entry-eq k c w calm.went),
              record {
                ready = record { free = calm.ready.free; disk = calm.ready.disk };
                kept = λ j h.
                    has-insert k j t.1 t.0.port_forwards
                      (subst (λ m. has m j ≡ true) (sym calm.same_forwards) h);
                same_tunnels = calm.same_tunnels;
              },
            )
      ]

  pub recreate-eq :
      (w u : Worker P)
      → stop_existing p ipam world req (set_status req.service recreating req.recreate_reason w)
        ≡ (u, ok tt)
      → recreate_port_forward p ipam world req w ≡ establish p ipam world req u
  unfolding recreate_port_forward
  recreate-eq w u e = ground arith

  recreate-Served :
      (w : Worker P)
      → IsReady w
      → has w.port_forwards (service_key req.service) ≡ true
      → Served req w (recreate_port_forward p ipam world req w)
  recreate-Served w r there =
      let v = set_status req.service recreating req.recreate_reason w in
      let marked = set_status-Kept req.service recreating req.recreate_reason w r in
      let (u, stopped, kept) =
        stop_existing-Kept v marked.ready (marked.kept (service_key req.service) there) in
      subst (Served req w) (sym (recreate-eq w u stopped))
        (Served-after w u _ (Kept-trans w v u marked kept) (establish-Served u kept.ready))

  pub create-marked :
      (w : Worker P)
      → req.recreate ≡ true
      → create_port_forward p ipam world req w
        ≡ recreate_port_forward p ipam world req (touch world.clock w)
  unfolding create_port_forward
  create-marked w marked = rw (marked, create_port_forward) refl

  pub create-first :
      (w : Worker P)
      → req.recreate ≡ false
      → lookup (service_key req.service) w.port_forwards ≡ none
      → create_port_forward p ipam world req w ≡ establish p ipam world req (touch world.clock w)
  unfolding create_port_forward
  create-first w first absent = rw (first, absent, create_port_forward) refl

  pub create-again :
      (w : Worker P) (c : Connection)
      → req.recreate ≡ false
      → lookup (service_key req.service) w.port_forwards ≡ some c
      → create_port_forward p ipam world req w
        ≡ (w, err (codes "already have a port-forward for this service"))
  unfolding create_port_forward
  create-again w c first e = rw (first, e, create_port_forward) refl

  -- A create request comes back on every path, if a recreation finds its entry.
  pub create_port_forward-Served :
      (w : Worker P)
      → IsReady w
      → (req.recreate ≡ true → has w.port_forwards (service_key req.service) ≡ true)
      → Served req w (create_port_forward p ipam world req w)
  create_port_forward-Served w r found =
      let u = touch world.clock w in
      let touched = touch-Kept world.clock w r in
      elim (Bool-cases req.recreate) [
        | inl marked ↦ subst (Served req w) (sym (create-marked w marked)) (
            Served-after w u _ touched
              (recreate-Served u touched.ready (touched.kept _ (found marked))))
        | inr first ↦ elim (Option-cases (lookup (service_key req.service) w.port_forwards)) [
          | inr (c, e) ↦
              subst (Served req w) (sym (create-again w c first e))
                (record { went = refl; ready = r; kept = λ k h. h; tunnels = inl refl })
          | inl absent ↦
              subst (Served req w) (sym (create-first w first absent))
                (Served-after w u _ touched (establish-Served u touched.ready))
        ]
      ]
