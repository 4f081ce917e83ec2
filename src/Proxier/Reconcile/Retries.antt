-- ===== src/Proxier/Reconcile/Retries.antt =====
-- How often `processNextWorkItem` of internal/proxier/proxy.go tries a key that fails.
use localizer.Base.{
  ℕ, suc, ◌+◌, ◌≤◌, ◌<◌, ◌≡◌, List, [], ◌∷◌, Bytes, ok, err, arith, length, none, some,
}
use localizer.Proxier.Types.{Address, Subset, Endpoints}
use localizer.Proxier.Endpoints.{pod_ref}
use localizer.Proxier.Reconcile.{Limiter, finish_item}

-- Documented behaviour of the rate limiter: it counts what is added again, until it is forgotten.
pub record IsLimiter {Q : Type 0} (l : Limiter Q) : Type 0 where
  pub forgotten : (q : Q) (key : Bytes) → l.num_requeues (l.forget q key) key ≡ 0
  pub counted :
      (q : Q) (key : Bytes)
      → l.num_requeues (l.add_rate_limited q key) key ≡ suc (l.num_requeues q key)

-- A key that fails `n` times in a row, with the error texts given.
abbrev pub fail_all : {Q : Type 0} → Limiter Q → Bytes → List Bytes → Q → Q
fail_all l key [] q = q
fail_all l key (e ∷ es) q = fail_all l key es (finish_item l key (err e) q)

module _ {Q : Type 0} (l : Limiter Q) (law : IsLimiter l) (key : Bytes) where
  fails_again :
      (q : Q) (e : Bytes)
      → l.num_requeues q key < 5
      → l.num_requeues (finish_item l key (err e) q) key ≡ suc (l.num_requeues q key)
  unfolding finish_item
  fails_again q e few = ground (arith, law.counted q key)

  gives_up :
      (q : Q) (e : Bytes)
      → 5 ≤ l.num_requeues q key
      → l.num_requeues (finish_item l key (err e) q) key ≡ 0
  unfolding finish_item
  gives_up q e many = ground (arith, law.forgotten q key)

  failures_counted :
      (es : List Bytes) (q : Q)
      → l.num_requeues q key + length es ≤ 5
      → l.num_requeues (fail_all l key es q) key ≡ l.num_requeues q key + length es
  failures_counted [] q few = omega arith
  failures_counted (e ∷ es) q few =
      let step = fails_again q e (omega (arith, few)) in
      omega
        (arith, step, failures_counted es (finish_item l key (err e) q) (omega (arith, few, step)))

  -- A key with no history that fails is put back five times, and is forgotten at the sixth failure;
  -- a success forgets it at any time. So every failure is tried again, and none for ever.
  pub five_retries :
      (q : Q) (es : List Bytes) (e : Bytes)
      → l.num_requeues q key ≡ 0
      → length es ≤ 5
      → let t = fail_all l key es q in
        (l.num_requeues t key ≡ length es)
        × (length es ≡ 5 → l.num_requeues (finish_item l key (err e) t) key ≡ 0)
        × (l.num_requeues (finish_item l key (ok tt) t) key ≡ 0)
  unfolding finish_item
  five_retries q es e fresh few =
      let counted = failures_counted es q (omega (arith, fresh, few)) in
      (
        omega (arith, counted, fresh),
        λ all. gives_up (fail_all l key es q) e (omega (arith, counted, fresh, all)),
        law.forgotten (fail_all l key es q) key,
      )

-- The pods among the addresses of the endpoints, each counted.
unfoldable pub pods_of : List Address → ℕ
unfolding pod_ref
pods_of [] = 0
pods_of (a ∷ more) = elim (pod_ref a) [ some _ ↦ suc (pods_of more) | none ↦ pods_of more ]

abbrev pub pods_in : List Subset → ℕ
pods_in [] = 0
pods_in (s ∷ ss) = pods_of s.addresses + pods_in ss
