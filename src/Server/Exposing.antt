-- ===== src/Server/Exposing.antt =====
-- The instances of internal/server/expose.go over any order of messages, exits and cancellations.
use localizer.Base.{
  ℕ, suc, ◌≡◌, ◌⊎◌, refl, sym, subst, ◌∙◌, ◌∷◌, ◌++◌, Option, none, some, Bytes, codes, str_eq,
  if◌then◌else◌, Result, ok, err, arith, Option-cases, inl, inr, is_ok, is_err, is_panic,
  is_blocked, result_cases,
}
use localizer.Base.Dict.{
  Dict, lookup, insert, NodupKeys, lookup-insert, lookup-delete, delete-NodupKeys,
}
use localizer.Proxier.Types.{object_key}
use localizer.Server.{NewExpose, Exposer, start_exposer, cancel_of, receive, exit, close}

-- What can happen: a message of the worker, with any answer of the client; the exit of an instance
-- that runs; a call of `Close`.
pub data Step : Exposer → Exposer → Type 0 where
  received :
      (exposed : Result (Unit {0})) (msg : NewExpose) (e : Exposer) → Step e (receive exposed msg e)
  exited :
      (key : Bytes) (instance_id : ℕ) (e : Exposer)
      → lookup key e.running ≡ some instance_id
      → Step e (exit key instance_id e)
  closed :
      (namespace service_name : Bytes) (e : Exposer) → Step e (close namespace service_name e).0

pub data Reachable : Exposer → Type 0 where
  started : Reachable start_exposer
  stepped : {e f : Exposer} → Reachable e → Step e f → Reachable f

-- The map has the `cancel` of just the instances that run, and each service has one at most.
pub record IsConsistent (e : Exposer) : Type 0 where
  pub same : (key : Bytes) → cancel_of key e ≡ lookup key e.running
  pub single : NodupKeys e.running

-- The state after a new instance, under a key.
abbrev pub begun : Bytes → Exposer → Exposer
begun key e = record e {
  port_forwards = insert key (some (e.next)) e.port_forwards;
  running = (key, e.next) ∷ e.running;
  next = suc e.next;
}

receive_cases :
    (exposed : Result (Unit {0})) (msg : NewExpose) (e : Exposer)
    → let key = object_key msg.namespace msg.service_name in
      (receive exposed msg e ≡ e)
      ⊎ ((cancel_of key e ≡ none) × (receive exposed msg e ≡ begun key e))
unfolding receive
receive_cases exposed msg e =
    let key = object_key msg.namespace msg.service_name in
    elim (Option-cases (cancel_of key e)) [
      | inr (id, taken) ↦ inl (rw (receive, taken) refl)
      | inl free ↦ elim (result_cases exposed) [
        | is_ok u q ↦ inr (free, rw (receive, free, q) refl)
        | is_err m q ↦ inl (rw (receive, free, q) refl)
        | is_panic q ↦ inl (rw (receive, free, q) refl)
        | is_blocked q ↦ inl (rw (receive, free, q) refl)
      ]
    ]

lookup-insert_cancel :
    (key k : Bytes) (cancel : Option ℕ) (m : Dict (Option ℕ))
    → lookup k (insert key cancel m) ≡ (if str_eq key k then some cancel else lookup k m)
lookup-insert_cancel key k cancel m = lookup-insert key k cancel m

begun-IsConsistent :
    (key : Bytes) (e : Exposer)
    → cancel_of key e ≡ none
    → IsConsistent e
    → IsConsistent (begun key e)
unfolding cancel_of lookup
begun-IsConsistent key e free h = record {
  same = λ k. ground (arith, lookup-insert_cancel key k (some (e.next)) e.port_forwards, h.same k);
  single = (sym (h.same key) ∙ free, h.single);
}

exit-IsConsistent :
    (key : Bytes) (instance_id : ℕ) (e : Exposer)
    → IsConsistent e
    → IsConsistent (exit key instance_id e)
unfolding exit cancel_of
exit-IsConsistent key instance_id e h = record {
  same = λ k. ground (
    arith,
    lookup-insert_cancel key k none e.port_forwards,
    lookup-delete key k e.running,
    h.same k,
  );
  single = delete-NodupKeys key e.running h.single;
}

close_keeps :
    (namespace service_name : Bytes) (e : Exposer)
    → let f = (close namespace service_name e).0 in
      (f.port_forwards ≡ e.port_forwards) × (f.running ≡ e.running)
unfolding close
close_keeps namespace service_name e =
    elim (Option-cases (cancel_of (object_key namespace service_name) e)) [
      | inl free ↦ rw (close, free) (refl, refl)
      | inr (id, taken) ↦ rw (close, taken) (refl, refl)
    ]

kept-IsConsistent :
    (e f : Exposer)
    → f.port_forwards ≡ e.port_forwards
    → f.running ≡ e.running
    → IsConsistent e
    → IsConsistent f
unfolding cancel_of
kept-IsConsistent e f p q h = record {
  same = λ k. ground (arith, h.same k);
  single = subst NodupKeys (sym q) h.single;
}

Step-IsConsistent : {e f : Exposer} → Step e f → IsConsistent e → IsConsistent f
Step-IsConsistent (received exposed msg e) h = elim (receive_cases exposed msg e) [
  | inl same ↦ subst IsConsistent (sym same) h
  | inr (free, new) ↦
      subst IsConsistent (sym new)
        (begun-IsConsistent (object_key msg.namespace msg.service_name) e free h)
]
Step-IsConsistent (exited key instance_id e running) h = exit-IsConsistent key instance_id e h
Step-IsConsistent (closed namespace service_name e) h =
    let (p, q) = close_keeps namespace service_name e in
    kept-IsConsistent e (close namespace service_name e).0 p q h

-- However messages, exits and calls of `Close` follow each other, the map has a `cancel` for just
-- the services that have a running instance, and it is that instance's; no service has two.
pub Reachable-IsConsistent : {e : Exposer} → Reachable e → IsConsistent e
unfolding cancel_of lookup
Reachable-IsConsistent started = record { same = λ key. refl; single = tt }
Reachable-IsConsistent (stepped r s) = Step-IsConsistent s (Reachable-IsConsistent r)

-- In every reachable state `Close` cancels the running instance of the service, and is an error
-- that changes nothing when the service has none.
pub close-running :
    {e : Exposer} (namespace service_name : Bytes)
    → Reachable e
    → let key = object_key namespace service_name in
      ((instance_id : ℕ)
        → lookup key e.running ≡ some instance_id
        → close namespace service_name e
          ≡ (record e { cancelled = instance_id ∷ e.cancelled }, ok tt))
      × (lookup key e.running ≡ none
          → close namespace service_name e
            ≡ (e, err (codes "service '" ++ (key ++ codes "' isn't exposed"))))
unfolding close
close-running {e} namespace service_name r =
    let same = (Reachable-IsConsistent r).same (object_key namespace service_name) in
    (λ id there. rw (close, same ∙ there) refl, λ absent. rw (close, same ∙ absent) refl)
