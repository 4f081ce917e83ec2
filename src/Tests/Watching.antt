-- ===== src/Tests/Watching.antt =====
-- A run from the events of the informers to the requests of the reconciler.
use localizer.Base.{
  if◌then◌else◌, inr, Bool-cases, codes, str_eq_iff, arith, ◌≡◌, refl, Bool, true, false, List, [],
  ◌∷◌, ◌++◌, some, none, Bytes, ok, inl, str_eq,
}
use localizer.Kube.Resolution.{In}
use localizer.Proxier.Events.{Event, WorkQueue, service_added, endpoints_updated}
use localizer.Proxier.Events.Draining.{IsQueue}

-- A queue that is a list of keys, each at most once.
abbrev has : Bytes → List Bytes → Bool
has k [] = false
has k (x ∷ xs) = let rest = has k xs in if str_eq k x then true else rest

abbrev list_queue : WorkQueue (List Bytes)
list_queue = record {
  add = λ q k. if has k q then q else q ++ (k ∷ []);
  get = λ q. elim q [ [] ↦ none | k ∷ ks ↦ some (k, ks) ];
  done = λ q k. q;
  limiter = record {
    num_requeues = λ q k. 0;
    forget = λ q k. q;
    add_rate_limited = λ q k. q ++ (k ∷ []);
  };
}

has-In : (k : Bytes) (q : List Bytes) → has k q ≡ true → In k q
has-In k [] h = absurd (ground arith)
has-In k (x ∷ q) h = elim (Bool-cases (str_eq k x)) [
  | inl same ↦ inl ((str_eq_iff k x).0 same)
  | inr other ↦ inr (has-In k q (ground arith))
]

In-append : (k : Bytes) (q : List Bytes) → In k (q ++ (k ∷ []))
In-append k [] = inl refl
In-append k (x ∷ q) = inr (In-append k q)

In-more : (k key : Bytes) (q : List Bytes) → In k q → In k (q ++ (key ∷ []))
In-more k key [] h = absurd h
In-more k key (x ∷ q) (inl same) = inl same
In-more k key (x ∷ q) (inr more) = inr (In-more k key q more)

added : (q : List Bytes) (k : Bytes) → In k (list_queue.add q k)
added q k = elim (Bool-cases (has k q)) [
  | inl there ↦ rw there (has-In k q there)
  | inr new ↦ rw new (In-append k q)
]

kept : (q : List Bytes) (key k : Bytes) → In k q → In k (list_queue.add q key)
kept q key k h = elim (Bool-cases (has key q)) [
  | inl there ↦ rw there h
  | inr new ↦ rw new (In-more k key q h)
]

abbrev lawful_queue : IsQueue list_queue
lawful_queue = record {
  items = λ q. q;
  adds = added;
  keeps = kept;
  gives = λ q key keys h. (keys, rw h refl, refl);
  ends = λ q taken key h. refl;
}

abbrev events : List Event
events =
    service_added (ok (codes "default/web")) ∷ endpoints_updated (ok (codes "default/web")) ∷ []
