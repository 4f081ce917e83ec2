-- ===== src/Cli/Listing.antt =====
-- `localizer list` of cmd/localizer/list.go, behind internal/server/list.go and the proxier's `List`.
use mathlib.Core.List.Perm
use localizer.Base.{
  ◌≡◌, refl, sym, ap, subst, ◌∙◌, Bool, true, false, List, [], ◌∷◌, map, some, Bytes, codes, join,
  ok, ◌>>=◌, arith, All, All-perm, Perm, goes_on, ap₂, result_cases, is_ok, is_err, is_panic,
  is_blocked,
}
use localizer.Base.Dict.{Dict}
use localizer.Proxier.Types.{Connection, Status, running, recreating, waiting, status_text}
use localizer.Proxier.Reconcile.{list, status_of}
use localizer.Server.{ListService, list_service, list_each, list_services, list_port}
use localizer.Hostsfile.Block.{bytes_less}
use localizer.Daemon.{SocketFile, is_running}
use localizer.Cli.{
  SortSlice, by_namespace, by_name, capital, cells, ip_text, header, list_line, list_lines,
  list_command,
}

-- A test that a sort can go by: a strict order up to ties.
pub record IsWeakOrder (less : ListService → ListService → Bool) : Type 0 where
  pub asym : (a b : ListService) → less a b ≡ true → less b a ≡ false
  pub between : (a b c : ListService) → less a b ≡ false → less b c ≡ false → less a c ≡ false

-- No one stands behind one that it comes before.
abbrev pub IsOrdered : (ListService → ListService → Bool) → List ListService → Type 0
IsOrdered less [] = Unit
IsOrdered less (a ∷ as') = All (λ b. less b a ≡ false) as' × IsOrdered less as'

-- Documented behaviour of `sort.Slice`: the items in some order, and sorted by such a test. What it
-- does to equal items is left open.
pub record IsSort (sort : SortSlice) : Type 0 where
  pub keeps :
      (less : ListService → ListService → Bool) (xs : List ListService) → Perm (sort less xs) xs
  pub sorts :
      (less : ListService → ListService → Bool) (xs : List ListService)
      → IsWeakOrder less
      → IsOrdered less (sort less xs)

bytes_less-asym : (a b : Bytes) → bytes_less a b ≡ true → bytes_less b a ≡ false
unfolding bytes_less
bytes_less-asym [] [] h = refl
bytes_less-asym [] (y ∷ b) h = refl
bytes_less-asym (x ∷ a) [] h = cc
bytes_less-asym (x ∷ a) (y ∷ b) h = ground (arith, bytes_less-asym a b)

bytes_less-between :
    (a b c : Bytes) → bytes_less a b ≡ false → bytes_less b c ≡ false → bytes_less a c ≡ false
unfolding bytes_less
bytes_less-between [] [] c h g = g
bytes_less-between [] (y ∷ b) c h g = cc
bytes_less-between (x ∷ a) b [] h g = refl
bytes_less-between (x ∷ a) [] (z ∷ c) h g = cc
bytes_less-between (x ∷ a) (y ∷ b) (z ∷ c) h g = ground (arith, bytes_less-between a b c)

by_name-IsWeakOrder : IsWeakOrder by_name
by_name-IsWeakOrder = record {
  asym = λ a b h. bytes_less-asym a.name b.name h;
  between = λ a b c h g. bytes_less-between a.name b.name c.name h g;
}

-- The state of a port-forward with a capital letter.
abbrev pub shown_status : Status → Bytes
shown_status running = codes "Running"
shown_status recreating = codes "Recreating"
shown_status waiting = codes "Waiting"

capital-status_text : (s : Status) → capital (status_text s) ≡ ok (shown_status s)
unfolding capital
capital-status_text running = refl
capital-status_text recreating = refl
capital-status_text waiting = refl

-- What the server answers for a port-forward.
abbrev pub answer_of : Connection → ListService
answer_of pf = record {
  namespace = pf.service.namespace;
  name = pf.service.name;
  endpoint = pf.pod.name;
  status_reason = pf.status_reason;
  status = status_text pf.status;
  ip = pf.ip;
  ports = map list_port pf.ports;
}

-- The line of a port-forward.
abbrev pub line_of : Connection → Bytes
line_of pf = cells (
    pf.service.namespace
    ∷ pf.service.name
    ∷ shown_status pf.status
    ∷ pf.status_reason
    ∷ pf.pod.name
    ∷ ip_text pf.ip
    ∷ join (map list_port pf.ports) b','
    ∷ [])

list_service_eq : (pf : Connection) → list_service (status_of pf) ≡ ok (answer_of pf)
unfolding list_service
list_service_eq pf = refl

list_each_eq :
    (m : Dict Connection)
    → list_each (map (λ e. status_of (e.1)) m) ≡ ok (map (λ e. answer_of (e.1)) m)
unfolding list_each list_service
list_each_eq [] = refl
list_each_eq (e ∷ m) = ap (λ r. r >>= λ services. ok (answer_of (e.1) ∷ services)) (list_each_eq m)

list_services_eq :
    (m : Dict Connection) → list_services (some m) ≡ ok (map (λ e. answer_of (e.1)) m)
unfolding list_services list
list_services_eq m = list_each_eq m

list_line_eq : (pf : Connection) → list_line (answer_of pf) ≡ ok (line_of pf)
unfolding list_line
list_line_eq pf = rw (capital-status_text pf.status) refl

-- The line of a service, whose state has a capital letter then.
abbrev pub line : ListService → Bytes
line s = cells (
    s.namespace
    ∷ s.name
    ∷ elim (capital s.status) [ ok t ↦ t | _ ↦ [] ]
    ∷ s.status_reason
    ∷ s.endpoint
    ∷ ip_text s.ip
    ∷ join s.ports b','
    ∷ [])

-- The state is not empty.
abbrev HasStatus : ListService → Type 0
HasStatus s = goes_on (capital s.status) ≡ true

list_line_ok : (s : ListService) → HasStatus s → list_line s ≡ ok (line s)
unfolding list_line
list_line_ok s h = elim (result_cases (capital s.status)) [
  | is_ok t e ↦ rw e refl
  | is_err m e ↦ absurd (ground (arith, ap goes_on e))
  | is_panic e ↦ absurd (ground (arith, ap goes_on e))
  | is_blocked e ↦ absurd (ground (arith, ap goes_on e))
]

list_lines_ok : (ss : List ListService) → All HasStatus ss → list_lines ss ≡ ok (map line ss)
unfolding list_lines
list_lines_ok [] h = refl
list_lines_ok (s ∷ ss) h =
    ap₂ (λ a b. a >>= λ l. b >>= λ ls. ok (l ∷ ls)) (list_line_ok s h.0) (list_lines_ok ss h.1)

HasStatus-answers : (m : Dict Connection) → All HasStatus (map (λ e. answer_of (e.1)) m)
HasStatus-answers [] = tt
HasStatus-answers (e ∷ m) = (ap goes_on (capital-status_text e.1.status), HasStatus-answers m)

line-answer_of :
    (m : Dict Connection) → map line (map (λ e. answer_of (e.1)) m) ≡ map (λ e. line_of (e.1)) m
line-answer_of [] = refl
line-answer_of (e ∷ m) =
    ap₂ ◌∷◌
      (ok-injective (
        sym (list_line_ok (answer_of e.1) (ap goes_on (capital-status_text e.1.status)))
        ∙ list_line_eq e.1))
      (line-answer_of m)
  where
    ok-injective : {a b : Bytes} → ok a ≡ ok b → a ≡ b
    ok-injective h = cc

-- `localizer list` never panics: for whatever port-forwards the worker has, it prints the header and
-- one line for each of them, with the port-forward's names, state, reason, pod, address and ports.
-- The lines are in the order of the services' names, whatever their namespaces are. For a
-- daemon that runs and a dial that succeeds, and any `sort.Slice` that keeps its promises.
pub list_command-lines :
    (sort : SortSlice) (m : Dict Connection) (file : SocketFile)
    → IsSort sort
    → is_running file ≡ true
    → (services : List ListService) × (list_command sort file (ok tt) (list_services (some m))
        ≡ ok (header ∷ map line services))
      × IsOrdered by_name services
      × Perm services (map (λ e. answer_of (e.1)) m)
      × Perm (map line services) (map (λ e. line_of (e.1)) m)
unfolding list_command
list_command-lines sort m file law up =
    let answers = map (λ (e : Bytes × Connection). answer_of (e.1)) m in
    let services = sort by_name (sort by_namespace answers) in
    let same =
      Perm.trans (law.keeps by_name (sort by_namespace answers)) (law.keeps by_namespace answers) in
    (
      services,
      rw
          (
            up,
            list_services_eq m,
            list_lines_ok services (All-perm HasStatus (λ s. hlevel) same (HasStatus-answers m)),
          )
          refl,
      law.sorts by_name (sort by_namespace answers) by_name-IsWeakOrder,
      same,
      subst (Perm (map line services)) (line-answer_of m) (Perm.map line same),
    )
