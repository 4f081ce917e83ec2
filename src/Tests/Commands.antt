-- ===== src/Tests/Commands.antt =====
-- Runs of cmd/localizer.
use localizer.Base.{
  Bytes, ◌≡◌, ◌↔◌, refl, Bool, true, false, List, [], ◌∷◌, map, some, codes, if◌then◌else◌, Result,
  ok, All, All-perm, Perm, Bool-cases, inl, inr,
}
use mathlib.Core.List.Perm
use localizer.Base.Dict.{Dict}
use localizer.Proxier.Types.{Connection, object_key}
use localizer.Server.{ListService, list_services}
use localizer.Daemon.{SocketFile, alive, is_running}
use localizer.Cli.{
  SortSlice, by_name, header, list_command, expose_command, expose_service, Received, message, eof,
  Level,
}
use localizer.Cli.Listing.{
  IsWeakOrder, IsOrdered, IsSort, line, line_of, answer_of, list_command-lines,
}
use localizer.Cli.Asking.{SlashFree, expose_command-request}
use localizer.Tests.Cluster.{forward}

-- A sort by insertion.
unfoldable insert_by :
    (ListService → ListService → Bool) → ListService → List ListService → List ListService
insert_by less x [] = x ∷ []
insert_by less x (y ∷ ys) =
    let rest = insert_by less x ys in if less y x then y ∷ rest else x ∷ y ∷ ys

unfoldable sort_by : SortSlice
unfolding insert_by
sort_by less [] = []
sort_by less (x ∷ xs) = insert_by less x (sort_by less xs)

module _ (less : ListService → ListService → Bool) where
  insert_by-Perm : (x : ListService) (ys : List ListService) → Perm (insert_by less x ys) (x ∷ ys)
  unfolding insert_by
  insert_by-Perm x [] = Perm.refl _
  insert_by-Perm x (y ∷ ys) = elim (Bool-cases (less y x)) [
    | inl before ↦ rw before (Perm.trans (Perm.cons y (insert_by-Perm x ys)) (Perm.swap x y ys))
    | inr behind ↦ rw behind (Perm.refl _)
  ]

  sort_by-Perm : (xs : List ListService) → Perm (sort_by less xs) xs
  unfolding sort_by
  sort_by-Perm [] = Perm.refl _
  sort_by-Perm (x ∷ xs) =
      Perm.trans (insert_by-Perm x (sort_by less xs)) (Perm.cons x (sort_by-Perm xs))

  module _ (law : IsWeakOrder less) where
    all_behind :
        (x y : ListService) (ys : List ListService)
        → less y x ≡ false
        → All (λ b. less b y ≡ false) ys
        → All (λ b. less b x ≡ false) ys
    all_behind x y [] h all = tt
    all_behind x y (z ∷ zs) h all = (law.between z y x all.0 h, all_behind x y zs h all.1)

    insert_by-IsOrdered :
        (x : ListService) (ys : List ListService)
        → IsOrdered less ys
        → IsOrdered less (insert_by less x ys)
    unfolding insert_by
    insert_by-IsOrdered x [] h = (tt, tt)
    insert_by-IsOrdered x (y ∷ ys) h = elim (Bool-cases (less y x)) [
      | inl before ↦ rw before (
        All-perm (λ b. less b y ≡ false) (λ b. hlevel) (insert_by-Perm x ys)
            (law.asym y x before, h.0),
        insert_by-IsOrdered x ys h.1,
      )
      | inr behind ↦ rw behind ((behind, all_behind x y ys behind h.0), h)
    ]

    sort_by-IsOrdered : (xs : List ListService) → IsOrdered less (sort_by less xs)
    unfolding sort_by
    sort_by-IsOrdered [] = tt
    sort_by-IsOrdered (x ∷ xs) = insert_by-IsOrdered x (sort_by less xs) (sort_by-IsOrdered xs)

sort_by-IsSort : IsSort sort_by
sort_by-IsSort = record {
  keeps = sort_by-Perm;
  sorts = λ less xs law. sort_by-IsOrdered less law xs;
}

-- Two services of the same name.
abbrev two_forwards : Dict Connection
two_forwards =
    (codes "default/web", forward)
    ∷ (
      codes "admin/web",
      record forward { service = record { name = codes "web"; namespace = codes "admin" } },
    )
    ∷ []

abbrev at_one : SocketFile
at_one = some (alive 1)

at_one-running : is_running at_one ≡ true
unfolding is_running
at_one-running = refl

list_command-lines_example :
    (services : List ListService) × (list_command sort_by at_one
        (ok tt)
        (list_services (some two_forwards))
      ≡ ok (header ∷ map line services))
    × IsOrdered by_name services
    × Perm services (map (λ e. answer_of (e.1)) two_forwards)
    × Perm (map line services) (map (λ e. line_of (e.1)) two_forwards)
list_command-lines_example =
    list_command-lines sort_by two_forwards at_one sort_by-IsSort at_one-running

abbrev stream : List Received
stream = message Level.info (codes "tunnel is up") ∷ eof ∷ []

expose_command-request_example :
    ((expose_command
        (codes "default/web")
        false
        (codes "80:8080" ∷ [])
        at_one
        (ok tt)
        (ok tt)
        stream).request
      ≡ some (expose_service (codes "80:8080" ∷ []) (codes "default") (codes "web")))
    ↔ ((codes "default/web" ≡ object_key (codes "default") (codes "web"))
        × SlashFree (codes "default")
        × SlashFree (codes "web")
        × (is_running at_one ≡ true)
        × (◌≡◌ {A = Result (Unit {0})} (ok tt) (ok tt)))
expose_command-request_example =
    expose_command-request (codes "default/web") false (codes "80:8080" ∷ []) at_one (ok tt) (ok tt)
      stream (codes "default") (codes "web")

-- The daemon, started by root where a dead one left its socket.
abbrev flags : Bytes → Bytes
flags name = codes "kind"
