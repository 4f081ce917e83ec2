-- ===== src/Daemon/Race.antt =====
-- Two daemons that start at the same time: internal/server/grpc.go.
use localizer.Base.{ℕ, ◌≡◌, ◌≢◌, refl, ap, [], ◌∷◌, none, some, arith}
use localizer.Daemon.{
  alive, dead, SocketFile, Answers, Phase, looking, dialing, removing, listening, preparing,
  serving, advance, remove_previous, listen, prepare, is_running, dial_previous, Peer,
}
use localizer.Daemon.Running.{Comes}
use localizer.Daemon.Starting.{System, move, interleave}

-- Where two daemons are, and the file.
record Two (m n : ℕ) (s : System) (p q : Phase) (file : SocketFile) : Type 0 where
  first : s.phase m ≡ p
  second : s.phase n ≡ q
  there : s.file ≡ file

module _ (a : Answers) (m n : ℕ) (ne : m ≢ n) where
  moves_first :
      {s : System} {p q p' : Phase} {file file' : SocketFile}
      → Two m n s p q file
      → advance a m p file ≡ (p', file')
      → Two m n (move a m s) p' q file'
  unfolding move
  moves_first {s} {p'} {file'} two e =
      let got : advance a m (s.phase m) s.file ≡ (p', file') = rw (two.first, two.there) e in
      record {
        first = ground (arith, got);
        second = ground (arith, two.second);
        there = ap (λ t. t.1) got;
      }

  moves_second :
      {s : System} {p q q' : Phase} {file file' : SocketFile}
      → Two m n s p q file
      → advance a n q file ≡ (q', file')
      → Two m n (move a n s) p q' file'
  unfolding move
  moves_second {s} {q'} {file'} two e =
      let got : advance a n (s.phase n) s.file ≡ (q', file') = rw (two.second, two.there) e in
      record {
        first = ground (arith, two.first);
        second = ground (arith, got);
        there = ap (λ t. t.1) got;
      }

  -- Both find the file of a daemon that died. The first one removes it and listens; then the second
  -- one removes the file of the first and listens as well. So both serve, and no client can reach
  -- the first. For calls that all succeed.
  pub both_serve :
      (s : System)
      → Comes a
      → a.remove ≡ none
      → s.phase m ≡ looking
      → s.phase n ≡ looking
      → s.file ≡ some dead
      → let t = interleave a (m ∷ n ∷ m ∷ n ∷ m ∷ m ∷ n ∷ n ∷ m ∷ n ∷ []) s in
        (t.phase m ≡ serving) × (t.phase n ≡ serving) × (t.file ≡ some (alive n))
  unfolding interleave
  both_serve s comes removes at_m at_n left =
      let start : Two m n s looking looking (some dead) = record {
        first = at_m;
        second = at_n;
        there = left;
      } in
      let looked = moves_second (moves_first start (looks m)) (looks n) in
      let dialed = moves_second (moves_first looked (dials m)) (dials n) in
      let first_up = moves_first (moves_first dialed (clears m dead)) (opens m) in
      let second_up = moves_second (moves_second first_up (clears n (alive m))) (opens n) in
      let up = moves_second (moves_first second_up (prepares m)) (prepares n) in
      (up.first, up.second, up.there)
    where
      looks : (k : ℕ) → advance a k looking (some dead) ≡ (dialing, some dead)
      looks k = unfold advance in unfold is_running in refl

      dials : (k : ℕ) → advance a k dialing (some dead) ≡ (removing, some dead)
      dials k = unfold advance in unfold dial_previous in refl

      clears : (k : ℕ) (q : Peer) → advance a k removing (some q) ≡ (listening, none)
      clears k q = unfold advance in unfold remove_previous in ground arith

      opens : (k : ℕ) → advance a k listening none ≡ (preparing, some (alive k))
      opens k = unfold advance in unfold listen in ground (arith, comes.listens)

      prepares : (k : ℕ) → advance a k preparing (some (alive n)) ≡ (serving, some (alive n))
      prepares k = unfold advance in unfold prepare in ground (arith, comes.opens, comes.handles)
