-- ===== src/Daemon/Owning.antt =====
-- What one step of a daemon, internal/server/grpc.go, does to the owner of the socket file.
use localizer.Base.{
  Bool-cases, inl, inr, ℕ, ◌≡◌, ◌≢◌, ◌==◌, refl, sym, subst, true, false, none, some, arith,
}
use localizer.Daemon.{
  alive, hung, dead, SocketFile, Answers, Phase, looking, dialing, removing, listening, preparing,
  serving, ended, advance, is_running, dial_previous, remove_previous, listen, prepare,
}
use localizer.Daemon.Starting.{settled, in_service, freeing, at}

module _ (a : Answers) (n : ℕ) where
  pub advance_elsewhere :
      (p : Phase) (f : SocketFile)
      → freeing p ≡ false
      → in_service p ≡ false
      → (advance a n p f).1 ≡ f
  unfolding advance
  advance_elsewhere looking f h g = refl
  advance_elsewhere dialing f h g = refl
  advance_elsewhere (ended r log) f h g = refl
  advance_elsewhere removing f h g = cc
  advance_elsewhere listening f h g = cc
  advance_elsewhere preparing f h g = cc
  advance_elsewhere serving f h g = cc

  dialed : (f : SocketFile) → in_service (dial_previous f) ≡ false
  unfolding dial_previous
  dialed none = refl
  dialed (some dead) = refl
  dialed (some (alive m)) = refl
  dialed (some (hung m)) = refl

  dialed_free : (f : SocketFile) (k : ℕ) → freeing (dial_previous f) ≡ true → f ≢ some (alive k)
  unfolding dial_previous
  dialed_free none k h e = cc
  dialed_free (some dead) k h e = cc
  dialed_free (some (alive m)) k h e = cc
  dialed_free (some (hung m)) k h e = cc

  pub advance-owner :
      (p : Phase) (f : SocketFile)
      → (in_service p ≡ true → f ≡ some (alive n))
      → in_service (advance a n p f).0 ≡ true
      → (advance a n p f).1 ≡ some (alive n)
  unfolding advance is_running remove_previous listen prepare
  advance-owner looking none own h = cc
  advance-owner looking (some q) own h = cc
  advance-owner dialing f own h = absurd (ground (arith, dialed f))
  advance-owner removing f own h = ground arith
  advance-owner listening none own h = ground arith
  advance-owner listening (some q) own h = cc
  advance-owner preparing f own h = ground (arith, own refl)
  advance-owner serving f own h = cc
  advance-owner (ended r log) f own h = cc

  pub advance-clear :
      (p : Phase) (f : SocketFile) (k : ℕ)
      → freeing (advance a n p f).0 ≡ true
      → (advance a n p f).1 ≢ some (alive k)
  unfolding advance is_running remove_previous listen prepare
  advance-clear looking none k h e = cc
  advance-clear looking (some q) k h e = cc
  advance-clear dialing f k h e = dialed_free f k h e
  advance-clear removing none k h e = ground arith
  advance-clear removing (some q) k h e = ground arith
  advance-clear listening none k h e = ground arith
  advance-clear listening (some q) k h e = cc
  advance-clear preparing f k h e = ground arith
  advance-clear serving f k h e = cc
  advance-clear (ended r log) f k h e = cc

at_self : (f : ℕ → Phase) (n : ℕ) (p : Phase) → at f n p n ≡ p
at_self f n p = ground arith

at_other : (f : ℕ → Phase) (n : ℕ) (p : Phase) (m : ℕ) → m ≢ n → at f n p m ≡ f m
at_other f n p m h = ground arith

-- A field of the invariant after a change of one daemon: for that one, and for the others.
pub change_one :
    (P : ℕ → Phase → Type 0) (f : ℕ → Phase) (n : ℕ) (p : Phase)
    → P n p
    → ((m : ℕ) → m ≢ n → P m (f m))
    → (m : ℕ) → P m (at f n p m)
change_one P f n p own others m = elim (Bool-cases (n == m)) [
  | inl hit ↦
      let same : n ≡ m = ground arith in
      subst (λ q. P q (at f n p q)) same (subst (P n) (sym (at_self f n p)) own)
  | inr miss ↦
      let ne : m ≢ n = λ e. ground arith in subst (P m) (sym (at_other f n p m ne)) (others m ne)
]

pub unsettled_of_freeing : (p : Phase) → freeing p ≡ true → settled p ≡ false
unsettled_of_freeing removing h = refl
unsettled_of_freeing listening h = refl
unsettled_of_freeing looking h = cc
unsettled_of_freeing dialing h = cc
unsettled_of_freeing preparing h = cc
unsettled_of_freeing serving h = cc
unsettled_of_freeing (ended r log) h = cc

pub one_alone :
    (f : ℕ → Phase) (n : ℕ) (p : Phase)
    → ((m : ℕ) → m ≢ n → settled (f m) ≡ true)
    → (m k : ℕ) → m ≢ k
    → settled (at f n p m) ≡ false
    → settled (at f n p k) ≡ true
one_alone f n p alone m k ne h = ground (arith, alone k, alone m)

pub one_settled :
    (f : ℕ → Phase) (n : ℕ) (p : Phase)
    → settled p ≡ true
    → ((m k : ℕ) → m ≢ k → settled (f m) ≡ false → settled (f k) ≡ true)
    → (m k : ℕ) → m ≢ k
    → settled (at f n p m) ≡ false
    → settled (at f n p k) ≡ true
one_settled f n p rest one m k ne h = ground (arith, one m k)
