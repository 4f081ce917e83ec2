-- ===== src/Hostsfile/Scanner/Steps.antt =====
-- The loops of pkg/hostsfile/parser.go, line by line, under a context that is never done.
use localizer.Base.{ℕ, suc, ◌≡◌, refl, ap, ◌∙◌, Bool, List, [], ◌∷◌, ◌++◌, Bytes, All, Result}
use localizer.Hostsfile.Scanner.{background, Turn, next, skip, stop, finish, each_line}

-- The lines one after the other, each by `act`.
abbrev pub run_lines {ℓ} : {S : Type ℓ} → (S → Bytes → S) → S → List Bytes → S
run_lines act s [] = s
run_lines act s (l ∷ ls) = run_lines act (act s l) ls

module _ {ℓ} {S : Type ℓ} (too_long : Bool) (body : S → Bytes → Bytes → Turn S) where
  pub each_line-next :
      (n : ℕ) (s t : S) (line : Bytes) (rest : List Bytes)
      → ((more : Bytes) → body s line more ≡ next t)
      → each_line background too_long body n s (line ∷ rest)
        ≡ each_line background too_long body (suc n) t rest
  unfolding each_line
  each_line-next n s t line [] h = rw (h [])
  each_line-next n s t line (more ∷ rest) h = rw (h more)

  pub each_line-skip :
      (n : ℕ) (s t : S) (line more : Bytes) (rest : List Bytes)
      → body s line more ≡ skip t
      → each_line background too_long body n s (line ∷ more ∷ rest)
        ≡ each_line background too_long body (suc n) t rest
  unfolding each_line
  each_line-skip n s t line more rest h = rw h

  pub each_line-stop :
      (n : ℕ) (s t : S) (r : Result (Unit {0})) (line more : Bytes) (rest : List Bytes)
      → body s line more ≡ stop t r
      → each_line background too_long body n s (line ∷ more ∷ rest) ≡ (t, r)
  unfolding each_line
  each_line-stop n s t r line more rest h = rw h

  -- A stretch of lines at each of which the loop goes on with `act`.
  pub each_line-run_lines {κ} :
      (act : S → Bytes → S) (P : Bytes → Type κ)
      → ((s : S) (line more : Bytes) → P line → body s line more ≡ next (act s line))
      → (n : ℕ) (s : S) (ls rest : List Bytes) → All P ls
      → (k : ℕ) × (each_line background too_long body n s (ls ++ rest)
          ≡ each_line background too_long body k (run_lines act s ls) rest)
  each_line-run_lines act P step n s [] rest h = (n, refl)
  each_line-run_lines act P step n s (l ∷ ls) rest h =
      let (k, e) = each_line-run_lines act P step (suc n) (act s l) ls rest h.1 in
      (k, each_line-next n s (act s l) l (ls ++ rest) (λ more. step s l more h.0) ∙ e)

  -- The same up to the end of the lines.
  pub each_line-run_lines_end {κ} :
      (act : S → Bytes → S) (P : Bytes → Type κ)
      → ((s : S) (line more : Bytes) → P line → body s line more ≡ next (act s line))
      → (n : ℕ) (s t : S) (ls : List Bytes) → All P ls
      → run_lines act s ls ≡ t
      → each_line background too_long body n s ls ≡ finish background too_long body t
  unfolding each_line
  each_line-run_lines_end act P step n s t [] h e = ap (finish background too_long body) e
  each_line-run_lines_end act P step n s t (l ∷ ls) h e =
      each_line-next n s (act s l) l ls (λ more. step s l more h.0)
      ∙ each_line-run_lines_end act P step (suc n) (act s l) t ls h.1 e

  -- A stretch of lines after which the state is `t`.
  pub each_line-stretch {κ} :
      (act : S → Bytes → S) (P : Bytes → Type κ)
      → ((s : S) (line more : Bytes) → P line → body s line more ≡ next (act s line))
      → (n : ℕ) (s t : S) (ls rest : List Bytes) → All P ls
      → run_lines act s ls ≡ t
      → (k : ℕ) × (each_line background too_long body n s (ls ++ rest)
          ≡ each_line background too_long body k t rest)
  each_line-stretch act P step n s t ls rest h e =
      let (k, r) = each_line-run_lines act P step n s ls rest h in
      (k, r ∙ ap (λ u. each_line background too_long body k u rest) e)
