-- ===== src/Hostsfile/Scanner/Limits.antt =====
-- When the loops of pkg/hostsfile/parser.go over a scanner succeed.
use localizer.Base.{
  ℕ, suc, ◌≡◌, ◌≢◌, ◌<◌, ◌⊎◌, refl, ap, subst, ◌∙◌, Bool, false, not, ◌||◌, List, [], ◌∷◌, Bytes,
  split, length, ltb, Result, ok, All, arith, Option-cases, inl, inr,
}
use localizer.Hostsfile.Scanner.{
  drop_final, tokens, max_token, scan_lines, Context, Turn, next, skip, stop, each_line,
}

unfoldable pub any_long : List Bytes → Bool
any_long [] = false
any_long (l ∷ ls) = not (ltb (length l) max_token) || any_long ls

drop_final-long : (ls : List Bytes) → any_long (drop_final ls) ≡ any_long ls
unfolding any_long drop_final
drop_final-long [] = refl
drop_final-long ([] ∷ []) = refl
drop_final-long ((c ∷ cs) ∷ []) = refl
drop_final-long (l ∷ m ∷ ls) =
    ap (λ t. not (ltb (length l) max_token) || t) (drop_final-long (m ∷ ls))

tokens-long : (ls : List Bytes) → (tokens ls).too_long ≡ any_long ls
unfolding tokens any_long
tokens-long [] = refl
tokens-long (l ∷ ls) = ground (arith, tokens-long ls)

pub scan_lines-long : (text : Bytes) → (scan_lines text).too_long ≡ any_long (split text b'\n')
unfolding scan_lines
scan_lines-long text =
    tokens-long (drop_final (split text b'\n')) ∙ drop_final-long (split text b'\n')

-- Every line is shorter than the scanner's limit.
abbrev pub AllShort : Bytes → Type 0
AllShort text = All (λ l. length l < max_token) (split text b'\n')

pub short_lines : (ls : List Bytes) → any_long ls ≡ false → All (λ l. length l < max_token) ls
unfolding any_long
short_lines [] h = tt
short_lines (l ∷ ls) h = (ground arith, short_lines ls (ground arith))

pub turn_cases {ℓ} :
    {S : Type ℓ} (t : Turn S)
    → ((s : S) × (t ≡ next s))
      ⊎ ((s : S) × (t ≡ skip s))
      ⊎ ((s : S) × (r : Result (Unit {0})) × (t ≡ stop s r))
turn_cases (next s) = inl (s, refl)
turn_cases (skip s) = inr (inl (s, refl))
turn_cases (stop s r) = inr (inr (s, r, refl))

-- A turn that does not end the loop with success.
abbrev pub GoesOn {ℓ} : {S : Type ℓ} → Turn S → Type 0
GoesOn (next s) = Unit
GoesOn (skip s) = Unit
GoesOn (stop s r) = r ≢ ok tt

pub each_line-ok {ℓ} :
    {S : Type ℓ} (ctx : Context) (too_long : Bool) (body : S → Bytes → Bytes → Turn S)
    → ((s : S) (line more : Bytes) → GoesOn (body s line more))
    → (n : ℕ) (s : S) (ls : List Bytes) → (each_line ctx too_long body n s ls).1 ≡ ok tt
    → too_long ≡ false
unfolding each_line
each_line-ok ctx too_long body h n s [] e = ground arith
each_line-ok ctx too_long body h n s (line ∷ []) e = elim (Option-cases (ctx n)) [
  | inr (m, done) ↦ absurd (ground arith)
  | inl live ↦ elim (turn_cases (body s line [])) [
    | inl (t, q) ↦ ground arith
    | inr (inl (t, q)) ↦ ground arith
    | inr (inr (t, r, q)) ↦ absurd (subst GoesOn q (h s line []) (ground arith))
  ]
]
each_line-ok ctx too_long body h n s (line ∷ more ∷ rest) e = elim (Option-cases (ctx n)) [
  | inr (m, done) ↦ absurd (ground arith)
  | inl live ↦ elim (turn_cases (body s line more)) [
    | inl (t, q) ↦ each_line-ok ctx too_long body h (suc n) t (more ∷ rest) (ground arith)
    | inr (inl (t, q)) ↦ each_line-ok ctx too_long body h (suc n) t rest (ground arith)
    | inr (inr (t, r, q)) ↦ absurd (subst GoesOn q (h s line more) (ground arith))
  ]
]

-- What holds of the state at a turn's end.
abbrev pub AtEnd {ℓ κ} : {S : Type ℓ} → (S → Type κ) → Turn S → Type κ
AtEnd P (next s) = P s
AtEnd P (skip s) = P s
AtEnd P (stop s r) = P s

-- What every turn keeps holds behind the loop.
pub each_line-keeps {ℓ κ} :
    {S : Type ℓ} (P : S → Type κ) (ctx : Context) (too_long : Bool)
    (body : S → Bytes → Bytes → Turn S)
    → ((s : S) (line more : Bytes) → P s → AtEnd P (body s line more))
    → (n : ℕ) (s : S) (ls : List Bytes) → P s
    → P (each_line ctx too_long body n s ls).0
unfolding each_line
each_line-keeps P ctx too_long body h n s [] k = k
each_line-keeps P ctx too_long body h n s (line ∷ []) k = elim (Option-cases (ctx n)) [
  | inr (m, done) ↦ rw (done, each_line) k
  | inl live ↦ elim (turn_cases (body s line [])) [
    | inl (t, q) ↦ rw (live, q, each_line) (subst (AtEnd P) q (h s line [] k))
    | inr (inl (t, q)) ↦ rw (live, q, each_line) (subst (AtEnd P) q (h s line [] k))
    | inr (inr (t, r, q)) ↦ rw (live, q, each_line) (subst (AtEnd P) q (h s line [] k))
  ]
]
each_line-keeps P ctx too_long body h n s (line ∷ more ∷ rest) k = elim (Option-cases (ctx n)) [
  | inr (m, done) ↦ rw (done, each_line) k
  | inl live ↦ elim (turn_cases (body s line more)) [
    | inl (t, q) ↦
        rw (live, q, each_line)
          (each_line-keeps P ctx too_long body h (suc n) t (more ∷ rest)
            (subst (AtEnd P) q (h s line more k)))
    | inr (inl (t, q)) ↦
        rw (live, q, each_line)
          (each_line-keeps P ctx too_long body h (suc n) t rest
            (subst (AtEnd P) q (h s line more k)))
    | inr (inr (t, r, q)) ↦ rw (live, q, each_line) (subst (AtEnd P) q (h s line more k))
  ]
]
