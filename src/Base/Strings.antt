-- ===== src/Base/Strings.antt =====
-- Go strings as lists of bytes, with the functions of `strings`, `bytes` and `fmt` that the
-- program calls.
use Prim.Native.Nat.{ℕ}
use Prim.Native.Char.{code}
use Prim.Native.String.{String}
use mathlib.Core.Bool.{Bool, true, false, ◌&&◌}
use mathlib.Core.List.{List, [], ◌∷◌, ◌++◌, append_assoc, append-nil}
use mathlib.Core.Logic.{◌≢◌, ◌↔◌, inl, inr}
use mathlib.Core.Path.{◌≡◌, refl, sym, ap, subst, ◌∙◌}
use native.Mathlib.Omega.{arith}
use localizer.Base.Tests.{◌==◌, if◌then◌else◌, Bool-cases}
use localizer.Base.Lists.{All}

abbrev pub Bytes : Type 0
Bytes = List ℕ

-- The code points of a literal: its bytes, as all of them are ASCII.
abbrev pub codes : String → Bytes
codes String.[] = []
codes (String.◌∷◌ c s) = code c ∷ codes s

-- `==` on strings
unfoldable pub str_eq : Bytes → Bytes → Bool
str_eq [] [] = true
str_eq (x ∷ xs) (y ∷ ys) = x == y && str_eq xs ys
str_eq _ _ = false

pub str_eq_iff : (a b : Bytes) → (str_eq a b ≡ true) ↔ (a ≡ b)
unfolding str_eq
str_eq_iff (x ∷ a) (y ∷ b) = ground (arith, str_eq_iff a b)
str_eq_iff _ _ = ground arith

pub str_eq_refl : (a : Bytes) → str_eq a a ≡ true
str_eq_refl a = (str_eq_iff a a).1 refl

-- `strings.Split` at one byte: always at least one piece.
abbrev pub cons_head : ℕ → List Bytes → List Bytes
cons_head c [] = (c ∷ []) ∷ []
cons_head c (l ∷ ls) = (c ∷ l) ∷ ls

unfoldable pub split : Bytes → ℕ → List Bytes
split [] sep = [] ∷ []
split (c ∷ cs) sep = let rest = split cs sep in if c == sep then [] ∷ rest else cons_head c rest

-- `strings.Join` with one byte between
unfoldable pub join : List Bytes → ℕ → Bytes
join [] sep = []
join (l ∷ []) sep = l
join (l ∷ m ∷ ls) sep = l ++ (sep ∷ join (m ∷ ls) sep)

abbrev pub Lacks : ℕ → Bytes → Type 0
Lacks b = All (λ c. c ≢ b)

pub split-append_sep :
    (sep : ℕ) (l cs : Bytes) → Lacks sep l → split (l ++ (sep ∷ cs)) sep ≡ l ∷ split cs sep
unfolding split
split-append_sep sep [] cs h = ground arith
split-append_sep sep (c ∷ l) cs h = ground (arith, split-append_sep sep l cs h.1)

pub split_of_Lacks : (sep : ℕ) (l : Bytes) → Lacks sep l → split l sep ≡ l ∷ []
unfolding split
split_of_Lacks sep [] h = refl
split_of_Lacks sep (c ∷ l) h = ground (arith, split_of_Lacks sep l h.1)

-- A join is split back, if no piece holds the separator.
pub split-join :
    (sep : ℕ) (ls : List Bytes) → ls ≢ [] → All (Lacks sep) ls → split (join ls sep) sep ≡ ls
unfolding join
split-join sep [] ne h = absurd (ne refl)
split-join sep (l ∷ []) ne h = split_of_Lacks sep l h.0
split-join sep (l ∷ m ∷ ls) ne h =
    split-append_sep sep l (join (m ∷ ls) sep) h.0
    ∙ ap (◌∷◌ l) (split-join sep (m ∷ ls) (λ e. cc) h.1)

join-cons :
    (sep : ℕ) (l : Bytes) (ls : List Bytes) → ls ≢ [] → join (l ∷ ls) sep ≡ l ++ (sep ∷ join ls sep)
unfolding join
join-cons sep l [] ne = absurd (ne refl)
join-cons sep l (m ∷ ls) ne = refl

append-ne-nil : (ls : List Bytes) (m : Bytes) (ms : List Bytes) → ls ++ (m ∷ ms) ≢ []
append-ne-nil [] m ms e = cc
append-ne-nil (l ∷ ls) m ms e = cc

append-ne-nil_middle : (ls ms post : List Bytes) → ms ≢ [] → ls ++ (ms ++ post) ≢ []
append-ne-nil_middle [] [] post ne e = ne refl
append-ne-nil_middle [] (m ∷ ms) post ne e = cc
append-ne-nil_middle (l ∷ ls) ms post ne e = cc

join-append :
    (sep : ℕ) (ls ms : List Bytes)
    → ls ≢ []
    → ms ≢ []
    → join (ls ++ ms) sep ≡ join ls sep ++ (sep ∷ join ms sep)
unfolding join
join-append sep [] ms p q = absurd (p refl)
join-append sep (l ∷ []) ms p q = join-cons sep l ms q
join-append sep (l ∷ k ∷ ls) ms p q =
    ap (λ t. l ++ (sep ∷ t)) (join-append sep (k ∷ ls) ms (λ e. cc) q)
    ∙ sym (append_assoc l (sep ∷ join (k ∷ ls) sep) (sep ∷ join ms sep))

-- A piece that is itself a join can be spliced.
pub join-splice :
    (sep : ℕ) (pre inner post : List Bytes)
    → inner ≢ []
    → join (pre ++ (join inner sep ∷ post)) sep ≡ join (pre ++ (inner ++ post)) sep
join-splice sep [] inner [] ne = rw append-nil (unfold join in refl)
join-splice sep [] inner (p ∷ post) ne =
    join-cons sep (join inner sep) (p ∷ post) (λ e. cc)
    ∙ sym (join-append sep inner (p ∷ post) ne (λ e. cc))
join-splice sep (l ∷ pre) inner post ne =
    join-cons sep l _ (append-ne-nil pre _ post)
    ∙ ap (λ t. l ++ (sep ∷ t)) (join-splice sep pre inner post ne)
    ∙ sym (join-cons sep l _ (append-ne-nil_middle pre inner post ne))

pub split_cons : (sep : ℕ) (cs : Bytes) → (l : Bytes) × (ls : List Bytes) × (split cs sep ≡ l ∷ ls)
unfolding split
split_cons sep [] = ([], [], refl)
split_cons sep (c ∷ cs) = elim (Bool-cases (c == sep)) [
  | inl hit ↦ ([], split cs sep, rw hit refl)
  | inr miss ↦ let (l, ls, e) = split_cons sep cs in (c ∷ l, ls, rw (miss, e) refl)
]

join-cons_head :
    (sep c : ℕ) (l : Bytes) (ls : List Bytes)
    → join (cons_head c (l ∷ ls)) sep ≡ c ∷ join (l ∷ ls) sep
unfolding join
join-cons_head sep c l [] = refl
join-cons_head sep c l (m ∷ ls) = refl

-- The pieces of a split give the text back, and none of them holds the separator.
join-nil_head :
    (sep : ℕ) (l : Bytes) (ls : List Bytes) → join ([] ∷ l ∷ ls) sep ≡ sep ∷ join (l ∷ ls) sep
unfolding join
join-nil_head sep l ls = refl

join-nil : (sep : ℕ) → join ([] ∷ []) sep ≡ []
unfolding join
join-nil sep = refl

pub join-split : (sep : ℕ) (cs : Bytes) → join (split cs sep) sep ≡ cs
unfolding split
join-split sep [] = join-nil sep
join-split sep (c ∷ cs) =
    let (l, ls, e) = split_cons sep cs in
    let rest : join (l ∷ ls) sep ≡ cs = subst (λ q. join q sep ≡ cs) e (join-split sep cs) in
    elim (Bool-cases (c == sep)) [
      | inl hit ↦
          let same : c ≡ sep = ground arith in
          rw (hit, e) (join-nil_head sep l ls ∙ (ap (◌∷◌ sep) rest ∙ ap (λ t. t ∷ cs) (sym same)))
      | inr miss ↦ rw (miss, e) (join-cons_head sep c l ls ∙ ap (◌∷◌ c) rest)
    ]

pub split-Lacks : (sep : ℕ) (cs : Bytes) → All (Lacks sep) (split cs sep)
unfolding split
split-Lacks sep [] = (tt, tt)
split-Lacks sep (c ∷ cs) =
    let (l, ls, e) = split_cons sep cs in
    let rest : All (Lacks sep) (l ∷ ls) = subst (All (Lacks sep)) e (split-Lacks sep cs) in
    elim (Bool-cases (c == sep)) [
      | inl hit ↦ rw (hit, e) (tt, rest)
      | inr miss ↦ let ne : c ≢ sep = λ q. ground arith in rw (miss, e) ((ne, rest.0), rest.1)
    ]
