-- ===== src/Hostsfile/Scanner/Lines.antt =====
-- What the scanner of pkg/hostsfile/parser.go yields for joined lines.
use localizer.Base.{
  ◌<◌, ◌≡◌, refl, ap, ◌∙◌, ◌≢◌, false, List, [], ◌∷◌, ◌++◌, Bytes, join, Lacks, split-join, All,
  length, arith,
}
use localizer.Hostsfile.Scanner.{drop_cr, drop_final, max_token, tokens, scan_lines}

-- No carriage return at the end.
abbrev pub NoFinalCr : Bytes → Type 0
NoFinalCr [] = Unit
NoFinalCr (c ∷ []) = c ≢ b'\r'
NoFinalCr (c ∷ d ∷ cs) = NoFinalCr (d ∷ cs)

-- A text that the scanner yields whole: one line, with no carriage return at its end, and short.
pub record IsLine (l : Bytes) : Type 0 where
  pub one_line : Lacks b'\n' l
  pub no_cr : NoFinalCr l
  pub short : length l < max_token

-- Lines of which the last is not empty.
abbrev pub EndsFull : List Bytes → Type 0
EndsFull [] = ⊥
EndsFull (l ∷ []) = l ≢ []
EndsFull (l ∷ m ∷ ls) = EndsFull (m ∷ ls)

drop_cr-eq : (l : Bytes) → NoFinalCr l → drop_cr l ≡ l
unfolding drop_cr
drop_cr-eq [] h = refl
drop_cr-eq (c ∷ []) h = ground arith
drop_cr-eq (c ∷ d ∷ cs) h = ap (◌∷◌ c) (drop_cr-eq (d ∷ cs) h)

drop_final-eq : (ls : List Bytes) → EndsFull ls → drop_final ls ≡ ls
unfolding drop_final
drop_final-eq [] h = absurd h
drop_final-eq ([] ∷ []) h = absurd (h refl)
drop_final-eq ((c ∷ cs) ∷ []) h = refl
drop_final-eq (l ∷ m ∷ ls) h = ap (◌∷◌ l) (drop_final-eq (m ∷ ls) h)

tokens-eq : (ls : List Bytes) → All IsLine ls → tokens ls ≡ record { lines = ls; too_long = false }
unfolding tokens
tokens-eq [] h = refl
tokens-eq (l ∷ ls) (h, t) = ground (arith, tokens-eq ls t, drop_cr-eq l h.no_cr, h.short)

All-Lacks : (ls : List Bytes) → All IsLine ls → All (Lacks b'\n') ls
All-Lacks [] h = tt
All-Lacks (l ∷ ls) (h, t) = (h.one_line, All-Lacks ls t)

EndsFull-ne_nil : (ls : List Bytes) → EndsFull ls → ls ≢ []
EndsFull-ne_nil [] h e = h
EndsFull-ne_nil (l ∷ ls) h e = cc

-- Scanning joined lines gives them back.
pub scan_lines-join :
    (ls : List Bytes)
    → All IsLine ls
    → EndsFull ls
    → scan_lines (join ls b'\n') ≡ record { lines = ls; too_long = false }
unfolding scan_lines
scan_lines-join ls h full =
    ap (λ t. tokens (drop_final t)) (split-join b'\n' ls (EndsFull-ne_nil ls full) (All-Lacks ls h))
    ∙ ap tokens (drop_final-eq ls full)
    ∙ tokens-eq ls h

pub EndsFull-append : (ls ms : List Bytes) → EndsFull ms → EndsFull (ls ++ ms)
EndsFull-append [] ms h = h
EndsFull-append (l ∷ []) [] h = absurd h
EndsFull-append (l ∷ []) (m ∷ ms) h = h
EndsFull-append (l ∷ k ∷ ls) ms h = EndsFull-append (k ∷ ls) ms h
