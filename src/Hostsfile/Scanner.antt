-- ===== src/Hostsfile/Scanner.antt =====
-- The loops of pkg/hostsfile/parser.go over a `bufio.Scanner`: what the scanner yields for a
-- byte slice, and a loop body that may read one more line or return.
pub mod Lines
pub mod Steps
pub mod Limits
use localizer.Base.{
  ℕ, suc, ◌≡◌, refl, ap, ◌∙◌, ◌≢◌, Bool, true, false, List, [], ◌∷◌, ◌++◌, Option, none, some,
  Bytes, codes, split, join, Lacks, split-join, All, length, ltb, ◌==◌, if◌then◌else◌, Result, ok,
  err, arith, ◌<◌,
}

-- The lines that `Scan` yields before it answers false, and whether it then stands at a line of
-- `MaxScanTokenSize` bytes or more.
pub record Scanned : Type 0 where
  pub lines : List Bytes
  pub too_long : Bool

drop_cr : Bytes → Bytes
drop_cr [] = []
drop_cr (c ∷ []) = if c == b'\r' then [] else c ∷ []
drop_cr (c ∷ d ∷ cs) = c ∷ drop_cr (d ∷ cs)

-- The text behind the last newline is a line, unless it is empty.
drop_final : List Bytes → List Bytes
drop_final [] = []
drop_final ([] ∷ []) = []
drop_final ((c ∷ cs) ∷ []) = (c ∷ cs) ∷ []
drop_final (l ∷ m ∷ ls) = l ∷ drop_final (m ∷ ls)

abbrev pub max_token : ℕ
max_token = 65536

tokens : List Bytes → Scanned
tokens [] = record { lines = []; too_long = false }
tokens (l ∷ ls) =
    let rest = tokens ls in
    if ltb (length l) max_token
    then record { lines = drop_cr l ∷ rest.lines; too_long = rest.too_long }
    else record { lines = []; too_long = true }

unfoldable pub scan_lines : Bytes → Scanned
unfolding drop_cr drop_final tokens
scan_lines contents = tokens (drop_final (split contents b'\n'))

-- `ctx.Done()` at the n-th poll: the context's error once it is done.
abbrev pub Context : Type 0
Context = ℕ → Option Bytes

-- `context.Background()`
abbrev pub background : Context
background n = none

-- How a loop body ends: at the next line, at the line after one more `Scan`, or by a return.
pub data Turn {ℓ} (S : Type ℓ) : Type ℓ where
  next : S → Turn S
  skip : S → Turn S
  stop : S → Result (Unit {0}) → Turn S

module _ {ℓ} {S : Type ℓ} (ctx : Context) (too_long : Bool)
    (body : S → Bytes → Bytes → Turn S) where
  -- The test of `scanner.Err()` behind the loop.
  abbrev pub finish : S → S × Result (Unit {0})
  finish s = (s, if too_long then err (codes "bufio.Scanner: token too long") else ok tt)

  -- The body gets the line and the text of one more `Scan`, which is empty at the end.
  unfoldable pub each_line : ℕ → S → List Bytes → S × Result (Unit {0})
  each_line n s [] = finish s
  each_line n s (line ∷ []) = elim (ctx n) [
    | some e ↦ (s, err e)
    | none ↦ elim (body s line []) [ next t ↦ finish t | skip t ↦ finish t | stop t r ↦ (t, r) ]
  ]
  each_line n s (line ∷ more ∷ rest) = elim (ctx n) [
    | some e ↦ (s, err e)
    | none ↦ elim (body s line more) [
      | next t ↦ each_line (suc n) t (more ∷ rest)
      | skip t ↦ each_line (suc n) t rest
      | stop t r ↦ (t, r)
    ]
  ]
