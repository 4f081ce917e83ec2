-- ===== src/Base/Results.antt =====
-- What a Go function can do: return, return an error (its text), panic, or wait for ever on a lock.
use mathlib.Core.List.{◌++◌}
use mathlib.Core.Bool.{Bool, true, false}
use mathlib.Core.Path.{◌≡◌, refl}
use localizer.Base.Strings.{Bytes, codes}

pub data Result {ℓ} (A : Type ℓ) : Type ℓ where
  ok : A → Result A
  err : Bytes → Result A
  panic : Result A
  blocked : Result A

-- `if err != nil { return err }`
infixl 5 ◌>>=◌
abbrev pub ◌>>=◌ {ℓ κ} : {B : Type κ} {A : Type ℓ} → Result A → (A → Result B) → Result B
blocked >>= rest = blocked
panic >>= rest = panic
err message >>= rest = err message
ok value >>= rest = rest value

-- `errors.Wrap(err, message)`: the text is `message: err`.
abbrev pub wrap {ℓ} : {A : Type ℓ} → Bytes → Result A → Result A
wrap message (ok a) = ok a
wrap message (err e) = err (message ++ (codes ": " ++ e))
wrap message panic = panic
wrap message blocked = blocked

-- A result that comes back, with a value or an error.
abbrev pub goes_on {ℓ} : {A : Type ℓ} → Result A → Bool
goes_on (ok _) = true
goes_on (err _) = true
goes_on panic = false
goes_on blocked = false

-- A split on a computed result that keeps the equation.
pub data ResultCases {ℓ} {A : Type ℓ} (r : Result A) : Type ℓ where
  is_ok : (a : A) → r ≡ ok a → ResultCases r
  is_err : (e : Bytes) → r ≡ err e → ResultCases r
  is_panic : r ≡ panic → ResultCases r
  is_blocked : r ≡ blocked → ResultCases r

pub result_cases {ℓ} : {A : Type ℓ} (r : Result A) → ResultCases r
result_cases (ok a) = is_ok a refl
result_cases (err e) = is_err e refl
result_cases panic = is_panic refl
result_cases blocked = is_blocked refl
