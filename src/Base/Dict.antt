-- ===== src/Base/Dict.antt =====
-- Go maps with string keys. The order of an association list is not observable in Go: a loop
-- over a map meets the keys in an order that is not specified.
use mathlib.Core.List.{List, [], ◌∷◌, map, Perm}
use mathlib.Core.List.Perm
use mathlib.Core.Option.{Option, none, some}
use mathlib.Core.Path.{◌≡◌, refl}
use native.Mathlib.Omega.{arith}
use localizer.Base.Strings.{Bytes, str_eq, str_eq_iff, str_eq_refl}
use localizer.Base.Tests.{if◌then◌else◌, Bool-cases}
use mathlib.Core.Logic.{inl, inr}

abbrev pub Dict {ℓ} : Type ℓ → Type ℓ
Dict V = List (Bytes × V)

module _ {ℓ} {V : Type ℓ} where
  unfoldable pub lookup : Bytes → Dict V → Option V
  unfolding str_eq
  lookup k [] = none
  lookup k ((j, v) ∷ m) = if str_eq j k then some v else lookup k m

  unfoldable pub delete : Bytes → Dict V → Dict V
  delete k [] = []
  delete k ((j, v) ∷ m) = let rest = delete k m in if str_eq j k then rest else (j, v) ∷ rest

  unfoldable pub insert : Bytes → V → Dict V → Dict V
  unfolding delete
  insert k v m = (k, v) ∷ delete k m

  abbrev pub keys : Dict V → List Bytes
  keys = map (λ e. e.0)

  -- No key stands twice.
  abbrev pub NodupKeys : Dict V → Type ℓ
  NodupKeys [] = Unit
  NodupKeys ((k, v) ∷ m) = (lookup k m ≡ none) × NodupKeys m

  pub lookup-delete :
      (k j : Bytes) (m : Dict V) → lookup j (delete k m) ≡ (if str_eq k j then none else lookup j m)
  unfolding lookup delete
  lookup-delete k j [] = ground arith
  lookup-delete k j ((i, w) ∷ m) =
      ground (arith, str_eq_iff k j, str_eq_iff i k, str_eq_iff i j, lookup-delete k j m)

  pub lookup-insert :
      (k j : Bytes) (v : V) (m : Dict V)
      → lookup j (insert k v m) ≡ (if str_eq k j then some v else lookup j m)
  unfolding insert lookup
  lookup-insert k j v m = ground (arith, lookup-delete k j m)

  pub delete-NodupKeys : (k : Bytes) (m : Dict V) → NodupKeys m → NodupKeys (delete k m)
  unfolding delete
  delete-NodupKeys k [] h = tt
  delete-NodupKeys k ((i, w) ∷ m) h = ground (arith, delete-NodupKeys k m h.1, lookup-delete k i m)

  pub insert-NodupKeys : (k : Bytes) (v : V) (m : Dict V) → NodupKeys m → NodupKeys (insert k v m)
  unfolding insert
  insert-NodupKeys k v m h =
      ground (arith, lookup-delete k k m, str_eq_refl k, delete-NodupKeys k m h)

  pub delete-absent : (k : Bytes) (m : Dict V) → lookup k m ≡ none → delete k m ≡ m
  unfolding lookup delete
  delete-absent k [] h = refl
  delete-absent k ((i, w) ∷ m) h = ground (arith, delete-absent k m)

  -- A key that is there accounts for one entry.
  pub lookup-delete-perm :
      (k : Bytes) (m : Dict V) (v : V)
      → NodupKeys m
      → lookup k m ≡ some v
      → Perm m ((k, v) ∷ delete k m)
  unfolding lookup delete
  lookup-delete-perm k [] v n h = cc
  lookup-delete-perm k ((i, w) ∷ m) v n h = elim (Bool-cases (str_eq i k)) [
    | inl hit ↦
        let gone : lookup k m ≡ none = ground (arith, str_eq_iff i k) in
        let same : ◌≡◌ {A = Bytes × V} (i, w) (k, v) = ground (arith, str_eq_iff i k) in
        rw (hit, delete-absent k m gone, same) (Perm.refl _)
    | inr miss ↦
        let rest : lookup k m ≡ some v = ground arith in
        rw miss (
          Perm.trans (Perm.cons (i, w) (lookup-delete-perm k m v n.1 rest))
            (Perm.swap (k, v) (i, w) _))
  ]
