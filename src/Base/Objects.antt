-- ===== src/Base/Objects.antt =====
-- A JavaScript object or Map with numeric keys, as an association list with one entry for a key.
use Prim.Native.Nat.{ℕ}
use mathlib.Core.Path.{◌≡◌, refl}
use mathlib.Core.List.{List, [], ◌∷◌}
use mathlib.Core.Option.{Option, none, some}
use native.Mathlib.Omega.{arith}
use ilp_protocol_stream.Base.Tests.{◌==◌, if◌then◌else◌}

module _ {ℓ} {A : Type ℓ} where
  unfoldable pub lookup : ℕ → List (ℕ × A) → Option A
  lookup k [] = none
  lookup k ((j, a) ∷ rest) = if j == k then some a else lookup k rest

  -- `o[k] = a`: a key that is there keeps its place.
  unfoldable pub assign : ℕ → A → List (ℕ × A) → List (ℕ × A)
  assign k a [] = (k, a) ∷ []
  assign k a ((j, b) ∷ rest) = if j == k then (k, a) ∷ rest else (j, b) ∷ assign k a rest

  -- `delete o[k]`
  unfoldable pub remove : ℕ → List (ℕ × A) → List (ℕ × A)
  remove k [] = []
  remove k ((j, b) ∷ rest) = if j == k then rest else (j, b) ∷ remove k rest

  pub lookup-assign :
      (k j : ℕ) (a : A) (o : List (ℕ × A))
      → lookup j (assign k a o) ≡ (if k == j then some a else lookup j o)
  unfolding lookup assign
  lookup-assign k j a [] = refl
  lookup-assign k j a ((i, b) ∷ rest) = ground (arith, lookup-assign k j a rest)

  pub lookup-remove_ne :
      (k j : ℕ) (o : List (ℕ × A)) → ¬ (k ≡ j) → lookup j (remove k o) ≡ lookup j o
  unfolding lookup remove
  lookup-remove_ne k j [] ne = refl
  lookup-remove_ne k j ((i, b) ∷ rest) ne = ground (arith, lookup-remove_ne k j rest)

  -- Deleting a key that was not there before it was assigned restores the object.
  pub remove-assign :
      (k : ℕ) (a : A) (o : List (ℕ × A)) → lookup k o ≡ none → remove k (assign k a o) ≡ o
  unfolding lookup assign remove
  remove-assign k a [] e = ground arith
  remove-assign k a ((i, b) ∷ rest) e = ground (arith, remove-assign k a rest)

  pub lookup-assign_self : (k : ℕ) (a : A) (o : List (ℕ × A)) → lookup k (assign k a o) ≡ some a
  lookup-assign_self k a o = ground (arith, lookup-assign k k a o)
