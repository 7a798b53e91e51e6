-- ===== src/Prelude/Maps.antt =====
-- A Go map as an association list. Iteration goes over the list, so its order is arbitrary.
use mathlib.Core.Path.{◌≡◌, refl}
use mathlib.Core.Bool.{Bool, true, false}
use mathlib.Core.List.{List, [], ◌∷◌}
use mathlib.Core.Option.{Option, none, some}
use native.Mathlib.Omega.{arith}
use tsflow.Prelude.Tests.{Eq, ◌==◌, if◌then◌else◌}
use tsflow.Prelude.Lists.{mem}

abbrev pub Map {ℓ κ} : Type ℓ → Type κ → Type (ℓ ⊔ κ)
Map K V = List (K × V)

module _ {ℓ κ} {K : Type ℓ} {V : Type κ} ⦃e : Eq K⦄ where
  unfoldable pub lookup : K → Map K V → Option V
  lookup key [] = none
  lookup key ((at, x) ∷ rest) = if at == key then some x else lookup key rest

  unfoldable pub insert : K → V → Map K V → Map K V
  insert key value [] = (key, value) ∷ []
  insert key value ((at, x) ∷ rest) =
      if at == key then (key, value) ∷ rest else (at, x) ∷ insert key value rest

  unfoldable pub delete : K → Map K V → Map K V
  delete k [] = []
  delete k ((j, v) ∷ m) = let rest = delete k m in if j == k then rest else (j, v) ∷ rest

  unfoldable pub delete_if : (K → Bool) → Map K V → Map K V
  delete_if p [] = []
  delete_if p ((j, v) ∷ m) = let rest = delete_if p m in if p j then rest else (j, v) ∷ rest

  unfoldable pub keys : Map K V → List K
  keys [] = []
  keys ((j, v) ∷ m) = j ∷ keys m

  pub lookup-insert :
      (key other : K) (value : V) (m : Map K V)
      → lookup other (insert key value m) ≡ (if key == other then some value else lookup other m)
  unfolding lookup insert
  lookup-insert key other value [] = refl
  lookup-insert key other value ((at, x) ∷ rest) = ground (
    arith,
    lookup-insert key other value rest,
    e.beq_iff key other,
    e.beq_iff at key,
    e.beq_iff at other,
  )

  pub lookup-delete :
      (k j : K) (m : Map K V) → lookup j (delete k m) ≡ (if k == j then none else lookup j m)
  unfolding lookup delete
  lookup-delete k j [] = ground arith
  lookup-delete k j ((i, w) ∷ m) =
      ground (arith, e.beq_iff k j, e.beq_iff i k, e.beq_iff i j, lookup-delete k j m)

  pub lookup-delete_if :
      (p : K → Bool) (j : K) (m : Map K V)
      → lookup j (delete_if p m) ≡ (if p j then none else lookup j m)
  unfolding lookup delete_if
  lookup-delete_if p j [] = ground arith
  lookup-delete_if p j ((i, w) ∷ m) = ground (arith, e.beq_iff i j, lookup-delete_if p j m)

  pub mem-keys : (k : K) (v : V) (m : Map K V) → lookup k m ≡ some v → mem k (keys m) ≡ true
  unfolding lookup keys
  mem-keys k v [] h = cc
  mem-keys k v ((i, w) ∷ m) h = ground (arith, mem-keys k v m)

  -- A key is listed exactly if it is mapped.
  pub lookup-keys :
      (k : K) (m : Map K V)
      → mem k (keys m) ≡ (elim (lookup k m) as (λ _. Bool) [ none ↦ false | some v ↦ true ])
  unfolding lookup keys
  lookup-keys k [] = refl
  lookup-keys k ((i, w) ∷ m) = ground (arith, lookup-keys k m)

pub ruleset map_laws = (lookup-insert, lookup-delete, lookup-delete_if)
