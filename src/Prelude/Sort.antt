-- ===== src/Prelude/Sort.antt =====
-- sort.Slice and sort.Strings as insertion sort. A sort by a total order that only puts equal values
-- level has one result, whichever algorithm finds it.
use Prim.Native.Nat.{suc, Ordering}
use Prim.Native.String.{String, compare}
use mathlib.Core.Path.{◌≡◌, refl}
use mathlib.Core.Bool.{Bool, true, false, ◌||◌}
use mathlib.Core.List.{List, [], ◌∷◌}
use native.Mathlib.Omega.{arith}
use tsflow.Prelude.Tests.{Eq, ◌==◌, if◌then◌else◌}
use tsflow.Prelude.Lists.{mem, length}

abbrev pub before_str : String → String → Bool
before_str s t = elim (compare s t) [ Ordering.lt ↦ true | _ ↦ false ]

module _ {ℓ} {A : Type ℓ} (before : A → A → Bool) where
  unfoldable pub insert_sorted : A → List A → List A
  insert_sorted a [] = a ∷ []
  insert_sorted a (x ∷ xs) = if before x a then x ∷ insert_sorted a xs else a ∷ x ∷ xs

  unfoldable pub sort : List A → List A
  unfolding insert_sorted
  sort [] = []
  sort (x ∷ xs) = insert_sorted x (sort xs)

module _ {ℓ} {A : Type ℓ} ⦃e : Eq A⦄ (before : A → A → Bool) where
  mem-insert_sorted :
      (a b : A) (xs : List A) → mem a (insert_sorted before b xs) ≡ (b == a || mem a xs)
  unfolding insert_sorted
  mem-insert_sorted a b [] = refl
  mem-insert_sorted a b (x ∷ xs) = ground (arith, mem-insert_sorted a b xs)

  -- Sorting changes no membership.
  pub mem-sort : (a : A) (xs : List A) → mem a (sort before xs) ≡ mem a xs
  unfolding sort
  mem-sort a [] = refl
  mem-sort a (x ∷ xs) = ground (arith, mem-sort a xs, mem-insert_sorted a x (sort before xs))

-- No later element belongs before its neighbour.
abbrev pub Ordered {ℓ} : {A : Type ℓ} → (A → A → Bool) → List A → Type 0
Ordered before [] = Unit
Ordered before (x ∷ []) = Unit
Ordered before (x ∷ y ∷ ys) = (before y x ≡ false) × Ordered before (y ∷ ys)

module _ {ℓ} {A : Type ℓ} (before : A → A → Bool) where
  pub length-insert_sorted :
      (a : A) (xs : List A) → length (insert_sorted before a xs) ≡ suc (length xs)
  unfolding insert_sorted
  length-insert_sorted a [] = refl
  length-insert_sorted a (x ∷ xs) = ground (arith, length-insert_sorted a xs)

  pub length-sort : (xs : List A) → length (sort before xs) ≡ length xs
  unfolding sort
  length-sort [] = refl
  length-sort (x ∷ xs) = omega (arith, length-insert_sorted x (sort before xs), length-sort xs)

module _ {ℓ} {A : Type ℓ} (before : A → A → Bool)
    (asym : (a b : A) → before a b ≡ true → before b a ≡ false) where
  insert_sorted-Ordered :
      (a : A) (xs : List A) → Ordered before xs → Ordered before (insert_sorted before a xs)
  unfolding insert_sorted
  insert_sorted-Ordered a [] h = tt
  insert_sorted-Ordered a (x ∷ []) h = ground (arith, asym x a)
  insert_sorted-Ordered a (x ∷ y ∷ ys) h =
      ground (arith, asym x a, asym y a, insert_sorted-Ordered a (y ∷ ys) h.1)

  pub sort-Ordered : (xs : List A) → Ordered before (sort before xs)
  unfolding sort
  sort-Ordered [] = tt
  sort-Ordered (x ∷ xs) = insert_sorted-Ordered x (sort before xs) (sort-Ordered xs)
