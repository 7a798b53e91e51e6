-- ===== src/Prelude/Groups.antt =====
-- Accumulating into a Go map: `m[k]` is read, or is new, and is written back.
use Prim.Native.Nat.{ℕ, ◌+◌, ◌^◌, ◌%◌}
use mathlib.Core.Path.{◌≡◌, refl, ◌∙◌, ap}
use mathlib.Core.Bool.{Bool}
use mathlib.Core.List.{List, [], ◌∷◌}
use mathlib.Core.Option.{Option, none, some}
use tsflow.Prelude.Tests.{Eq, ◌==◌, Bool-cases, if◌then◌else◌, ltb}
use tsflow.Prelude.Lists.{keep}
use tsflow.Prelude.Maps.{Map, lookup, insert, lookup-insert}
use mathlib.Core.Logic.{inl, inr}

-- int64 addition, on the bit patterns of the numbers.
abbrev pub add64 : ℕ → ℕ → ℕ
add64 a b = (a + b) % 2 ^ 64

-- The int64 of the first bit pattern is less than that of the second.
abbrev pub less64 : ℕ → ℕ → Bool
less64 a b = ltb ((a + 2 ^ 63) % 2 ^ 64) ((b + 2 ^ 63) % 2 ^ 64)

abbrev pub or_zero : Option ℕ → ℕ
or_zero none = 0
or_zero (some n) = n

module _ {ℓ κ} {K : Type ℓ} {V : Type κ} ⦃e : Eq K⦄ where
  unfoldable pub upsert : K → (Option V → V) → Map K V → Map K V
  upsert k f m = insert k (f (lookup k m)) m

  pub lookup-upsert :
      (k j : K) (f : Option V → V) (m : Map K V)
      → lookup j (upsert k f m) ≡ (if k == j then some (f (lookup k m)) else lookup j m)
  unfolding upsert
  lookup-upsert k j f m = lookup-insert k j (f (lookup k m)) m

module _ {ℓ κ μ} {K : Type ℓ} {V : Type κ} {L : Type μ} ⦃e : Eq K⦄ (key : L → K)
    (f : L → Option V → V) where
  unfoldable pub group : List L → Map K V → Map K V
  group [] m = m
  group (l ∷ ls) m = group ls (upsert (key l) (f l) m)

  unfoldable pub fold_found : List L → Option V → Option V
  fold_found [] o = o
  fold_found (l ∷ ls) o = fold_found ls (some (f l o))

  -- What a key maps to comes from the items of that key alone, in their order.
  pub lookup-group :
      (ls : List L) (m : Map K V) (k : K)
      → lookup k (group ls m) ≡ fold_found (keep (λ l. key l == k) ls) (lookup k m)
  unfolding group fold_found
  lookup-group [] m k = refl
  lookup-group (l ∷ ls) m k = elim (Bool-cases (key l == k)) [
    | inl h ↦ rw h (
        lookup-group ls (upsert (key l) (f l) m) k
        ∙ ap (fold_found (keep (λ x. key x == k) ls))
            (lookup-upsert (key l) k (f l) m ∙ rw (h, (e.beq_iff (key l) k).0 h)))
    | inr h ↦ rw h (
        lookup-group ls (upsert (key l) (f l) m) k
        ∙ ap (fold_found (keep (λ x. key x == k) ls)) (lookup-upsert (key l) k (f l) m ∙ rw h))
  ]

-- `m[k] += v`
module _ {ℓ} {K : Type ℓ} ⦃e : Eq K⦄ where
  unfoldable pub bump : K → ℕ → Map K ℕ → Map K ℕ
  unfolding upsert
  bump k v m = upsert k (λ o. add64 (or_zero o) v) m
