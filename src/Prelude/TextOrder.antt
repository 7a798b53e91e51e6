-- ===== src/Prelude/TextOrder.antt =====
-- The order of texts is strict and total.
use Prim.Native.Nat.{ℕ, Ordering, compare as compare_ℕ}
use Prim.Native.Char.{code}
use Prim.Native.String.{String, compare, then}
use Prim.Native.String.compare
use mathlib.Core.Path.{◌≡◌, refl, sym, ◌∙◌, ap, ap₂}
use mathlib.Core.Bool.{true, false}
use native.Mathlib.Omega.{arith}
use text.Mathlib.Text.{◌==◌}
use tsflow.Prelude.Sort.{before_str}

abbrev flip : Ordering → Ordering
flip Ordering.lt = Ordering.gt
flip Ordering.eq = Ordering.eq
flip Ordering.gt = Ordering.lt

flip-then : (a b : Ordering) → flip (then a b) ≡ then (flip a) (flip b)
flip-then Ordering.lt b = refl
flip-then Ordering.eq b = refl
flip-then Ordering.gt b = refl

flip-compare_ℕ : (m n : ℕ) → compare_ℕ m n ≡ flip (compare_ℕ n m)
flip-compare_ℕ m n = ground arith

compare-flip : (s t : String) → compare s t ≡ flip (compare t s)
compare-flip String.[] String.[] = compare.nil-nil ∙ sym (ap flip compare.nil-nil)
compare-flip String.[] (String.◌∷◌ d t) =
    compare.nil-cons d t ∙ sym (ap flip (compare.cons-nil d t))
compare-flip (String.◌∷◌ c s) String.[] =
    compare.cons-nil c s ∙ sym (ap flip (compare.nil-cons c s))
compare-flip (String.◌∷◌ c s) (String.◌∷◌ d t) =
    compare.cons-cons c d s t
    ∙ ap₂ then (flip-compare_ℕ (code c) (code d)) (compare-flip s t)
    ∙ sym (flip-then (compare_ℕ (code d) (code c)) (compare t s))
    ∙ sym (ap flip (compare.cons-cons d c t s))

pub before_str_asym : (s t : String) → before_str s t ≡ true → before_str t s ≡ false
before_str_asym s t h = ground (arith, compare-flip s t)

pub before_str_total :
    (s t : String) → (s == t) ≡ false → before_str s t ≡ false → before_str t s ≡ true
before_str_total s t n h = ground (arith, compare-flip t s)
