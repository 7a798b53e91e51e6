-- ===== src/PairGroups/Flags.antt =====
-- The flags, the bucket and the direction of a packed pair in backend/internal/database/closed_hour_cache.go.
use tsflow.Prelude.{
  ℕ, zero, suc, ◌+◌, ◌-◌, ◌*◌, ◌/◌, ◌%◌, ◌≤◌, ◌<◌, ◌≡◌, refl, ap, ◌∙◌, Bool, true, false, Option,
  none, some, arith, eqb, String_eq, ℕ_eq, if◌then◌else◌,
}
use tsflow.Prelude.Groups.{or_zero}
use tsflow.PairGroups.Group.{PortKey_eq}
use tsflow.PairGroups.Packing.{bit, is_set}
use native.Mathlib.Nat.{add-mul-div_right, div-eq_of_lt}
use tsflow.PairGroups.Packed.{is_some, bucket_fits}

bit_le : (b : Bool) → bit b ≤ 1
bit_le true = omega arith
bit_le false = omega arith

-- The digit between a low and a high part
digit :
    (v low b high place : ℕ)
    → 1 ≤ place
    → low < place
    → b ≤ 1
    → v ≡ low + (b + high * 2) * place
    → v / place % 2 ≡ b
digit v low b high place least small le e =
    let up = b + high * 2 in
    let q : v / place ≡ 0 + up =
      ap (λ u. u / place) e
      ∙ add-mul-div_right low up (omega (arith, least))
      ∙ ap (λ z. z + up) (div-eq_of_lt small) in
    omega (arith, q, le)

eqb-bit : (b : Bool) → eqb (bit b) 1 ≡ b
eqb-bit true = refl
eqb-bit false = refl

is_set-digit :
    (v low high place : ℕ) (b : Bool)
    → 1 ≤ place
    → low < place
    → v ≡ low + (bit b + high * 2) * place
    → is_set v place ≡ b
is_set-digit v low high place b least small e =
    ap (λ n. eqb n 1) (digit v low (bit b) high place least small (bit_le b) e) ∙ eqb-bit b

pub flag_lem :
    (a b c d e f g h : Bool)
    → let v =
        bit a
        + bit b * 2
        + bit c * 4
        + bit d * 8
        + bit e * 16
        + bit f * 32
        + bit g * 64
        + bit h * 128 in
      (is_set v 1 ≡ a)
      × (is_set v 2 ≡ b)
      × (is_set v 4 ≡ c)
      × (is_set v 8 ≡ d)
      × (is_set v 16 ≡ e)
      × (is_set v 32 ≡ f)
      × (is_set v 64 ≡ g)
      × (is_set v 128 ≡ h)
flag_lem a b c d e f g h =
    let v =
      bit a
      + bit b * 2
      + bit c * 4
      + bit d * 8
      + bit e * 16
      + bit f * 32
      + bit g * 64
      + bit h * 128 in
    (
      is_set-digit v (0)
          (bit b + bit c * 2 + bit d * 4 + bit e * 8 + bit f * 16 + bit g * 32 + bit h * 64) 1 a
          (omega arith) (omega arith) (omega arith),
      is_set-digit v (bit a) (bit c + bit d * 2 + bit e * 4 + bit f * 8 + bit g * 16 + bit h * 32) 2
          b (omega arith) (omega (arith, bit_le a)) (omega arith),
      is_set-digit v (bit a + bit b * 2) (bit d + bit e * 2 + bit f * 4 + bit g * 8 + bit h * 16) 4
          c (omega arith) (omega (arith, bit_le a, bit_le b)) (omega arith),
      is_set-digit v (bit a + bit b * 2 + bit c * 4) (bit e + bit f * 2 + bit g * 4 + bit h * 8) 8 d
          (omega arith) (omega (arith, bit_le a, bit_le b, bit_le c)) (omega arith),
      is_set-digit v (bit a + bit b * 2 + bit c * 4 + bit d * 8) (bit f + bit g * 2 + bit h * 4) 16
          e (omega arith) (omega (arith, bit_le a, bit_le b, bit_le c, bit_le d)) (omega arith),
      is_set-digit v (bit a + bit b * 2 + bit c * 4 + bit d * 8 + bit e * 16) (bit g + bit h * 2) 32
          f (omega arith) (omega (arith, bit_le a, bit_le b, bit_le c, bit_le d, bit_le e))
          (omega arith),
      is_set-digit v (bit a + bit b * 2 + bit c * 4 + bit d * 8 + bit e * 16 + bit f * 32) (bit h)
          64 g (omega arith)
          (omega (arith, bit_le a, bit_le b, bit_le c, bit_le d, bit_le e, bit_le f)) (omega arith),
      is_set-digit v
          (bit a + bit b * 2 + bit c * 4 + bit d * 8 + bit e * 16 + bit f * 32 + bit g * 64) (0) 128
          h (omega arith)
          (omega (arith, bit_le a, bit_le b, bit_le c, bit_le d, bit_le e, bit_le f, bit_le g))
          (omega arith),
    )

pub direction_lem :
    (d : Option ℕ)
    → or_zero d ≤ 1
    → (if is_some d then some (bit (eqb (or_zero d) 1)) else none) ≡ d
direction_lem none h = refl
direction_lem (some zero) h = refl
direction_lem (some (suc zero)) h = refl
direction_lem (some (suc (suc n))) h = absurd (omega (arith, h))

pub bucket_lem :
    (hour : ℕ) (b : Option ℕ)
    → bucket_fits hour b ≡ true
    → (if is_some b then some (hour + (or_zero b - hour)) else none) ≡ b
bucket_lem hour none h = refl
bucket_lem hour (some b) h = ground (arith, h)
