-- ===== src/Convert/Decimal.antt =====
-- What `validPort` of backend/internal/services/log_converter.go reads from the decimal text of a number.
use Prim.Native.Char.{Char, code}
use tsflow.Prelude.{
  ℕ, ◌+◌, ◌*◌, ◌-◌, ◌≤◌, ◌<◌, String, ◌≡◌, ap, ◌∙◌, true, false, ◌&&◌, some, arith, eqb, ltb, leb,
  ℕ_eq, if◌then◌else◌, Bool-cases, inl, inr,
}
use tsflow.Access.Text.{append, contains_char}
use tsflow.Access.Forwarded.{contains_char-append}
use tsflow.Convert.Endpoint.{digits, number, within, parse_int, valid_port}

-- A text is the decimal text of a number: one digit, or the text of a number and one digit more.
pub data Written : String → ℕ → Type 0 where
  digit : (c : Char) (d : ℕ) → d ≤ 9 → code c ≡ 48 + d → Written (String.◌∷◌ c String.[]) d
  more :
      {s : String} {n : ℕ}
      → Written s n
      → (c : Char) (d : ℕ) → d ≤ 9
      → code c ≡ 48 + d
      → Written (append s (String.◌∷◌ c String.[])) (n * 10 + d)

-- A text whose first character is a digit
abbrev Leading : String → Type 0
Leading String.[] = ⊥
Leading (String.◌∷◌ c s) = (48 ≤ code c) × (code c ≤ 57)

append-Leading : (s t : String) → Leading s → Leading (append s t)
unfolding append
append-Leading String.[] t h = absurd h
append-Leading (String.◌∷◌ c s) t h = h

Written-Leading : (s : String) (n : ℕ) → Written s n → Leading s
Written-Leading _ _ (digit c d le e) = (omega (arith, le, e), omega (arith, le, e))
Written-Leading _ _ (more {s} {n} w c d le e) =
    append-Leading s (String.◌∷◌ c String.[]) (Written-Leading s n w)

-- No character beyond the digits stands in the decimal text of a number.
pub contains_char-Written :
    (s : String) (n : ℕ) → Written s n → (k : ℕ) → 57 < k → contains_char k s ≡ false
unfolding contains_char
contains_char-Written _ _ (digit c d le e) k lt = ground (arith, le, e, lt)
contains_char-Written _ _ (more {s} {n} w c d le e) k lt =
    contains_char-append k s (String.◌∷◌ c String.[])
    ∙ ground (arith, contains_char-Written s n w k lt, le, e, lt)

one_digit :
    (c : Char) (d n : ℕ)
    → d ≤ 9
    → code c ≡ 48 + d
    → digits (String.◌∷◌ c String.[]) n ≡ some (n * 10 + d)
unfolding digits
one_digit c d n le e =
    let low : leb b'0' (code c) ≡ true = ground (arith, le, e) in
    let high : leb (code c) b'9' ≡ true = ground (arith, le, e) in
    rw (low, high) (ap (λ k. some (n * 10 + k)) (omega (arith, e)))

digits-append : (s t : String) (n m : ℕ) → digits s n ≡ some m → digits (append s t) n ≡ digits t m
unfolding digits append
digits-append String.[] t n m h = ap (digits t) (ground arith)
digits-append (String.◌∷◌ c s) t n m h =
    elim (Bool-cases (leb b'0' (code c) && leb (code c) b'9')) [
      | inl e ↦
          let tail : digits s (n * 10 + (code c - b'0')) ≡ some m = ground (arith, e, h) in
          rw e (digits-append s t (n * 10 + (code c - b'0')) m tail)
      | inr e ↦ absurd (ground (arith, e, h))
    ]

digits-Written : (s : String) (n : ℕ) → Written s n → digits s 0 ≡ some n
digits-Written _ _ (digit c d le e) = one_digit c d 0 le e ∙ ap some (omega arith)
digits-Written _ _ (more {s} {n} w c d le e) =
    digits-append s (String.◌∷◌ c String.[]) 0 n (digits-Written s n w) ∙ one_digit c d n le e

valid_port-digits :
    (s : String) (n : ℕ)
    → Leading s
    → digits s 0 ≡ some n
    → valid_port s ≡ (if ltb 65535 n then 0 else n)
unfolding valid_port parse_int number within
valid_port-digits String.[] n lead h = absurd lead
valid_port-digits (String.◌∷◌ c s) n (lo, hi) h =
    let minus : eqb (code c) b'-' ≡ false = ground (arith, lo) in
    let plus : eqb (code c) b'+' ≡ false = ground (arith, lo) in rw (minus, plus, h) (ground arith)

-- The port that is read from the decimal text of a number
pub valid_port-Written :
    (s : String) (n : ℕ) → Written s n → valid_port s ≡ (if ltb 65535 n then 0 else n)
valid_port-Written s n w = valid_port-digits s n (Written-Leading s n w) (digits-Written s n w)
