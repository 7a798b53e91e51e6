-- ===== src/HourPlan/Sums.antt =====
-- What the rows of spans of seconds add up to, for any counter of the rows.
use tsflow.Prelude.{
  ℕ, zero, suc, ◌+◌, ◌-◌, ◌≤◌, ◌<◌, ◌≡◌, refl, sym, ap, ◌∙◌, inl, inr, List, [], ◌∷◌, ◌++◌, arith,
  ltb, String_eq, ℕ_eq, if◌then◌else◌, Bool-cases,
}
use tsflow.HourPlan.Plan.{Span}

-- The sum of `n` values from the given place on
unfoldable pub sum_from : (ℕ → ℕ) → ℕ → ℕ → ℕ
sum_from f a zero = 0
sum_from f a (suc n) = f a + sum_from f (a + 1) n

-- The sum over [lo, hi)
abbrev pub sum_range : (ℕ → ℕ) → ℕ → ℕ → ℕ
sum_range f lo hi = sum_from f lo (hi - lo)

abbrev pub sum_spans : (ℕ → ℕ) → List Span → ℕ
sum_spans f [] = 0
sum_spans f ((lo, hi) ∷ spans) = sum_range f lo hi + sum_spans f spans

pub sum_spans-append :
    (f : ℕ → ℕ) (xs ys : List Span) → sum_spans f (xs ++ ys) ≡ sum_spans f xs + sum_spans f ys
sum_spans-append f [] ys = omega arith
sum_spans-append f ((lo, hi) ∷ xs) ys = omega (arith, sum_spans-append f xs ys)

sum_from-add :
    (f : ℕ → ℕ) (a m n : ℕ) → sum_from f a (m + n) ≡ sum_from f a m + sum_from f (a + m) n
unfolding sum_from
sum_from-add f a zero n =
    let e : zero + n ≡ n = omega arith in
    let e' : a + zero ≡ a = omega arith in rw (e, e') (omega arith)
sum_from-add f a (suc m) n =
    let e : suc m + n ≡ suc (m + n) = omega arith in
    let e' : a + suc m ≡ (a + 1) + m = omega arith in
    rw (e, e') (omega (arith, sum_from-add f (a + 1) m n))

-- A range is the sum of its two parts.
pub sum_range-split :
    (f : ℕ → ℕ) (lo mid hi : ℕ)
    → lo ≤ mid
    → mid ≤ hi
    → sum_range f lo hi ≡ sum_range f lo mid + sum_range f mid hi
sum_range-split f lo mid hi p q =
    let e : hi - lo ≡ (mid - lo) + (hi - mid) = omega arith in
    let e' : lo + (mid - lo) ≡ mid = omega arith in
    ap (sum_from f lo) e
    ∙ sum_from-add f lo (mid - lo) (hi - mid)
    ∙ ap (λ m. sum_from f lo (mid - lo) + sum_from f m (hi - mid)) e'

pub sum_range_empty : (f : ℕ → ℕ) (lo hi : ℕ) → hi ≤ lo → sum_range f lo hi ≡ 0
unfolding sum_from
sum_range_empty f lo hi h = let e : hi - lo ≡ 0 = omega arith in rw e refl

sum_from_zeros :
    (f : ℕ → ℕ) (a n : ℕ) → ((k : ℕ) → a ≤ k → k < a + n → f k ≡ 0) → sum_from f a n ≡ 0
unfolding sum_from
sum_from_zeros f a zero z = refl
sum_from_zeros f a (suc n) z = omega (
  arith,
  z a (omega arith) (omega arith),
  sum_from_zeros f (a + 1) n (λ k lo hi. z k (omega arith) (omega arith)),
)

pub sum_range_zeros :
    (f : ℕ → ℕ) (lo hi : ℕ) → ((k : ℕ) → lo ≤ k → k < hi → f k ≡ 0) → sum_range f lo hi ≡ 0
sum_range_zeros f lo hi z = sum_from_zeros f lo (hi - lo) (λ k p q. z k p (omega arith))

-- A range with nothing after its first value
pub sum_range_first :
    (f : ℕ → ℕ) (lo hi : ℕ)
    → lo < hi
    → ((k : ℕ) → lo < k → k < hi → f k ≡ 0)
    → sum_range f lo hi ≡ f lo
unfolding sum_from
sum_range_first f lo hi lt z =
    let e : hi - lo ≡ suc (hi - lo - 1) = omega arith in
    rw e (
      omega
        (arith, sum_from_zeros f (lo + 1) (hi - lo - 1) (λ k p q. z k (omega arith) (omega arith))))

-- Splitting off an empty or a whole span
pub sum_spans-span_if :
    (f : ℕ → ℕ) (lo hi : ℕ)
    → sum_spans f (if ltb lo hi then (lo, hi) ∷ [] else []) ≡ sum_range f lo hi
sum_spans-span_if f lo hi = elim (Bool-cases (ltb lo hi)) [
  | inl h ↦ rw h (omega arith)
  | inr h ↦ rw h (sym (sum_range_empty f lo hi (ground (arith, h))))
]
