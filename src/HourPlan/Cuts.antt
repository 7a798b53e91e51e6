-- ===== src/HourPlan/Cuts.antt =====
-- Cutting spans in parts, and looking for rows in them, against the spans: what the rows add up to
-- stays.
use tsflow.Prelude.{
  ℕ, zero, suc, ◌+◌, ◌-◌, ◌*◌, ◌/◌, ◌%◌, ◌≤◌, ◌<◌, ◌≡◌, refl, sym, ap, ◌∙◌, ◌≢◌, inl, inr, List, [],
  ◌∷◌, ◌++◌, Option, none, some, arith, ltb, leb, String_eq, ℕ_eq, if◌then◌else◌, Bool-cases,
  Option-cases, max,
}
use tsflow.HourPlan.Plan.{Span, span_if}
use tsflow.HourPlan.Sums.{
  sum_range, sum_spans, sum_spans-append, sum_range-split, sum_range_empty, sum_range_first,
  sum_spans-span_if, sum_range_zeros,
}
use tsflow.HourPlan.Spans.{
  cut_hours, Split, split_hours, chunks, closed_minute_chunk, split_minutes, Seek, rolled_hours,
  list_rolled_hours, clamp_minute_spans, chunk_all, whole_hours, clamped,
}

abbrev pub both : (ℕ → ℕ) → Split → ℕ
both f (closed, opened) = sum_spans f closed + sum_spans f opened

cut_hours_bounds :
    (fuel hi rolled cut : ℕ)
    → (cut ≤ cut_hours fuel hi rolled cut) × (cut_hours fuel hi rolled cut ≤ max cut hi)
unfolding cut_hours
cut_hours_bounds zero hi rolled cut = (omega arith, ground arith)
cut_hours_bounds (suc fuel) hi rolled cut =
    let (a, b) = cut_hours_bounds fuel hi rolled (cut + 3600) in
    (ground (arith, a), ground (arith, b))

-- A span in two parts
parts-sum :
    (f : ℕ → ℕ) (lo cut hi : ℕ) (xs ys : List Span)
    → lo ≤ cut
    → cut ≤ max lo hi
    → sum_spans f (span_if lo cut ++ xs) + sum_spans f (span_if cut hi ++ ys)
      ≡ sum_range f lo hi + (sum_spans f xs + sum_spans f ys)
parts-sum f lo cut hi xs ys p q =
    let a = sum_spans-append f (span_if lo cut) xs in
    let b = sum_spans-append f (span_if cut hi) ys in
    let c = sum_spans-span_if f lo cut in
    let e = sum_spans-span_if f cut hi in
    elim (Bool-cases (leb lo hi)) [
      | inl h ↦ omega (arith, a, b, c, e, sum_range-split f lo cut hi p (ground (arith, h, q)))
      | inr h ↦ omega (
        arith,
        a,
        b,
        c,
        e,
        sum_range_empty f lo hi (ground (arith, h)),
        sum_range_empty f lo cut (ground (arith, h, q)),
        sum_range_empty f cut hi (ground (arith, h, p)),
      )
    ]

pub split_hours-sum :
    (f : ℕ → ℕ) (rolled : ℕ) (spans : List Span)
    → both f (split_hours rolled spans) ≡ sum_spans f spans
unfolding split_hours
split_hours-sum f rolled [] = refl
split_hours-sum f rolled ((lo, hi) ∷ spans) =
    let (a, b) = cut_hours_bounds (suc (hi / 3600)) hi rolled lo in
    parts-sum f lo (cut_hours (suc (hi / 3600)) hi rolled lo) hi (split_hours rolled spans).0
      (split_hours rolled spans).1 a b
    ∙ ap (λ n. sum_range f lo hi + n) (split_hours-sum f rolled spans)

chunks-sum :
    (f : ℕ → ℕ) (fuel chunk lo hi : ℕ)
    → 0 < chunk
    → hi ≤ lo + fuel
    → sum_spans f (chunks fuel chunk lo hi) ≡ sum_range f lo hi
unfolding chunks
chunks-sum f zero chunk lo hi pos le = sym (sum_range_empty f lo hi (omega (arith, le)))
chunks-sum f (suc fuel) chunk lo hi pos le = elim (Bool-cases (ltb lo hi)) [
  | inr h ↦ rw h (sym (sum_range_empty f lo hi (ground (arith, h))))
  | inl h ↦
      let rest = chunks-sum f fuel chunk (lo + chunk) hi pos (omega (arith, le, pos)) in
      elim (Bool-cases (ltb hi (lo + chunk))) [
        | inl last ↦
            rw (h, last)
              (omega (arith, rest, sum_range_empty f (lo + chunk) hi (ground (arith, last))))
        | inr last ↦
            rw (h, last)
              (omega (
                arith,
                rest,
                sum_range-split f lo (lo + chunk) hi (omega arith) (ground (arith, last)),
              ))
      ]
]

minute_parts-sum :
    (f : ℕ → ℕ) (lo cut hi : ℕ) (closed opened : List Span)
    → cut ≤ hi
    → sum_spans f (chunks (cut - lo) closed_minute_chunk lo cut ++ closed)
        + sum_spans f (span_if (if ltb lo cut then cut else lo) hi ++ opened)
      ≡ sum_range f lo hi + (sum_spans f closed + sum_spans f opened)
minute_parts-sum f lo cut hi closed opened bound =
    let a = sum_spans-append f (chunks (cut - lo) closed_minute_chunk lo cut) closed in
    let c = chunks-sum f (cut - lo) closed_minute_chunk lo cut (omega arith) (omega arith) in
    elim (Bool-cases (ltb lo cut)) [
      | inl h ↦ rw h (
          omega (
            arith,
            a,
            c,
            sum_spans-append f (span_if cut hi) opened,
            sum_spans-span_if f cut hi,
            sum_range-split f lo cut hi (ground (arith, h)) bound,
          ))
      | inr h ↦ rw h (
          omega (
            arith,
            a,
            c,
            sum_spans-append f (span_if lo hi) opened,
            sum_spans-span_if f lo hi,
            sum_range_empty f lo cut (ground (arith, h)),
          ))
    ]

pub split_minutes-sum :
    (f : ℕ → ℕ) (rolled : ℕ) (spans : List Span)
    → both f (split_minutes rolled spans) ≡ sum_spans f spans
unfolding split_minutes
split_minutes-sum f rolled [] = refl
split_minutes-sum f rolled ((lo, hi) ∷ spans) =
    minute_parts-sum f lo (if ltb rolled hi then rolled else hi) hi (split_minutes rolled spans).0
      (split_minutes rolled spans).1 (ground arith)
    ∙ ap (λ n. sum_range f lo hi + n) (split_minutes-sum f rolled spans)

-- What a seek for the hour rows finds: the least hour of a span that has a row
pub record FindsHours (g : ℕ → ℕ) (seek : Seek) : Type 0 where
  pub found :
      (lo hi b : ℕ)
      → seek lo hi ≡ some b
      → (lo ≤ b) × (b < hi) × (b % 3600 ≡ 0) × ((k : ℕ) → lo ≤ k → k < b → g k ≡ 0)
  pub missing : (lo hi : ℕ) → seek lo hi ≡ none → (k : ℕ) → lo ≤ k → k < hi → g k ≡ 0

-- What the seeks for the minute rows find: the least and the greatest minute of a span that has a row
pub record FindsMinutes (f : ℕ → ℕ) (seek_min seek_max : Seek) : Type 0 where
  pub least :
      (lo hi a : ℕ) → seek_min lo hi ≡ some a → (lo ≤ a) × ((k : ℕ) → lo ≤ k → k < a → f k ≡ 0)
  pub greatest :
      (lo hi b : ℕ) → seek_max lo hi ≡ some b → (b < hi) × ((k : ℕ) → b < k → k < hi → f k ≡ 0)
  pub in_order : (lo hi a b : ℕ) → seek_min lo hi ≡ some a → seek_max lo hi ≡ some b → a ≤ b
  pub no_least : (lo hi : ℕ) → seek_min lo hi ≡ none → (k : ℕ) → lo ≤ k → k < hi → f k ≡ 0
  pub no_greatest : (lo hi : ℕ) → seek_max lo hi ≡ none → (k : ℕ) → lo ≤ k → k < hi → f k ≡ 0

module _ (f g : ℕ → ℕ) (seek : Seek) (finds : FindsHours g seek)
    (only_hours : (b : ℕ) → b % 3600 ≢ 0 → g b ≡ 0) where
  -- One row, and nothing else up to the next hour
  hour_row : (b hi : ℕ) → b % 3600 ≡ 0 → b < hi → hi ≤ b + 3600 → sum_range g b hi ≡ g b
  hour_row b hi a lt le =
      sum_range_first g b hi lt (λ k p q. only_hours k (λ e. omega (arith, e, a, p, q, le)))

  after_found :
      (lo hi b : ℕ)
      → seek lo hi ≡ some b
      → sum_range g b (b + 3600) + sum_range g (b + 3600) hi ≡ sum_range g lo hi
  after_found lo hi b e =
      let (p, q, a, z) = finds.found lo hi b e in
      let before = sum_range_zeros g lo b z in
      let whole = sum_range-split g lo b hi p (omega (arith, q)) in
      elim (Bool-cases (leb (b + 3600) hi)) [
        | inl h ↦ omega (
          arith,
          before,
          whole,
          sum_range-split g b (b + 3600) hi (omega arith) (ground (arith, h)),
        )
        | inr h ↦ omega (
          arith,
          before,
          whole,
          hour_row b hi a q (ground (arith, h)),
          hour_row b (b + 3600) a (omega arith) (omega arith),
          sum_range_empty g (b + 3600) hi (ground (arith, h)),
        )
      ]

  rolled_hours-sum :
      (fuel lo hi : ℕ)
      → hi ≤ lo + fuel
      → sum_spans g (whole_hours (rolled_hours seek fuel lo hi)) ≡ sum_range g lo hi
  unfolding rolled_hours
  rolled_hours-sum zero lo hi le = sym (sum_range_empty g lo hi (omega (arith, le)))
  rolled_hours-sum (suc fuel) lo hi le = elim (Bool-cases (ltb lo hi)) [
    | inr h ↦ rw h (sym (sum_range_empty g lo hi (ground (arith, h))))
    | inl h ↦ rw h (elim (Option-cases (seek lo hi)) [
      | inl e ↦ rw e (sym (sum_range_zeros g lo hi (finds.missing lo hi e)))
      | inr (b, e) ↦
          let (p, q, a, z) = finds.found lo hi b e in
          let same : (b / 3600) * 3600 ≡ b = omega (arith, a) in
          rw (e, same)
            (omega (
              arith,
              rolled_hours-sum fuel (b + 3600) hi (omega (arith, le, p)),
              after_found lo hi b e,
            ))
    ])
  ]

  whole_hours-append :
      (xs ys : List ℕ)
      → sum_spans g (whole_hours (xs ++ ys))
        ≡ sum_spans g (whole_hours xs) + sum_spans g (whole_hours ys)
  whole_hours-append [] ys = omega arith
  whole_hours-append (x ∷ xs) ys = omega (arith, whole_hours-append xs ys)

  pub list_rolled_hours-sum :
      (ranges : List Span)
      → sum_spans g (whole_hours (list_rolled_hours seek ranges)) ≡ sum_spans g ranges
  unfolding list_rolled_hours
  list_rolled_hours-sum [] = refl
  list_rolled_hours-sum ((lo, hi) ∷ ranges) = omega (
    arith,
    list_rolled_hours-sum ranges,
    rolled_hours-sum (hi - lo) lo hi (omega arith),
    whole_hours-append (rolled_hours seek (hi - lo) lo hi) (list_rolled_hours seek ranges),
  )

module _ (f : ℕ → ℕ) (seek_min seek_max : Seek) (finds : FindsMinutes f seek_min seek_max) where
  clamped-sum :
      (lo hi : ℕ) (a b : Option ℕ)
      → seek_min lo hi ≡ a
      → seek_max lo hi ≡ b
      → sum_spans f (clamped a b) ≡ sum_range f lo hi
  clamped-sum lo hi none b p q = sym (sum_range_zeros f lo hi (finds.no_least lo hi p))
  clamped-sum lo hi (some a) none p q = sym (sum_range_zeros f lo hi (finds.no_greatest lo hi q))
  clamped-sum lo hi (some a) (some b) p q =
      let (lo_le, before) = finds.least lo hi a p in
      let (lt, after) = finds.greatest lo hi b q in
      let order = finds.in_order lo hi a b p q in
      omega (
        arith,
        sum_range_zeros f lo a before,
        sum_range_zeros f (b + 1) hi (λ k u v. after k (omega arith) v),
        sum_range-split f lo a hi lo_le (omega (arith, order, lt)),
        sum_range-split f a (b + 1) hi (omega (arith, order)) (omega (arith, lt)),
      )

  pub clamp_minute_spans-sum :
      (spans : List Span)
      → sum_spans f (clamp_minute_spans seek_min seek_max spans) ≡ sum_spans f spans
  unfolding clamp_minute_spans
  clamp_minute_spans-sum [] = refl
  clamp_minute_spans-sum ((lo, hi) ∷ spans) = omega (
    arith,
    clamp_minute_spans-sum spans,
    clamped-sum lo hi (seek_min lo hi) (seek_max lo hi) refl refl,
    sum_spans-append f (clamped (seek_min lo hi) (seek_max lo hi))
        (clamp_minute_spans seek_min seek_max spans),
  )

pub chunk_all-sum :
    (f : ℕ → ℕ) (chunk : ℕ) (spans : List Span)
    → 0 < chunk
    → sum_spans f (chunk_all chunk spans) ≡ sum_spans f spans
unfolding chunk_all
chunk_all-sum f chunk [] pos = refl
chunk_all-sum f chunk ((lo, hi) ∷ spans) pos = omega (
  arith,
  chunk_all-sum f chunk spans pos,
  chunks-sum f (hi - lo) chunk lo hi pos (omega arith),
  sum_spans-append f (chunks (hi - lo) chunk lo hi) (chunk_all chunk spans),
)
