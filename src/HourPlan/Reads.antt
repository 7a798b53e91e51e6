-- ===== src/HourPlan/Reads.antt =====
-- The rows that a plan of backend/internal/database/hour_rollup.go reads, against a scan of the
-- minutes.
use tsflow.Prelude.{
  ℕ, zero, suc, ◌+◌, ◌-◌, ◌*◌, ◌/◌, ◌%◌, ◌≤◌, ◌<◌, ◌≡◌, refl, sym, ap, ◌∙◌, subst, ◌≢◌, ◌⊎◌, inl,
  inr, Bool, false, ◌||◌, Option, none, some, arith, eqb, ltb, leb, String_eq, ℕ_eq, Bool-cases,
  min,
}
use tsflow.HourPlan.Plan.{
  HourPlan, no_plan, only_minutes, rolled_until, next_hour, last_hour, span_if, around, plan_hours,
  first_hour, add_filling, plan_hours_through_mark,
}
use tsflow.HourPlan.Sums.{
  sum_range, sum_spans, sum_spans-append, sum_range-split, sum_range_empty, sum_range_first,
  sum_spans-span_if,
}

-- A counter of the minute rows and of the hour rows, where the hour rows hold what the minute rows
-- before the given time hold.
pub record RollsUp (f g : ℕ → ℕ) (rolled : ℕ) : Type 0 where
  pub hour :
      (k : ℕ)
      → k * 3600 < rolled
      → g (k * 3600) ≡ sum_range f (k * 3600) (min (k * 3600 + 3600) rolled)
  pub only_hours : (b : ℕ) → b % 3600 ≢ 0 → g b ≡ 0

abbrev pub reads : (ℕ → ℕ) → (ℕ → ℕ) → HourPlan → ℕ
reads f g plan = sum_spans f plan.minutes + sum_spans g plan.hours

module _ (f g : ℕ → ℕ) where
  inside_hour : (k b : ℕ) → k * 3600 < b → b < k * 3600 + 3600 → b % 3600 ≢ 0
  inside_hour k b lo hi = λ e. omega (arith, e, lo, hi)

  -- Any part of an hour row that starts with the hour
  hour-sum :
      (rolled k hi : ℕ)
      → RollsUp f g rolled
      → k * 3600 < hi
      → hi ≡ min (k * 3600 + 3600) rolled
      → sum_range g (k * 3600) hi ≡ sum_range f (k * 3600) hi
  hour-sum rolled k hi r lt e =
      sum_range_first g (k * 3600) hi lt
        (λ b lo up. r.only_hours b (inside_hour k b lo (ground (arith, up, e))))
      ∙ r.hour k (ground (arith, lt, e))
      ∙ ap (sum_range f (k * 3600)) (sym e)

  hours-sum :
      (rolled k n : ℕ)
      → RollsUp f g rolled
      → (k + n) * 3600 ≤ rolled
      → sum_range g (k * 3600) ((k + n) * 3600) ≡ sum_range f (k * 3600) ((k + n) * 3600)
  hours-sum rolled k zero r le =
      let e : (k + zero) * 3600 ≤ k * 3600 = omega arith in
      sum_range_empty g (k * 3600) ((k + zero) * 3600) e
      ∙ sym (sum_range_empty f (k * 3600) ((k + zero) * 3600) e)
  hours-sum rolled k (suc n) r le =
      let e : (suc k + n) * 3600 ≡ (k + suc n) * 3600 = omega arith in
      let first = hour-sum rolled k (suc k * 3600) r (omega arith) (ground (arith, le)) in
      let rest = hours-sum rolled (suc k) n r (omega (arith, le)) in
      let rest' = subst (λ t. sum_range g (suc k * 3600) t ≡ sum_range f (suc k * 3600) t) e rest in
      omega (
        arith,
        first,
        rest',
        sum_range-split g (k * 3600) (suc k * 3600) ((k + suc n) * 3600) (omega arith)
            (omega arith),
        sum_range-split f (k * 3600) (suc k * 3600) ((k + suc n) * 3600) (omega arith)
            (omega arith),
      )

  -- Whole hours that are rolled up
  whole_hours-sum :
      (rolled lo hi : ℕ)
      → RollsUp f g rolled
      → lo % 3600 ≡ 0
      → hi % 3600 ≡ 0
      → lo ≤ hi
      → hi ≤ rolled
      → sum_range g lo hi ≡ sum_range f lo hi
  whole_hours-sum rolled lo hi r p q le up =
      let a : (lo / 3600) * 3600 ≡ lo = omega (arith, p) in
      let b : (lo / 3600 + (hi / 3600 - lo / 3600)) * 3600 ≡ hi = omega (arith, q, p, le) in
      subst (λ t. sum_range g t hi ≡ sum_range f t hi) a
        (subst (λ t. sum_range g ((lo / 3600) * 3600) t ≡ sum_range f ((lo / 3600) * 3600) t) b
          (hours-sum rolled (lo / 3600) (hi / 3600 - lo / 3600) r (omega (arith, b, up))))

  around-reads :
      (start end lo hi : ℕ)
      → start ≤ lo
      → lo ≤ hi
      → hi ≤ end
      → sum_range g lo hi ≡ sum_range f lo hi
      → reads f g (around start end lo hi) ≡ sum_range f start end
  around-reads start end lo hi p q s e = omega (
    arith,
    e,
    sum_spans-append f (span_if start lo) (span_if hi end),
    sum_spans-span_if f start lo,
    sum_spans-span_if f hi end,
    sum_range-split f start lo end p (omega arith),
    sum_range-split f lo hi end q s,
  )

  -- What planHours may return
  abbrev Shape : ℕ → ℕ → ℕ → HourPlan → Type 0
  Shape start end rolled plan =
      ((plan ≡ no_plan) × (end ≤ start))
      ⊎ (plan ≡ only_minutes start end)
      ⊎ ((lo : ℕ) × (hi : ℕ) × (plan ≡ around start end lo hi)
          × (start ≤ lo)
          × (lo < hi)
          × (hi ≤ end)
          × (hi ≤ rolled)
          × (lo % 3600 ≡ 0)
          × (hi % 3600 ≡ 0))

  plan_hours-Shape :
      (start end : ℕ) (mark : Option ℕ)
      → Shape start end (rolled_until mark) (plan_hours start end mark)
  unfolding plan_hours
  plan_hours-Shape start end mark =
      let lo = next_hour start in
      let rolled = rolled_until mark in
      let hi = last_hour end rolled in
      let lo_facts : (start ≤ next_hour start) × (next_hour start % 3600 ≡ 0) =
        (ground arith, ground arith) in
      let hi_facts : (last_hour end rolled ≤ end)
          × (last_hour end rolled ≤ rolled)
          × (last_hour end rolled % 3600 ≡ 0) =
        (ground arith, ground arith, ground arith) in
      elim (Bool-cases (leb end start)) [
        | inl h ↦ rw h (inl (refl, ground (arith, h)))
        | inr h ↦ elim (Bool-cases (leb hi lo || leb hi start || leb end lo)) [
          | inl no_hour ↦ rw (h, no_hour) (inr (inl refl))
          | inr some_hour ↦
              rw (h, some_hour)
                (inr (
                  inr (
                    lo,
                    hi,
                    refl,
                    lo_facts.0,
                    before (leb hi start) (leb end lo) hi lo some_hour,
                    hi_facts.0,
                    hi_facts.1,
                    lo_facts.1,
                    hi_facts.2,
                  )))
        ]
      ]
    where
      before : (b c : Bool) (hi lo : ℕ) → (leb hi lo || b || c) ≡ false → lo < hi
      before b c hi lo h = ground (arith, h)

  -- The plan of a window reads what a scan of the window's minutes reads.
  pub plan_hours-reads :
      (start end : ℕ) (mark : Option ℕ)
      → RollsUp f g (rolled_until mark)
      → reads f g (plan_hours start end mark) ≡ sum_range f start end
  plan_hours-reads start end mark r = elim (plan_hours-Shape start end mark) [
    | inl (e, le) ↦ rw e (sym (sum_range_empty f start end le))
    | inr (inl e) ↦ rw e (omega arith)
    | inr (inr (lo, hi, e, p, lt, q, up, a, b)) ↦ rw e (
        around-reads start end lo hi p (omega (arith, lt)) q
          (whole_hours-sum (rolled_until mark) lo hi r a b (omega (arith, lt)) up))
  ]

  -- The whole hours and the filling one
  filling-sum :
      (rolled lo : ℕ)
      → RollsUp f g rolled
      → lo % 3600 ≡ 0
      → lo ≤ (rolled / 3600) * 3600
      → rolled % 3600 ≢ 0
      → sum_range g lo rolled ≡ sum_range f lo rolled
  filling-sum rolled lo r a le part =
      let filling = (rolled / 3600) * 3600 in
      let whole = whole_hours-sum rolled lo filling r a (omega arith) le (omega arith) in
      let last = hour-sum rolled (rolled / 3600) rolled r (omega (arith, part)) (ground arith) in
      omega (
        arith,
        whole,
        last,
        sum_range-split g lo filling rolled le (omega arith),
        sum_range-split f lo filling rolled le (omega arith),
      )

  first_hour-Shape :
      (start end rolled filling : ℕ) (plan : HourPlan)
      → Shape start end rolled plan
      → start ≤ filling
      → filling ≡ (rolled / 3600) * 3600
      → (start ≤ first_hour filling plan.hours)
        × (first_hour filling plan.hours ≤ filling)
        × (first_hour filling plan.hours % 3600 ≡ 0)
  first_hour-Shape start end rolled filling plan (inl (e, le)) early same =
      rw e (early, omega arith, omega (arith, same))
  first_hour-Shape start end rolled filling plan (inr (inl e)) early same =
      rw e (early, omega arith, omega (arith, same))
  first_hour-Shape start end rolled filling plan (inr (inr (lo, hi, e, p, lt, q, up, a, b))) early
        same =
      rw e (p, omega (arith, lt, up, a, b, same), a)

  add_filling-reads :
      (start end rolled : ℕ) (plan : HourPlan)
      → Shape start end rolled plan
      → RollsUp f g rolled
      → reads f g plan ≡ sum_range f start end
      → reads f g (add_filling start end rolled plan) ≡ sum_range f start end
  unfolding add_filling
  add_filling-reads start end rolled plan s r old =
      let filling = (rolled / 3600) * 3600 in
      elim (Bool-cases (eqb (rolled % 3600) 0 || ltb end rolled)) [
        | inl h ↦ rw h old
        | inr h ↦ elim (Bool-cases (ltb filling start)) [
          | inl late ↦ rw (h, late) old
          | inr late ↦
              let (p, q, a) =
                first_hour-Shape start end rolled filling plan s (ground (arith, late)) refl in
              rw (h, late)
                (around-reads start end (first_hour filling plan.hours) rolled p (omega (arith, q))
                  (ground (arith, h))
                  (filling-sum rolled (first_hour filling plan.hours) r a q (ground (arith, h))))
        ]
      ]

  -- With the hour that is still filling, too: for any counter whose hour rows hold what its minutes up
  -- to the mark hold, the plan of a window reads what a scan of the window's minutes reads.
  pub plan_hours_through_mark-reads :
      (start end : ℕ) (mark : Option ℕ)
      → RollsUp f g (rolled_until mark)
      → reads f g (plan_hours_through_mark start end mark) ≡ sum_range f start end
  unfolding plan_hours_through_mark
  plan_hours_through_mark-reads start end none r = plan_hours-reads start end none r
  plan_hours_through_mark-reads start end (some mark) r =
      add_filling-reads start end (mark + 60) (plan_hours start end (some mark))
        (plan_hours-Shape start end (some mark)) r (plan_hours-reads start end (some mark) r)
