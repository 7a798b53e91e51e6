-- ===== src/HourPlan/Items.antt =====
-- The spans that are read in parallel, against the plan that they cut.
use tsflow.Prelude.{
  ℕ, ◌+◌, ◌%◌, ◌≡◌, refl, ◌∙◌, ◌≢◌, Bool, true, false, List, [], ◌∷◌, ◌++◌, Option, none, some,
  arith, String_eq, ℕ_eq, if◌then◌else◌,
}
use tsflow.HourPlan.Plan.{Span, HourPlan, rolled_until, plan_hours_through_mark}
use tsflow.HourPlan.Sums.{sum_range, sum_spans}
use tsflow.HourPlan.Spans.{
  split_closed_hours, split_closed_minutes, Seek, list_rolled_hours, clamp_minute_spans, ClosedSpan,
  closed_spans, open_chunk, chunk_all, open_spans, work_items, spans_as, whole_hours, total_length,
}
use tsflow.HourPlan.Reads.{RollsUp, reads, plan_hours_through_mark-reads}
use tsflow.HourPlan.Cuts.{
  both, split_hours-sum, split_minutes-sum, chunk_all-sum, FindsHours, FindsMinutes,
  list_rolled_hours-sum, clamp_minute_spans-sum,
}

-- What the work items read: each from the hour rows or the minute rows
abbrev pub sum_items : (ℕ → ℕ) → (ℕ → ℕ) → List ClosedSpan → ℕ
sum_items f g [] = 0
sum_items f g (item ∷ items) =
    (if item.hours then sum_range g item.lo item.hi else sum_range f item.lo item.hi)
    + sum_items f g items

module _ (f g : ℕ → ℕ) where
  sum_items-append :
      (xs ys : List ClosedSpan) → sum_items f g (xs ++ ys) ≡ sum_items f g xs + sum_items f g ys
  sum_items-append [] ys = omega arith
  sum_items-append (x ∷ xs) ys = omega (arith, sum_items-append xs ys)

  spans_as-hours :
      (o : Bool) (spans : List Span) → sum_items f g (spans_as true o spans) ≡ sum_spans g spans
  spans_as-hours o [] = refl
  spans_as-hours o ((lo, hi) ∷ spans) = omega (arith, spans_as-hours o spans)

  spans_as-minutes :
      (o : Bool) (spans : List Span) → sum_items f g (spans_as false o spans) ≡ sum_spans f spans
  spans_as-minutes o [] = refl
  spans_as-minutes o ((lo, hi) ∷ spans) = omega (arith, spans_as-minutes o spans)

  split_closed_hours-sum :
      (spans : List Span) (mark : Option ℕ)
      → both g (split_closed_hours spans mark) ≡ sum_spans g spans
  unfolding split_closed_hours
  split_closed_hours-sum spans none = omega arith
  split_closed_hours-sum spans (some mark) = split_hours-sum g (mark + 60) spans

  split_closed_minutes-sum :
      (spans : List Span) (mark : Option ℕ)
      → both f (split_closed_minutes spans mark) ≡ sum_spans f spans
  unfolding split_closed_minutes
  split_closed_minutes-sum spans none = omega arith
  split_closed_minutes-sum spans (some mark) = split_minutes-sum f (mark + 60) spans

  module _ (seek_hour seek_min seek_max : Seek) (hours : FindsHours g seek_hour)
      (minutes : FindsMinutes f seek_min seek_max) where
    closed_spans-sum :
        (ranges minute_spans : List Span)
        → sum_items f g (closed_spans (list_rolled_hours seek_hour ranges) minute_spans)
          ≡ sum_spans g (whole_hours (list_rolled_hours seek_hour ranges))
            + sum_spans f minute_spans
    unfolding closed_spans
    closed_spans-sum ranges minute_spans =
        let xs = whole_hours (list_rolled_hours seek_hour ranges) in
        omega (
          arith,
          sum_items-append (spans_as true false xs) (spans_as false false minute_spans),
          spans_as-hours false xs,
          spans_as-minutes false minute_spans,
        )

    open_spans-sum :
        (hour_spans minute_spans : List Span)
        → sum_items f g (open_spans hour_spans minute_spans)
          ≡ sum_spans g hour_spans + sum_spans f minute_spans
    unfolding open_spans
    open_spans-sum hour_spans minute_spans =
        let chunk = open_chunk (total_length minute_spans) in
        let ys = chunk_all chunk minute_spans in
        omega (
          arith,
          sum_items-append (spans_as true true hour_spans) (spans_as false true ys),
          spans_as-hours true hour_spans,
          spans_as-minutes true ys,
          chunk_all-sum f chunk minute_spans (ground arith),
        )

    work_items-sum :
        (mark : Option ℕ) (plan : HourPlan)
        → ((b : ℕ) → b % 3600 ≢ 0 → g b ≡ 0)
        → sum_items f g (work_items seek_hour seek_min seek_max mark plan) ≡ reads f g plan
    unfolding work_items
    work_items-sum mark plan only =
        let (closed_hours, open_hours) = split_closed_hours plan.hours mark in
        let (closed_minutes, open_minutes) = split_closed_minutes plan.minutes mark in
        let clamps = clamp_minute_spans seek_min seek_max open_minutes in
        omega (
          arith,
          split_closed_hours-sum plan.hours mark,
          split_closed_minutes-sum plan.minutes mark,
          sum_items-append (closed_spans (list_rolled_hours seek_hour closed_hours) closed_minutes)
              (open_spans open_hours clamps),
          closed_spans-sum closed_hours closed_minutes,
          open_spans-sum open_hours clamps,
          list_rolled_hours-sum f g seek_hour hours only closed_hours,
          clamp_minute_spans-sum f seek_min seek_max minutes open_minutes,
        )

    -- On one state of the tables, with seeks that find the first hour row of a span and its first and last
    -- minute, for any counter whose hour rows hold what its minutes up to the mark hold: the spans that are read
    -- in parallel for a window add up to a scan of the window's minutes.
    pub work_items-reads :
        (start end : ℕ) (mark : Option ℕ)
        → RollsUp f g (rolled_until mark)
        → sum_items f g
            (work_items seek_hour seek_min seek_max mark (plan_hours_through_mark start end mark))
          ≡ sum_range f start end
    work_items-reads start end mark r =
        work_items-sum mark (plan_hours_through_mark start end mark) r.only_hours
        ∙ plan_hours_through_mark-reads f g start end mark r
