-- ===== src/HourPlan/Plan.antt =====
-- planHours, planHoursThroughMark and combineHourPlans of backend/internal/database/hour_rollup.go.
-- A time is its seconds since 1970; a mark of -1 is none.
use tsflow.Prelude.{
  ℕ, ◌+◌, ◌*◌, ◌/◌, ◌%◌, Bool, not, ◌||◌, List, [], ◌∷◌, ◌++◌, Option, none, some, eqb, ltb, leb,
  String_eq, ℕ_eq, if◌then◌else◌,
}

abbrev pub Span : Type 0
Span = ℕ × ℕ

-- hourPlan, without its mark and its legacy flag
pub record HourPlan : Type 0 where
  pub minutes : List Span
  pub hours : List Span

abbrev pub no_plan : HourPlan
no_plan = record { minutes = []; hours = [] }

abbrev pub only_minutes : ℕ → ℕ → HourPlan
only_minutes start end = record { minutes = (start, end) ∷ []; hours = [] }

abbrev pub rolled_until : Option ℕ → ℕ
rolled_until none = 0
rolled_until (some mark) = mark + 60

abbrev pub next_hour : ℕ → ℕ
next_hour start = if eqb (start % 3600) 0 then start else (start / 3600 + 1) * 3600

abbrev pub last_hour : ℕ → ℕ → ℕ
last_hour end rolled =
    if ltb rolled ((end / 3600) * 3600) then (rolled / 3600) * 3600 else (end / 3600) * 3600

-- A span, unless it is empty
abbrev pub span_if : ℕ → ℕ → List Span
span_if lo hi = if ltb lo hi then (lo, hi) ∷ [] else []

-- The hours, and the minutes before and after them
abbrev pub around : ℕ → ℕ → ℕ → ℕ → HourPlan
around start end hour_start hour_end = record {
  minutes = span_if start hour_start ++ span_if hour_end end;
  hours = (hour_start, hour_end) ∷ [];
}

unfoldable pub plan_hours : ℕ → ℕ → Option ℕ → HourPlan
plan_hours start end mark =
    let hour_start = next_hour start in
    let hour_end = last_hour end (rolled_until mark) in
    if leb end start
    then no_plan
    else if leb hour_end hour_start || leb hour_end start || leb end hour_start
    then only_minutes start end
    else around start end hour_start hour_end

abbrev pub first_hour : ℕ → List Span → ℕ
first_hour filling [] = filling
first_hour filling ((lo, hi) ∷ spans) = lo

-- With the hour that is still filling, up to the mark
unfoldable pub add_filling : ℕ → ℕ → ℕ → HourPlan → HourPlan
add_filling start end rolled plan =
    let filling = (rolled / 3600) * 3600 in
    if eqb (rolled % 3600) 0 || ltb end rolled
    then plan
    else if ltb filling start
    then plan
    else around start end (first_hour filling plan.hours) rolled

unfoldable pub plan_hours_through_mark : ℕ → ℕ → Option ℕ → HourPlan
plan_hours_through_mark start end none = plan_hours start end none
plan_hours_through_mark start end (some mark) =
    add_filling start end (mark + 60) (plan_hours start end (some mark))

abbrev append_plan : HourPlan → HourPlan → HourPlan
append_plan a b = record { minutes = a.minutes ++ b.minutes; hours = a.hours ++ b.hours }

planned : List Span → Option ℕ → HourPlan
planned [] mark = no_plan
planned ((lo, hi) ∷ ranges) mark = append_plan (plan_hours lo hi mark) (planned ranges mark)

unfoldable pub combine_hour_plans : List Span → Option ℕ → Bool → HourPlan
unfolding planned
combine_hour_plans ranges mark allow_hours =
    if not allow_hours then record { minutes = ranges; hours = [] } else planned ranges mark
