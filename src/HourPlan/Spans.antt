-- ===== src/HourPlan/Spans.antt =====
-- How backend/internal/database/node_pair_parallel.go cuts a plan into spans that are read in parallel.
-- What SQLite finds by a seek on a primary key is an argument.
use tsflow.Prelude.{
  ℕ, zero, suc, ◌+◌, ◌-◌, ◌*◌, ◌/◌, Bool, true, false, ◌&&◌, List, [], ◌∷◌, ◌++◌, Option, none,
  some, ltb, leb, String_eq, ℕ_eq, if◌then◌else◌,
}
use tsflow.HourPlan.Plan.{Span, HourPlan, span_if}

-- `for cut+hourSeconds <= hi && cut+hourSeconds <= rolledUntil { cut += hourSeconds }`
unfoldable pub cut_hours : ℕ → ℕ → ℕ → ℕ → ℕ
cut_hours zero hi rolled cut = cut
cut_hours (suc fuel) hi rolled cut =
    let more = cut_hours fuel hi rolled (cut + 3600) in
    if leb (cut + 3600) hi && leb (cut + 3600) rolled then more else cut

-- A list of closed spans and one of open spans
abbrev pub Split : Type 0
Split = List Span × List Span

unfoldable pub split_hours : ℕ → List Span → Split
split_hours rolled [] = ([], [])
split_hours rolled ((lo, hi) ∷ spans) =
    let (closed, opened) = split_hours rolled spans in
    let cut = cut_hours (suc (hi / 3600)) hi rolled lo in
    (span_if lo cut ++ closed, span_if cut hi ++ opened)

unfoldable pub split_closed_hours : List Span → Option ℕ → Split
split_closed_hours spans none = ([], spans)
split_closed_hours spans (some mark) = split_hours (mark + 60) spans

-- `for ; lo < hi; lo += chunk`, each chunk cut at `hi`
unfoldable pub chunks : ℕ → ℕ → ℕ → ℕ → List Span
chunks zero chunk lo hi = []
chunks (suc fuel) chunk lo hi =
    let rest = chunks fuel chunk (lo + chunk) hi in
    if ltb lo hi then (lo, if ltb hi (lo + chunk) then hi else lo + chunk) ∷ rest else []

abbrev pub closed_minute_chunk : ℕ
closed_minute_chunk = 180

unfoldable pub split_minutes : ℕ → List Span → Split
split_minutes rolled [] = ([], [])
split_minutes rolled ((lo, hi) ∷ spans) =
    let (closed, opened) = split_minutes rolled spans in
    let cut = (if ltb rolled hi then rolled else hi) in
    (
      chunks (cut - lo) closed_minute_chunk lo cut ++ closed,
      span_if (if ltb lo cut then cut else lo) hi ++ opened,
    )

unfoldable pub split_closed_minutes : List Span → Option ℕ → Split
split_closed_minutes spans none = ([], spans)
split_closed_minutes spans (some mark) = split_minutes (mark + 60) spans

-- rolledHourSeekSQL, minuteSeekMinSQL and minuteSeekMaxSQL: the least or greatest bucket in a span
abbrev pub Seek : Type 0
Seek = ℕ → ℕ → Option ℕ

unfoldable pub rolled_hours : Seek → ℕ → ℕ → ℕ → List ℕ
rolled_hours seek zero lo hi = []
rolled_hours seek (suc fuel) lo hi =
    let found = seek lo hi in
    if ltb lo hi
    then (elim found as (λ _. List ℕ) [
      | none ↦ []
      | some next ↦ (next / 3600) * 3600 ∷ rolled_hours seek fuel ((next / 3600) * 3600 + 3600) hi
    ])
    else []

unfoldable pub list_rolled_hours : Seek → List Span → List ℕ
list_rolled_hours seek [] = []
list_rolled_hours seek ((lo, hi) ∷ ranges) =
    rolled_hours seek (hi - lo) lo hi ++ list_rolled_hours seek ranges

abbrev pub clamped : Option ℕ → Option ℕ → List Span
clamped none hi = []
clamped (some lo) none = []
clamped (some lo) (some hi) = (lo, hi + 1) ∷ []

unfoldable pub clamp_minute_spans : Seek → Seek → List Span → List Span
clamp_minute_spans seek_min seek_max [] = []
clamp_minute_spans seek_min seek_max ((lo, hi) ∷ spans) =
    clamped (seek_min lo hi) (seek_max lo hi) ++ clamp_minute_spans seek_min seek_max spans

-- closedSpan: whether it reads hour rows, and whether it is open
pub record ClosedSpan : Type 0 where
  pub lo : ℕ
  pub hi : ℕ
  pub hours : Bool
  pub is_open : Bool

abbrev pub spans_as : Bool → Bool → List Span → List ClosedSpan
spans_as hours is_open [] = []
spans_as hours is_open ((lo, hi) ∷ spans) =
    record { lo = lo; hi = hi; hours = hours; is_open = is_open } ∷ spans_as hours is_open spans

abbrev pub whole_hours : List ℕ → List Span
whole_hours [] = []
whole_hours (h ∷ hours) = (h, h + 3600) ∷ whole_hours hours

unfoldable pub closed_spans : List ℕ → List Span → List ClosedSpan
closed_spans hours minutes = spans_as true false (whole_hours hours) ++ spans_as false false minutes

abbrev pub total_length : List Span → ℕ
total_length [] = 0
total_length ((lo, hi) ∷ spans) = (hi - lo) + total_length spans

abbrev pub open_chunk : ℕ → ℕ
open_chunk total = if ltb (120 * 32) total then (total / 32 / 60 + 1) * 60 else 120

unfoldable pub chunk_all : ℕ → List Span → List Span
chunk_all chunk [] = []
chunk_all chunk ((lo, hi) ∷ spans) = chunks (hi - lo) chunk lo hi ++ chunk_all chunk spans

unfoldable pub open_spans : List Span → List Span → List ClosedSpan
open_spans hours minutes =
    spans_as true true hours
    ++ spans_as false true (chunk_all (open_chunk (total_length minutes)) minutes)

-- The work items of readNodePairAggregates, when the open part is read in parallel too
unfoldable pub work_items : Seek → Seek → Seek → Option ℕ → HourPlan → List ClosedSpan
work_items seek_hour seek_min seek_max mark plan =
    let (closed_hours, open_hours) = split_closed_hours plan.hours mark in
    let (closed_minutes, open_minutes) = split_closed_minutes plan.minutes mark in
    closed_spans (list_rolled_hours seek_hour closed_hours) closed_minutes
    ++ open_spans open_hours (clamp_minute_spans seek_min seek_max open_minutes)
