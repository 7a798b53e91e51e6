-- ===== src/HourPlan/Tests.antt =====
-- Runs of hour_rollup.go and node_pair_parallel.go, and their theorems at concrete inputs.
use tsflow.Prelude.{
  ℕ, zero, suc, ◌+◌, ◌*◌, ◌<◌, ◌≡◌, refl, ◌≢◌, ◌&&◌, [], ◌∷◌, none, some, arith, eqb, ltb, leb,
  String_eq, ℕ_eq, if◌then◌else◌, min,
}
use tsflow.HourPlan.Plan.{plan_hours, add_filling, plan_hours_through_mark, rolled_until}
use tsflow.HourPlan.Sums.{sum_from, sum_range}
use tsflow.HourPlan.Reads.{RollsUp, reads, plan_hours_through_mark-reads}
use tsflow.HourPlan.Spans.{
  Seek, work_items, split_closed_hours, split_hours, cut_hours, split_closed_minutes, split_minutes,
  chunks,
}
use tsflow.HourPlan.Cuts.{FindsHours, FindsMinutes}
use tsflow.HourPlan.Items.{sum_items, work_items-reads}

live_window :
    plan_hours_through_mark 1800 9000 (some 8000)
    ≡ record { minutes = (1800, 3600) ∷ (8060, 9000) ∷ []; hours = (3600, 8060) ∷ [] }
unfolding plan_hours_through_mark plan_hours add_filling
live_window = refl

closed_part :
    split_closed_hours ((3600, 8060) ∷ []) (some 8000) ≡ ((3600, 7200) ∷ [], (7200, 8060) ∷ [])
unfolding split_closed_hours split_hours cut_hours
closed_part = refl

closed_chunks :
    split_closed_minutes ((7200, 7500) ∷ []) (some 7320) ≡ ((7200, 7380) ∷ [], (7380, 7500) ∷ [])
unfolding split_closed_minutes split_minutes chunks
closed_chunks = refl

-- One minute with five bytes, at the start of an hour that is rolled up
abbrev five : ℕ → ℕ
five b = if eqb b 3600 then 5 else 0

five_zeros : (k : ℕ) → k ≢ 3600 → five k ≡ 0
five_zeros k h = ground arith

five-RollsUp : RollsUp five five (rolled_until (some 7140))
unfolding sum_from
five-RollsUp = record { hour = hour; only_hours = λ b h. five_zeros b (λ e. ground (arith, h, e)) }
  where
    hour :
        (k : ℕ)
        → k * 3600 < 7200
        → five (k * 3600) ≡ sum_range five (k * 3600) (min (k * 3600 + 3600) 7200)
    hour zero lt = refl
    hour (suc zero) lt = refl
    hour (suc (suc k)) lt = ground (arith, lt)

plan_hours_through_mark-reads_example :
    reads five five (plan_hours_through_mark 60 9000 (some 7140)) ≡ sum_range five 60 9000
plan_hours_through_mark-reads_example =
    plan_hours_through_mark-reads five five 60 9000 (some 7140) five-RollsUp

abbrev seek : Seek
seek lo hi = if leb lo 3600 && ltb 3600 hi then some 3600 else none

five-FindsHours : FindsHours five seek
five-FindsHours = record {
  found = λ lo hi b e.
      (ground (arith, e), ground (arith, e), ground (arith, e), λ k p q. ground (arith, e, p, q));
  missing = λ lo hi e k p q. ground (arith, e, p, q);
}

five-FindsMinutes : FindsMinutes five seek seek
five-FindsMinutes = record {
  least = λ lo hi a e. (ground (arith, e), λ k p q. ground (arith, e, p, q));
  greatest = λ lo hi b e. (ground (arith, e), λ k p q. ground (arith, e, p, q));
  in_order = λ lo hi a b e e'. ground (arith, e, e');
  no_least = λ lo hi e k p q. ground (arith, e, p, q);
  no_greatest = λ lo hi e k p q. ground (arith, e, p, q);
}

work_items-reads_example :
    sum_items five five
      (work_items seek seek seek (some 7140) (plan_hours_through_mark 60 9000 (some 7140)))
    ≡ sum_range five 60 9000
work_items-reads_example =
    work_items-reads five five seek seek seek five-FindsHours five-FindsMinutes 60 9000 (some 7140)
      five-RollsUp
