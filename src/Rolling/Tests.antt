-- ===== src/Rolling/Tests.antt =====
-- Runs of rolling_cache.go, and its theorems at concrete inputs.
use tsflow.Prelude.{
  ℕ, ◌+◌, ◌*◌, ◌%◌, ◌≤◌, ◌<◌, ◌≡◌, refl, subst, true, false, List, [], ◌∷◌, arith, String_eq, ℕ_eq,
  mem,
}
use tsflow.Rolling.Buckets.{NodePairCacheKey, NodePairCacheKey_eq, rows_indexed-linear}
use tsflow.Prelude.Slots.{rows_indexed, rows_linear, set_at, upsert_indexed, at_position}
use tsflow.Prelude.Maps.{lookup, insert}
use tsflow.Rolling.Cover.{
  unix, cover_from, cover_from_lem, cache_window_covers, cache_window_covers-cached, all_cached,
  cached-cache_window_covers,
}

abbrev at_90 : ℕ
at_90 = 90000000000

abbrev at_180 : ℕ
at_180 = 180000000000

covered : cache_window_covers at_180 3600000000000 120 at_90 at_180 (120 ∷ []) ≡ true
unfolding cache_window_covers all_cached unix
covered = refl

not_covered : cache_window_covers at_180 3600000000000 121 at_90 at_180 (120 ∷ []) ≡ false
unfolding cache_window_covers all_cached unix
not_covered = refl

cover_from_lem_example :
    (unix at_90 ≤ cover_from 0 at_90)
    × (cover_from 0 at_90 < unix at_90 + 60)
    × (0 < unix at_90 → cover_from 0 at_90 % 60 ≡ 0)
    × (unix at_90 ≡ 0 → cover_from 0 at_90 ≡ 1)
    × (at_90 % 1000000000 ≡ 0 → at_90 ≤ cover_from 0 at_90 * 1000000000)
    × ((floor : ℕ) (u : ℕ) → (floor ≡ 0 → ⊥) → cover_from floor u ≡ floor)
    × ((u : ℕ) → cover_from (cover_from 0 at_90) u ≡ cover_from 0 at_90)
cover_from_lem_example = cover_from_lem at_90

-- Half a second after a whole minute, the floor is before the time.
before_the_time : cover_from 0 60500000000 ≡ 60
unfolding cover_from unix
before_the_time = refl

lower : unix at_90 ≤ 2 * 60
unfolding unix
lower = omega arith

upper : 2 * 60 < unix at_180
unfolding unix
upper = omega arith

cache_window_covers-cached_example : (120 ≤ 2 * 60) × (mem (2 * 60) (120 ∷ []) ≡ true)
cache_window_covers-cached_example =
    (cache_window_covers-cached at_180 3600000000000 120 at_90 at_180 2 (120 ∷ []) covered).2 lower
      upper

only_minute :
    (n : ℕ)
    → unix at_90 ≤ n * 60
    → n * 60 < unix at_180
    → (120 ≤ n * 60) × (mem (n * 60) (120 ∷ []) ≡ true)
unfolding unix
only_minute n lo hi =
    let e : 2 ≡ n = omega arith in (omega arith, subst (λ m. mem (m * 60) (120 ∷ []) ≡ true) e refl)

cached-cache_window_covers_example :
    cache_window_covers at_180 3600000000000 120 at_90 at_180 (120 ∷ []) ≡ true
cached-cache_window_covers_example =
    cached-cache_window_covers at_180 3600000000000 120 at_90 at_180 2 (120 ∷ []) (omega arith)
      (omega arith) lower upper only_minute

abbrev a_to_b : NodePairCacheKey
a_to_b = record { src = "a"; dst = "b"; traffic_type = "virtual" }

abbrev a_to_c : NodePairCacheKey
a_to_c = record { src = "a"; dst = "c"; traffic_type = "virtual" }

-- A row is its key and its bytes here.
abbrev Row : Type 0
Row = NodePairCacheKey × ℕ

abbrev key_of : Row → NodePairCacheKey
key_of row = row.0

abbrev merge : Row → Row → Row
merge (k, m) (j, n) = (k, m + n)

keeps : (row np : Row) → key_of (merge row np) ≡ key_of row
keeps (k, m) (j, n) = refl

abbrev three_rows : List Row
three_rows = (a_to_b, 1) ∷ (a_to_c, 2) ∷ (a_to_b, 4) ∷ []

merged : (rows_indexed key_of merge three_rows ([], [])).0 ≡ (a_to_b, 5) ∷ (a_to_c, 2) ∷ []
unfolding rows_indexed upsert_indexed at_position set_at lookup insert
merged = refl

rows_indexed-linear_example :
    (rows_indexed key_of merge three_rows ([], [])).0 ≡ rows_linear key_of merge three_rows []
rows_indexed-linear_example = rows_indexed-linear key_of merge keeps three_rows
