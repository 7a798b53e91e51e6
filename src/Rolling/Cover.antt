-- ===== src/Rolling/Cover.antt =====
-- The completeness floor and the coverage test of backend/internal/services/rolling_cache.go. A
-- time is its nanoseconds since 1970 and a bucket its seconds; the sets of buckets are lists.
use tsflow.Prelude.{
  ℕ, zero, suc, ◌+◌, ◌-◌, ◌*◌, ◌/◌, ◌%◌, ◌≤◌, ◌<◌, ◌≡◌, refl, sym, subst, inl, inr, Bool, true,
  false, not, ◌||◌, List, [], ◌∷◌, arith, eqb, ltb, leb, String_eq, ℕ_eq, if◌then◌else◌, mem,
  Bool-cases,
}

abbrev pub Time : Type 0
Time = ℕ

abbrev pub minute : ℕ
minute = 60000000000

unfoldable pub unix : Time → ℕ
unix t = t / 1000000000

abbrev pub whole_minute : ℕ → ℕ
whole_minute floor = let rem = floor % 60 in if eqb rem 0 then floor else floor + (60 - rem)

unfoldable pub cover_from : ℕ → Time → ℕ
cover_from complete_from t =
    if not (eqb complete_from 0)
    then complete_from
    else if leb (whole_minute (unix t)) 0
    then 1
    else whole_minute (unix t)

-- `for bucket := bucket; bucket <= last; bucket += 60`; out of fuel the answer is false.
unfoldable pub all_cached : ℕ → ℕ → ℕ → List ℕ → Bool
all_cached zero last bucket buckets = false
all_cached (suc fuel) last bucket buckets =
    let rest = all_cached fuel last (bucket + 60) buckets in
    if leb bucket last then (if mem bucket buckets then rest else false) else true

abbrev pub first_bucket : Time → ℕ
first_bucket start =
    let first = (unix start / 60) * 60 in if ltb first (unix start) then first + 60 else first

abbrev pub last_bucket : Time → ℕ
last_bucket end = ((unix end - 1) / 60) * 60

abbrev pub is_empty : List ℕ → Bool
is_empty [] = true
is_empty (b ∷ bs) = false

unfoldable pub cache_window_covers : Time → ℕ → ℕ → Time → Time → List ℕ → Bool
cache_window_covers now max_age complete_from start end buckets =
    if not (ltb start end) || is_empty buckets
    then false
    else if ltb start (now - max_age) || ltb (now + minute) end
    then false
    else if ltb (last_bucket end) (first_bucket start)
    then false
    else if ltb (first_bucket start) complete_from
    then false
    else all_cached (suc (suc (last_bucket end))) (last_bucket end) (first_bucket start) buckets

-- The first call sets the floor to the first whole minute that is not before the whole seconds of the
-- time, or to 1 if these are 0; so the floor is not before a time of whole seconds. A call that finds a
-- floor changes nothing.
pub cover_from_lem :
    (t : Time)
    → (unix t ≤ cover_from 0 t)
      × (cover_from 0 t < unix t + 60)
      × (0 < unix t → cover_from 0 t % 60 ≡ 0)
      × (unix t ≡ 0 → cover_from 0 t ≡ 1)
      × (t % 1000000000 ≡ 0 → t ≤ cover_from 0 t * 1000000000)
      × ((floor : ℕ) (u : Time) → (floor ≡ 0 → ⊥) → cover_from floor u ≡ floor)
      × ((u : Time) → cover_from (cover_from 0 t) u ≡ cover_from 0 t)
unfolding cover_from unix
cover_from_lem t = (
  ground arith,
  ground arith,
  λ h. ground arith,
  λ h. ground arith,
  λ h. ground arith,
  λ floor u h. ground (arith, h),
  λ u. ground arith,
)

step : (b k : ℕ) → (b + 60) + k * 60 ≡ b + suc k * 60
step b k = omega arith

start_step : (b : ℕ) → b ≡ b + zero * 60
start_step b = omega arith

all_cached-mem :
    (fuel last bucket k : ℕ) (buckets : List ℕ)
    → all_cached fuel last bucket buckets ≡ true
    → bucket + k * 60 ≤ last
    → mem (bucket + k * 60) buckets ≡ true
unfolding all_cached
all_cached-mem zero last bucket k buckets h le = cc
all_cached-mem (suc fuel) last bucket zero buckets h le =
    subst (λ b. mem b buckets ≡ true) (start_step bucket) (ground arith)
all_cached-mem (suc fuel) last bucket (suc k) buckets h le =
    subst (λ b. mem b buckets ≡ true) (step bucket k)
      (all_cached-mem fuel last (bucket + 60) k buckets (ground arith) (omega arith))

mem-all_cached :
    (fuel last bucket : ℕ) (buckets : List ℕ)
    → last < bucket + fuel * 60
    → ((k : ℕ) → bucket + k * 60 ≤ last → mem (bucket + k * 60) buckets ≡ true)
    → all_cached (suc fuel) last bucket buckets ≡ true
unfolding all_cached
mem-all_cached zero last bucket buckets lt f = ground arith
mem-all_cached (suc fuel) last bucket buckets lt f = elim (Bool-cases (leb bucket last)) [
  | inl h ↦
      let here : mem bucket buckets ≡ true =
        subst (λ b. mem b buckets ≡ true) (sym (start_step bucket)) (f 0 (ground (arith, h))) in
      let rest = mem-all_cached fuel last (bucket + 60) buckets (omega arith) (λ k le.
        subst (λ b. mem b buckets ≡ true) (sym (step bucket k)) (f (suc k) (omega arith))) in
      ground (arith, h, here, rest)
  | inr h ↦ ground (arith, h)
]

-- The first bucket read is a whole minute, and the others read follow it minute by minute.
minutes_after :
    (start m : ℕ) → unix start ≤ m * 60 → (k : ℕ) × (first_bucket start + k * 60 ≡ m * 60)
minutes_after start m lo = elim (Bool-cases (ltb ((unix start / 60) * 60) (unix start))) [
  | inl h ↦ (m - suc (unix start / 60), ground (arith, h))
  | inr h ↦ (m - unix start / 60, ground (arith, h))
]

first_minute : (start : ℕ) → (m : ℕ) × (first_bucket start ≡ m * 60) × (unix start ≤ m * 60)
first_minute start = elim (Bool-cases (ltb ((unix start / 60) * 60) (unix start))) [
  | inl h ↦ (suc (unix start / 60), ground (arith, h), ground (arith, h))
  | inr h ↦ (unix start / 60, ground (arith, h), ground (arith, h))
]

-- A window the cache says it covers is inside the age limit, and every whole minute whose bucket a
-- query of the window reads is cached and not before the floor of completeness.
pub cache_window_covers-cached :
    (now max_age complete_from start end m : ℕ) (buckets : List ℕ)
    → cache_window_covers now max_age complete_from start end buckets ≡ true
    → (now ≤ start + max_age)
      × (end ≤ now + minute)
      × ((unix start ≤ m * 60)
          → (m * 60 < unix end)
          → (complete_from ≤ m * 60) × (mem (m * 60) buckets ≡ true))
unfolding cache_window_covers
cache_window_covers-cached now max_age complete_from start end m buckets h = (
  ground arith,
  ground arith,
  λ lo hi.
      let (k, e) = minutes_after start m lo in
      (
        ground (arith, e),
        subst (λ b. mem b buckets ≡ true) e
            (all_cached-mem (suc (suc (last_bucket end))) (last_bucket end) (first_bucket start) k
              buckets (ground arith) (omega (arith, e))),
      ),
)

unix-lt : (start end : ℕ) → unix start < unix end → start < end
unfolding unix
unix-lt start end h = omega arith

empty-mem : (b : ℕ) (buckets : List ℕ) → mem b buckets ≡ true → is_empty buckets ≡ false
empty-mem b [] h = cc
empty-mem b (c ∷ cs) h = refl

-- A window inside the age limit that holds some whole minute, and whose whole minutes are all cached
-- and not before the floor of completeness, is covered: the loop over the buckets ends.
pub cached-cache_window_covers :
    (now max_age complete_from start end m : ℕ) (buckets : List ℕ)
    → now ≤ start + max_age
    → end ≤ now + minute
    → unix start ≤ m * 60
    → m * 60 < unix end
    → ((n : ℕ)
        → unix start ≤ n * 60
        → n * 60 < unix end
        → (complete_from ≤ n * 60) × (mem (n * 60) buckets ≡ true))
    → cache_window_covers now max_age complete_from start end buckets ≡ true
unfolding cache_window_covers
cached-cache_window_covers now max_age complete_from start end m buckets age soon lo hi f =
    let (c, e, le) = first_minute start in
    let (k, e') = minutes_after start m lo in
    let full = empty-mem (m * 60) buckets (f m lo hi).1 in
    let floor = (f c le (omega (arith, e, e'))).0 in
    let loop =
      mem-all_cached (suc (last_bucket end)) (last_bucket end) (first_bucket start) buckets
        (omega arith)
        (λ j h.
          subst (λ b. mem b buckets ≡ true) (omega (arith, e))
            (f (c + j) (omega (arith, e)) (omega (arith, e))).1) in
    let some_time = unix-lt start end (omega arith) in
    ground (arith, some_time, full, floor, loop, e, e', age, soon, lo, hi)
