-- ===== src/HourCache/Tests.antt =====
-- Runs of closed_hour_cache.go, and its theorems at concrete inputs.
use tsflow.Prelude.{ℕ, ◌≡◌, refl, ◌<◌, ◌^◌, [], ◌∷◌, Option, none, some, arith}
use tsflow.Prelude.Maps.{lookup, insert, delete}
use tsflow.HourCache.Lru.{
  HourCacheKey, HourCacheKey_eq, HourEntry, find, find_id, total, remove, back,
}
use tsflow.HourCache.State.{
  Cache, empty_cache, get, put, start, touched_at, invalidate, touch_hours, evict, drop_present,
  remove_locked, push_front,
}
use tsflow.HourCache.Put.{Valid, Stored, put-Stored}
use tsflow.HourCache.Invalidate.{Stamped, Touches, invalidate-Touches, names}
use tsflow.HourCache.Protocol.{World, at_start, Reach, here, next, starts, loads, offers, steps}
use tsflow.HourCache.Fresh.{get-current}

abbrev hour_one : HourCacheKey
hour_one = record { tailnet = "a"; hour = 3600 }

abbrev entry_one : HourEntry ℕ
entry_one = record { tailnet = "a"; hour = 3600; size = 10; rows = 7 }

abbrev entry_two : HourEntry ℕ
entry_two = record { tailnet = "a"; hour = 7200; size = 95; rows = 8 }

abbrev held : Cache ℕ
held = record (empty_cache 100) {
  used = 10;
  lru = record { id = 0; value = entry_one } ∷ [];
  entries = (hour_one, record { id = 0; value = entry_one }) ∷ [];
  next_id = 1;
}

put_one : put (empty_cache 100) entry_one 0 ≡ some held
unfolding put evict touched_at drop_present push_front lookup insert
put_one = refl

-- The second entry does not fit beside the first, which is evicted.
abbrev used_after : Option (Cache ℕ) → ℕ
used_after none = 0
used_after (some c) = c.used

put_two : used_after (put held entry_two 0) ≡ 95
unfolding put evict touched_at drop_present push_front remove_locked lookup insert delete remove
    back
put_two = refl

abbrev touched_once : Cache ℕ
touched_once = invalidate "a" (3600 ∷ []) (empty_cache 100)

-- An offer whose epoch lies before the last report of its hour is refused.
put_late : put touched_once entry_one 0 ≡ some touched_once
unfolding put touched_at invalidate touch_hours drop_present lookup insert
put_late = refl

held-Valid : Valid held
unfolding lookup find find_id total
held-Valid = record {
  indexed = record {
    distinct = (refl, refl, tt);
    agree = λ k. refl;
    counted = refl;
    unused = λ i h. ground arith;
  };
  within = omega arith;
}

held-Stamped : Stamped held
unfolding lookup
held-Stamped = record { by_hour = λ k. omega arith; by_floor = λ t. omega arith }

put-Stored_example : (c : Cache ℕ) × (put held entry_two 0 ≡ some c) × Stored held entry_two 0 c
put-Stored_example = put-Stored held entry_two 0 held-Valid

invalidate-Touches_example : Touches held (names "a" (3600 ∷ [])) (invalidate "a" (3600 ∷ []) held)
invalidate-Touches_example =
    invalidate-Touches held "a" 3600 [] (omega arith) held-Valid held-Stamped

abbrev served : World ℕ
served = record (at_start 100 (λ k. 7)) {
  cache = held;
  started = record { key = hour_one; epoch = 0 } ∷ [];
  loaded = record { key = hour_one; epoch = 0; rows = 7 } ∷ [];
}

-- One reader takes the epoch, reads the hour and offers it.
one_reader : Reach (at_start 100 (λ k. 7)) served
unfolding start
one_reader =
    next (next (next here (starts hour_one)) (loads 0 (record { key = hour_one; epoch = 0 }) refl))
      (offers 0 (record { key = hour_one; epoch = 0; rows = 7 }) 10 held refl put_one)

get_one : (get held "a" 3600).1 ≡ some entry_one
unfolding get lookup
get_one = refl

steps-one_reader : steps one_reader < 2 ^ 64
unfolding one_reader steps
steps-one_reader = omega arith

get-current_example : ◌≡◌ {A = ℕ} 7 7
get-current_example =
    get-current 100 (λ k. 7) served one_reader hour_one entry_one steps-one_reader get_one refl
