-- ===== src/HourCache/State.antt =====
-- backend/internal/database/closed_hour_cache.go: the cache and its methods. A call runs under the
-- mutex from start to end, so it is one function; `none` is a fault, the nil element that
-- `removeLocked` would be given if the list ran empty. Hours are Unix seconds from 1970 on. Sizes do
-- not wrap: what is in use is at most the budget and one entry more. The epoch wraps at 2 ^ 64.
use tsflow.Prelude.{
  ℕ, zero, suc, ◌+◌, ◌-◌, ◌^◌, ◌%◌, String, Bool, ◌&&◌, List, [], ◌∷◌, Option, none, some, ◌==◌,
  ltb, leb, length, String_eq, if◌then◌else◌,
}
use tsflow.Prelude.Maps.{Map, lookup, insert, delete, delete_if, keys}
use tsflow.HourCache.Lru.{HourCacheKey, HourCacheKey_eq, HourEntry, Element, key_of, remove, back}

pub record PruneFloor : Type 0 where
  pub below : ℕ
  pub epoch : ℕ

pub record Cache (P : Type 0) : Type 0 where
  pub budget : ℕ
  pub used : ℕ
  pub lru : List (Element P)
  pub entries : Map HourCacheKey (Element P)
  pub epoch : ℕ
  pub touched : Map HourCacheKey ℕ
  pub floors : Map String PruneFloor
  pub hits : ℕ
  pub misses : ℕ
  pub next_id : ℕ

abbrev pub next_epoch : ℕ → ℕ
next_epoch e = (e + 1) % 2 ^ 64

abbrev pub or_zero : Option ℕ → ℕ
or_zero none = 0
or_zero (some e) = e

abbrev pub or_no_floor : Option PruneFloor → PruneFloor
or_no_floor none = record { below = 0; epoch = 0 }
or_no_floor (some f) = f

floor_touch : Option PruneFloor → HourCacheKey → ℕ → ℕ
floor_touch none key e = e
floor_touch (some f) key e = if ltb key.hour f.below && ltb e f.epoch then f.epoch else e

abbrev pub is_below : String → ℕ → HourCacheKey → Bool
is_below tailnet below key = key.tailnet == tailnet && ltb key.hour below

abbrev pub raise_floor : ℕ → ℕ → PruneFloor → PruneFloor
raise_floor below epoch f = record {
  below = if ltb f.below below then below else f.below;
  epoch = epoch;
}

module _ {P : Type 0} where
  abbrev pub entry_key : HourEntry P → HourCacheKey
  entry_key e = record { tailnet = e.tailnet; hour = e.hour }

  abbrev pub empty_cache : ℕ → Cache P
  empty_cache budget = record {
    budget = budget;
    used = 0;
    lru = [];
    entries = [];
    epoch = 0;
    touched = [];
    floors = [];
    hits = 0;
    misses = 0;
    next_id = 0;
  }

  unfoldable pub new_closed_hour_cache : ℕ → Option (Cache P)
  new_closed_hour_cache budget = if leb budget 0 then none else some (empty_cache budget)

  -- A nil cache is `none`.
  unfoldable pub start : Option (Cache P) → ℕ
  start none = 0
  start (some c) = c.epoch

  unfoldable pub get_found : Cache P → Option (Element P) → Cache P × Option (HourEntry P)
  get_found c none = (record c { misses = c.misses + 1 }, none)
  get_found c (some el) =
      (record c { hits = c.hits + 1; lru = el ∷ remove el.id c.lru }, some el.value)

  unfoldable pub get : Cache P → String → ℕ → Cache P × Option (HourEntry P)
  unfolding get_found
  get c tailnet hour = get_found c (lookup (record { tailnet = tailnet; hour = hour }) c.entries)

  unfoldable pub touched_at : Cache P → HourCacheKey → ℕ
  unfolding floor_touch
  touched_at c key = floor_touch (lookup key.tailnet c.floors) key (or_zero (lookup key c.touched))

  unfoldable pub remove_locked : Element P → Cache P → Cache P
  remove_locked el c = record c {
    lru = remove el.id c.lru;
    entries = delete (key_of el) c.entries;
    used = c.used - el.value.size;
  }

  drop_element : Option (Element P) → Cache P → Cache P
  drop_element none c = c
  drop_element (some el) c = remove_locked el c

  unfoldable pub drop_present : HourCacheKey → Cache P → Cache P
  unfolding drop_element
  drop_present key c = drop_element (lookup key c.entries) c

  unfoldable pub push_front : HourEntry P → Cache P → Cache P
  push_front entry c =
      let el : Element P = record { id = c.next_id; value = entry } in
      record c {
        lru = el ∷ c.lru;
        entries = insert (entry_key entry) el c.entries;
        used = c.used + entry.size;
        next_id = suc c.next_id;
      }

  -- `for c.used > c.budget`, which removes an element of the list each round
  unfoldable pub evict : ℕ → Cache P → Option (Cache P)
  evict zero c = if leb c.used c.budget then some c else none
  evict (suc fuel) c =
      if leb c.used c.budget
      then some c
      else elim (back c.lru) [ none ↦ none | some el ↦ evict fuel (remove_locked el c) ]

  unfoldable pub put : Cache P → HourEntry P → ℕ → Option (Cache P)
  put c entry read_epoch =
      if ltb c.budget entry.size
      then some c
      else if ltb read_epoch (touched_at c (entry_key entry))
      then some c
      else let c' = push_front entry (drop_present (entry_key entry) c) in evict (length c'.lru) c'

  unfoldable pub touch_hours : String → List ℕ → Cache P → Cache P
  touch_hours tailnet [] c = c
  touch_hours tailnet (hour ∷ hours) c =
      let key : HourCacheKey = record { tailnet = tailnet; hour = hour } in
      touch_hours tailnet hours
        (drop_present key (record c { touched = insert key c.epoch c.touched }))

  unfoldable pub invalidate : String → List ℕ → Cache P → Cache P
  invalidate tailnet [] c = c
  invalidate tailnet (hour ∷ hours) c =
      touch_hours tailnet (hour ∷ hours) (record c { epoch = next_epoch c.epoch })

  unfoldable pub drop_below : String → ℕ → List HourCacheKey → Cache P → Cache P
  drop_below tailnet below [] c = c
  drop_below tailnet below (key ∷ ks) c =
      drop_below tailnet below ks (if is_below tailnet below key then drop_present key c else c)

  unfoldable pub invalidate_below : String → ℕ → Cache P → Cache P
  invalidate_below tailnet below c =
      let epoch : ℕ = next_epoch c.epoch in
      let f = raise_floor below epoch (or_no_floor (lookup tailnet c.floors)) in
      let c' =
        drop_below tailnet f.below (keys c.entries)
          (record c { epoch = epoch; floors = insert tailnet f c.floors }) in
      record c' { touched = delete_if (is_below tailnet f.below) c'.touched }
