-- ===== src/HourCache/Invalidate.antt =====
-- `invalidate` of closed_hour_cache.go: which entries go, and which hours are marked as touched at
-- the new epoch.
use tsflow.Prelude.{
  ℕ, suc, ◌≤◌, ◌<◌, ◌^◌, String, ◌≡◌, refl, ◌∙◌, List, [], ◌∷◌, none, some, String_eq, ℕ_eq, arith,
  ◌==◌, Bool, ◌&&◌, mem, if◌then◌else◌,
}
use tsflow.Prelude.Maps.{Map, lookup, insert, lookup-insert}
use tsflow.HourCache.Lru.{HourCacheKey, HourCacheKey_eq, find}
use tsflow.HourCache.State.{
  Cache, PruneFloor, or_zero, or_no_floor, touched_at, drop_present, remove_locked, touch_hours,
  invalidate, next_epoch,
}
use tsflow.HourCache.Index.{find-drop_present}
use tsflow.HourCache.Put.{Valid, drop_present-Valid}

module _ {P : Type 0} where
  -- No mark is later than the epoch.
  pub record Stamped (c : Cache P) : Type 0 where
    pub by_hour : (k : HourCacheKey) → or_zero (lookup k c.touched) ≤ c.epoch
    pub by_floor : (t : String) → (or_no_floor (lookup t c.floors)).epoch ≤ c.epoch

  -- `c'` is `c` after a write to the hours of `p`, with the next epoch.
  pub record Touches (c : Cache P) (p : HourCacheKey → Bool) (c' : Cache P) : Type 0 where
    pub valid : Valid c'
    pub stamped : Stamped c'
    pub next : c'.epoch ≡ suc c.epoch
    pub found : (j : HourCacheKey) → find j c'.lru ≡ (if p j then none else find j c.lru)
    pub marked : (j : HourCacheKey) → touched_at c' j ≡ (if p j then c'.epoch else touched_at c j)

  pub drop_present_keeps :
      (k : HourCacheKey) (c : Cache P)
      → ((drop_present k c).epoch ≡ c.epoch)
        × ((drop_present k c).touched ≡ c.touched)
        × ((drop_present k c).floors ≡ c.floors)
  unfolding drop_present remove_locked
  drop_present_keeps k c = ground arith

abbrev pub names : String → List ℕ → HourCacheKey → Bool
names tailnet hours j = tailnet == j.tailnet && mem j.hour hours

pub next_epoch-suc : (e : ℕ) → suc e < 2 ^ 64 → next_epoch e ≡ suc e
next_epoch-suc e h = omega arith

module _ {P : Type 0} where
  -- The marks are no part of what makes a cache valid.
  pub Valid-marks :
      (c : Cache P) (e : ℕ) (t : Map HourCacheKey ℕ) (f : Map String PruneFloor)
      → Valid c
      → Valid (record c { epoch = e; touched = t; floors = f })
  Valid-marks c e t f v = record {
    indexed = record {
      distinct = v.indexed.distinct;
      agree = v.indexed.agree;
      counted = v.indexed.counted;
      unused = v.indexed.unused;
    };
    within = v.within;
  }

  pub record Loop (c : Cache P) (p : HourCacheKey → Bool) (c' : Cache P) : Type 0 where
    pub valid : Valid c'
    pub same_epoch : c'.epoch ≡ c.epoch
    pub same_floors : c'.floors ≡ c.floors
    pub found : (j : HourCacheKey) → find j c'.lru ≡ (if p j then none else find j c.lru)

  touch_hours-Loop :
      (tailnet : String) (hours : List ℕ) (c : Cache P)
      → Valid c
      → Loop c (names tailnet hours) (touch_hours tailnet hours c)
  unfolding touch_hours
  touch_hours-Loop tailnet [] c v = record {
    valid = v;
    same_epoch = refl;
    same_floors = refl;
    found = λ j. ground arith;
  }
  touch_hours-Loop tailnet (hour ∷ hours) c v =
      let k : HourCacheKey = record { tailnet = tailnet; hour = hour } in
      let c₁ : Cache P = record c { touched = insert k c.epoch c.touched } in
      let v₁ : Valid c₁ = Valid-marks c c.epoch (insert k c.epoch c.touched) c.floors v in
      let r = touch_hours-Loop tailnet hours (drop_present k c₁) (drop_present-Valid k c₁ v₁) in
      record {
        valid = r.valid;
        same_epoch = r.same_epoch ∙ (drop_present_keeps k c₁).0;
        same_floors = r.same_floors ∙ (drop_present_keeps k c₁).2;
        found = λ j. ground (arith, r.found j, find-drop_present k c₁ j v₁.indexed);
      }

  lookup-touch_hours :
      (tailnet : String) (hours : List ℕ) (c : Cache P) (j : HourCacheKey)
      → lookup j (touch_hours tailnet hours c).touched
        ≡ (if names tailnet hours j then some c.epoch else lookup j c.touched)
  unfolding touch_hours
  lookup-touch_hours tailnet [] c j = ground arith
  lookup-touch_hours tailnet (hour ∷ hours) c j =
      let k : HourCacheKey = record { tailnet = tailnet; hour = hour } in
      let c₁ : Cache P = record c { touched = insert k c.epoch c.touched } in
      ground (
        arith,
        lookup-touch_hours tailnet hours (drop_present k c₁) j,
        drop_present_keeps k c₁,
        lookup-insert k j c.epoch c.touched,
      )

  -- `invalidate` drops exactly the hours that it names and marks them with the next epoch.
  pub invalidate-Touches :
      (c : Cache P) (tailnet : String) (hour : ℕ) (hours : List ℕ)
      → suc c.epoch < 2 ^ 64
      → Valid c
      → Stamped c
      → Touches c (names tailnet (hour ∷ hours)) (invalidate tailnet (hour ∷ hours) c)
  unfolding invalidate
  invalidate-Touches c tailnet hour hours h v s =
      let c₁ : Cache P = record c { epoch = next_epoch c.epoch } in
      let e = next_epoch-suc c.epoch h in
      let r =
        touch_hours-Loop tailnet (hour ∷ hours) c₁
          (Valid-marks c (next_epoch c.epoch) c.touched c.floors v) in
      let t = lookup-touch_hours tailnet (hour ∷ hours) c₁ in
      record {
        valid = r.valid;
        stamped = record {
          by_hour = λ k. ground (arith, t k, s.by_hour k, r.same_epoch);
          by_floor = λ f. rw (r.same_floors, r.same_epoch) (omega (arith, s.by_floor f, e));
        };
        next = r.same_epoch ∙ e;
        found = r.found;
        marked = λ j.
            unfold touched_at in
            ground (arith, t j, r.same_epoch, r.same_floors, s.by_floor j.tailnet, s.by_hour j);
      }
