-- ===== src/HourCache/Evict.antt =====
-- The eviction loop of `put` in closed_hour_cache.go: it ends, within the budget.
use tsflow.Prelude.{
  ℕ, zero, suc, ◌≤◌, ◌≡◌, refl, ◌∙◌, Option, none, some, arith, ◌⊎◌, true, Bool-cases, Option-cases,
  inl, inr, leb, leb→le, length,
}
use tsflow.HourCache.Lru.{HourCacheKey, HourCacheKey_eq, Element, key_of, back, find}
use tsflow.HourCache.Elements.{find-back, total-back-none, length-remove, total-empty}
use tsflow.HourCache.State.{Cache, remove_locked, evict}
use tsflow.HourCache.Index.{Indexed, remove_locked-Indexed, find-remove_locked}

module _ {P : Type 0} where
  -- `c'` is `c` with entries dropped, and nothing else that a reader or a writer sees changed.
  pub record Shrinks (c c' : Cache P) : Type 0 where
    pub same_budget : c'.budget ≡ c.budget
    pub same_epoch : c'.epoch ≡ c.epoch
    pub same_touched : c'.touched ≡ c.touched
    pub same_floors : c'.floors ≡ c.floors
    pub kept : (j : HourCacheKey) → (find j c'.lru ≡ none) ⊎ (find j c'.lru ≡ find j c.lru)

  pub Shrinks-refl : (c : Cache P) → Shrinks c c
  Shrinks-refl c = record {
    same_budget = refl;
    same_epoch = refl;
    same_touched = refl;
    same_floors = refl;
    kept = λ j. inr refl;
  }

  pub Shrinks-trans : (a b c : Cache P) → Shrinks a b → Shrinks b c → Shrinks a c
  Shrinks-trans a b c p q = record {
    same_budget = q.same_budget ∙ p.same_budget;
    same_epoch = q.same_epoch ∙ p.same_epoch;
    same_touched = q.same_touched ∙ p.same_touched;
    same_floors = q.same_floors ∙ p.same_floors;
    kept = λ j. ground (arith, p.kept j, q.kept j);
  }

  remove_locked-Shrinks :
      (el : Element P) (c : Cache P)
      → find (key_of el) c.lru ≡ some el
      → Indexed c
      → Shrinks c (remove_locked el c)
  remove_locked-Shrinks el c h v =
      unfold remove_locked in
      record {
        same_budget = refl;
        same_epoch = refl;
        same_touched = refl;
        same_floors = refl;
        kept = λ j. ground (arith, find-remove_locked el c j h v);
      }

  pub record Evicted (c : Cache P) (r : Option (Cache P)) : Type 0 where
    pub result : Cache P
    pub returned : r ≡ some result
    pub indexed : Indexed result
    pub within : result.used ≤ result.budget
    pub shrinks : Shrinks c result

  stays : (c : Cache P) → Indexed c → c.used ≤ c.budget → Evicted c (some c)
  stays c v h = record {
    result = c;
    returned = refl;
    indexed = v;
    within = h;
    shrinks = Shrinks-refl c;
  }

  -- With one round for each element the loop never meets an empty list, and ends by its test.
  pub evict-Evicted :
      (fuel : ℕ) (c : Cache P) → length c.lru ≤ fuel → Indexed c → Evicted c (evict fuel c)
  unfolding evict
  evict-Evicted zero c h v =
      let e = total-empty c.lru h in
      let fits : leb c.used c.budget ≡ true = ground (arith, v.counted) in
      rw fits (stays c v (leb→le _ _ fits))
  evict-Evicted (suc fuel) c h v = elim (Bool-cases (leb c.used c.budget)) [
    | inl fits ↦ rw fits (stays c v (leb→le _ _ fits))
    | inr over ↦ rw over (elim (Option-cases (back c.lru)) [
      | inl e ↦ absurd (ground (arith, total-back-none c.lru e, v.counted))
      | inr (el, e) ↦
          let f = find-back c.lru el v.distinct e in
          let r =
            evict-Evicted fuel (remove_locked el c)
              (unfold remove_locked in omega (arith, length-remove (key_of el) c.lru el f))
              (remove_locked-Indexed el c f v) in
          rw e (record {
            result = r.result;
            returned = r.returned;
            indexed = r.indexed;
            within = r.within;
            shrinks = Shrinks-trans c _ _ (remove_locked-Shrinks el c f v) r.shrinks;
          })
    ])
  ]
