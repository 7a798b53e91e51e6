-- ===== src/HourCache/Put.antt =====
-- `get` and `put` of closed_hour_cache.go: they keep the invariant and the budget.
use tsflow.Prelude.{
  ℕ, ◌≤◌, String, ◌≡◌, refl, ◌∙◌, Option, some, arith, ◌⊎◌, false, Bool-cases, Option-cases, inl,
  inr, ltb, length, beq_refl, subst,
}
use tsflow.HourCache.Lru.{HourCacheKey, HourCacheKey_eq, HourEntry, Element, key_beq_iff, find}
use tsflow.HourCache.Elements.{find-key}
use tsflow.HourCache.State.{
  Cache, entry_key, get, touched_at, remove_locked, drop_present, push_front, evict, put,
}
use tsflow.HourCache.Index.{
  Indexed, counted_misses, to_front-Indexed, find-to_front, drop_present-Indexed, find-drop_present,
  push_front-Indexed,
}
use tsflow.HourCache.Evict.{Evicted, evict-Evicted}

module _ {P : Type 0} where
  pub record Valid (c : Cache P) : Type 0 where
    pub indexed : Indexed c
    pub within : c.used ≤ c.budget

  drop_present-used : (k : HourCacheKey) (c : Cache P) → (drop_present k c).used ≤ c.used
  unfolding drop_present remove_locked
  drop_present-used k c = ground arith

  pub drop_present-budget : (k : HourCacheKey) (c : Cache P) → (drop_present k c).budget ≡ c.budget
  unfolding drop_present remove_locked
  drop_present-budget k c = ground arith

  pub drop_present-Valid : (k : HourCacheKey) (c : Cache P) → Valid c → Valid (drop_present k c)
  drop_present-Valid k c v = record {
    indexed = drop_present-Indexed k c v.indexed;
    within = omega (arith, drop_present-used k c, drop_present-budget k c, v.within);
  }

  pub get-Valid :
      (c : Cache P) (tailnet : String) (hour : ℕ) → Valid c → Valid (get c tailnet hour).0
  unfolding get
  get-Valid c tailnet hour v =
      let k : HourCacheKey = record { tailnet = tailnet; hour = hour } in
      elim (Option-cases (find k c.lru)) [
        | inl e ↦
            rw (v.indexed.agree k ∙ e, get)
              (record { indexed = counted_misses c v.indexed; within = v.within })
        | inr (el, e) ↦
            rw (v.indexed.agree k ∙ e, get)
              (record {
                indexed = to_front-Indexed el c (rw (find-key k c.lru el e) e) v.indexed;
                within = v.within;
              })
      ]

  -- `get` changes the order of the list and the counters only.
  pub get_keeps :
      (c : Cache P) (tailnet : String) (hour : ℕ)
      → Valid c
      → ((j : HourCacheKey) → find j (get c tailnet hour).0.lru ≡ find j c.lru)
        × ((get c tailnet hour).0.epoch ≡ c.epoch)
        × ((get c tailnet hour).0.touched ≡ c.touched)
        × ((get c tailnet hour).0.floors ≡ c.floors)
  unfolding get
  get_keeps c tailnet hour v =
      let k : HourCacheKey = record { tailnet = tailnet; hour = hour } in
      elim (Option-cases (find k c.lru)) [
        | inl e ↦ rw (v.indexed.agree k ∙ e, get) (λ j. refl, refl, refl, refl)
        | inr (el, e) ↦
            rw (v.indexed.agree k ∙ e, get)
              (
                λ j. find-to_front el c j (rw (find-key k c.lru el e) e) v.indexed.distinct,
                refl,
                refl,
                refl,
              )
      ]

  -- What a reader finds in `c'` that it may not have found in `c` is `entry`, read late enough.
  pub record Stored (c : Cache P) (entry : HourEntry P) (read_epoch : ℕ) (c' : Cache P)
      : Type 0 where
    pub valid : Valid c'
    pub same_epoch : c'.epoch ≡ c.epoch
    pub same_touched : c'.touched ≡ c.touched
    pub same_floors : c'.floors ≡ c.floors
    pub held :
        (j : HourCacheKey) (el : Element P)
        → find j c'.lru ≡ some el
        → (find j c.lru ≡ some el) ⊎ ((el.value ≡ entry) × (touched_at c j ≤ read_epoch))

  refused : (c : Cache P) (entry : HourEntry P) (e : ℕ) → Valid c → Stored c entry e c
  refused c entry e v = record {
    valid = v;
    same_epoch = refl;
    same_touched = refl;
    same_floors = refl;
    held = λ j el h. inl h;
  }

  replace : HourEntry P → Cache P → Cache P
  replace entry c = push_front entry (drop_present (entry_key entry) c)

  replace-Indexed : (entry : HourEntry P) (c : Cache P) → Indexed c → Indexed (replace entry c)
  unfolding replace
  replace-Indexed entry c v =
      let k = entry_key entry in
      push_front-Indexed entry (drop_present k c) (find-drop_present k c k v ∙ rw (beq_refl k))
        (drop_present-Indexed k c v)

  find-replace :
      (entry : HourEntry P) (c : Cache P) (j : HourCacheKey) (el : Element P)
      → Indexed c
      → find j (replace entry c).lru ≡ some el
      → (find j c.lru ≡ some el) ⊎ ((el.value ≡ entry) × (entry_key entry ≡ j))
  unfolding replace push_front find
  find-replace entry c j el v h =
      ground (arith, find-drop_present (entry_key entry) c j v, key_beq_iff (entry_key entry) j)

  replace_keeps :
      (entry : HourEntry P) (c : Cache P)
      → ((replace entry c).epoch ≡ c.epoch)
        × ((replace entry c).touched ≡ c.touched)
        × ((replace entry c).floors ≡ c.floors)
  unfolding replace push_front drop_present remove_locked
  replace_keeps entry c = ground arith

  replaced :
      (c : Cache P) (entry : HourEntry P) (e : ℕ) (r : Option (Cache P))
      → touched_at c (entry_key entry) ≤ e
      → Indexed c
      → Evicted (replace entry c) r
      → (c' : Cache P) × (r ≡ some c') × Stored c entry e c'
  replaced c entry e r fresh v ev = (
    ev.result,
    ev.returned,
    record {
      valid = record { indexed = ev.indexed; within = ev.within };
      same_epoch = ev.shrinks.same_epoch ∙ (replace_keeps entry c).0;
      same_touched = ev.shrinks.same_touched ∙ (replace_keeps entry c).1;
      same_floors = ev.shrinks.same_floors ∙ (replace_keeps entry c).2;
      held = λ j el h. ground (
        arith,
        ev.shrinks.kept j,
        find-replace entry c j el v,
        λ (p : entry_key entry ≡ j). subst (λ (q : HourCacheKey). touched_at c q ≤ e) p fresh,
      );
    },
  )

  put_fresh :
      (c : Cache P) (entry : HourEntry P) (e : ℕ)
      → ltb c.budget entry.size ≡ false
      → ltb e (touched_at c (entry_key entry)) ≡ false
      → put c entry e ≡ evict (length (replace entry c).lru) (replace entry c)
  unfolding put replace
  put_fresh c entry e fits fresh = rw (fits, fresh)

  -- `put` never faults. It keeps the cache valid, and stores only what no later touch has outdated.
  pub put-Stored :
      (c : Cache P) (entry : HourEntry P) (read_epoch : ℕ)
      → Valid c
      → (c' : Cache P) × (put c entry read_epoch ≡ some c') × Stored c entry read_epoch c'
  unfolding put
  put-Stored c entry e v = elim (Bool-cases (ltb c.budget entry.size)) [
    | inl big ↦ rw big (c, refl, refused c entry e v)
    | inr fits ↦ elim (Bool-cases (ltb e (touched_at c (entry_key entry)))) [
      | inl old ↦ rw (fits, old) (c, refl, refused c entry e v)
      | inr fresh ↦ replaced c entry e (put c entry e) (ground arith) v.indexed (
          rw (put_fresh c entry e fits fresh)
            (evict-Evicted _ (replace entry c) (omega arith) (replace-Indexed entry c v.indexed)))
    ]
  ]
