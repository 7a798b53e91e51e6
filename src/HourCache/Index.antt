-- ===== src/HourCache/Index.antt =====
-- The invariant of the cache in closed_hour_cache.go: its map and its list hold the same elements
-- and `used` is their size. Removing and adding one element keep it.
use tsflow.Prelude.{
  ℕ, ◌+◌, ◌≤◌, ◌∷◌, beq_refl, Bool-cases, ◌≡◌, refl, sym, ◌∙◌, ap, none, some, arith, ◌==◌,
  Option-cases, inl, inr, if◌then◌else◌,
}
use tsflow.Prelude.Maps.{lookup, lookup-delete, lookup-insert}
use tsflow.HourCache.Lru.{
  HourCacheKey, HourCacheKey_eq, HourEntry, Element, key_of, key_beq_iff, remove, find, find_id,
  Distinct, total,
}
use tsflow.HourCache.Elements.{
  find-key, find-remove, find_id-remove-none, find_id-remove_self, find_id-ne-none, remove-Distinct,
  total-remove,
}
use tsflow.HourCache.State.{Cache, entry_key, remove_locked, drop_present, push_front}

module _ {P : Type 0} where
  pub record Indexed (c : Cache P) : Type 0 where
    pub distinct : Distinct c.lru
    pub agree : (k : HourCacheKey) → lookup k c.entries ≡ find k c.lru
    pub counted : c.used ≡ total c.lru
    pub unused : (i : ℕ) → c.next_id ≤ i → find_id i c.lru ≡ none

  pub remove_locked-Indexed :
      (el : Element P) (c : Cache P)
      → find (key_of el) c.lru ≡ some el
      → Indexed c
      → Indexed (remove_locked el c)
  unfolding remove_locked
  remove_locked-Indexed el c h v = record {
    distinct = remove-Distinct el.id c.lru v.distinct;
    agree = λ k.
        rw (lookup-delete (key_of el) k c.entries, v.agree k)
          (sym (find-remove (key_of el) k c.lru el v.distinct h));
    counted = omega (arith, total-remove (key_of el) c.lru el v.distinct h, v.counted);
    unused = λ i le. find_id-remove-none i el.id c.lru (v.unused i le);
  }

  pub find-remove_locked :
      (el : Element P) (c : Cache P) (j : HourCacheKey)
      → find (key_of el) c.lru ≡ some el
      → Indexed c
      → find j (remove_locked el c).lru ≡ (if key_of el == j then none else find j c.lru)
  unfolding remove_locked
  find-remove_locked el c j h v = find-remove (key_of el) j c.lru el v.distinct h

  pub drop_present-Indexed :
      (k : HourCacheKey) (c : Cache P) → Indexed c → Indexed (drop_present k c)
  unfolding drop_present
  drop_present-Indexed k c v = elim (Option-cases (find k c.lru)) [
    | inl e ↦ rw (v.agree k ∙ e, drop_present) v
    | inr (el, e) ↦
        rw (v.agree k ∙ e, drop_present)
          (remove_locked-Indexed el c (rw (find-key k c.lru el e) e) v)
  ]

  pub find-drop_present :
      (k : HourCacheKey) (c : Cache P) (j : HourCacheKey)
      → Indexed c
      → find j (drop_present k c).lru ≡ (if k == j then none else find j c.lru)
  unfolding drop_present
  find-drop_present k c j v = elim (Option-cases (find k c.lru)) [
    | inl e ↦ rw (v.agree k ∙ e, drop_present) (ground (arith, key_beq_iff k j))
    | inr (el, e) ↦
        rw (v.agree k ∙ e, drop_present)
          (find-remove_locked el c j (rw (find-key k c.lru el e) e) v
            ∙ ap (λ (q : HourCacheKey). if q == j then none else find j c.lru)
                (find-key k c.lru el e))
  ]

  pub push_front-Indexed :
      (entry : HourEntry P) (c : Cache P)
      → find (entry_key entry) c.lru ≡ none
      → Indexed c
      → Indexed (push_front entry c)
  unfolding push_front
  push_front-Indexed entry c h v = record {
    distinct = (h, v.unused c.next_id (omega arith), v.distinct);
    agree = λ k. rw (lookup-insert, v.agree k) (unfold find in refl);
    counted = unfold total in omega (arith, v.counted);
    unused = λ i le. unfold find_id in ground (arith, v.unused i);
  }

  -- the `misses` that a `get` counts are no part of the invariant
  pub counted_misses : (c : Cache P) → Indexed c → Indexed (record c { misses = c.misses + 1 })
  counted_misses c v = record {
    distinct = v.distinct;
    agree = v.agree;
    counted = v.counted;
    unused = v.unused;
  }

  pub find-to_front :
      (el : Element P) (c : Cache P) (j : HourCacheKey)
      → find (key_of el) c.lru ≡ some el
      → Distinct c.lru
      → find j (el ∷ remove el.id c.lru) ≡ find j c.lru
  unfolding find
  find-to_front el c j h d = elim (Bool-cases (key_of el == j)) [
    | inl e ↦ rw e (sym (rw (← (key_beq_iff (key_of el) j).0 e) h))
    | inr e ↦ rw e (find-remove (key_of el) j c.lru el d h ∙ rw e)
  ]

  pub to_front-Indexed :
      (el : Element P) (c : Cache P)
      → find (key_of el) c.lru ≡ some el
      → Indexed c
      → Indexed (record c { hits = c.hits + 1; lru = el ∷ remove el.id c.lru })
  to_front-Indexed el c h v = record {
    distinct = (
      find-remove (key_of el) (key_of el) c.lru el v.distinct h ∙ rw (beq_refl (key_of el)),
      find_id-remove_self (key_of el) c.lru el v.distinct h,
      remove-Distinct el.id c.lru v.distinct,
    );
    agree = λ j. v.agree j ∙ sym (find-to_front el c j h v.distinct);
    counted =
        unfold total in omega (arith, total-remove (key_of el) c.lru el v.distinct h, v.counted);
    unused = λ i le.
        unfold find_id in
        ground (
          arith,
          v.unused i,
          find_id-ne-none (key_of el) c.lru el h,
          find_id-remove-none i el.id c.lru,
        );
  }
