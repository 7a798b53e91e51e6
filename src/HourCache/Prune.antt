-- ===== src/HourCache/Prune.antt =====
-- `invalidateBelow` of closed_hour_cache.go: the hours below the floor go, and are marked at once.
use tsflow.Prelude.{
  ℕ, suc, ◌≤◌, ◌<◌, ◌^◌, String, ◌≡◌, refl, sym, ◌∙◌, ap, List, [], ◌∷◌, none, eq_iff, String_eq,
  ℕ_eq, arith, ◌&&◌, mem, Bool-cases, Option-cases, inl, inr, if◌then◌else◌,
}
use tsflow.Prelude.Maps.{lookup, insert, delete_if, keys, mem-keys, lookup-insert, lookup-delete_if}
use tsflow.HourCache.Lru.{HourCacheKey, HourCacheKey_eq, key_beq_iff, find}
use tsflow.HourCache.State.{
  Cache, PruneFloor, or_no_floor, touched_at, drop_present, drop_below, is_below, invalidate_below,
  next_epoch, raise_floor,
}
use tsflow.HourCache.Index.{find-drop_present}
use tsflow.HourCache.Put.{Valid, drop_present-Valid}
use tsflow.HourCache.Invalidate.{
  Stamped, Touches, Loop, Valid-marks, drop_present_keeps, next_epoch-suc,
}

module _ {P : Type 0} where
  drop_below-Loop :
      (tailnet : String) (below : ℕ) (ks : List HourCacheKey) (c : Cache P)
      → Valid c
      → Loop c (λ j. is_below tailnet below j && mem j ks) (drop_below tailnet below ks c)
  unfolding drop_below
  drop_below-Loop tailnet below [] c v = record {
    valid = v;
    same_epoch = refl;
    same_floors = refl;
    found = λ j. ground arith;
  }
  drop_below-Loop tailnet below (k ∷ ks) c v = elim (Bool-cases (is_below tailnet below k)) [
    | inr e ↦
        let r = drop_below-Loop tailnet below ks c v in
        rw e (record {
          valid = r.valid;
          same_epoch = r.same_epoch;
          same_floors = r.same_floors;
          found = λ j. ground (arith, r.found j, key_beq_iff k j, e);
        })
    | inl e ↦
        let r = drop_below-Loop tailnet below ks (drop_present k c) (drop_present-Valid k c v) in
        rw e (record {
          valid = r.valid;
          same_epoch = r.same_epoch ∙ (drop_present_keeps k c).0;
          same_floors = r.same_floors ∙ (drop_present_keeps k c).2;
          found =
              λ j. ground (arith, r.found j, find-drop_present k c j v.indexed, key_beq_iff k j, e);
        })
  ]

  touched-drop_below :
      (tailnet : String) (below : ℕ) (ks : List HourCacheKey) (c : Cache P)
      → (drop_below tailnet below ks c).touched ≡ c.touched
  unfolding drop_below
  touched-drop_below tailnet below [] c = refl
  touched-drop_below tailnet below (k ∷ ks) c = ground (
    arith,
    touched-drop_below tailnet below ks c,
    touched-drop_below tailnet below ks (drop_present k c),
    drop_present_keeps k c,
  )

  -- The floor that `invalidateBelow` leaves for its tailnet.
  abbrev pub new_floor : Cache P → String → ℕ → PruneFloor
  new_floor c tailnet below =
      raise_floor below (next_epoch c.epoch) (or_no_floor (lookup tailnet c.floors))

  below_left :
      (c : Cache P) (tailnet : String) (below : ℕ) (ks : List HourCacheKey) (j : HourCacheKey)
      → lookup j (delete_if (is_below tailnet below) (drop_below tailnet below ks c).touched)
        ≡ (if is_below tailnet below j then none else lookup j c.touched)
  below_left c tailnet below ks j = rw (lookup-delete_if, touched-drop_below)

  found_below :
      (tailnet : String) (below : ℕ) (j : HourCacheKey) (c : Cache P)
      → Valid c
      → (if is_below tailnet below j && mem j (keys c.entries) then none else find j c.lru)
        ≡ (if is_below tailnet below j then none else find j c.lru)
  found_below tailnet below j c v = elim (Option-cases (find j c.lru)) [
    | inl e ↦ rw e (ground arith)
    | inr (el, e) ↦ rw (mem-keys j el c.entries (v.indexed.agree j ∙ e)) (ground arith)
  ]

  marked_below :
      (c c' : Cache P) (tailnet : String) (f : PruneFloor) (j : HourCacheKey)
      → Stamped c
      → c'.floors ≡ insert tailnet f c.floors
      → lookup j c'.touched ≡ (if is_below tailnet f.below j then none else lookup j c.touched)
      → (or_no_floor (lookup tailnet c.floors)).below ≤ f.below
      → f.epoch ≡ suc c.epoch
      → touched_at c' j ≡ (if is_below tailnet f.below j then f.epoch else touched_at c j)
  unfolding touched_at
  marked_below c c' tailnet f j s fl t le e =
      rw (fl, lookup-insert, t)
        (ground (
          arith,
          eq_iff tailnet j.tailnet,
          eq_iff j.tailnet tailnet,
          s.by_hour j,
          s.by_floor j.tailnet,
        ))

  pub invalidate_below-Touches :
      (c : Cache P) (tailnet : String) (below : ℕ)
      → suc c.epoch < 2 ^ 64
      → Valid c
      → Stamped c
      → Touches c
          (is_below tailnet (new_floor c tailnet below).below)
          (invalidate_below tailnet below c)
  unfolding invalidate_below
  invalidate_below-Touches c tailnet below h v s =
      let f = new_floor c tailnet below in
      let c₁ : Cache P = record c {
        epoch = next_epoch c.epoch;
        floors = insert tailnet f c.floors;
      } in
      let v₁ : Valid c₁ = Valid-marks c c₁.epoch c.touched c₁.floors v in
      let e = next_epoch-suc c.epoch h in
      let r = drop_below-Loop tailnet f.below (keys c.entries) c₁ v₁ in
      let c₂ = drop_below tailnet f.below (keys c.entries) c₁ in
      let left = λ (j : HourCacheKey). below_left c₁ tailnet f.below (keys c.entries) j in
      record {
        valid =
            Valid-marks c₂ c₂.epoch (delete_if (is_below tailnet f.below) c₂.touched) c₂.floors
              r.valid;
        stamped = record {
          by_hour = λ k. rw (left k, r.same_epoch) (ground (arith, s.by_hour k, e));
          by_floor = λ q.
              rw (r.same_floors, lookup-insert, r.same_epoch) (ground (arith, s.by_floor q, e));
        };
        next = r.same_epoch ∙ e;
        found = λ j. r.found j ∙ found_below tailnet f.below j c v;
        marked = λ j.
            marked_below c (invalidate_below tailnet below c) tailnet f j s r.same_floors (left j)
              (ground arith) e
            ∙ ap (λ (q : ℕ). if is_below tailnet f.below j then q else touched_at c j)
                (sym r.same_epoch);
      }
