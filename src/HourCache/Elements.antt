-- ===== src/HourCache/Elements.antt =====
-- Removing one element of the list in closed_hour_cache.go: what is left, and what it held.
use tsflow.Prelude.{
  ℕ, ◌+◌, ◌≤◌, ◌≡◌, refl, ◌≢◌, List, [], ◌∷◌, none, some, arith, ◌==◌, length, if◌then◌else◌,
}
use tsflow.HourCache.Lru.{
  HourCacheKey, HourCacheKey_eq, Element, key_of, key_beq_iff, remove, back, find, find_id,
  Distinct, total,
}

module _ {P : Type 0} where
  pub find-key :
      (k : HourCacheKey) (l : List (Element P)) (el : Element P)
      → find k l ≡ some el
      → key_of el ≡ k
  unfolding find
  find-key k [] el h = cc
  find-key k (x ∷ xs) el h = ground (arith, key_beq_iff (key_of x) k, find-key k xs el)

  pub find_id-ne-none :
      (k : HourCacheKey) (l : List (Element P)) (el : Element P)
      → find k l ≡ some el
      → find_id el.id l ≢ none
  unfolding find find_id
  find_id-ne-none k [] el h = cc
  find_id-ne-none k (x ∷ xs) el h = ground (arith, find_id-ne-none k xs el)

  find-remove-none :
      (k : HourCacheKey) (i : ℕ) (l : List (Element P))
      → find k l ≡ none
      → find k (remove i l) ≡ none
  unfolding find remove
  find-remove-none k i [] h = refl
  find-remove-none k i (x ∷ xs) h = ground (arith, find-remove-none k i xs)

  pub find_id-remove-none :
      (j i : ℕ) (l : List (Element P)) → find_id j l ≡ none → find_id j (remove i l) ≡ none
  unfolding find_id remove
  find_id-remove-none j i [] h = refl
  find_id-remove-none j i (x ∷ xs) h = ground (arith, find_id-remove-none j i xs)

  pub remove-Distinct : (i : ℕ) (l : List (Element P)) → Distinct l → Distinct (remove i l)
  unfolding remove
  remove-Distinct i [] d = tt
  remove-Distinct i (x ∷ xs) d =
      ground (
        arith,
        find-remove-none (key_of x) i xs,
        find_id-remove-none x.id i xs,
        remove-Distinct i xs,
      )

  pub find-remove :
      (k j : HourCacheKey) (l : List (Element P)) (el : Element P)
      → Distinct l
      → find k l ≡ some el
      → find j (remove el.id l) ≡ (if k == j then none else find j l)
  unfolding find remove
  find-remove k j [] el d h = cc
  find-remove k j (x ∷ xs) el d h = ground (
    arith,
    key_beq_iff (key_of x) k,
    key_beq_iff (key_of x) j,
    key_beq_iff k j,
    find_id-ne-none k xs el,
    find-remove k j xs el,
  )

  pub total-remove :
      (k : HourCacheKey) (l : List (Element P)) (el : Element P)
      → Distinct l
      → find k l ≡ some el
      → total (remove el.id l) + el.value.size ≡ total l
  unfolding find remove total
  total-remove k [] el d h = cc
  total-remove k (x ∷ xs) el d h =
      ground (arith, key_beq_iff (key_of x) k, find_id-ne-none k xs el, total-remove k xs el)

  pub find-back :
      (l : List (Element P)) (el : Element P)
      → Distinct l
      → back l ≡ some el
      → find (key_of el) l ≡ some el
  unfolding find back
  find-back [] el d h = cc
  find-back (x ∷ []) el d h = ground (arith, key_beq_iff (key_of x) (key_of el))
  find-back (x ∷ y ∷ ys) el d h =
      ground (arith, key_beq_iff (key_of x) (key_of el), find-back (y ∷ ys) el)

  pub total-back-none : (l : List (Element P)) → back l ≡ none → total l ≡ 0
  unfolding back total
  total-back-none [] h = refl
  total-back-none (x ∷ []) h = cc
  total-back-none (x ∷ y ∷ ys) h = absurd (nonempty y ys h)
    where
      nonempty : (y : Element P) (ys : List (Element P)) → back (y ∷ ys) ≡ none → ⊥
      nonempty y [] h = cc
      nonempty y (z ∷ zs) h = nonempty z zs h

  pub length-remove :
      (k : HourCacheKey) (l : List (Element P)) (el : Element P)
      → find k l ≡ some el
      → length (remove el.id l) + 1 ≡ length l
  unfolding find remove
  length-remove k [] el h = cc
  length-remove k (x ∷ xs) el h = ground (arith, length-remove k xs el)

  pub total-empty : (l : List (Element P)) → length l ≤ 0 → total l ≡ 0
  unfolding total
  total-empty [] h = refl
  total-empty (x ∷ xs) h = absurd (omega arith)

  pub find_id-remove_self :
      (k : HourCacheKey) (l : List (Element P)) (el : Element P)
      → Distinct l
      → find k l ≡ some el
      → find_id el.id (remove el.id l) ≡ none
  unfolding find find_id remove
  find_id-remove_self k [] el d h = cc
  find_id-remove_self k (x ∷ xs) el d h =
      ground (arith, find_id-remove_self k xs el, find_id-ne-none k xs el)
