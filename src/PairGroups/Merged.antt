-- ===== src/PairGroups/Merged.antt =====
-- Merging keyed sums of backend/internal/database/node_pair_parallel.go: the items of another sum stand for
-- what was added to it.
use tsflow.Prelude.{
  ◌≡◌, refl, sym, ap, ◌∙◌, inl, inr, Bool, true, false, ◌||◌, List, [], ◌∷◌, none, some, arith, Eq,
  ◌==◌, String_eq, ℕ_eq, Bool-cases,
}
use tsflow.Prelude.Slots.{upsert_linear}
use tsflow.PairGroups.Sums.{SumState, add, Entry, key_of, merge_entry, entry}

add_twice : (v : SumState) → add none (add none v) ≡ add none v
add_twice none = refl
add_twice (some n) = ground arith

add_assoc :
    (a b c : SumState)
    → add a (add none (add b (add none c))) ≡ add (add a (add none b)) (add none c)
add_assoc a b none = refl
add_assoc none none (some n) = ground arith
add_assoc none (some m) (some n) = ground arith
add_assoc (some k) none (some n) = ground arith
add_assoc (some k) (some m) (some n) = ground arith

add_comm :
    (a b c : SumState)
    → add (add a (add none b)) (add none c) ≡ add (add a (add none c)) (add none b)
add_comm a none none = refl
add_comm a none (some n) = refl
add_comm a (some m) none = refl
add_comm none (some m) (some n) = ground arith
add_comm (some k) (some m) (some n) = ground arith

module _ {K : Type 0} ⦃e : Eq K⦄ where
  abbrev pub upsert : Entry K → List (Entry K) → List (Entry K)
  upsert (k, v) items = upsert_linear key_of merge_entry (entry k v) items

  -- By scans alone
  unfoldable pub add_all : List (Entry K) → List (Entry K) → List (Entry K)
  add_all [] items = items
  add_all (x ∷ xs) items = add_all xs (upsert x items)

  abbrev has_key : K → List (Entry K) → Bool
  has_key k [] = false
  has_key k (item ∷ items) = (key_of item == k) || has_key k items

  has_key-upsert :
      (k : K) (y : Entry K) (items : List (Entry K))
      → (has_key k items || (key_of y == k)) ≡ true
      → has_key k (upsert y items) ≡ true
  unfolding upsert_linear
  has_key-upsert k (i, z) [] h = ground (arith, h)
  has_key-upsert k (i, z) ((a, b) ∷ items) h =
      ground (arith, h, e.beq_iff a i, e.beq_iff a k, e.beq_iff i k, has_key-upsert k (i, z) items)

  -- Two additions in either order, when the first key is there
  upsert_swap :
      (x y : Entry K) (u : List (Entry K))
      → has_key (key_of x) u ≡ true
      → upsert x (upsert y u) ≡ upsert y (upsert x u)
  unfolding upsert_linear
  upsert_swap (k, v) (i, z) [] h = absurd (ground (arith, h))
  upsert_swap (k, v) (i, z) ((a, b) ∷ u) h = elim (Bool-cases (a == k)) [
    | inl p ↦ elim (Bool-cases (a == i)) [
      | inl q ↦ rw (p, q) (rw p (ap (λ s. (a, s) ∷ u) (add_comm b z v)))
      | inr q ↦ rw (p, q) (rw p refl)
    ]
    | inr p ↦ elim (Bool-cases (a == i)) [
      | inl q ↦ rw (p, q) (rw p refl)
      | inr q ↦
          rw (p, q)
            (rw p (ap (λ xs. (a, b) ∷ xs) (upsert_swap (k, v) (i, z) u (ground (arith, h, p)))))
    ]
  ]

  -- Two additions to one key are one.
  upsert_join :
      (k j : K) (v w : SumState) (items : List (Entry K))
      → (j == k) ≡ true
      → upsert (j, add w (add none v)) items ≡ upsert (k, v) (upsert (j, w) items)
  unfolding upsert_linear
  upsert_join k j v w [] h = rw h (
      ap (λ s. (j, s) ∷ [])
        (sym (add_twice (add w (add none v)))
          ∙ add_assoc none w v
          ∙ ap (λ x. add x (add none v)) (add_twice w)))
  upsert_join k j v w ((a, b) ∷ items) h = elim (Bool-cases (a == j)) [
    | inl p ↦ rw (p, (e.beq_iff a j).0 p) (rw h (ap (λ s. (j, s) ∷ items) (add_assoc b w v)))
    | inr p ↦
        let apart : (a == k) ≡ false =
          ground (arith, p, e.beq_iff a j, e.beq_iff j k, e.beq_iff a k, h) in
        rw p (rw apart (ap (λ xs. (a, b) ∷ xs) (upsert_join k j v w items h)))
  ]

  -- An addition to a key that is there may come first.
  upsert-add_all :
      (x : Entry K) (t u : List (Entry K))
      → has_key (key_of x) u ≡ true
      → upsert x (add_all t u) ≡ add_all t (upsert x u)
  unfolding add_all
  upsert-add_all x [] u h = refl
  upsert-add_all x (y ∷ t) u h =
      upsert-add_all x t (upsert y u) (has_key-upsert (key_of x) y u (ground (arith, h)))
      ∙ ap (add_all t) (upsert_swap x y u h)

  add_all-upsert :
      (x : Entry K) (t s : List (Entry K)) → add_all (upsert x t) s ≡ upsert x (add_all t s)
  unfolding add_all upsert_linear
  add_all-upsert (k, v) [] s = ap (λ w. upsert_linear key_of merge_entry (k, w) s) (add_twice v)
  add_all-upsert (k, v) ((j, w) ∷ t) s = elim (Bool-cases (j == k)) [
    | inl h ↦ rw h (
        ap (add_all t) (upsert_join k j v w s h)
        ∙ sym (
            upsert-add_all (k, v) t (upsert (j, w) s)
              (has_key-upsert k (j, w) s (ground (arith, h)))))
    | inr h ↦ rw h (add_all-upsert (k, v) t (upsert (j, w) s))
  ]

  -- Adding the sums of some items is adding the items.
  pub add_all-add_all :
      (xs t s : List (Entry K)) → add_all (add_all xs t) s ≡ add_all xs (add_all t s)
  unfolding add_all
  add_all-add_all [] t s = refl
  add_all-add_all (x ∷ xs) t s =
      add_all-add_all xs (upsert x t) s ∙ ap (add_all xs) (add_all-upsert x t s)
