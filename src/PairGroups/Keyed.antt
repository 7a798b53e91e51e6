-- ===== src/PairGroups/Keyed.antt =====
-- The index of protoSums and portSums of backend/internal/database/node_pair_read.go: an addition by it is one
-- by a scan.
use tsflow.Prelude.{
  ℕ, zero, suc, ◌+◌, ◌≡◌, refl, sym, ap, ◌∙◌, subst, inl, inr, Bool, true, false, List, [], ◌∷◌,
  ◌++◌, Option, none, some, arith, Eq, ◌==◌, ltb, String_eq, ℕ_eq, if◌then◌else◌, length,
  Bool-cases, Option-cases,
}
use tsflow.Prelude.Maps.{Map, lookup, insert, lookup-insert}
use tsflow.Prelude.Slots.{
  upsert_indexed, set_at, position, Agrees, one_further, found_none, at_position-Agrees,
  linear-append, linear-set_at, position-append, position-set_at,
}
use tsflow.PairGroups.Sums.{
  SumState, Entry, key_of, merge_entry, entry, KeyedSums, build_index, index_if_many, is_some,
  add_at, add_item, add_items, small_sums_limit,
}
use tsflow.PairGroups.Merged.{upsert, add_all}

abbrev shifted : ℕ → Option ℕ → Option ℕ → Option ℕ
shifted n none o = o
shifted n (some i) o = some (n + i)

from_start : (o : Option ℕ) → shifted 0 o none ≡ o
from_start none = refl
from_start (some i) = ground arith

shifted_one :
    (n : ℕ) (b : Bool) (o l : Option ℕ)
    → (b ≡ true → o ≡ none)
    → shifted (suc n) o (if b then some n else l)
      ≡ shifted n (if b then some 0 else one_further o) l
shifted_one n true none l h = ground arith
shifted_one n true (some i) l h = absurd (ground (arith, h refl))
shifted_one n false none l h = refl
shifted_one n false (some i) l h = ground arith

module _ {K : Type 0} ⦃e : Eq K⦄ where
  abbrev at : K → List (Entry K) → Option ℕ
  at k items = position key_of merge_entry k items

  abbrev pub DistinctKeys : List (Entry K) → Type 0
  DistinctKeys [] = Unit
  DistinctKeys (item ∷ items) = (at (key_of item) items ≡ none) × DistinctKeys items

  abbrev pub Indexed : List (Entry K) → Option (Map K ℕ) → Type 0
  Indexed items none = Unit
  Indexed items (some index) = Agrees key_of merge_entry items index

  pub record Keyed (s : KeyedSums K) : Type 0 where
    pub distinct : DistinctKeys s.items
    pub indexed : Indexed s.items s.index

  lookup-build_index :
      (k : K) (n : ℕ) (items : List (Entry K)) (index : Map K ℕ)
      → DistinctKeys items
      → lookup k (build_index n items index) ≡ shifted n (at k items) (lookup k index)
  unfolding build_index position
  lookup-build_index k n [] index d = refl
  lookup-build_index k n ((j, v) ∷ items) index (apart, d) =
      lookup-build_index k (suc n) items (insert j n index) d
      ∙ ap (shifted (suc n) (at k items)) (lookup-insert j k n index)
      ∙ shifted_one n (j == k) (at k items) (lookup k index)
          (λ h. subst (λ q. at q items ≡ none) ((e.beq_iff j k).0 h) apart)

  keeps : (row np : Entry K) → key_of (merge_entry row np) ≡ key_of row
  keeps (k, a) (j, b) = refl

  other :
      (a b : K) (n o : Option ℕ) → (a == b) ≡ false → o ≡ none → (if b == a then n else o) ≡ none
  other a b n o ne h =
      let ne' : (b == a) ≡ false = ground (arith, ne, e.beq_iff a b, e.beq_iff b a) in rw ne' h

  Distinct-append :
      (np : Entry K) (items : List (Entry K))
      → at (key_of np) items ≡ none
      → DistinctKeys items
      → DistinctKeys (items ++ np ∷ [])
  unfolding position
  Distinct-append np [] h d = (refl, tt)
  Distinct-append np (item ∷ items) h (apart, d) =
      let (ne, later) = found_none (key_of item == key_of np) (at (key_of np) items) h in
      (
        position-append key_of merge_entry (key_of item) np items later
            ∙ other (key_of item) (key_of np) (some (length items)) (at (key_of item) items) ne
                apart,
        Distinct-append np items later d,
      )

  Distinct-set_at :
      (i : ℕ) (np : Entry K) (items : List (Entry K))
      → DistinctKeys items
      → DistinctKeys (set_at key_of merge_entry i np items)
  unfolding set_at
  Distinct-set_at i np [] d = tt
  Distinct-set_at zero np (item ∷ items) (apart, d) =
      (ap (λ k. at k items) (keeps item np) ∙ apart, d)
  Distinct-set_at (suc i) np (item ∷ items) (apart, d) = (
    position-set_at key_of merge_entry keeps (key_of item) i np items ∙ apart,
    Distinct-set_at i np items d,
  )

  upsert-DistinctKeys :
      (x : Entry K) (items : List (Entry K)) → DistinctKeys items → DistinctKeys (upsert x items)
  upsert-DistinctKeys (k, v) items d = elim (Option-cases (at k items)) [
    | inl h ↦
        subst DistinctKeys (sym (linear-append key_of merge_entry (entry k v) items h))
          (Distinct-append (entry k v) items h d)
    | inr (i, h) ↦
        subst DistinctKeys (sym (linear-set_at key_of merge_entry (entry k v) items i h))
          (Distinct-set_at i (entry k v) items d)
  ]

  Indexed-if :
      (found : Bool) (items : List (Entry K))
      → DistinctKeys items
      → Indexed items (index_if_many found items)
  unfolding lookup
  Indexed-if found items d = elim (Bool-cases found) [
    | inl h ↦ rw h tt
    | inr h ↦ elim (Bool-cases (ltb small_sums_limit (length items))) [
      | inl l ↦ rw (h, l) (λ k. lookup-build_index k 0 items [] d ∙ from_start (at k items))
      | inr l ↦ rw (h, l) tt
    ]
  ]

  add_at-Keyed :
      (k : K) (v : SumState) (items : List (Entry K)) (index : Option (Map K ℕ))
      → DistinctKeys items
      → Indexed items index
      → ((add_at k v items index).items ≡ upsert (k, v) items) × Keyed (add_at k v items index)
  unfolding add_at upsert_indexed
  add_at-Keyed k v items none d i =
      let d' = upsert-DistinctKeys (k, v) items d in
      (
        refl,
        record {
          distinct = d';
          indexed = Indexed-if (is_some (at k items)) (upsert (k, v) items) d';
        },
      )
  add_at-Keyed k v items (some index) d i =
      let (same, after) =
        at_position-Agrees key_of merge_entry keeps (entry k v) items index (lookup k index) i
          (i k) in
      (
        same,
        record {
          distinct = subst DistinctKeys (sym same) (upsert-DistinctKeys (k, v) items d);
          indexed = after;
        },
      )

  pub add_items-Keyed :
      (xs : List (Entry K)) (s : KeyedSums K)
      → Keyed s
      → ((add_items xs s).items ≡ add_all xs s.items) × Keyed (add_items xs s)
  unfolding add_items add_all add_item
  add_items-Keyed [] s w = (refl, w)
  add_items-Keyed ((k, v) ∷ xs) s w =
      let (same, after) = add_at-Keyed k v s.items s.index w.distinct w.indexed in
      let (rest, done) = add_items-Keyed xs (add_at k v s.items s.index) after in
      (rest ∙ ap (add_all xs) same, done)
