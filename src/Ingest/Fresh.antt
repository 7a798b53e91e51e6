-- ===== src/Ingest/Fresh.antt =====
-- The selected objects of `Poll` in backend/internal/services/object_store_source.go are new, and not too
-- many.
use tsflow.Prelude.Lists.{length-append}
use tsflow.Prelude.{
  ℕ, ◌≤◌, ◌≡◌, refl, Bool, true, false, List, [], ◌∷◌, ◌++◌, Option, none, some, arith, leb,
  String_eq, ℕ_eq, length, All,
}
use tsflow.Rolling.Cover.{Time}
use tsflow.Ingest.Source.{FlowObject, Outside}
use tsflow.Ingest.Select.{Selection, selected, select_failed, later, select}

module _ {W N : Type 0} (o : Outside W N) (max_objects : ℕ) (w : W) where
  abbrev pub New : FlowObject → Type 0
  New a = o.is_object_ingested a.key w ≡ some false

  abbrev pub Bounded : Selection → Type 0
  Bounded (select_failed t) = Unit
  Bounded (selected sel t) = (length sel ≤ max_objects) × All New sel

  New-snoc :
      (chosen : List FlowObject) (a : FlowObject)
      → All New chosen
      → New a
      → All New (chosen ++ a ∷ [])
  New-snoc [] a h n = (n, tt)
  New-snoc (x ∷ chosen) a (h, hs) n = (h, New-snoc chosen a hs n)

  by_answer :
      (a : FlowObject) (objects chosen : List FlowObject) (last : Time) (r : Option Bool)
      (full : Bool)
      → o.is_object_ingested a.key w ≡ r
      → leb max_objects (length chosen) ≡ full
      → length chosen ≤ max_objects
      → All New chosen
      → ((xs : List FlowObject) (t : Time)
          → length xs ≤ max_objects
          → All New xs
          → Bounded (select o max_objects objects xs t w))
      → Bounded (elim r as (λ _. Selection) [
        | none ↦ select_failed last
        | some true ↦ select o max_objects objects chosen (later last a.log_time) w
        | some false ↦ elim full as (λ _. Selection) [
          | true ↦ selected chosen last
          | false ↦ select o max_objects objects (chosen ++ a ∷ []) last w
        ]
      ])
  by_answer a objects chosen last none full e f le h rest = tt
  by_answer a objects chosen last (some true) full e f le h rest =
      rest chosen (later last a.log_time) le h
  by_answer a objects chosen last (some false) true e f le h rest = (le, h)
  by_answer a objects chosen last (some false) false e f le h rest =
      rest (chosen ++ a ∷ []) last (ground (arith, length-append chosen (a ∷ []), f))
        (New-snoc chosen a h e)

  select-Bounded' :
      (objects chosen : List FlowObject) (last : Time)
      → length chosen ≤ max_objects
      → All New chosen
      → Bounded (select o max_objects objects chosen last w)
  unfolding select
  select-Bounded' [] chosen last le h = (le, h)
  select-Bounded' (a ∷ objects) chosen last le h =
      by_answer a objects chosen last (o.is_object_ingested a.key w)
        (leb max_objects (length chosen)) refl refl le h (select-Bounded' objects)

  -- A poll reads at most the configured number of objects, and none that is ingested.
  pub select-Bounded :
      (objects : List FlowObject) (last : Time) → Bounded (select o max_objects objects [] last w)
  select-Bounded objects last = select-Bounded' objects [] last (omega arith) tt
