-- ===== src/Ingest/Chosen.antt =====
-- What the first loop of `Poll` in backend/internal/services/object_store_source.go leaves: every listed
-- object is ingested, selected, or not before any object that was looked at.
use tsflow.Prelude.{
  ℕ, ◌≤◌, ◌≡◌, refl, subst, ◌⊎◌, inl, inr, Bool, true, false, List, [], ◌∷◌, ◌++◌, Option, none,
  some, arith, leb, String_eq, ℕ_eq, length, All, max,
}
use tsflow.Rolling.Cover.{Time}
use tsflow.Ingest.Source.{FlowObject, Outside}
use tsflow.Ingest.Select.{later, Selection, selected, select_failed, select}

abbrev pub In : FlowObject → List FlowObject → Type 0
In a [] = ⊥
In a (x ∷ xs) = (x ≡ a) ⊎ In a xs

pub All-In :
    (P : FlowObject → Type 0) (a : FlowObject) (xs : List FlowObject) → All P xs → In a xs → P a
All-In P a [] h m = absurd m
All-In P a (x ∷ xs) (h, hs) (inl e) = subst P e h
All-In P a (x ∷ xs) (h, hs) (inr m) = All-In P a xs hs m

In-append-left : (a : FlowObject) (xs ys : List FlowObject) → In a xs → In a (xs ++ ys)
In-append-left a [] ys m = absurd m
In-append-left a (x ∷ xs) ys (inl e) = inl e
In-append-left a (x ∷ xs) ys (inr m) = inr (In-append-left a xs ys m)

In-last : (a : FlowObject) (xs : List FlowObject) → In a (xs ++ a ∷ [])
In-last a [] = inl refl
In-last a (x ∷ xs) = inr (In-last a xs)

abbrev pub NotAfter : Time → FlowObject → Type 0
NotAfter t a = a.log_time ≤ t

All-snoc :
    (P : FlowObject → Type 0) (xs : List FlowObject) (a : FlowObject)
    → All P xs
    → P a
    → All P (xs ++ a ∷ [])
All-snoc P [] a h p = (p, tt)
All-snoc P (x ∷ xs) a (h, hs) p = (h, All-snoc P xs a hs p)

pub All-map :
    {P Q : FlowObject → Type 0} (xs : List FlowObject)
    → ((a : FlowObject) → P a → Q a)
    → All P xs
    → All Q xs
All-map [] f h = tt
All-map (x ∷ xs) f (h, hs) = (f x h, All-map xs f hs)

-- Oldest first
abbrev pub InOrder : List FlowObject → Type 0
InOrder [] = Unit
InOrder (a ∷ rest) = All (λ b. a.log_time ≤ b.log_time) rest × InOrder rest

module _ {W N : Type 0} (o : Outside W N) (max_objects : ℕ) (start : Time) (w : W) where
  abbrev pub Ingested : FlowObject → Type 0
  Ingested a = o.is_object_ingested a.key w ≡ some true

  -- No selected object is later, and neither is the time reached, unless it is the start.
  abbrev pub Behind : List FlowObject → Time → FlowObject → Type 0
  Behind chosen last a = (last ≤ max start a.log_time) × All (NotAfter a.log_time) chosen

  abbrev pub Accounted : List FlowObject → Time → FlowObject → Type 0
  Accounted chosen last a = Ingested a ⊎ (In a chosen ⊎ Behind chosen last a)

  abbrev Selects : List FlowObject → List FlowObject → Selection → Type 0
  Selects objects chosen (select_failed t) = Unit
  Selects objects chosen (selected sel t) =
      All (Accounted sel t) objects × ((a : FlowObject) → In a chosen → In a sel)

  add_first :
      (obj : FlowObject) (objects chosen chosen' : List FlowObject) (r : Selection)
      → ((sel : List FlowObject) (t : Time)
          → ((a : FlowObject) → In a chosen' → In a sel)
          → Accounted sel t obj)
      → ((a : FlowObject) → In a chosen → In a chosen')
      → Selects objects chosen' r
      → Selects (obj ∷ objects) chosen r
  add_first obj objects chosen chosen' (select_failed t) f incl h = tt
  add_first obj objects chosen chosen' (selected sel t) f incl (h, g) =
      ((f sel t g, h), λ a m. g a (incl a m))

  -- What comes after an object stays behind when the object is passed over, or is selected.
  passed :
      (obj : FlowObject) (chosen objects : List FlowObject) (last : Time)
      → All (λ b. obj.log_time ≤ b.log_time) objects
      → All (Behind chosen last) objects
      → All (Behind chosen (later last obj.log_time)) objects
  passed obj chosen [] last h hs = tt
  passed obj chosen (b ∷ objects) last (le, les) ((p, q), hs) =
      ((ground (arith, p, le), q), passed obj chosen objects last les hs)

  taken :
      (obj : FlowObject) (chosen objects : List FlowObject) (last : Time)
      → All (λ b. obj.log_time ≤ b.log_time) objects
      → All (Behind chosen last) objects
      → All (Behind (chosen ++ obj ∷ []) last) objects
  taken obj chosen [] last h hs = tt
  taken obj chosen (b ∷ objects) last (le, les) ((p, q), hs) =
      ((p, All-snoc (NotAfter b.log_time) chosen obj q le), taken obj chosen objects last les hs)

  -- One round, by what the guard answers and whether enough is selected
  by_answer :
      (obj : FlowObject) (objects chosen : List FlowObject) (last : Time) (r : Option Bool)
      (full : Bool)
      → o.is_object_ingested obj.key w ≡ r
      → All (Behind chosen last) (obj ∷ objects)
      → Selects objects chosen (select o max_objects objects chosen (later last obj.log_time) w)
      → Selects objects
          (chosen ++ obj ∷ [])
          (select o max_objects objects (chosen ++ obj ∷ []) last w)
      → Selects (obj ∷ objects) chosen (elim r as (λ _. Selection) [
        | none ↦ select_failed last
        | some true ↦ select o max_objects objects chosen (later last obj.log_time) w
        | some false ↦ elim full as (λ _. Selection) [
          | true ↦ selected chosen last
          | false ↦ select o max_objects objects (chosen ++ obj ∷ []) last w
        ]
      ])
  by_answer obj objects chosen last none full e h seen new = tt
  by_answer obj objects chosen last (some true) full e h seen new =
      add_first obj objects chosen chosen
        (select o max_objects objects chosen (later last obj.log_time) w) (λ sel t g. inl e)
        (λ a m. m) seen
  by_answer obj objects chosen last (some false) true e h seen new =
      (All-map (obj ∷ objects) (λ a p. inr (inr p)) h, λ a m. m)
  by_answer obj objects chosen last (some false) false e h seen new =
      add_first obj objects chosen (chosen ++ obj ∷ [])
        (select o max_objects objects (chosen ++ obj ∷ []) last w)
        (λ sel t g. inr (inl (g obj (In-last obj chosen))))
        (λ a m. In-append-left a chosen (obj ∷ []) m) new

  select-Selects :
      (objects chosen : List FlowObject) (last : Time)
      → InOrder objects
      → All (Behind chosen last) objects
      → Selects objects chosen (select o max_objects objects chosen last w)
  unfolding select
  select-Selects [] chosen last order h = (tt, λ a m. m)
  select-Selects (obj ∷ objects) chosen last (le, order) (b, h) =
      by_answer obj objects chosen last (o.is_object_ingested obj.key w)
        (leb max_objects (length chosen)) refl (b, h)
        (select-Selects objects chosen (later last obj.log_time) order
          (passed obj chosen objects last le h))
        (select-Selects objects (chosen ++ obj ∷ []) last order
          (taken obj chosen objects last le h))

  none_chosen : (objects : List FlowObject) → All (Behind [] start) objects
  none_chosen [] = tt
  none_chosen (a ∷ objects) = ((ground arith, tt), none_chosen objects)

  -- What the loop selects accounts for every object.
  pub select-Accounted :
      (objects sel : List FlowObject) (t : Time)
      → InOrder objects
      → select o max_objects objects [] start w ≡ selected sel t
      → All (Accounted sel t) objects
  select-Accounted objects sel t order e =
      (subst (Selects objects []) e (select-Selects objects [] start order (none_chosen objects))).0
