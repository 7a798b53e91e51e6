-- ===== src/Ingest/Cursor.antt =====
-- The time that `Poll` of backend/internal/services/object_store_source.go returns passes no object of the
-- window that is not ingested.
use tsflow.Prelude.{
  ℕ, ◌-◌, ◌≤◌, ◌<◌, String, ◌≡◌, refl, sym, ap, subst, inl, inr, Bool, true, false, List, [], ◌∷◌,
  Option, none, some, arith, String_eq, ℕ_eq, All, max,
}
use tsflow.Prelude.TextOrder.{before_str_asym}
use tsflow.Prelude.Sort.{sort, Ordered, sort-Ordered}
use tsflow.Rolling.Cover.{Time}
use tsflow.Aggregate.Rows.{Aggregates}
use tsflow.Ingest.Source.{
  FlowObject, ReadError, ReadResult, read, unreadable, Outside, Lawful, Ingest, ObjectStoreConfig,
}
use tsflow.Ingest.List.{before_object, list_prefixes, list_objects}
use tsflow.Ingest.Select.{Selection, selected, select_failed, select}
use tsflow.Ingest.Process.{
  PollFailure, read_failed, Progress, Round, go_on, stop, given_up, after_failure, after_commit,
  after_read, process_object, process,
}
use tsflow.Ingest.Poll.{
  PollResult, held_back, at_first, result_of, ingest_selected, ingest, hydrate_missing_metadata,
  poll_objects,
}
use tsflow.Ingest.Chosen.{All-In, All-map, NotAfter, InOrder, Accounted, select-Accounted}
use tsflow.Ingest.Covered.{BlockedBy, Covered, Finishes, process-Finishes}

-- Nothing but an object that cannot be read went wrong.
abbrev pub Whole : Option PollFailure → Type 0
Whole none = Unit
Whole (some (read_failed key e)) = Unit
Whole (some e) = ⊥

abbrev pub Stops : {W : Type 0} → Round W → Type 0
Stops (go_on s) = Unit
Stops (stop s e) = ¬ (Whole (some e))

before_object_asym : (a b : FlowObject) → before_object a b ≡ true → before_object b a ≡ false
unfolding before_object
before_object_asym a b h = ground (arith, h, before_str_asym a.key b.key)

before_object-le : (a b : FlowObject) → before_object b a ≡ false → a.log_time ≤ b.log_time
unfolding before_object
before_object-le a b h = ground (arith, h)

All-later :
    (t : Time) (a : FlowObject) (xs : List FlowObject)
    → t ≤ a.log_time
    → All (λ b. a.log_time ≤ b.log_time) xs
    → All (λ b. t ≤ b.log_time) xs
All-later t a [] le h = tt
All-later t a (x ∷ xs) le (h, hs) = (omega (arith, le, h), All-later t a xs le hs)

Ordered-InOrder : (xs : List FlowObject) → Ordered before_object xs → InOrder xs
Ordered-InOrder [] h = tt
Ordered-InOrder (x ∷ []) h = (tt, tt)
Ordered-InOrder (x ∷ y ∷ ys) (h, hs) =
    let rest = Ordered-InOrder (y ∷ ys) hs in
    let le = before_object-le x y h in ((le, All-later x.log_time y ys le rest.0), rest)

or_empty : Option (List FlowObject) → List FlowObject
or_empty none = []
or_empty (some xs) = xs

sorted-InOrder :
    (r : Option (List FlowObject)) (objects : List FlowObject)
    → (elim r as (λ _. Option (List FlowObject)) [
      | none ↦ none
      | some found ↦ some (sort before_object found)
    ])
      ≡ some objects
    → InOrder objects
unfolding or_empty
sorted-InOrder none objects h = absurd (ground (arith, h))
sorted-InOrder (some found) objects h = subst InOrder (ap or_empty h) (
    Ordered-InOrder (sort before_object found)
      (sort-Ordered before_object before_object_asym found))

or_else : Time → Option Time → Time
or_else t none = t
or_else t (some u) = u

-- What holds the cursor back is not before it.
not_blocked : (b : Option Time) (last t : Time) → BlockedBy b t → t < held_back b last → ⊥
not_blocked none last t h lt = h
not_blocked (some b) last t h lt = ground (arith, h, lt)

reached :
    (start : Time) (b : Option Time) (last t : Time)
    → last ≤ max start t
    → start < held_back b last
    → t < held_back b last
    → ⊥
reached start none last t le lo hi = ground (arith, le, lo, hi)
reached start (some b) last t le lo hi = ground (arith, le, lo, hi)

All-before :
    (start t : Time) (xs : List FlowObject)
    → All (NotAfter t) xs
    → All (λ a. a.log_time ≤ max start t) xs
All-before start t [] h = tt
All-before start t (x ∷ xs) (h, hs) = (ground (arith, h), All-before start t xs hs)

module _ {W N : Type 0} (o : Outside W N) where
  list_objects-InOrder :
      (days : Time → Time → List String) (time : String → Option Time) (start end : Time) (w : W)
      (objects : List FlowObject)
      → list_objects o days time start end w ≡ some objects
      → InOrder objects
  unfolding list_objects
  list_objects-InOrder days time start end w objects e =
      sorted-InOrder (list_prefixes o days time start end (days start end) w) objects e

  after_failure-Stops :
      (a : FlowObject) (e : ReadError) (s : Progress W) → Stops (after_failure o a e s)
  unfolding after_failure given_up
  after_failure-Stops a e s = ground arith

  after_commit-Stops :
      (a : FlowObject) (n : ℕ) (g : Aggregates) (s : Progress W) (p : W × Bool)
      → Stops (after_commit o a n g s p)
  unfolding after_commit
  after_commit-Stops a n g s (w, false) = λ h. h
  after_commit-Stops a n g s (w, true) = tt

  after_read-Stops :
      (a : FlowObject) (s : Progress W) (p : W × ReadResult N) → Stops (after_read o a s p)
  unfolding after_read
  after_read-Stops a s (w, unreadable e) =
      after_failure-Stops a e (record s { state = record s.state { world = w } })
  after_read-Stops a s (w, read flows nodes) = after_commit-Stops a _ _ _ _

  next-Stops :
      (objects : List FlowObject) (r : Round W)
      → Stops r
      → ((t : Progress W) → Stops (process o objects t))
      → Stops (elim r as (λ _. Round W) [ stop t e ↦ stop t e | go_on t ↦ process o objects t ])
  next-Stops objects (stop t e) h rest = h
  next-Stops objects (go_on t) h rest = rest t

  process-Stops : (objects : List FlowObject) (s : Progress W) → Stops (process o objects s)
  unfolding process process_object
  process-Stops [] s = tt
  process-Stops (a ∷ objects) s =
      next-Stops objects (process_object o a s)
        (after_read-Stops a s (o.read_flow_logs a.key s.state.world)) (process-Stops objects)

  -- Everything before the time `c` is ingested, when `c` is after the start.
  abbrev pub NoGap : Time → List FlowObject → PollResult W → Type 0
  NoGap start objects r =
      Whole r.error
      → (c : Time) → r.last_processed ≡ some c
      → start < c
      → All (λ a. a.log_time < c → o.is_object_ingested a.key r.state.world ≡ some true) objects

  module _ (l : Lawful o) where
    behind_cursor :
        (start u : Time) (s : Ingest W) (sel : List FlowObject) (t : Progress W) (a : FlowObject)
        → Finishes o l sel (at_first s u) (go_on t)
        → Accounted o 0 start s.world sel u a
        → start < held_back t.blocked_at t.last
        → a.log_time < held_back t.blocked_at t.last
        → o.is_object_ingested a.key t.state.world ≡ some true
    behind_cursor start u s sel t a (g, covered, bound) (inl i) lo hi = g.ingested a.key i
    behind_cursor start u s sel t a (g, covered, bound) (inr (inl m)) lo hi =
        elim (All-In (Covered o t) a sel covered m) [
          | inl i ↦ i
          | inr b ↦ absurd (not_blocked t.blocked_at t.last a.log_time b hi)
        ]
    behind_cursor start u s sel t a (g, covered, bound) (inr (inr (le, all))) lo hi = absurd (
        reached start t.blocked_at t.last a.log_time
          (bound (max start a.log_time) le (All-before start a.log_time sel all)) lo hi)

    selected-NoGap :
        (start : Time) (s : Ingest W) (objects sel : List FlowObject) (u : Time) (r : Round W)
        → All (Accounted o 0 start s.world sel u) objects
        → Finishes o l sel (at_first s u) r
        → Stops r
        → NoGap start objects (result_of o r)
    unfolding result_of or_else
    selected-NoGap start s objects sel u (stop t e) acc f stops whole c eq lt = absurd (stops whole)
    selected-NoGap start s objects sel u (go_on t) acc f stops whole c eq lt =
        All-map objects
          (λ a h before.
            behind_cursor start u s sel t a f h (omega (arith, lt, reach))
              (omega (arith, before, reach)))
          acc
      where
        reach : held_back t.blocked_at t.last ≡ c
        reach = ap (or_else 0) eq

    by_selection :
        (start : Time) (s : Ingest W) (objects : List FlowObject) (r : Selection)
        → ((sel : List FlowObject) (u : Time)
            → r ≡ selected sel u
            → All (Accounted o 0 start s.world sel u) objects)
        → NoGap start objects (ingest_selected o s r)
    unfolding ingest_selected
    by_selection start s objects (select_failed u) f = λ whole c eq lt. absurd whole
    by_selection start s objects (selected sel u) f =
        selected-NoGap start s objects sel u (process o sel (at_first s u)) (f sel u refl)
          (process-Finishes o l sel (at_first s u)) (process-Stops sel (at_first s u))

    ingest-NoGap :
        (max_objects : ℕ) (start end : Time) (s : Ingest W) (objects : List FlowObject)
        → InOrder objects
        → NoGap start objects (ingest o max_objects start end s (some objects))
    unfolding ingest
    ingest-NoGap max_objects start end s [] order = λ whole c eq lt. tt
    ingest-NoGap max_objects start end s (a ∷ objects) order =
        by_selection start s (a ∷ objects) (select o max_objects (a ∷ objects) [] start s.world)
          (λ sel u e. select-Accounted o max_objects start s.world (a ∷ objects) sel u order e)

    -- With a lawful guard, the time that a poll returns passes no listed object that is not ingested: when
    -- nothing failed but reads of objects, and the time is after the start, each listed object before it is
    -- ingested.
    pub poll_objects-NoGap :
        (days : Time → Time → List String) (time : String → Option Time) (c : ObjectStoreConfig)
        (start end : Time) (s : Ingest W) (objects : List FlowObject)
        → list_objects o days time
            (start - c.lookback)
            end
            (hydrate_missing_metadata o c.max_objects s.world)
          ≡ some objects
        → NoGap start objects (poll_objects o days time c start end s)
    unfolding poll_objects
    poll_objects-NoGap days time c start end s objects e =
        subst (λ r. NoGap start objects (ingest o c.max_objects start end s' r)) (sym e)
          (ingest-NoGap c.max_objects start end s' objects
            (list_objects-InOrder days time (start - c.lookback) end s'.world objects e))
      where
        s' : Ingest W
        s' = record s { world = hydrate_missing_metadata o c.max_objects s.world }
