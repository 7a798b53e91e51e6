-- ===== src/Ingest/Covered.antt =====
-- What the second loop of `Poll` in backend/internal/services/object_store_source.go leaves, if it runs to
-- its end: each selected object is ingested, or holds the cursor back.
use tsflow.Prelude.{
  ℕ, ◌≤◌, String, ◌≡◌, refl, sym, ap, ◌∙◌, subst, ◌⊎◌, inl, inr, Bool, true, false, ◌&&◌, List, [],
  ◌∷◌, Option, none, some, arith, ◌==◌, leb, eq_iff, String_eq, ℕ_eq, if◌then◌else◌, length, All,
  Bool-cases, max,
}
use tsflow.Prelude.Maps.{delete}
use tsflow.Aggregate.Rows.{Aggregates, aggregate}
use tsflow.Rolling.Cover.{Time}
use tsflow.Ingest.Source.{
  FlowObject, ReadError, permanent_read_error, ReadResult, read, unreadable, IngestResult, Outside,
  Lawful,
}
use tsflow.Ingest.Process.{
  Progress, Round, go_on, stop, max_object_read_attempts, attempts, earliest, skip, given_up,
  empty_result, counted, after_failure, after_commit, with_devices, after_read, process_object,
  process,
}

abbrev pub BlockedBy : Option Time → Time → Type 0
BlockedBy none t = ⊥
BlockedBy (some b) t = b ≤ t

module _ {W N : Type 0} (o : Outside W N) where
  abbrev pub Ingested : Progress W → String → Type 0
  Ingested s key = o.is_object_ingested key s.state.world ≡ some true

  abbrev pub Covered : Progress W → FlowObject → Type 0
  Covered s a = Ingested s a.key ⊎ BlockedBy s.blocked_at a.log_time

  -- Nothing that is ingested or holds the cursor back is forgotten.
  pub record Grows (s t : Progress W) : Type 0 where
    pub ingested : (key : String) → Ingested s key → Ingested t key
    pub blocked : (u : Time) → BlockedBy s.blocked_at u → BlockedBy t.blocked_at u

  pub Covered-Grows : (s t : Progress W) (a : FlowObject) → Grows s t → Covered s a → Covered t a
  Covered-Grows s t a g (inl h) = inl (g.ingested a.key h)
  Covered-Grows s t a g (inr h) = inr (g.blocked a.log_time h)

  Grows-trans : (s t u : Progress W) → Grows s t → Grows t u → Grows s u
  Grows-trans s t u g h = record {
    ingested = λ k i. h.ingested k (g.ingested k i);
    blocked = λ v b. h.blocked v (g.blocked v b);
  }

  abbrev Handles : FlowObject → Progress W → Round W → Type 0
  Handles a s (go_on t) = Grows s t × Covered t a × (t.last ≤ max s.last a.log_time)
  Handles a s (stop t e) = Unit

  -- The same progress in another world with the same answers
  Handles-world :
      (a : FlowObject) (s t : Progress W) (r : Round W)
      → Grows s t
      → t.last ≡ s.last
      → Handles a t r
      → Handles a s r
  Handles-world a s t (stop u e) g same h = tt
  Handles-world a s t (go_on u) g same (h, c, le) =
      (Grows-trans s t u g h, c, omega (arith, le, same))

  earliest-BlockedBy : (b : Option Time) (t u : Time) → BlockedBy b u ⊎ (t ≤ u) → earliest b t ≤ u
  earliest-BlockedBy none t u (inl h) = absurd h
  earliest-BlockedBy none t u (inr h) = h
  earliest-BlockedBy (some c) t u (inl h) = ground (arith, h)
  earliest-BlockedBy (some c) t u (inr h) = ground (arith, h)

  skip-Handles :
      (a : FlowObject) (e : ReadError) (s : Progress W) → Handles a s (go_on (skip o a e s))
  unfolding skip
  skip-Handles a e s = (
    record {
      ingested = λ k h. h;
      blocked = λ u h. earliest-BlockedBy s.blocked_at a.log_time u (inl h);
    },
    inr (earliest-BlockedBy s.blocked_at a.log_time a.log_time (inr (omega arith))),
    omega arith,
  )

  unchanged :
      (s t : Progress W) → s.state.world ≡ t.state.world → s.blocked_at ≡ t.blocked_at → Grows s t
  unchanged s t e f = record {
    ingested = λ k h. subst (λ w. o.is_object_ingested k w ≡ some true) e h;
    blocked = λ u h. subst (λ b. BlockedBy b u) f h;
  }

  module _ (l : Lawful o) where
    -- A commit that succeeds
    committed-ingested :
        (r : IngestResult N) (w : W) (k : String)
        → (o.commit_object_ingest r w).1 ≡ true
        → (o.is_object_ingested k w ≡ some true) ⊎ (k ≡ r.key)
        → o.is_object_ingested k (o.commit_object_ingest r w).0 ≡ some true
    committed-ingested r w k done (inl h) =
        l.committed k r w
        ∙ ap (λ x. if (o.commit_object_ingest r w).1 && r.key == k then some true else x) h
        ∙ ground arith
    committed-ingested r w k done (inr e) =
        l.committed k r w
        ∙ ap (λ b. if b && r.key == k then some true else o.is_object_ingested k w) done
        ∙ ap (λ b. if b then some true else o.is_object_ingested k w) ((eq_iff r.key k).1 (sym e))

    given_up-Handles :
        (a : FlowObject) (s : Progress W) (w : W) (b : Bool)
        → ((k : String)
            → b ≡ true
            → (Ingested s k) ⊎ (k ≡ a.key)
            → o.is_object_ingested k w ≡ some true)
        → Handles a s (given_up o a s (w, b))
    unfolding given_up
    given_up-Handles a s w false h = tt
    given_up-Handles a s w true h = (
      record { ingested = λ k i. h k refl (inl i); blocked = λ u x. x },
      inl (h a.key refl (inr refl)),
      ground arith,
    )

    after_failure-Handles :
        (a : FlowObject) (e : ReadError) (s : Progress W) → Handles a s (after_failure o a e s)
    unfolding after_failure
    after_failure-Handles a e s =
        let r = empty_result o a in
        let w = s.state.world in
        elim (Bool-cases (o.cancelled s.state.world)) [
          | inl c ↦ rw c tt
          | inr c ↦ elim (Bool-cases (permanent_read_error e)) [
            | inr p ↦ rw (c, p) (skip-Handles a e s)
            | inl p ↦
                elim (Bool-cases
                  (leb max_object_read_attempts (attempts a.key s.state.read_failures))) [
                    | inl x ↦
                        rw (c, p, x)
                          (Handles-world a s (counted o a s)
                            (given_up o a (counted o a s) (o.commit_object_ingest r w))
                            (unchanged s (counted o a s) refl refl) refl
                            (given_up-Handles a (counted o a s) (o.commit_object_ingest r w).0
                              (o.commit_object_ingest r w).1
                              (λ k d h. committed-ingested r w k d h)))
                    | inr x ↦
                        rw (c, p, x)
                          (Handles-world a s (counted o a s) (go_on (skip o a e (counted o a s)))
                            (unchanged s (counted o a s) refl refl) refl
                            (skip-Handles a e (counted o a s)))
                  ]
          ]
        ]

    after_commit-Handles :
        (a : FlowObject) (n : ℕ) (aggs : Aggregates) (s : Progress W) (w : W) (b : Bool)
        → ((k : String)
            → b ≡ true
            → (Ingested s k) ⊎ (k ≡ a.key)
            → o.is_object_ingested k w ≡ some true)
        → Handles a s (after_commit o a n aggs s (w, b))
    unfolding after_commit
    after_commit-Handles a n aggs s w false h = tt
    after_commit-Handles a n aggs s w true h = (
      record { ingested = λ k i. h k refl (inl i); blocked = λ u x. x },
      inl (h a.key refl (inr refl)),
      ground arith,
    )

    with_devices-keeps :
        (k : String) (nodes : List N) (w : W)
        → o.is_object_ingested k (with_devices o nodes w) ≡ o.is_object_ingested k w
    with_devices-keeps k [] w = refl
    with_devices-keeps k (n ∷ nodes) w = l.devices_keep k (n ∷ nodes) w

    after_read-Handles :
        (a : FlowObject) (s : Progress W) (w : W) (r : ReadResult N)
        → ((k : String) → o.is_object_ingested k w ≡ o.is_object_ingested k s.state.world)
        → Handles a s (after_read o a s (w, r))
    unfolding after_read
    after_read-Handles a s w (unreadable e) same =
        let t : Progress W = record s { state = record s.state { world = w } } in
        Handles-world a s t (after_failure o a e t)
          (record { ingested = λ k h. same k ∙ h; blocked = λ u x. x }) refl
          (after_failure-Handles a e t)
    after_read-Handles a s w (read flows nodes) same =
        let known = with_devices o nodes w in
        let aggs = aggregate (o.devices known) flows in
        let t : Progress W = record s {
          state = record s.state {
            world = known;
            read_failures = delete a.key s.state.read_failures;
          };
        } in
        let r : IngestResult N = record {
          key = a.key;
          last_modified = a.last_modified;
          size = a.size;
          flow_count = length flows;
          nodes = nodes;
          aggregates = some aggs;
        } in
        Handles-world a s t
          (after_commit o a (length flows) aggs t (o.commit_object_ingest r known))
          (record {
            ingested = λ k h. with_devices-keeps k nodes w ∙ same k ∙ h;
            blocked = λ u x. x;
          })
          refl
          (after_commit-Handles a (length flows) aggs t (o.commit_object_ingest r known).0
            (o.commit_object_ingest r known).1 (λ k d h. committed-ingested r known k d h))

    process_object-Handles : (a : FlowObject) (s : Progress W) → Handles a s (process_object o a s)
    unfolding process_object
    process_object-Handles a s =
        after_read-Handles a s (o.read_flow_logs a.key s.state.world).0
          (o.read_flow_logs a.key s.state.world).1 (λ k. l.read_keeps k a.key s.state.world)

    -- After all rounds
    abbrev pub Finishes : List FlowObject → Progress W → Round W → Type 0
    Finishes objects s (stop t e) = Unit
    Finishes objects s (go_on t) =
        Grows s t
        × All (Covered t) objects
        × ((u : Time) → s.last ≤ u → All (λ a. a.log_time ≤ u) objects → t.last ≤ u)

    then_rest :
        (a : FlowObject) (objects : List FlowObject) (s t : Progress W) (r : Round W)
        → Handles a s (go_on t)
        → Finishes objects t r
        → Finishes (a ∷ objects) s r
    then_rest a objects s t (stop u e) h f = tt
    then_rest a objects s t (go_on u) (g, c, le) (g', cs, bound) = (
      Grows-trans s t u g g',
      (Covered-Grows t u a g' c, cs),
      λ v lo all. bound v (ground (arith, le, lo, all.0)) all.1,
    )

    next_round :
        (a : FlowObject) (objects : List FlowObject) (s : Progress W) (r : Round W)
        → Handles a s r
        → ((t : Progress W) → Finishes objects t (process o objects t))
        → Finishes
            (a ∷ objects)
            s
            (elim r as (λ _. Round W) [ stop t e ↦ stop t e | go_on t ↦ process o objects t ])
    next_round a objects s (stop t e) h rest = tt
    next_round a objects s (go_on t) h rest =
        then_rest a objects s t (process o objects t) h (rest t)

    pub process-Finishes :
        (objects : List FlowObject) (s : Progress W) → Finishes objects s (process o objects s)
    unfolding process
    process-Finishes [] s = (record { ingested = λ k h. h; blocked = λ u h. h }, tt, λ u lo all. lo)
    process-Finishes (a ∷ objects) s =
        next_round a objects s (process_object o a s) (process_object-Handles a s)
          (process-Finishes objects)
