-- ===== src/Ingest/Poll.antt =====
-- `Poll` of backend/internal/services/object_store_source.go, and the cursor that `pollObjectStore` of
-- poller.go keeps of it.
use tsflow.Prelude.{
  ℕ, ◌-◌, String, Bool, true, false, List, [], ◌∷◌, Option, none, some, ◌==◌, eqb, ltb, String_eq,
  ℕ_eq, if◌then◌else◌,
}
use tsflow.Rolling.Cover.{Time}
use tsflow.Ingest.Source.{
  FlowObject, ReadResult, read, unreadable, Outside, Ingest, ObjectStoreConfig,
}
use tsflow.Ingest.List.{list_objects}
use tsflow.Ingest.Select.{Selection, selected, select_failed, select}
use tsflow.Ingest.Process.{
  PollFailure, store_failed, list_failed, Progress, Round, go_on, stop, process,
}

-- What Poll returns; the time is `none` where it is the zero time.
pub record PollResult (W : Type 0) : Type 0 where
  pub state : Ingest W
  pub objects : ℕ
  pub flows : ℕ
  pub last_processed : Option Time
  pub error : Option PollFailure

-- The earliest unreadable object holds the cursor back.
abbrev pub held_back : Option Time → Time → Time
held_back none last = last
held_back (some b) last = if ltb b last then b else last

abbrev pub at_first : {W : Type 0} → Ingest W → Time → Progress W
at_first s last = record {
  state = s;
  objects = 0;
  flows = 0;
  last = last;
  first_error = none;
  blocked_at = none;
}

module _ {W N : Type 0} (o : Outside W N) where
  mark_if : String → List N → W × Bool → W
  mark_if key nodes (w, false) = w
  mark_if key nodes (w, true) = (o.mark_hydrated key (ids nodes) w).0
    where
      ids : List N → List String
      ids [] = []
      ids (n ∷ ns) = if o.node_id n == "" then ids ns else o.node_id n ∷ ids ns

  hydrate_read : String → W × ReadResult N → W
  hydrate_read key (w, unreadable e) = w
  hydrate_read key (w, read flows []) = mark_if key [] (w, true)
  hydrate_read key (w, read flows (n ∷ nodes)) =
      mark_if key (n ∷ nodes) (o.upsert_node_metadata (n ∷ nodes) (o.upsert_devices (n ∷ nodes) w))

  hydrate_keys : List String → W → W
  hydrate_keys [] w = w
  hydrate_keys (key ∷ keys) w = hydrate_keys keys (hydrate_read key (o.read_flow_logs key w))

  -- hydrateMissingMetadata, whose error is only logged
  unfoldable pub hydrate_missing_metadata : ℕ → W → W
  unfolding mark_if hydrate_read hydrate_keys
  hydrate_missing_metadata limit w = elim (o.objects_needing_metadata limit w) [
    | none ↦ w
    | some keys ↦ hydrate_keys keys w
  ]

  unfoldable pub result_of : Round W → PollResult W
  result_of (go_on s) = record {
    state = s.state;
    objects = s.objects;
    flows = s.flows;
    last_processed = some (held_back s.blocked_at s.last);
    error = s.first_error;
  }
  result_of (stop s e) = record {
    state = s.state;
    objects = s.objects;
    flows = s.flows;
    last_processed = some s.last;
    error = some e;
  }

  abbrev pub nothing_done : Ingest W → Option Time → Option PollFailure → PollResult W
  nothing_done s last e = record {
    state = s;
    objects = 0;
    flows = 0;
    last_processed = last;
    error = e;
  }

  unfoldable pub ingest_selected : Ingest W → Selection → PollResult W
  ingest_selected s (select_failed last) = nothing_done s (some last) (some store_failed)
  ingest_selected s (selected objects last) = result_of (process o objects (at_first s last))

  unfoldable pub ingest : ℕ → Time → Time → Ingest W → Option (List FlowObject) → PollResult W
  ingest max_objects start end s none = nothing_done s none (some list_failed)
  ingest max_objects start end s (some []) = nothing_done s (some end) none
  ingest max_objects start end s (some (obj ∷ objects)) =
      ingest_selected s (select o max_objects (obj ∷ objects) [] start s.world)

  module _ (day_prefixes : Time → Time → List String) (object_time : String → Option Time) where
    unfoldable pub poll_objects : ObjectStoreConfig → Time → Time → Ingest W → PollResult W
    poll_objects c start end s =
        let t = record s { world = hydrate_missing_metadata c.max_objects s.world } in
        ingest c.max_objects start end t
          (list_objects o day_prefixes object_time (start - c.lookback) end t.world)

-- The cursor that pollObjectStore stores
unfoldable pub stored_cursor : {W : Type 0} → Time → PollResult W → Option Time
stored_cursor end r = elim r.error [
  | some e ↦ r.last_processed
  | none ↦ if eqb r.objects 0 then some end else r.last_processed
]
