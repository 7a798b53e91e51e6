-- ===== src/Ingest/Tests.antt =====
-- Runs of `Poll` of backend/internal/services/object_store_source.go on a small bucket.
use tsflow.Prelude.{
  ◌<◌, String, ◌≡◌, refl, true, false, List, [], ◌∷◌, Option, none, some, arith, ◌==◌, String_eq,
  ℕ_eq, if◌then◌else◌, mem, All,
}
use tsflow.Rolling.Cover.{Time}
use tsflow.Ingest.Source.{
  BlobObject, FlowObject, other_failure, ReadResult, read, unreadable, Outside, Lawful, Ingest,
  ObjectStoreConfig,
}
use tsflow.Prelude.Sort.{sort, insert_sorted}
use tsflow.Ingest.List.{list_objects, list_prefixes, of_window, before_object}
use tsflow.Ingest.Select.{select}
use tsflow.Ingest.Process.{process, process_object, after_read, after_failure, after_commit, skip}
use tsflow.Ingest.Poll.{
  PollResult, poll_objects, stored_cursor, ingest, ingest_selected, result_of,
  hydrate_missing_metadata,
}
use tsflow.Ingest.Cursor.{Whole, poll_objects-NoGap}
use tsflow.Ingest.Fresh.{Bounded, select-Bounded}

abbrev blob : String → BlobObject
blob key = record { key = key; last_modified = 0; size = 1 }

abbrev bucket : List BlobObject
bucket = blob "c" ∷ blob "a" ∷ blob "d" ∷ blob "b" ∷ []

abbrev key_time : String → Option Time
key_time key =
    if key == "a"
    then some 10
    else if key == "b"
    then some 20
    else if key == "c"
    then some 30
    else none

-- The world is the keys that are ingested; the commit of the key `refused` fails.
abbrev world_of : (String → ReadResult String) → String → Outside (List String) String
world_of content refused = record {
  cancelled = λ w. false;
  list = λ p w. some bucket;
  read_flow_logs = λ key w. (w, content key);
  devices = λ w. record { device_id = λ id. some id; resolve_ip = λ ip. ip };
  upsert_devices = λ nodes w. w;
  is_object_ingested = λ key w. some (mem key w);
  commit_object_ingest = λ r w. if r.key == refused then (w, false) else (r.key ∷ w, true);
  objects_needing_metadata = λ limit w. some [];
  upsert_node_metadata = λ nodes w. (w, true);
  mark_hydrated = λ key ids w. (w, true);
  node_id = λ n. n;
}

abbrev b_fails : String → ReadResult String
b_fails key = if key == "b" then unreadable other_failure else read [] []

world_of-Lawful :
    (content : String → ReadResult String) (refused : String) → Lawful (world_of content refused)
world_of-Lawful content refused = record {
  read_keeps = λ k key w. refl;
  devices_keep = λ k nodes w. refl;
  committed = λ k r w. ground arith;
}

abbrev days : Time → Time → List String
days start end = "p/" ∷ []

abbrev config : ObjectStoreConfig
config = record { prefix = "p"; lookback = 0; max_objects = 10 }

abbrev fresh : Ingest (List String)
fresh = record { world = []; read_failures = []; cached = [] }

abbrev obj : String → Time → FlowObject
obj key t = record { key = key; last_modified = 0; size = 1; log_time = t }

abbrev after : PollResult (List String)
after = poll_objects (world_of b_fails "") days key_time config 0 100 fresh

-- The unreadable object holds the cursor back, though the later one is ingested.
held : after.last_processed ≡ some 20
unfolding poll_objects ingest ingest_selected result_of select process process_object after_read
    after_failure after_commit skip hydrate_missing_metadata list_objects list_prefixes sort
    insert_sorted of_window before_object
held = refl

abbrev bucket_objects : List FlowObject
bucket_objects = obj "a" 10 ∷ obj "b" 20 ∷ obj "c" 30 ∷ []

whole : Whole after.error
unfolding poll_objects ingest ingest_selected result_of select process process_object after_read
    after_failure after_commit skip hydrate_missing_metadata list_objects list_prefixes sort
    insert_sorted of_window before_object
whole = tt

listed : list_objects (world_of b_fails "") days key_time 0 100 [] ≡ some bucket_objects
unfolding list_objects list_prefixes sort insert_sorted of_window before_object
listed = refl

poll_objects-NoGap_example :
    All (λ a. a.log_time < 20 → some (mem a.key after.state.world) ≡ some true) bucket_objects
unfolding hydrate_missing_metadata
poll_objects-NoGap_example =
    poll_objects-NoGap (world_of b_fails "") (world_of-Lawful b_fails "") days key_time config 0 100
      fresh bucket_objects listed whole 20 held (omega arith)

select-Bounded_example :
    Bounded
      (world_of b_fails "")
      1
      ("a" ∷ [])
      (select (world_of b_fails "") 1 bucket_objects [] 0 ("a" ∷ []))
select-Bounded_example = select-Bounded (world_of b_fails "") 1 ("a" ∷ []) bucket_objects 0

-- A commit that fails ends the poll with its cursor past the object that could not be read.
abbrev cut : PollResult (List String)
cut =
    poll_objects (world_of b_fails "d") days (λ k. if k == "d" then some 40 else key_time k) config
      0 100 fresh

cut_cursor : stored_cursor 100 cut ≡ some 30
unfolding stored_cursor poll_objects ingest ingest_selected result_of select process process_object
    after_read after_failure after_commit skip hydrate_missing_metadata list_objects list_prefixes
    sort insert_sorted of_window before_object
cut_cursor = refl
