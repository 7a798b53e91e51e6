-- ===== src/Ingest/Process.antt =====
-- The second loop of `Poll` in backend/internal/services/object_store_source.go: the selected objects are
-- read and committed.
use tsflow.Prelude.{
  ℕ, suc, ◌+◌, String, Bool, true, false, not, List, [], ◌∷◌, Option, none, some, ltb, leb,
  String_eq, ℕ_eq, if◌then◌else◌, length,
}
use tsflow.Prelude.Maps.{Map, lookup, insert, delete}
use tsflow.Prelude.Groups.{or_zero}
use tsflow.Aggregate.Rows.{Aggregates, aggregate}
use tsflow.Rolling.Cover.{Time}
use tsflow.Ingest.Source.{
  FlowObject, ReadError, permanent_read_error, ReadResult, read, unreadable, IngestResult, Outside,
  Ingest,
}
use tsflow.Ingest.Select.{later}

abbrev pub max_object_read_attempts : ℕ
max_object_read_attempts = 5

-- What a poll fails with
pub data PollFailure : Type 0 where
  read_failed : String → ReadError → PollFailure
  commit_failed store_failed list_failed context_done : PollFailure

-- The variables of the loop: blockedAt is `none` where the source has the zero time.
pub record Progress (W : Type 0) : Type 0 where
  pub state : Ingest W
  pub objects : ℕ
  pub flows : ℕ
  pub last : Time
  pub first_error : Option PollFailure
  pub blocked_at : Option Time

pub data Round (W : Type 0) : Type 0 where
  go_on : Progress W → Round W
  stop : Progress W → PollFailure → Round W

-- recordReadFailure, by the count before it
abbrev pub attempts : String → Map String ℕ → ℕ
attempts key failures = suc (or_zero (lookup key failures))

abbrev pub earliest : Option Time → Time → Time
earliest none t = t
earliest (some b) t = if ltb t b then t else b

abbrev or_first : Option PollFailure → PollFailure → Option PollFailure
or_first none e = some e
or_first (some e) e' = some e

module _ {W N : Type 0} (o : Outside W N) where
  -- A later object is still tried.
  unfoldable pub skip : FlowObject → ReadError → Progress W → Progress W
  skip obj e s = record s {
    first_error = or_first s.first_error (read_failed obj.key e);
    blocked_at = some (earliest s.blocked_at obj.log_time);
  }

  unfoldable pub given_up : FlowObject → Progress W → W × Bool → Round W
  given_up obj s (w, false) = stop (record s { state = record s.state { world = w } }) commit_failed
  given_up obj s (w, true) = go_on (record s {
    state = record s.state { world = w; read_failures = delete obj.key s.state.read_failures };
    last = later s.last obj.log_time;
  })

  abbrev pub empty_result : FlowObject → IngestResult N
  empty_result obj = record {
    key = obj.key;
    last_modified = obj.last_modified;
    size = obj.size;
    flow_count = 0;
    nodes = [];
    aggregates = none;
  }

  -- A failure that every retry meets is counted.
  abbrev pub counted : FlowObject → Progress W → Progress W
  counted obj s = record s {
    state = record s.state {
      read_failures = insert obj.key (attempts obj.key s.state.read_failures) s.state.read_failures;
    };
  }

  unfoldable pub after_failure : FlowObject → ReadError → Progress W → Round W
  after_failure obj e s =
      if o.cancelled s.state.world
      then stop s context_done
      else if not (permanent_read_error e)
      then go_on (skip obj e s)
      else if leb max_object_read_attempts (attempts obj.key s.state.read_failures)
      then given_up obj (counted obj s) (o.commit_object_ingest (empty_result obj) s.state.world)
      else go_on (skip obj e (counted obj s))

  unfoldable pub after_commit : FlowObject → ℕ → Aggregates → Progress W → W × Bool → Round W
  after_commit obj flow_count aggs s (w, false) =
      stop (record s { state = record s.state { world = w } }) commit_failed
  after_commit obj flow_count aggs s (w, true) = go_on (record s {
    state = record s.state { world = w; cached = aggs ∷ s.state.cached };
    objects = s.objects + 1;
    flows = s.flows + flow_count;
    last = later s.last obj.log_time;
  })

  abbrev pub with_devices : List N → W → W
  with_devices [] w = w
  with_devices (n ∷ nodes) w = o.upsert_devices (n ∷ nodes) w

  unfoldable pub after_read : FlowObject → Progress W → W × ReadResult N → Round W
  after_read obj s (w, unreadable e) =
      after_failure obj e (record s { state = record s.state { world = w } })
  after_read obj s (w, read flows nodes) =
      let known = with_devices nodes w in
      let aggs = aggregate (o.devices known) flows in
      after_commit obj (length flows) aggs
        (record s {
          state = record s.state {
            world = known;
            read_failures = delete obj.key s.state.read_failures;
          };
        })
        (o.commit_object_ingest
          (record {
            key = obj.key;
            last_modified = obj.last_modified;
            size = obj.size;
            flow_count = length flows;
            nodes = nodes;
            aggregates = some aggs;
          })
          known)

  unfoldable pub process_object : FlowObject → Progress W → Round W
  process_object obj s = after_read obj s (o.read_flow_logs obj.key s.state.world)

  unfoldable pub process : List FlowObject → Progress W → Round W
  process [] s = go_on s
  process (obj ∷ objects) s = elim (process_object obj s) [
    | stop t e ↦ stop t e
    | go_on t ↦ process objects t
  ]
