-- ===== src/Poller/Tests.antt =====
-- Runs of poller.go over a small store, and its theorems at concrete inputs.
use tsflow.Prelude.{
  ◌-◌, ◌≡◌, refl, inr, true, false, [], Option, none, some, arith, String_eq, ℕ_eq, if◌then◌else◌,
  length,
}
use tsflow.Aggregate.Flow.{Devices}
use tsflow.Rolling.Cover.{Time}
use tsflow.Poller.State.{keep_later, Outside, Lawful, Poller, PollerConfig}
use tsflow.Poller.Range.{Outcome, poll_range, after_request, after_update, cursor}
use tsflow.Poller.Chunks.{
  poll_chunked, num_chunks, ranges, poll_ranges, chunk_loop, chunk_end, after_chunk,
  poll_chunked-poll_ranges,
}
use tsflow.Poller.Cursor.{poll_chunked-cursor}
use tsflow.Poller.Poll.{poll, poll_from, poll_api, end_of_poll, start_of_poll, resume_from}
use tsflow.Poller.Lifecycle.{
  Lifecycle, new_poller, start, stop, close, close_stop, Reach, fresh, next, starts, stops,
  Reach-one_loop,
}
use tsflow.Poller.Record.{poll_and_record_lem}
use tsflow.Poller.Poll.{poll_and_record}

abbrev devices : Devices
devices = record { device_id = λ id. none; resolve_ip = λ ip. ip }

-- A store that never fails, at two hours, with no logs; it keeps the later cursor, in whole seconds.
abbrev outside : Outside (Option Time)
outside = record {
  now = λ w. 7200000000000;
  cancelled = λ w. false;
  get_poll_state = λ w. some w;
  get_network_logs = λ s e w. (w, some []);
  update_poll_state = λ t w. (some (keep_later w t), true);
  commit_poll_results = λ r w. (some (keep_later w r.poll_end), true);
}

abbrev lawful : Lawful outside
lawful = record {
  stored = λ w. w;
  reads = λ w. inr refl;
  requested = λ s e w. refl;
  updated = λ t w. refl;
  committed = λ r w. refl;
}

-- A cursor that is older than the stored one does not move it back.
not_back : (outside.update_poll_state 60000000000 (some 90000000000)).0 ≡ some 90000000000
unfolding keep_later
not_back = refl

abbrev at_start : Poller (Option Time)
at_start = record {
  world = some 1000000000;
  complete_from = 0;
  cached = [];
  last_poll_time = 0;
  last_poll_count = 0;
  total_polled = 0;
  poll_errors = 0;
  last_poll_error = none;
  last_poll_error_time = 0;
  last_success_time = 0;
}

abbrev config : PollerConfig
config = record {
  poll_interval = 1;
  initial_backfill = 1;
  poll_delay = 120000000000;
  retention = 0;
  cleanup_interval = 1;
  device_cache_refresh = 1;
  object_store = false;
}

abbrev no_objects : Time → Time → Poller (Option Time) → Outcome outside devices
no_objects start end p = (p, none)

-- The whole of an hour and 58 minutes less a second, in four chunks
polled :
    cursor outside devices lawful (poll outside devices no_objects config at_start).0
    ≡ some 7080000000000
unfolding poll poll_from poll_api end_of_poll start_of_poll resume_from poll_chunked chunk_loop
    keep_later chunk_end after_chunk poll_range after_request after_update num_chunks
polled = refl

poll_chunked-poll_ranges_example :
    poll_chunked outside devices 0 4000000000000 at_start
    ≡ poll_ranges outside devices
        (num_chunks (4000000000000 - 0))
        (ranges 0 (num_chunks (4000000000000 - 0)) 0 4000000000000)
        0
        at_start
poll_chunked-poll_ranges_example =
    poll_chunked-poll_ranges outside devices 0 4000000000000 at_start (omega arith)

chunked_without_error : (poll_chunked outside devices 0 4000000000000 at_start).1 ≡ none
unfolding poll_chunked chunk_loop chunk_end after_chunk poll_range after_request after_update
    num_chunks
chunked_without_error = refl

poll_chunked-cursor_example :
    cursor outside devices lawful (poll_chunked outside devices 0 4000000000000 at_start).0
    ≡ some (keep_later (some 1000000000) 4000000000000)
poll_chunked-cursor_example =
    (poll_chunked-cursor outside devices lawful 0 4000000000000 at_start (omega arith)).1
      chunked_without_error

stopped_once : Reach (stop (start new_poller))
stopped_once = next (next fresh (starts new_poller)) (stops (start new_poller))

Reach-one_loop_example :
    (s : Lifecycle) × (stop (start new_poller) ≡ some s)
    × (length s.live ≡ (if s.running then 1 else 0))
Reach-one_loop_example = Reach-one_loop (stop (start new_poller)) stopped_once

-- A second Stop before the loop has ended closes nothing again.
abbrev then_stop : Option Lifecycle → Option Lifecycle
then_stop none = none
then_stop (some s) = stop s

stopped_twice : then_stop (stop (start new_poller)) ≡ stop (start new_poller)
unfolding stop start close close_stop
stopped_twice = refl

poll_and_record_lem_example :
    (poll_and_record outside devices no_objects config at_start).last_poll_error
    ≡ (poll outside devices no_objects config at_start).1
poll_and_record_lem_example =
    ((poll_and_record_lem outside devices no_objects config at_start refl).1 refl).0
