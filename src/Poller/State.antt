-- ===== src/Poller/State.antt =====
-- The state of a poller, and what it calls: the clock, the context, the store's cursor and commits,
-- and the logs API with the conversion of its answer. A time is its nanoseconds since 1970.
use tsflow.Prelude.{
  ℕ, ◌-◌, ◌%◌, ◌≡◌, ◌⊎◌, Bool, List, Option, none, some, ltb, String_eq, ℕ_eq, if◌then◌else◌,
}
use tsflow.Aggregate.Flow.{FlowLog}
use tsflow.Aggregate.Rows.{Aggregates}
use tsflow.Rolling.Cover.{Time}

-- Why a poll fails. The last one is no error of the source: the loop over the chunks has run out of
-- rounds, which the theorems exclude.
pub data PollError : Type 0 where
  get_poll_state_failed get_network_logs_failed update_poll_state_failed : PollError
  commit_poll_results_failed : PollError
  interrupted : PollError
  poll_chunk_failed : ℕ → ℕ → PollError → PollError
  object_store_failed : PollError
  out_of_rounds : PollError

-- database.PollResults
pub record PollResults : Type 0 where
  pub aggregates : Aggregates
  pub poll_end : Time

-- The outside of the poller. A cursor is `none` where the source has the zero time; each call that
-- can fail says so and returns the outside as it left it.
pub record Outside (W : Type 0) : Type 0 where
  pub now : W → Time
  pub cancelled : W → Bool
  pub get_poll_state : W → Option (Option Time)
  pub get_network_logs : ℕ → ℕ → W → W × Option (List FlowLog)
  pub update_poll_state : Time → W → W × Bool
  pub commit_poll_results : PollResults → W → W × Bool

-- The last second of a time: `Truncate(time.Second)`, and what the store's text of a time keeps.
abbrev pub truncate : Time → Time
truncate t = t - t % 1000000000

-- upsertPollCursor of backend/internal/database/maintenance.go, the cursor it leaves: the later one,
-- in whole seconds. `none` is a row that is missing, or has no time that can be read.
unfoldable pub keep_later : Option Time → Time → Time
keep_later none t = truncate t
keep_later (some c) t = if ltb c (truncate t) then truncate t else c

-- What the poller relies on, with the cursor that the store holds: a read fails or returns it, a
-- write that succeeds keeps the later cursor, a write that fails and a request leave it alone.
pub record Lawful {W : Type 0} (o : Outside W) : Type 0 where
  pub stored : W → Option Time
  pub reads : (w : W) → (o.get_poll_state w ≡ none) ⊎ (o.get_poll_state w ≡ some (stored w))
  pub requested : (s e : ℕ) (w : W) → stored (o.get_network_logs s e w).0 ≡ stored w
  pub updated :
      (t : Time) (w : W)
      → stored (o.update_poll_state t w).0
        ≡ (if (o.update_poll_state t w).1 then some (keep_later (stored w) t) else stored w)
  pub committed :
      (r : PollResults) (w : W)
      → stored (o.commit_poll_results r w).0 ≡ (
          if (o.commit_poll_results r w).1
          then some (keep_later (stored w) r.poll_end)
          else stored w)

-- PollerConfig, without the names of the backend and the tailnet
pub record PollerConfig : Type 0 where
  pub poll_interval : ℕ
  pub initial_backfill : ℕ
  pub poll_delay : ℕ
  pub retention : ℕ
  pub cleanup_interval : ℕ
  pub device_cache_refresh : ℕ
  pub object_store : Bool

-- Poller: its counters, the floor of its rolling cache, and the aggregates it has passed on to the
-- rolling cache, latest first.
pub record Poller (W : Type 0) : Type 0 where
  pub world : W
  pub complete_from : ℕ
  pub cached : List Aggregates
  pub last_poll_time : Time
  pub last_poll_count : ℕ
  pub total_polled : ℕ
  pub poll_errors : ℕ
  pub last_poll_error : Option PollError
  pub last_poll_error_time : Time
  pub last_success_time : Time
