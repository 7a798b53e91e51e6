-- ===== src/Poller/Poll.antt =====
-- `poll` and `pollAndRecord` of backend/internal/services/poller.go.
use tsflow.Prelude.{
  ◌-◌, ◌≤◌, ◌<◌, ◌≡◌, ◌⊎◌, Bool, true, false, not, ◌&&◌, Option, none, some, ltb, leb, String_eq,
  ℕ_eq, if◌then◌else◌,
}
use tsflow.Aggregate.Flow.{Devices}
use tsflow.Prelude.Groups.{add64}
use tsflow.Rolling.Cover.{Time, cover_from}
use tsflow.Poller.State.{
  get_poll_state_failed, truncate, keep_later, Outside, Lawful, Poller, PollerConfig,
}
use tsflow.Poller.Range.{Outcome, poll_range, cursor}
use tsflow.Poller.Chunks.{poll_chunked, max_poll_chunk}

-- PollerConfig.validate; the durations that Go may hold below zero are natural numbers here.
unfoldable pub validate : PollerConfig → Bool
validate c =
    if leb c.poll_interval 0
    then false
    else if leb c.initial_backfill 0
    then false
    else if leb c.cleanup_interval 0
    then false
    else if leb c.device_cache_refresh 0
    then false
    else true

unfoldable pub end_of_poll : PollerConfig → Time → Time
end_of_poll c now =
    let end = (if not c.object_store && ltb 0 c.poll_delay then now - c.poll_delay else now) in
    if not c.object_store then truncate end else end

unfoldable pub start_of_poll : PollerConfig → Time → Option Time → Time
start_of_poll c end none = end - c.initial_backfill
start_of_poll c end (some last_poll_end) = last_poll_end

-- Never before the retention
unfoldable pub resume_from : PollerConfig → Time → Time → Time
resume_from c start end =
    if ltb 0 c.retention && ltb start (end - c.retention) then end - c.retention else start

module _ {W : Type 0} (o : Outside W) (d : Devices)
    (poll_object_store : Time → Time → Poller W → Outcome o d) where
  unfoldable pub poll_api : Time → Time → Poller W → Outcome o d
  poll_api start end p =
      if not (ltb start end)
      then (p, none)
      else if ltb max_poll_chunk (end - start)
      then poll_chunked o d start end p
      else poll_range o d start end p

  abbrev pub cover : Time → Poller W → Poller W
  cover t p = record p { complete_from = cover_from p.complete_from t }

  unfoldable pub poll_from : PollerConfig → Option (Option Time) → Poller W → Outcome o d
  poll_from c none p = (p, some get_poll_state_failed)
  poll_from c (some last_poll_end) p =
      let end = end_of_poll c (o.now p.world) in
      let start = start_of_poll c end last_poll_end in
      if c.object_store
      then poll_object_store start end (cover end p)
      else poll_api (resume_from c start end) end (cover (resume_from c start end) p)

  unfoldable pub poll : PollerConfig → Poller W → Outcome o d
  poll c p = poll_from c (o.get_poll_state p.world) p

  unfoldable pub record_poll : Outcome o d → Poller W
  record_poll (p, some e) = record p {
    poll_errors = add64 p.poll_errors 1;
    last_poll_error = some e;
    last_poll_error_time = o.now p.world;
  }
  record_poll (p, none) = record p { last_poll_error = none; last_success_time = o.now p.world }

  unfoldable pub poll_and_record : PollerConfig → Poller W → Poller W
  poll_and_record c p =
      let (q, r) = poll c p in if o.cancelled q.world then q else record_poll (q, r)

  module _ (l : Lawful o) where
    -- The cursor a poll of a range leaves: what the store keeps of it and of the end, if the poll
    -- succeeds, or of no time or some time of the range.
    abbrev Moves : Time → Time → Poller W → Outcome o d → Type 0
    Moves start end p r =
        ((r.1 ≡ none) → start < end → cursor o d l r.0 ≡ some (keep_later (cursor o d l p) end))
        × ((cursor o d l r.0 ≡ cursor o d l p)
            ⊎ ((u : Time) × (u ≤ end) × (cursor o d l r.0 ≡ some (keep_later (cursor o d l p) u))))
