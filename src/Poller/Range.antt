-- ===== src/Poller/Range.antt =====
-- `pollRange` of backend/internal/services/poller.go.
use tsflow.Prelude.{
  ◌≡◌, refl, ap, ◌∙◌, Bool, true, false, List, [], ◌∷◌, Option, none, some, String_eq, ℕ_eq,
  if◌then◌else◌, length,
}
use tsflow.Prelude.Groups.{add64}
use tsflow.Aggregate.Flow.{FlowLog, Devices}
use tsflow.Aggregate.Rows.{aggregate}
use tsflow.Rolling.Cover.{Time, unix}
use tsflow.Poller.State.{
  PollError, get_network_logs_failed, update_poll_state_failed, commit_poll_results_failed, Outside,
  Poller, Lawful, PollResults, keep_later,
}

module _ {W : Type 0} (o : Outside W) (d : Devices) where
  -- What a poll returns: the poller as it left it, and an error or none.
  abbrev pub Outcome : Type 0
  Outcome = Poller W × Option PollError

  unfoldable pub after_update : Poller W → W × Bool → Outcome
  after_update p (w, false) = (record p { world = w }, some update_poll_state_failed)
  after_update p (w, true) =
      (record p { world = w; last_poll_time = o.now w; last_poll_count = 0 }, none)

  unfoldable pub after_commit : List FlowLog → Poller W → W × Bool → Outcome
  after_commit logs p (w, false) = (record p { world = w }, some commit_poll_results_failed)
  after_commit logs p (w, true) = (
    record p {
      world = w;
      cached = aggregate d logs ∷ p.cached;
      last_poll_time = o.now w;
      last_poll_count = length logs;
      total_polled = add64 p.total_polled (length logs);
    },
    none,
  )

  unfoldable pub after_request : Time → Poller W → W × Option (List FlowLog) → Outcome
  after_request end p (w, none) = (record p { world = w }, some get_network_logs_failed)
  after_request end p (w, some []) = after_update p (o.update_poll_state end w)
  after_request end p (w, some (log ∷ logs)) =
      after_commit (log ∷ logs) p
        (o.commit_poll_results (record { aggregates = aggregate d (log ∷ logs); poll_end = end }) w)

  unfoldable pub poll_range : Time → Time → Poller W → Outcome
  poll_range start end p = after_request end p (o.get_network_logs (unix start) (unix end) p.world)

  module _ (l : Lawful o) where
    -- The cursor that the store holds
    abbrev pub cursor : Poller W → Option Time
    cursor p = l.stored p.world

    -- The cursor moves to the end of the range, unless it is later, exactly if the range succeeds.
    abbrev pub Advances : Time → Poller W → Outcome → Type 0
    Advances end p (p', none) = cursor p' ≡ some (keep_later (cursor p) end)
    Advances end p (p', some e) = (cursor p' ≡ cursor p) × (p'.cached ≡ p.cached)

    after_update-Advances :
        (end : Time) (p : Poller W) (r : W × Bool)
        → l.stored r.0 ≡ (if r.1 then some (keep_later (cursor p) end) else cursor p)
        → Advances end p (after_update p r)
    unfolding after_update
    after_update-Advances end p (w, false) h = (h, refl)
    after_update-Advances end p (w, true) h = h

    after_commit-Advances :
        (logs : List FlowLog) (end : Time) (p : Poller W) (r : W × Bool)
        → l.stored r.0 ≡ (if r.1 then some (keep_later (cursor p) end) else cursor p)
        → Advances end p (after_commit logs p r)
    unfolding after_commit
    after_commit-Advances logs end p (w, false) h = (h, refl)
    after_commit-Advances logs end p (w, true) h = h

    after_request-Advances :
        (end : Time) (p : Poller W) (r : W × Option (List FlowLog))
        → l.stored r.0 ≡ cursor p
        → Advances end p (after_request end p r)
    unfolding after_request
    after_request-Advances end p (w, none) h = (h, refl)
    after_request-Advances end p (w, some []) h =
        after_update-Advances end p (o.update_poll_state end w) (
          l.updated end w
          ∙ ap (λ c. if (o.update_poll_state end w).1 then some (keep_later c end) else c) h)
    after_request-Advances end p (w, some (log ∷ logs)) h =
        let results : PollResults = record {
          aggregates = aggregate d (log ∷ logs);
          poll_end = end;
        } in
        after_commit-Advances (log ∷ logs) end p (o.commit_poll_results results w) (
          l.committed results w
          ∙ ap (λ c. if (o.commit_poll_results results w).1 then some (keep_later c end) else c) h)

    pub poll_range-Advances :
        (start end : Time) (p : Poller W) → Advances end p (poll_range start end p)
    unfolding poll_range
    poll_range-Advances start end p =
        after_request-Advances end p (o.get_network_logs (unix start) (unix end) p.world)
          (l.requested (unix start) (unix end) p.world)
