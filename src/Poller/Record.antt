-- ===== src/Poller/Record.antt =====
-- What a poll leaves of the record of errors, and what `pollAndRecord` of
-- backend/internal/services/poller.go makes of its outcome.
use tsflow.Prelude.{
  ℕ, zero, suc, ◌-◌, ◌≡◌, refl, sym, ap, ◌∙◌, subst, inl, inr, Bool, true, false, List, [], ◌∷◌,
  Option, none, some, ltb, String_eq, ℕ_eq, if◌then◌else◌, Bool-cases,
}
use tsflow.Prelude.Groups.{add64}
use tsflow.Aggregate.Flow.{Devices, FlowLog}
use tsflow.Rolling.Cover.{Time}
use tsflow.Poller.State.{PollError, Outside, Poller, PollerConfig}
use tsflow.Poller.Range.{Outcome, poll_range, after_request, after_update, after_commit}
use tsflow.Poller.Chunks.{
  poll_chunked, chunk_loop, chunk_end, after_chunk, max_poll_chunk, num_chunks,
}
use tsflow.Poller.Poll.{
  poll, poll_from, poll_api, cover, poll_and_record, record_poll, end_of_poll, start_of_poll,
  resume_from,
}

module _ {W : Type 0} (o : Outside W) (d : Devices) where
  -- The count of errors, the last error and the time of the last success
  pub record Same (p q : Poller W) : Type 0 where
    pub errors : q.poll_errors ≡ p.poll_errors
    pub error : q.last_poll_error ≡ p.last_poll_error
    pub success : q.last_success_time ≡ p.last_success_time

  same : (p : Poller W) → Same p p
  same p = record { errors = refl; error = refl; success = refl }

  then-Same : {p q r : Poller W} → Same p q → Same q r → Same p r
  then-Same a b = record {
    errors = b.errors ∙ a.errors;
    error = b.error ∙ a.error;
    success = b.success ∙ a.success;
  }

  after_update-Same : (p : Poller W) (r : W × Bool) → Same p (after_update o d p r).0
  unfolding after_update
  after_update-Same p (w, true) = record { errors = refl; error = refl; success = refl }
  after_update-Same p (w, false) = record { errors = refl; error = refl; success = refl }

  after_commit-Same :
      (logs : List FlowLog) (p : Poller W) (r : W × Bool) → Same p (after_commit o d logs p r).0
  unfolding after_commit
  after_commit-Same logs p (w, true) = record { errors = refl; error = refl; success = refl }
  after_commit-Same logs p (w, false) = record { errors = refl; error = refl; success = refl }

  after_request-Same :
      (end : Time) (p : Poller W) (r : W × Option (List FlowLog))
      → Same p (after_request o d end p r).0
  unfolding after_request
  after_request-Same end p (w, none) = record { errors = refl; error = refl; success = refl }
  after_request-Same end p (w, some []) = after_update-Same p _
  after_request-Same end p (w, some (log ∷ logs)) = after_commit-Same (log ∷ logs) p _

  poll_range-Same : (start end : Time) (p : Poller W) → Same p (poll_range o d start end p).0
  unfolding poll_range
  poll_range-Same start end p = after_request-Same end p _

  after_chunk-Same :
      (n completed : ℕ) (p : Poller W) (next : Poller W → Outcome o d) (r : Outcome o d)
      → Same p r.0
      → ((q : Poller W) → Same q (next q).0)
      → Same p (after_chunk o d n completed next r).0
  unfolding after_chunk
  after_chunk-Same n completed p next (q, some e) h more = h
  after_chunk-Same n completed p next (q, none) h more = go (o.cancelled q.world)
    where
      go :
          (b : Bool)
          → Same p
              (elim b as (λ _. Outcome o d) [
                | true ↦ (q, some PollError.interrupted)
                | false ↦ next q
              ]).0
      go true = h
      go false = then-Same h (more q)

  chunk_loop-Same :
      (fuel n cursor end completed : ℕ) (p : Poller W)
      → Same p (chunk_loop o d fuel n cursor end completed p).0
  unfolding chunk_loop
  chunk_loop-Same zero n cursor end completed p = same p
  chunk_loop-Same (suc fuel) n cursor end completed p = elim (Bool-cases (ltb cursor end)) [
    | inr e ↦ rw (chunk_loop, e) (same p)
    | inl e ↦
        rw (chunk_loop, e)
          (after_chunk-Same n completed p
            (chunk_loop o d fuel n (chunk_end cursor end) end (suc completed))
            (poll_range o d cursor (chunk_end cursor end) p)
            (poll_range-Same cursor (chunk_end cursor end) p)
            (chunk_loop-Same fuel n (chunk_end cursor end) end (suc completed)))
  ]

  module _ (poll_object_store : Time → Time → Poller W → Outcome o d) where
    poll_api-Same :
        (start end : Time) (p : Poller W) → Same p (poll_api o d poll_object_store start end p).0
    unfolding poll_api poll_chunked
    poll_api-Same start end p = elim (Bool-cases (ltb start end)) [
      | inr e ↦ rw e (same p)
      | inl e ↦ elim (Bool-cases (ltb max_poll_chunk (end - start))) [
        | inl long ↦
            rw (e, long)
              (chunk_loop-Same (suc (num_chunks (end - start))) (num_chunks (end - start)) start end
                0 p)
        | inr short ↦ rw (e, short) (poll_range-Same start end p)
      ]
    ]

    cover-Same : (t : Time) (p : Poller W) → Same p (cover o d poll_object_store t p)
    cover-Same t p = record { errors = refl; error = refl; success = refl }

    poll_from-Same :
        (c : PollerConfig) (r : Option (Option Time)) (p : Poller W)
        → c.object_store ≡ false
        → Same p (poll_from o d poll_object_store c r p).0
    unfolding poll_from
    poll_from-Same c none p api = same p
    poll_from-Same c (some last) p api =
        let end = end_of_poll c (o.now p.world) in
        let start = resume_from c (start_of_poll c end last) end in
        subst
          (λ b.
            Same p
              (if b
                then poll_object_store (start_of_poll c end last) end
                    (cover o d poll_object_store end p)
                else poll_api o d poll_object_store start end
                    (cover o d poll_object_store start p)).0)
          (sym api)
          (then-Same (cover-Same start p)
            (poll_api-Same start end (cover o d poll_object_store start p)))

    recorded :
        (p q : Poller W) (r : Option PollError)
        → Same p q
        → ((record_poll o d poll_object_store (q, r)).last_poll_error ≡ r)
          × ((r ≡ none) → (record_poll o d poll_object_store (q, r)).poll_errors ≡ p.poll_errors)
          × ((e : PollError)
              → (r ≡ some e)
              → ((record_poll o d poll_object_store (q, r)).poll_errors ≡ add64 p.poll_errors 1)
                × ((record_poll o d poll_object_store (q, r)).last_success_time
                    ≡ p.last_success_time))
    unfolding record_poll
    recorded p q none s = (refl, λ _. s.errors, λ e h. cc)
    recorded p q (some x) s = (refl, λ h. cc, λ e h. (ap (λ n. add64 n 1) s.errors, s.success))

    -- Over the logs API, a poll whose context is not done records its outcome as the last error: none
    -- if it succeeds, and then the count of errors stays; the error if it fails, and then the count
    -- grows by one and the time of the last success stays. A poll whose context is done changes none
    -- of the three.
    pub poll_and_record_lem :
        (c : PollerConfig) (p : Poller W)
        → c.object_store ≡ false
        → let q = poll_and_record o d poll_object_store c p in
          let r = poll o d poll_object_store c p in
          ((o.cancelled r.0.world ≡ true) → Same p q)
          × ((o.cancelled r.0.world ≡ false)
              → (q.last_poll_error ≡ r.1)
                × ((r.1 ≡ none) → q.poll_errors ≡ p.poll_errors)
                × ((e : PollError)
                    → (r.1 ≡ some e)
                    → (q.poll_errors ≡ add64 p.poll_errors 1)
                      × (q.last_success_time ≡ p.last_success_time)))
    unfolding poll_and_record poll
    poll_and_record_lem c p api =
        let s = poll_from-Same c (o.get_poll_state p.world) p api in
        let r = poll_from o d poll_object_store c (o.get_poll_state p.world) p in
        (λ h. rw h s, λ h. rw h (recorded p r.0 r.1 s))
