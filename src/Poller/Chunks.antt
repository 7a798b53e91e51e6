-- ===== src/Poller/Chunks.antt =====
-- The loop of `pollChunked` in backend/internal/services/poller.go.
use tsflow.Prelude.{
  ℕ, zero, suc, ◌+◌, ◌-◌, ◌*◌, ◌/◌, ◌%◌, ◌≤◌, ◌<◌, ◌≡◌, refl, subst, inl, inr, true, false, not,
  List, [], ◌∷◌, none, some, arith, eqb, ltb, min, String_eq, ℕ_eq, if◌then◌else◌, Bool-cases,
}
use tsflow.Aggregate.Flow.{Devices}
use tsflow.Rolling.Cover.{Time}
use tsflow.Poller.State.{interrupted, poll_chunk_failed, out_of_rounds, Outside, Poller}
use tsflow.Poller.Range.{Outcome, poll_range}

abbrev pub max_poll_chunk : ℕ
max_poll_chunk = 1800000000000

unfoldable pub num_chunks : ℕ → ℕ
num_chunks total_range =
    if not (eqb (total_range % max_poll_chunk) 0)
    then total_range / max_poll_chunk + 1
    else total_range / max_poll_chunk

unfoldable pub chunk_end : Time → Time → Time
chunk_end cursor end = if ltb end (cursor + max_poll_chunk) then end else cursor + max_poll_chunk

chunk_end-min :
    (start end i : ℕ)
    → chunk_end (start + i * max_poll_chunk) end ≡ min (start + suc i * max_poll_chunk) end
unfolding chunk_end
chunk_end-min start end i = ground arith

pub num_chunks_lem :
    (range : ℕ)
    → (range ≤ num_chunks range * max_poll_chunk)
      × (num_chunks range * max_poll_chunk < range + max_poll_chunk)
unfolding num_chunks
num_chunks_lem range = (ground arith, ground arith)

-- The reference: `c` ranges of the longest chunk, from the one with index `i` on; the last one stops
-- at the end.
unfoldable pub ranges : ℕ → ℕ → Time → Time → List (Time × Time)
ranges i zero start end = []
ranges i (suc c) start end =
    (start + i * max_poll_chunk, min (start + suc i * max_poll_chunk) end)
    ∷ ranges (suc i) c start end

module _ {W : Type 0} (o : Outside W) (d : Devices) where
  -- One round, by the outcome of its `pollRange`.
  unfoldable pub after_chunk : ℕ → ℕ → (Poller W → Outcome o d) → Outcome o d → Outcome o d
  after_chunk n completed next (p, some e) = (p, some (poll_chunk_failed (suc completed) n e))
  after_chunk n completed next (p, none) = elim (o.cancelled p.world) [
    | true ↦ (p, some interrupted)
    | false ↦ next p
  ]

  unfoldable pub chunk_loop : ℕ → ℕ → Time → Time → ℕ → Poller W → Outcome o d
  chunk_loop zero n cursor end completed p = (p, some out_of_rounds)
  chunk_loop (suc fuel) n cursor end completed p = elim (ltb cursor end) [
    | false ↦ (p, none)
    | true ↦
        after_chunk n completed (chunk_loop fuel n (chunk_end cursor end) end (suc completed))
          (poll_range o d cursor (chunk_end cursor end) p)
  ]

  unfoldable pub poll_chunked : Time → Time → Poller W → Outcome o d
  poll_chunked start end p =
      chunk_loop (suc (num_chunks (end - start))) (num_chunks (end - start)) start end 0 p

  -- The given ranges one after the other, until one fails or the context is done.
  unfoldable pub poll_ranges : ℕ → List (Time × Time) → ℕ → Poller W → Outcome o d
  poll_ranges n [] completed p = (p, none)
  poll_ranges n ((s, e) ∷ rest) completed p =
      after_chunk n completed (poll_ranges n rest (suc completed)) (poll_range o d s e p)

  after_chunk-cong :
      (n completed : ℕ) (f g : Poller W → Outcome o d) (r : Outcome o d)
      → ((p : Poller W) → f p ≡ g p)
      → after_chunk n completed f r ≡ after_chunk n completed g r
  unfolding after_chunk
  after_chunk-cong n completed f g (p, some e) h = refl
  after_chunk-cong n completed f g (p, none) h = elim (Bool-cases (o.cancelled p.world)) [
    | inl e ↦ rw (after_chunk, e)
    | inr e ↦ rw (after_chunk, e) (h p)
  ]

  loop-done :
      (fuel n cursor end completed : ℕ) (p : Poller W)
      → ltb cursor end ≡ false
      → chunk_loop (suc fuel) n cursor end completed p ≡ (p, none)
  unfolding chunk_loop
  loop-done fuel n cursor end completed p h = rw (chunk_loop, h)

  loop-round :
      (fuel n cursor end completed : ℕ) (p : Poller W)
      → ltb cursor end ≡ true
      → chunk_loop (suc fuel) n cursor end completed p
        ≡ after_chunk n completed
            (chunk_loop fuel n (chunk_end cursor end) end (suc completed))
            (poll_range o d cursor (chunk_end cursor end) p)
  unfolding chunk_loop
  loop-round fuel n cursor end completed p h = rw (chunk_loop, h)

  chunk_loop-poll_ranges :
      (c i n start end completed : ℕ) (p : Poller W)
      → start ≤ end
      → end ≤ start + (i + c) * max_poll_chunk
      → start + (i + c) * max_poll_chunk < end + max_poll_chunk
      → chunk_loop (suc c) n (min (start + i * max_poll_chunk) end) end completed p
        ≡ poll_ranges n (ranges i c start end) completed p
  unfolding poll_ranges ranges
  chunk_loop-poll_ranges zero i n start end completed p le enough short =
      loop-done zero n (min (start + i * max_poll_chunk) end) end completed p (ground arith)
  chunk_loop-poll_ranges (suc c) i n start end completed p le enough short =
      let here : min (start + i * max_poll_chunk) end ≡ start + i * max_poll_chunk = ground arith in
      let there : chunk_end (start + i * max_poll_chunk) end
          ≡ min (start + suc i * max_poll_chunk) end =
        chunk_end-min start end i in
      rw
        (
          here,
          loop-round (suc c) n (start + i * max_poll_chunk) end completed p (ground arith),
          there,
        )
        (after_chunk-cong n completed
          (chunk_loop (suc c) n (min (start + suc i * max_poll_chunk) end) end (suc completed))
          (poll_ranges n (ranges (suc i) c start end) (suc completed))
          (poll_range o d (start + i * max_poll_chunk) (min (start + suc i * max_poll_chunk) end) p)
          (λ q.
            chunk_loop-poll_ranges c (suc i) n start end (suc completed) q le (omega arith)
              (omega arith)))

  -- A long range is polled as its contiguous chunks of half an hour, the last one cut at the end, in
  -- order until one fails or the context is done; the loop over them never runs out of rounds.
  pub poll_chunked-poll_ranges :
      (start end : Time) (p : Poller W)
      → start ≤ end
      → poll_chunked start end p
        ≡ poll_ranges (num_chunks (end - start)) (ranges 0 (num_chunks (end - start)) start end) 0 p
  unfolding poll_chunked
  poll_chunked-poll_ranges start end p le =
      let (enough, short) = num_chunks_lem (end - start) in
      let at_start : min (start + 0 * max_poll_chunk) end ≡ start = ground (arith, le) in
      subst
        (λ s.
          chunk_loop (suc (num_chunks (end - start))) (num_chunks (end - start)) s end 0 p
          ≡ poll_ranges (num_chunks (end - start)) (ranges 0 (num_chunks (end - start)) start end) 0
              p)
        at_start
        (chunk_loop-poll_ranges (num_chunks (end - start)) 0 (num_chunks (end - start)) start end 0
          p le (omega arith) (omega arith))
