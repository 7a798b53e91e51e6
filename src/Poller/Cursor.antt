-- ===== src/Poller/Cursor.antt =====
-- How far `pollChunked` of backend/internal/services/poller.go moves the cursor.
use tsflow.Prelude.{
  ℕ, zero, suc, ◌+◌, ◌-◌, ◌*◌, ◌≤◌, ◌<◌, ◌≡◌, refl, ap, ◌∙◌, ◌⊎◌, inl, inr, Bool, true, false,
  Option, none, some, arith, String_eq, ℕ_eq,
}
use Prim.Native.Nat.{min}
use tsflow.Aggregate.Flow.{Devices}
use tsflow.Rolling.Cover.{Time}
use tsflow.Poller.State.{interrupted, keep_later, Outside, Lawful, Poller}
use tsflow.Poller.Range.{Outcome, poll_range, cursor, Advances, poll_range-Advances}
use tsflow.Poller.Chunks.{
  after_chunk, poll_ranges, poll_chunked, ranges, max_poll_chunk, num_chunks,
  poll_chunked-poll_ranges, num_chunks_lem,
}

-- The cursor after `k` chunks, the first of which has index `i`.
abbrev chunk_cursor : ℕ → Time → Time → Option Time → ℕ → Option Time
chunk_cursor i start end before zero = before
chunk_cursor i start end before (suc k) =
    some (keep_later before (min (start + (i + suc k) * max_poll_chunk) end))

-- Of two writes, the later one decides.
keep_later_twice :
    (before : Option Time) (s t : Time)
    → s ≤ t
    → keep_later (some (keep_later before s)) t ≡ keep_later before t
unfolding keep_later
keep_later_twice none s t h = ground (arith, h)
keep_later_twice (some c) s t h = ground (arith, h)

module _ {W : Type 0} (o : Outside W) (d : Devices) (l : Lawful o) where
  -- After `k` of the `c` chunks that start with index `i`: the cursor, and no error only after all.
  abbrev Reaches : ℕ → ℕ → ℕ → ℕ → Poller W → Outcome o d → Type 0
  Reaches i c start end p r =
      (k : ℕ) × (k ≤ c)
      × (cursor o d l r.0 ≡ chunk_cursor i start end (cursor o d l p) k)
      × (r.1 ≡ none → k ≡ c)

  then_chunk :
      (i start end k : ℕ) (b c e : Option Time)
      → c ≡ some (keep_later b (min (start + suc i * max_poll_chunk) end))
      → e ≡ chunk_cursor (suc i) start end c k
      → e ≡ chunk_cursor i start end b (suc k)
  then_chunk i start end zero b c e there at =
      at
      ∙ there
      ∙ ap (λ j. some (keep_later b (min (start + j * max_poll_chunk) end))) (omega arith)
  then_chunk i start end (suc k) b c e there at =
      at
      ∙ ap (λ x. some (keep_later x (min (start + (suc i + suc k) * max_poll_chunk) end))) there
      ∙ ap some (
          keep_later_twice b (min (start + suc i * max_poll_chunk) end)
            (min (start + (suc i + suc k) * max_poll_chunk) end) (ground arith))
      ∙ ap (λ j. some (keep_later b (min (start + j * max_poll_chunk) end))) (omega arith)

  unless_cancelled :
      (b : Bool) (i c start end : ℕ) (p q : Poller W) (r : Outcome o d)
      → cursor o d l q
        ≡ some (keep_later (cursor o d l p) (min (start + suc i * max_poll_chunk) end))
      → Reaches (suc i) c start end q r
      → Reaches i
          (suc c)
          start
          end
          p
          (elim b as (λ _. Outcome o d) [ true ↦ (q, some interrupted) | false ↦ r ])
  unless_cancelled true i c start end p q r there reach = (
    1,
    omega arith,
    then_chunk i start end 0 (cursor o d l p) (cursor o d l q) (cursor o d l q) there refl,
    λ x. cc,
  )
  unless_cancelled false i c start end p q r there (k, le, at, all) = (
    suc k,
    omega arith,
    then_chunk i start end k (cursor o d l p) (cursor o d l q) (cursor o d l r.0) there at,
    λ x. ap suc (all x),
  )

  after_chunk-Reaches :
      (i c start end n completed : ℕ) (p : Poller W) (next : Poller W → Outcome o d)
      (r : Outcome o d)
      → Advances o d l (min (start + suc i * max_poll_chunk) end) p r
      → ((q : Poller W) → Reaches (suc i) c start end q (next q))
      → Reaches i (suc c) start end p (after_chunk o d n completed next r)
  unfolding after_chunk
  after_chunk-Reaches i c start end n completed p next (q, some e) (same, _) h =
      (0, omega arith, same, λ x. cc)
  after_chunk-Reaches i c start end n completed p next (q, none) there h =
      unless_cancelled (o.cancelled q.world) i c start end p q (next q) there (h q)

  poll_ranges-Reaches :
      (c i start end n completed : ℕ) (p : Poller W)
      → Reaches i c start end p (poll_ranges o d n (ranges i c start end) completed p)
  unfolding poll_ranges ranges
  poll_ranges-Reaches zero i start end n completed p = (0, omega arith, refl, λ x. refl)
  poll_ranges-Reaches (suc c) i start end n completed p =
      after_chunk-Reaches i c start end n completed p
        (poll_ranges o d n (ranges (suc i) c start end) (suc completed))
        (poll_range o d (start + i * max_poll_chunk) (min (start + suc i * max_poll_chunk) end) p)
        (poll_range-Advances o d l (start + i * max_poll_chunk)
          (min (start + suc i * max_poll_chunk) end) p)
        (poll_ranges-Reaches c (suc i) start end n (suc completed))

  stands :
      (i start end k : ℕ) (c before : Option Time)
      → c ≡ chunk_cursor i start end before k
      → (c ≡ before)
        ⊎ ((0 < k) × (c ≡ some (keep_later before (min (start + (i + k) * max_poll_chunk) end))))
  stands i start end zero c before h = inl h
  stands i start end (suc k) c before h = inr (omega arith, h)

  finished :
      (start end n k : ℕ) (c before : Option Time)
      → c ≡ chunk_cursor 0 start end before k
      → start < end
      → end ≤ start + n * max_poll_chunk
      → k ≡ n
      → c ≡ some (keep_later before end)
  finished start end n zero c before h lt le e = ground (arith, lt, le, e)
  finished start end n (suc k) c before h lt le e =
      h ∙ ap (λ t. some (keep_later before t)) (ground (arith, lt, le, e))

  -- With a store that keeps the later cursor, in whole seconds, of a write that succeeds, and the
  -- cursor it had otherwise: whatever happens in the poll of a range of some length, the stored cursor
  -- stays where it is or is what the store keeps of it and the end of one of the chunks; a poll
  -- without an error leaves what the store keeps of it and the end of the range.
  pub poll_chunked-cursor :
      (start end : Time) (p : Poller W)
      → start < end
      → ((cursor o d l (poll_chunked o d start end p).0 ≡ cursor o d l p)
          ⊎ ((k : ℕ) × (0 < k)
              × (k ≤ num_chunks (end - start))
              × (cursor o d l (poll_chunked o d start end p).0
                  ≡ some (keep_later (cursor o d l p) (min (start + k * max_poll_chunk) end)))))
        × ((poll_chunked o d start end p).1 ≡ none
            → cursor o d l (poll_chunked o d start end p).0
              ≡ some (keep_later (cursor o d l p) end))
  poll_chunked-cursor start end p lt =
      let n = num_chunks (end - start) in
      let (k, le, at, all) = poll_ranges-Reaches n 0 start end n 0 p in
      let (enough, _) = num_chunks_lem (end - start) in
      rw (poll_chunked-poll_ranges o d start end p (omega arith)) (
        elim (stands 0 start end k (cursor o d l (poll_ranges o d n (ranges 0 n start end) 0 p).0)
            (cursor o d l p) at) [
              | inl e ↦ inl e
              | inr (pos, e) ↦ inr (
                k,
                pos,
                le,
                e
                    ∙ ap
                        (λ j.
                          some (keep_later (cursor o d l p) (min (start + j * max_poll_chunk) end)))
                        (omega arith),
              )
            ],
        λ h.
            finished start end n k (cursor o d l (poll_ranges o d n (ranges 0 n start end) 0 p).0)
              (cursor o d l p) at lt (omega (arith, enough)) (all h),
      )
