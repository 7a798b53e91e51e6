-- ===== src/Convert/Exact.antt =====
-- The cap on the counters in backend/internal/services/log_converter.go, against the sums of aggregator.go:
-- half a million records do not overflow.
use tsflow.Prelude.{
  ℕ, ◌*◌, ◌^◌, ◌≤◌, ◌<◌, String, ◌≡◌, refl, sym, ◌∙◌, subst, Bool, List, [], ◌∷◌, Option, none,
  some, arith, ◌==◌, String_eq, ℕ_eq, length, All, keep, sum_by,
}
use tsflow.Prelude.Lists.{All-keep}
use tsflow.Prelude.Maps.{lookup}
use tsflow.Rolling.Cover.{Time}
use tsflow.Aggregate.Flow.{FlowLog, Devices, PairKey, PairKey_eq, pair_key}
use tsflow.Aggregate.Tables.{PairRow, no_tables}
use tsflow.Aggregate.State.{add_logs}
use tsflow.Aggregate.Pairs.{IsWord, forward, backward, expected_row, lookup-pairs}
use tsflow.Convert.Counter.{max_flow_counter}
use tsflow.Convert.Generic.{LogsResponse, convert_logs}
use tsflow.Convert.StoredTyped.{IsStored}
use tsflow.Convert.Stored.{convert_logs-IsStored}

abbrev pub IsCapped : FlowLog → Type 0
IsCapped l = (l.tx_bytes ≤ max_flow_counter) × (l.tx_pkts ≤ max_flow_counter)

All-IsCapped : (logs : List FlowLog) → All IsStored logs → All IsCapped logs
All-IsCapped [] h = tt
All-IsCapped (l ∷ logs) (h, hs) = ((h.2.0, h.2.2), All-IsCapped logs hs)

All-IsWord : (logs : List FlowLog) → All IsCapped logs → All IsWord logs
All-IsWord [] h = tt
All-IsWord (l ∷ logs) ((p, q), hs) = ((omega (arith, p), omega (arith, q)), All-IsWord logs hs)

length-keep : (p : FlowLog → Bool) (logs : List FlowLog) → length (keep p logs) ≤ length logs
length-keep p [] = omega arith
length-keep p (l ∷ logs) = ground (arith, length-keep p logs)

module _ (d : Devices) where
  -- The sums as numbers
  abbrev pub exact_row : List FlowLog → Option PairRow
  exact_row [] = none
  exact_row (log ∷ logs) = some (record {
    tx_bytes = sum_by (forward d (λ l. l.tx_bytes)) (log ∷ logs);
    rx_bytes = sum_by (backward d (λ l. l.tx_bytes)) (log ∷ logs);
    tx_pkts = sum_by (forward d (λ l. l.tx_pkts)) (log ∷ logs);
    rx_pkts = sum_by (backward d (λ l. l.tx_pkts)) (log ∷ logs);
    flow_count = length (log ∷ logs);
  })

  -- No counter is negative as an int64.
  abbrev pub NoOverflow : Option PairRow → Type 0
  NoOverflow none = Unit
  NoOverflow (some r) =
      (r.tx_bytes < 2 ^ 63)
      × (r.rx_bytes < 2 ^ 63)
      × (r.tx_pkts < 2 ^ 63)
      × (r.rx_pkts < 2 ^ 63)
      × (r.flow_count < 2 ^ 63)

  sum_bounded :
      (f : FlowLog → ℕ) (logs : List FlowLog)
      → All (λ l. f l ≤ max_flow_counter) logs
      → sum_by f logs ≤ length logs * max_flow_counter
  sum_bounded f [] h = omega arith
  sum_bounded f (l ∷ logs) (h, hs) = omega (arith, h, sum_bounded f logs hs)

  forward-le :
      (f : FlowLog → ℕ) (logs : List FlowLog)
      → All (λ l. f l ≤ max_flow_counter) logs
      → All (λ l. forward d f l ≤ max_flow_counter) logs
  forward-le f [] h = tt
  forward-le f (l ∷ logs) (h, hs) = (ground (arith, h), forward-le f logs hs)

  backward-le :
      (f : FlowLog → ℕ) (logs : List FlowLog)
      → All (λ l. f l ≤ max_flow_counter) logs
      → All (λ l. backward d f l ≤ max_flow_counter) logs
  backward-le f [] h = tt
  backward-le f (l ∷ logs) (h, hs) = (ground (arith, h), backward-le f logs hs)

  of_bytes :
      (logs : List FlowLog) → All IsCapped logs → All (λ l. l.tx_bytes ≤ max_flow_counter) logs
  of_bytes [] h = tt
  of_bytes (l ∷ logs) (h, hs) = (h.0, of_bytes logs hs)

  of_pkts : (logs : List FlowLog) → All IsCapped logs → All (λ l. l.tx_pkts ≤ max_flow_counter) logs
  of_pkts [] h = tt
  of_pkts (l ∷ logs) (h, hs) = (h.1, of_pkts logs hs)

  exact-NoOverflow :
      (logs : List FlowLog) → All IsCapped logs → length logs ≤ 500000 → NoOverflow (exact_row logs)
  exact-NoOverflow [] h le = tt
  exact-NoOverflow (log ∷ logs) h le =
      let fits : (f : FlowLog → ℕ)
          → All (λ l. f l ≤ max_flow_counter) (log ∷ logs)
          → sum_by f (log ∷ logs) < 2 ^ 63 =
        λ f c. omega (arith, le, sum_bounded f (log ∷ logs) c) in
      let bytes = of_bytes (log ∷ logs) h in
      let pkts = of_pkts (log ∷ logs) h in
      (
        fits (forward d (λ l. l.tx_bytes)) (forward-le (λ l. l.tx_bytes) (log ∷ logs) bytes),
        fits (backward d (λ l. l.tx_bytes)) (backward-le (λ l. l.tx_bytes) (log ∷ logs) bytes),
        fits (forward d (λ l. l.tx_pkts)) (forward-le (λ l. l.tx_pkts) (log ∷ logs) pkts),
        fits (backward d (λ l. l.tx_pkts)) (backward-le (λ l. l.tx_pkts) (log ∷ logs) pkts),
        omega (arith, le),
      )

  expected-exact :
      (logs : List FlowLog) → NoOverflow (exact_row logs) → expected_row d logs ≡ exact_row logs
  expected-exact [] h = refl
  expected-exact (log ∷ logs) (a, b, c, e, f) = ground (arith, a, b, c, e, f)

  module _ (is_ip : String → Bool) (parse_time : String → Option Time) where
    -- When a response makes at most half a million records, each pair's row holds their exact sums by
    -- direction, and each sum is an int64.
    pub convert_logs-exact_row :
        (r : LogsResponse) (k : PairKey)
        → length (convert_logs is_ip parse_time r) ≤ 500000
        → (lookup k (add_logs d (convert_logs is_ip parse_time r) no_tables).pairs
            ≡ exact_row (keep (λ l. pair_key d l == k) (convert_logs is_ip parse_time r)))
          × NoOverflow (lookup k (add_logs d (convert_logs is_ip parse_time r) no_tables).pairs)
    convert_logs-exact_row r k le = (row, subst NoOverflow (sym row) fits)
      where
        logs : List FlowLog
        logs = convert_logs is_ip parse_time r

        capped : All IsCapped logs
        capped = All-IsCapped logs (convert_logs-IsStored is_ip parse_time r)

        mine : List FlowLog
        mine = keep (λ l. pair_key d l == k) logs

        fits : NoOverflow (exact_row mine)
        fits =
            exact-NoOverflow mine (All-keep IsCapped (λ l. pair_key d l == k) logs capped)
              (omega (arith, le, length-keep (λ l. pair_key d l == k) logs))

        row : lookup k (add_logs d logs no_tables).pairs ≡ exact_row mine
        row = lookup-pairs d logs k (All-IsWord logs capped) ∙ expected-exact mine fits
