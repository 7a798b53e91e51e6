-- ===== src/Aggregate/Pairs.antt =====
-- The node pair rows of `aggregate` in backend/internal/services/aggregator.go, against a direct
-- description: the row of a key sums the records of that key, each in its direction.
use tsflow.Prelude.{
  ℕ, ◌+◌, ◌^◌, ◌%◌, ◌<◌, ◌≡◌, refl, ◌∙◌, ap, List, [], ◌∷◌, Option, none, some, arith, ◌==◌, keep,
  sum_by, length, All, All-keep, if◌then◌else◌,
}
use tsflow.Prelude.Maps.{lookup}
use tsflow.Prelude.Groups.{group, fold_found, lookup-group}
use tsflow.Aggregate.Flow.{FlowLog, Devices, PairKey, PairKey_eq, is_reverse, pair_key}
use tsflow.Aggregate.Tables.{PairRow, Tables, no_tables}
use tsflow.Aggregate.State.{add_pair, add_log, add_logs}

-- The counters that `aggregate` adds are int64 values.
abbrev pub IsWord : FlowLog → Type 0
IsWord log = (log.tx_bytes < 2 ^ 64) × (log.tx_pkts < 2 ^ 64)

module _ (d : Devices) where
  abbrev pub forward : (FlowLog → ℕ) → FlowLog → ℕ
  forward f log = if is_reverse d log then 0 else f log

  abbrev pub backward : (FlowLog → ℕ) → FlowLog → ℕ
  backward f log = if is_reverse d log then f log else 0

  -- The row of records that have one key.
  abbrev pub row_of : List FlowLog → PairRow
  row_of logs = record {
    tx_bytes = sum_by (forward (λ l. l.tx_bytes)) logs % 2 ^ 64;
    rx_bytes = sum_by (backward (λ l. l.tx_bytes)) logs % 2 ^ 64;
    tx_pkts = sum_by (forward (λ l. l.tx_pkts)) logs % 2 ^ 64;
    rx_pkts = sum_by (backward (λ l. l.tx_pkts)) logs % 2 ^ 64;
    flow_count = length logs % 2 ^ 64;
  }

  abbrev pub expected_row : List FlowLog → Option PairRow
  expected_row [] = none
  expected_row (log ∷ logs) = some (row_of (log ∷ logs))

  pairs-add_logs :
      (logs : List FlowLog) (t : Tables)
      → (add_logs d logs t).pairs ≡ group (pair_key d) (add_pair d) logs t.pairs
  unfolding add_logs add_log group
  pairs-add_logs [] t = refl
  pairs-add_logs (log ∷ logs) t = pairs-add_logs logs (add_log d log t)

  abbrev more : PairRow → List FlowLog → PairRow
  more r logs = record {
    tx_bytes = (r.tx_bytes + sum_by (forward (λ l. l.tx_bytes)) logs) % 2 ^ 64;
    rx_bytes = (r.rx_bytes + sum_by (backward (λ l. l.tx_bytes)) logs) % 2 ^ 64;
    tx_pkts = (r.tx_pkts + sum_by (forward (λ l. l.tx_pkts)) logs) % 2 ^ 64;
    rx_pkts = (r.rx_pkts + sum_by (backward (λ l. l.tx_pkts)) logs) % 2 ^ 64;
    flow_count = (r.flow_count + length logs) % 2 ^ 64;
  }

  abbrev RowIsWord : PairRow → Type 0
  RowIsWord r =
      (r.tx_bytes < 2 ^ 64)
      × (r.rx_bytes < 2 ^ 64)
      × (r.tx_pkts < 2 ^ 64)
      × (r.rx_pkts < 2 ^ 64)
      × (r.flow_count < 2 ^ 64)

  add_pair-IsWord :
      (log : FlowLog) (r : PairRow) → IsWord log → RowIsWord r → RowIsWord (add_pair d log (some r))
  unfolding add_pair
  add_pair-IsWord log r h w = ground arith

  fold_found-more :
      (logs : List FlowLog) (r : PairRow)
      → All IsWord logs
      → RowIsWord r
      → fold_found (pair_key d) (add_pair d) logs (some r) ≡ some (more r logs)
  unfolding fold_found
  fold_found-more [] r h w = ground arith
  fold_found-more (log ∷ logs) r h w =
      fold_found-more logs (add_pair d log (some r)) h.1 (add_pair-IsWord log r h.0 w)
      ∙ ap some (one_more log logs r)
    where
      one_more :
          (log : FlowLog) (logs : List FlowLog) (r : PairRow)
          → more (add_pair d log (some r)) logs ≡ more r (log ∷ logs)
      one_more log logs r = unfold add_pair in ground arith

  first_one :
      (log : FlowLog) (logs : List FlowLog) → more (add_pair d log none) logs ≡ row_of (log ∷ logs)
  unfolding add_pair
  first_one log logs = ground arith

  first-IsWord : (log : FlowLog) → IsWord log → RowIsWord (add_pair d log none)
  unfolding add_pair
  first-IsWord log h = ground arith

  fold_found-expected :
      (logs : List FlowLog)
      → All IsWord logs
      → fold_found (pair_key d) (add_pair d) logs none ≡ expected_row logs
  unfolding fold_found
  fold_found-expected [] h = refl
  fold_found-expected (log ∷ logs) h =
      fold_found-more logs (add_pair d log none) h.1 (first-IsWord log h.0)
      ∙ ap some (first_one log logs)

  -- After any records, each key has the row that sums its records, TX and RX by their direction, and
  -- a key of no record has none. The sums are int64 sums.
  pub lookup-pairs :
      (logs : List FlowLog) (k : PairKey)
      → All IsWord logs
      → lookup k (add_logs d logs no_tables).pairs
        ≡ expected_row (keep (λ l. pair_key d l == k) logs)
  unfolding lookup
  lookup-pairs logs k h =
      ap (lookup k) (pairs-add_logs logs no_tables)
      ∙ lookup-group (pair_key d) (add_pair d) logs [] k
      ∙ fold_found-expected (keep (λ l. pair_key d l == k) logs)
          (All-keep IsWord (λ l. pair_key d l == k) logs h)
