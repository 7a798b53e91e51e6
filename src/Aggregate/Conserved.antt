-- ===== src/Aggregate/Conserved.antt =====
-- No byte is lost or counted twice by `aggregate` of backend/internal/services/aggregator.go: the
-- totals of its tables against the total of the records.
use tsflow.Prelude.{
  ℕ, ℕ_eq, ◌+◌, ◌^◌, ◌%◌, ◌≡◌, refl, List, [], ◌∷◌, Option, none, some, arith, Eq, ◌==◌, String_eq,
  sum_by, if◌then◌else◌, Bool-cases, inl, inr,
}
use tsflow.Prelude.Maps.{Map, lookup, insert}
use tsflow.Prelude.Groups.{upsert}
use tsflow.Aggregate.Flow.{
  bucket_of, FlowLog, Devices, PairKey_eq, is_physical, sender, receiver, pair_key,
}
use tsflow.Aggregate.Tables.{
  PairRow, Bandwidth, NodeKey, NodeKey_eq, Tables, no_tables, add_tx, add_rx,
}
use tsflow.Aggregate.State.{sender_key, receiver_key, add_pair, add_nodes, add_log, add_logs}

abbrev found {κ} : {V : Type κ} → (V → ℕ) → Option V → ℕ
found f none = 0
found f (some v) = f v

module _ {ℓ κ} {K : Type ℓ} {V : Type κ} (f : V → ℕ) where
  -- The sum over the values of a map.
  unfoldable pub total : Map K V → ℕ
  total [] = 0
  total ((k, v) ∷ m) = f v + total m

module _ {ℓ κ} {K : Type ℓ} {V : Type κ} ⦃e : Eq K⦄ (f : V → ℕ) where
  total-insert :
      (k : K) (v : V) (m : Map K V)
      → total f (insert k v m) + found f (lookup k m) ≡ total f m + f v
  unfolding total insert lookup
  total-insert k v [] = omega arith
  total-insert k v ((j, w) ∷ m) = elim (Bool-cases (j == k)) [
    | inl h ↦ rw h (omega arith)
    | inr h ↦ rw h (omega (arith, total-insert k v m))
  ]

  -- A value that grows by `n`, modulo 2 ^ 64, makes the total grow by `n`.
  total-upsert :
      (k : K) (g : Option V → V) (n : ℕ) (m : Map K V)
      → f (g (lookup k m)) % 2 ^ 64 ≡ (found f (lookup k m) + n) % 2 ^ 64
      → total f (upsert k g m) % 2 ^ 64 ≡ (total f m + n) % 2 ^ 64
  unfolding upsert
  total-upsert k g n m h = omega (arith, total-insert k (g (lookup k m)) m, h)

abbrev pub row_bytes : PairRow → ℕ
row_bytes r = r.tx_bytes + r.rx_bytes

abbrev pub sent_bytes : Bandwidth → ℕ
sent_bytes b = b.tx_bytes

abbrev pub received_bytes : Bandwidth → ℕ
received_bytes b = b.rx_bytes

-- The traffic that users sent, and the part of it that goes to another node.
abbrev pub user_bytes : FlowLog → ℕ
user_bytes log = if is_physical log then 0 else log.tx_bytes

module _ (d : Devices) where
  abbrev pub crossing_bytes : FlowLog → ℕ
  crossing_bytes log =
      if is_physical log then 0 else if sender d log == receiver d log then 0 else log.tx_bytes

  grown_row :
      (log : FlowLog) (o : Option PairRow)
      → row_bytes (add_pair d log o) % 2 ^ 64 ≡ (found row_bytes o + log.tx_bytes) % 2 ^ 64
  unfolding add_pair
  grown_row log none = ground arith
  grown_row log (some r) = ground arith

  grown_tx :
      (log : FlowLog) (o : Option Bandwidth)
      → (sent_bytes (add_tx log o) % 2 ^ 64 ≡ (found sent_bytes o + log.tx_bytes) % 2 ^ 64)
        × (received_bytes (add_tx log o) % 2 ^ 64 ≡ (found received_bytes o + 0) % 2 ^ 64)
  unfolding add_tx
  grown_tx log none = (omega arith, omega arith)
  grown_tx log (some r) = (omega arith, omega arith)

  grown_rx :
      (log : FlowLog) (o : Option Bandwidth)
      → (sent_bytes (add_rx log o) % 2 ^ 64 ≡ (found sent_bytes o + 0) % 2 ^ 64)
        × (received_bytes (add_rx log o) % 2 ^ 64
            ≡ (found received_bytes o + log.tx_bytes) % 2 ^ 64)
  unfolding add_rx
  grown_rx log none = (omega arith, omega arith)
  grown_rx log (some r) = (omega arith, omega arith)

  record Totals (t : Tables) (all user crossing : ℕ) : Type 0 where
    pairs : total row_bytes t.pairs % 2 ^ 64 ≡ all % 2 ^ 64
    network : total sent_bytes t.bandwidth % 2 ^ 64 ≡ user % 2 ^ 64
    sent : total sent_bytes t.node_bandwidth % 2 ^ 64 ≡ user % 2 ^ 64
    received : total received_bytes t.node_bandwidth % 2 ^ 64 ≡ crossing % 2 ^ 64

  add_log-pairs :
      (log : FlowLog) (t : Tables)
      → total row_bytes (add_log d log t).pairs % 2 ^ 64
        ≡ (total row_bytes t.pairs + log.tx_bytes) % 2 ^ 64
  unfolding add_log
  add_log-pairs log t =
      total-upsert row_bytes (pair_key d log) (add_pair d log) log.tx_bytes t.pairs
        (grown_row log (lookup (pair_key d log) t.pairs))

  add_log-network :
      (log : FlowLog) (t : Tables)
      → total sent_bytes (add_log d log t).bandwidth % 2 ^ 64
        ≡ (total sent_bytes t.bandwidth + user_bytes log) % 2 ^ 64
  unfolding add_log
  add_log-network log t = ground (
    arith,
    total-upsert sent_bytes (bucket_of log) (add_tx log) log.tx_bytes t.bandwidth
        (grown_tx log (lookup (bucket_of log) t.bandwidth)).0,
  )

  add_nodes_lem :
      (log : FlowLog) (m : Map NodeKey Bandwidth)
      → (total sent_bytes (add_nodes d log m) % 2 ^ 64
          ≡ (total sent_bytes m + log.tx_bytes) % 2 ^ 64)
        × (total received_bytes (add_nodes d log m) % 2 ^ 64
            ≡ (total received_bytes m
                + (if sender d log == receiver d log then 0 else log.tx_bytes))
              % 2 ^ 64)
  unfolding add_nodes
  add_nodes_lem log m =
      let m' = upsert (sender_key d log) (add_tx log) m in
      let g = grown_tx log (lookup (sender_key d log) m) in
      let h = grown_rx log (lookup (receiver_key d log) m') in
      let a = total-upsert sent_bytes (sender_key d log) (add_tx log) log.tx_bytes m g.0 in
      let b = total-upsert received_bytes (sender_key d log) (add_tx log) 0 m g.1 in
      let p = total-upsert sent_bytes (receiver_key d log) (add_rx log) 0 m' h.0 in
      let q = total-upsert received_bytes (receiver_key d log) (add_rx log) log.tx_bytes m' h.1 in
      elim (Bool-cases (sender d log == receiver d log)) [
        | inl s ↦ rw s (a, b)
        | inr s ↦ rw s (omega (arith, a, p), omega (arith, b, q))
      ]

  add_log-nodes :
      (log : FlowLog) (t : Tables)
      → (total sent_bytes (add_log d log t).node_bandwidth % 2 ^ 64
          ≡ (total sent_bytes t.node_bandwidth + user_bytes log) % 2 ^ 64)
        × (total received_bytes (add_log d log t).node_bandwidth % 2 ^ 64
            ≡ (total received_bytes t.node_bandwidth + crossing_bytes log) % 2 ^ 64)
  unfolding add_log
  add_log-nodes log t = elim (Bool-cases (is_physical log)) [
    | inl s ↦ rw s (omega arith, omega arith)
    | inr s ↦ rw s (add_nodes_lem log t.node_bandwidth)
  ]

  add_logs-Totals :
      (logs : List FlowLog) (t : Tables) (all user crossing : ℕ)
      → Totals t all user crossing
      → Totals
          (add_logs d logs t)
          (all + sum_by (λ l. l.tx_bytes) logs)
          (user + sum_by user_bytes logs)
          (crossing + sum_by crossing_bytes logs)
  unfolding add_logs
  add_logs-Totals [] t all user crossing h = record {
    pairs = omega (arith, h.pairs);
    network = omega (arith, h.network);
    sent = omega (arith, h.sent);
    received = omega (arith, h.received);
  }
  add_logs-Totals (log ∷ logs) t all user crossing h =
      let n = add_log-nodes log t in
      let r =
        add_logs-Totals logs (add_log d log t) (all + log.tx_bytes) (user + user_bytes log)
          (crossing + crossing_bytes log)
          (record {
            pairs = omega (arith, h.pairs, add_log-pairs log t);
            network = omega (arith, h.network, add_log-network log t);
            sent = omega (arith, h.sent, n.0);
            received = omega (arith, h.received, n.1);
          }) in
      record {
        pairs = omega (arith, r.pairs);
        network = omega (arith, r.network);
        sent = omega (arith, r.sent);
        received = omega (arith, r.received);
      }

  -- Over any records: the bytes of all node pair rows, both directions together, are the bytes sent in
  -- the records; the network bandwidth and the TX of all nodes are those of the records that are not
  -- physical, each counted once; the RX of all nodes is what crossed from one node to another. All
  -- sums are int64 sums.
  pub add_logs-conserves :
      (logs : List FlowLog)
      → let t = add_logs d logs no_tables in
        (total row_bytes t.pairs % 2 ^ 64 ≡ sum_by (λ l. l.tx_bytes) logs % 2 ^ 64)
        × (total sent_bytes t.bandwidth % 2 ^ 64 ≡ sum_by user_bytes logs % 2 ^ 64)
        × (total sent_bytes t.node_bandwidth % 2 ^ 64 ≡ sum_by user_bytes logs % 2 ^ 64)
        × (total received_bytes t.node_bandwidth % 2 ^ 64 ≡ sum_by crossing_bytes logs % 2 ^ 64)
  add_logs-conserves logs =
      let z : Totals no_tables 0 0 0 = record {
        pairs = unfold total in refl;
        network = unfold total in refl;
        sent = unfold total in refl;
        received = unfold total in refl;
      } in
      let r = add_logs-Totals logs no_tables 0 0 0 z in
      (
        omega (arith, r.pairs),
        omega (arith, r.network),
        omega (arith, r.sent),
        omega (arith, r.received),
      )
