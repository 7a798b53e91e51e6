-- ===== src/Aggregate/Stats.antt =====
-- The network-wide statistics of `aggregate` in backend/internal/services/aggregator.go, against a
-- direct description: each counter of a bucket sums the records of its kind in that bucket.
use tsflow.Prelude.{
  ℕ, ℕ_eq, ◌+◌, ◌^◌, ◌%◌, String, ◌≡◌, refl, Bool, false, not, ◌&&◌, List, [], ◌∷◌, Option, none,
  some, arith, ◌==◌, String_eq, eq_iff, eqb, keep, sum_by, length, if◌then◌else◌,
}
use tsflow.Prelude.Maps.{lookup}
use tsflow.Prelude.Groups.{add64, group, fold_found, lookup-group}
use tsflow.Aggregate.Flow.{FlowLog, Devices, is_physical, bucket_of}
use tsflow.Aggregate.Tables.{
  StatsAccum, TrafficPairKey_eq, Tables, no_tables, or_no_stats, count_by_protocol, count_by_type,
}
use tsflow.Aggregate.State.{add_stats, count_flow, add_log, add_logs}

-- The bytes that a record adds to a protocol's counter, and to a traffic type's.
abbrev pub by_protocol : (ℕ → Bool) → FlowLog → ℕ
by_protocol p log = if is_physical log then 0 else if p log.protocol then log.tx_bytes else 0

abbrev pub by_type : String → FlowLog → ℕ
by_type name log = if log.traffic_type == name then log.tx_bytes else 0

abbrev is_other : ℕ → Bool
is_other p = not (eqb p 6) && not (eqb p 17)

-- What the counters hold after records on top of what they held.
pub record Counted (before : StatsAccum) (logs : List FlowLog) (s : StatsAccum) : Type 0 where
  pub tcp :
      s.tcp_bytes % 2 ^ 64 ≡ (before.tcp_bytes + sum_by (by_protocol (λ p. eqb p 6)) logs) % 2 ^ 64
  pub udp :
      s.udp_bytes % 2 ^ 64 ≡ (before.udp_bytes + sum_by (by_protocol (λ p. eqb p 17)) logs) % 2 ^ 64
  pub other :
      s.other_proto_bytes % 2 ^ 64
      ≡ (before.other_proto_bytes + sum_by (by_protocol is_other) logs) % 2 ^ 64
  pub virtual :
      s.virtual_bytes % 2 ^ 64 ≡ (before.virtual_bytes + sum_by (by_type "virtual") logs) % 2 ^ 64
  pub exit : s.exit_bytes % 2 ^ 64 ≡ (before.exit_bytes + sum_by (by_type "exit") logs) % 2 ^ 64
  pub subnet :
      s.subnet_bytes % 2 ^ 64 ≡ (before.subnet_bytes + sum_by (by_type "subnet") logs) % 2 ^ 64
  pub physical :
      s.physical_bytes % 2 ^ 64
      ≡ (before.physical_bytes + sum_by (by_type "physical") logs) % 2 ^ 64
  pub flows : s.total_flows % 2 ^ 64 ≡ (before.total_flows + length logs) % 2 ^ 64

protocol_counted :
    (log : FlowLog) (s : StatsAccum)
    → let r = count_by_protocol log s in
      (r.tcp_bytes % 2 ^ 64 ≡ (s.tcp_bytes + by_protocol (λ p. eqb p 6) log) % 2 ^ 64)
      × (r.udp_bytes % 2 ^ 64 ≡ (s.udp_bytes + by_protocol (λ p. eqb p 17) log) % 2 ^ 64)
      × (r.other_proto_bytes % 2 ^ 64 ≡ (s.other_proto_bytes + by_protocol is_other log) % 2 ^ 64)
      × (r.virtual_bytes ≡ s.virtual_bytes)
      × (r.exit_bytes ≡ s.exit_bytes)
      × (r.subnet_bytes ≡ s.subnet_bytes)
      × (r.physical_bytes ≡ s.physical_bytes)
      × (r.total_flows ≡ s.total_flows)
unfolding count_by_protocol
protocol_counted log s = ground arith

-- A text equals at most one of two that differ.
apart : (t a b : String) → (a == b) ≡ false → (t == a && t == b) ≡ false
apart t a b h = ground (arith, eq_iff t a, eq_iff t b, eq_iff a b)

type_counted :
    (log : FlowLog) (s : StatsAccum)
    → let r = count_by_type log s in
      (r.virtual_bytes % 2 ^ 64 ≡ (s.virtual_bytes + by_type "virtual" log) % 2 ^ 64)
      × (r.exit_bytes % 2 ^ 64 ≡ (s.exit_bytes + by_type "exit" log) % 2 ^ 64)
      × (r.subnet_bytes % 2 ^ 64 ≡ (s.subnet_bytes + by_type "subnet" log) % 2 ^ 64)
      × (r.physical_bytes % 2 ^ 64 ≡ (s.physical_bytes + by_type "physical" log) % 2 ^ 64)
      × (r.tcp_bytes ≡ s.tcp_bytes)
      × (r.udp_bytes ≡ s.udp_bytes)
      × (r.other_proto_bytes ≡ s.other_proto_bytes)
      × (r.total_flows ≡ s.total_flows)
unfolding count_by_type
type_counted log s =
    let t = log.traffic_type in
    ground (
      arith,
      apart t "virtual" "exit" refl,
      apart t "virtual" "subnet" refl,
      apart t "virtual" "physical" refl,
      apart t "exit" "subnet" refl,
      apart t "exit" "physical" refl,
      apart t "subnet" "physical" refl,
    )

module _ (d : Devices) where
  flow_counted :
      (log : FlowLog) (s : StatsAccum)
      → let r = count_flow d log s in
        (r.tcp_bytes ≡ s.tcp_bytes)
        × (r.udp_bytes ≡ s.udp_bytes)
        × (r.other_proto_bytes ≡ s.other_proto_bytes)
        × (r.virtual_bytes ≡ s.virtual_bytes)
        × (r.exit_bytes ≡ s.exit_bytes)
        × (r.subnet_bytes ≡ s.subnet_bytes)
        × (r.physical_bytes ≡ s.physical_bytes)
        × (r.total_flows ≡ add64 s.total_flows 1)
  unfolding count_flow
  flow_counted log s = (refl, refl, refl, refl, refl, refl, refl, refl)

  add_stats-Counted :
      (log : FlowLog) (o : Option StatsAccum)
      → Counted (or_no_stats o) (log ∷ []) (add_stats d log o)
  unfolding add_stats
  add_stats-Counted log o =
      let s = or_no_stats o in
      let a = count_by_protocol log s in
      let b = count_by_type log a in
      let p = protocol_counted log s in
      let q = type_counted log a in
      let r = flow_counted log b in
      record {
        tcp = omega (arith, p, q, r);
        udp = omega (arith, p, q, r);
        other = omega (arith, p, q, r);
        virtual = omega (arith, p, q, r);
        exit = omega (arith, p, q, r);
        subnet = omega (arith, p, q, r);
        physical = omega (arith, p, q, r);
        flows = omega (arith, p, q, r);
      }

  Counted-trans :
      (a b c : StatsAccum) (xs : List FlowLog) (x : FlowLog)
      → Counted a (x ∷ []) b
      → Counted b xs c
      → Counted a (x ∷ xs) c
  Counted-trans a b c xs x p q = record {
    tcp = omega (arith, p.tcp, q.tcp);
    udp = omega (arith, p.udp, q.udp);
    other = omega (arith, p.other, q.other);
    virtual = omega (arith, p.virtual, q.virtual);
    exit = omega (arith, p.exit, q.exit);
    subnet = omega (arith, p.subnet, q.subnet);
    physical = omega (arith, p.physical, q.physical);
    flows = omega (arith, p.flows, q.flows);
  }

  fold_found-Counted :
      (logs : List FlowLog) (o : Option StatsAccum)
      → Counted (or_no_stats o) logs (or_no_stats (fold_found bucket_of (add_stats d) logs o))
  unfolding fold_found or_no_stats
  fold_found-Counted [] o = record {
    tcp = omega arith;
    udp = omega arith;
    other = omega arith;
    virtual = omega arith;
    exit = omega arith;
    subnet = omega arith;
    physical = omega arith;
    flows = omega arith;
  }
  fold_found-Counted (log ∷ logs) o =
      Counted-trans (or_no_stats o) (add_stats d log o) _ logs log (add_stats-Counted log o)
        (fold_found-Counted logs (some (add_stats d log o)))

  stats-add_logs :
      (logs : List FlowLog) (t : Tables)
      → (add_logs d logs t).stats ≡ group bucket_of (add_stats d) logs t.stats
  unfolding add_logs add_log group
  stats-add_logs [] t = refl
  stats-add_logs (log ∷ logs) t = stats-add_logs logs (add_log d log t)

  -- Every counter of a bucket is the int64 sum of the records of its kind in that bucket: protocols
  -- over the records that are not physical, traffic types over all, and the number of records.
  pub lookup-stats :
      (logs : List FlowLog) (b : ℕ)
      → Counted
          (or_no_stats none)
          (keep (λ l. bucket_of l == b) logs)
          (or_no_stats (lookup b (add_logs d logs no_tables).stats))
  unfolding lookup
  lookup-stats logs b =
      rw (stats-add_logs logs no_tables, lookup-group bucket_of (add_stats d) logs [] b)
        (fold_found-Counted (keep (λ l. bucket_of l == b) logs) none)
