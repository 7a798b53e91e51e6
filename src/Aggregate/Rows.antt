-- ===== src/Aggregate/Rows.antt =====
-- The rows that `aggregate` in backend/internal/services/aggregator.go returns: each map as a list in
-- a fixed order, with the protocols by bytes and the twenty largest ports. What the code encodes as
-- JSON text (by encoding/json) stands here as the lists and maps themselves.
use tsflow.Prelude.{
  ℕ, Bool, true, not, List, map, ◌==◌, String_eq, eqb, ltb, length, take, if◌then◌else◌,
}
use tsflow.Prelude.Maps.{Map, lookup}
use tsflow.Prelude.Groups.{less64}
use tsflow.Prelude.Sort.{sort, before_str}
use tsflow.Aggregate.Flow.{FlowLog, Devices, PairKey, PairKey_eq}
use tsflow.Aggregate.Tables.{
  PairRow, PortKey, PairProtos, StatsAccum, NodeKey, Bandwidth, Tables, no_tables, or_no_protos,
}
use tsflow.Aggregate.State.{add_logs}

-- database.PortStat
pub record PortStat : Type 0 where
  pub port : ℕ
  pub proto : ℕ
  pub bytes : ℕ

unfoldable pub before_port : PortStat → PortStat → Bool
before_port a b =
    if not (eqb a.bytes b.bytes)
    then less64 b.bytes a.bytes
    else if not (eqb a.proto b.proto)
    then less64 a.proto b.proto
    else ltb a.port b.port

abbrev pub port_stat : PortKey × ℕ → PortStat
port_stat (k, bytes) = record { port = k.port; proto = k.proto; bytes = bytes }

unfoldable pub top_ports : Map PortKey ℕ → List PortStat
top_ports m = take 20 (sort before_port (map port_stat m))

unfoldable pub before_protocol : ℕ × ℕ → ℕ × ℕ → Bool
before_protocol (p, x) (q, y) = if not (eqb x y) then less64 y x else less64 p q

abbrev protocol_of : ℕ × ℕ → ℕ
protocol_of (p, x) = p

unfoldable pub protocols_by_bytes : Map ℕ ℕ → List ℕ
protocols_by_bytes m = map protocol_of (sort before_protocol m)

-- database.NodePairAggregate
pub record NodePairAggregate : Type 0 where
  pub key : PairKey
  pub row : PairRow
  pub protocols : List ℕ
  pub protocol_bytes : Map ℕ ℕ
  pub tx_protocol_bytes : Map ℕ ℕ
  pub rx_protocol_bytes : Map ℕ ℕ
  pub ports : List PortStat
  pub tx_ports : List PortStat
  pub rx_ports : List PortStat
  pub directional_ports : Bool

unfoldable pub pair_aggregate : Map PairKey PairProtos → PairKey × PairRow → NodePairAggregate
pair_aggregate protos (k, row) =
    let p = or_no_protos (lookup k protos) in
    record {
      key = k;
      row = row;
      protocols = protocols_by_bytes p.protocols;
      protocol_bytes = p.protocols;
      tx_protocol_bytes = p.tx_protocols;
      rx_protocol_bytes = p.rx_protocols;
      ports = top_ports p.ports;
      tx_ports = top_ports p.tx_ports;
      rx_ports = top_ports p.rx_ports;
      directional_ports = true;
    }

unfoldable pub before_key : PairKey → PairKey → Bool
before_key a b =
    if not (eqb a.bucket b.bucket)
    then ltb a.bucket b.bucket
    else if not (a.node_a == b.node_a)
    then before_str a.node_a b.node_a
    else if not (a.node_b == b.node_b)
    then before_str a.node_b b.node_b
    else before_str a.traffic_type b.traffic_type

-- database.TrafficStats
pub record TrafficStats : Type 0 where
  pub bucket : ℕ
  pub counters : StatsAccum
  pub unique_pairs : ℕ
  pub top : List PortStat

abbrev stats_row : ℕ × StatsAccum → TrafficStats
stats_row (b, s) = record {
  bucket = b;
  counters = s;
  unique_pairs = length s.unique_pairs;
  top = top_ports s.ports;
}

unfoldable pub before_node : NodeKey × Bandwidth → NodeKey × Bandwidth → Bool
before_node (a, x) (b, y) =
    if not (eqb a.bucket b.bucket) then ltb a.bucket b.bucket else before_str a.node_id b.node_id

pub record Aggregates : Type 0 where
  pub node_pairs : List NodePairAggregate
  pub bandwidth : List (ℕ × Bandwidth)
  pub node_bandwidth : List (NodeKey × Bandwidth)
  pub traffic_stats : List TrafficStats

abbrev before_bucket : ℕ × Bandwidth → ℕ × Bandwidth → Bool
before_bucket (a, x) (b, y) = ltb a b

unfoldable pub rows_of : Tables → Aggregates
rows_of t = record {
  node_pairs = sort (λ a b. before_key a.key b.key) (map (pair_aggregate t.protos) t.pairs);
  bandwidth = sort before_bucket t.bandwidth;
  node_bandwidth = sort before_node t.node_bandwidth;
  traffic_stats = sort (λ a b. ltb a.bucket b.bucket) (map stats_row t.stats);
}

unfoldable pub aggregate : Devices → List FlowLog → Aggregates
aggregate d logs = rows_of (add_logs d logs no_tables)
