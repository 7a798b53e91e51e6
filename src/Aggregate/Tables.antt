-- ===== src/Aggregate/Tables.antt =====
-- The maps that `aggregate` in backend/internal/services/aggregator.go fills, and how one flow record
-- adds to the value of a key where that does not depend on the direction.
use tsflow.Prelude.{
  ℕ, String, ◌≡◌, ◌↔◌, Bool, true, not, ◌&&◌, [], Option, none, some, arith, Eq, ◌==◌, String_eq,
  eq_iff, eqb, ltb, if◌then◌else◌, ℕ_eq,
}
use tsflow.Prelude.Maps.{Map}
use tsflow.Prelude.Groups.{add64}
use tsflow.Aggregate.Flow.{FlowLog, PairKey, PairKey_eq, is_physical, service_port}

-- database.NodePairAggregate, as the loop fills it
pub record PairRow : Type 0 where
  pub tx_bytes : ℕ
  pub rx_bytes : ℕ
  pub tx_pkts : ℕ
  pub rx_pkts : ℕ
  pub flow_count : ℕ

-- protoPortKey
pub record PortKey : Type 0 where
  pub proto : ℕ
  pub port : ℕ

pub port_beq_iff : (a b : PortKey) → (eqb a.proto b.proto && eqb a.port b.port ≡ true) ↔ (a ≡ b)
port_beq_iff a b = ground arith

instance abbrev pub PortKey_eq : Eq PortKey
PortKey_eq = record {
  beq = λ a b. eqb a.proto b.proto && eqb a.port b.port;
  beq_iff = port_beq_iff;
}

-- pairProtoData
pub record PairProtos : Type 0 where
  pub protocols : Map ℕ ℕ
  pub ports : Map PortKey ℕ
  pub tx_protocols : Map ℕ ℕ
  pub rx_protocols : Map ℕ ℕ
  pub tx_ports : Map PortKey ℕ
  pub rx_ports : Map PortKey ℕ

-- trafficPairKey
pub record TrafficPairKey : Type 0 where
  pub src_node_id : String
  pub dst_node_id : String

pub traffic_beq_iff :
    (a b : TrafficPairKey)
    → (a.src_node_id == b.src_node_id && a.dst_node_id == b.dst_node_id ≡ true) ↔ (a ≡ b)
traffic_beq_iff a b =
    ground (arith, eq_iff a.src_node_id b.src_node_id, eq_iff a.dst_node_id b.dst_node_id)

instance abbrev pub TrafficPairKey_eq : Eq TrafficPairKey
TrafficPairKey_eq = record {
  beq = λ a b. a.src_node_id == b.src_node_id && a.dst_node_id == b.dst_node_id;
  beq_iff = traffic_beq_iff;
}

-- trafficStatsAccum
pub record StatsAccum : Type 0 where
  pub tcp_bytes : ℕ
  pub udp_bytes : ℕ
  pub other_proto_bytes : ℕ
  pub virtual_bytes : ℕ
  pub exit_bytes : ℕ
  pub subnet_bytes : ℕ
  pub physical_bytes : ℕ
  pub total_flows : ℕ
  pub unique_pairs : Map TrafficPairKey (Unit {0})
  pub ports : Map PortKey ℕ

-- nodeBwKey
pub record NodeKey : Type 0 where
  pub bucket : ℕ
  pub node_id : String

pub node_beq_iff :
    (a b : NodeKey) → (eqb a.bucket b.bucket && a.node_id == b.node_id ≡ true) ↔ (a ≡ b)
node_beq_iff a b = ground (arith, eq_iff a.node_id b.node_id)

instance abbrev pub NodeKey_eq : Eq NodeKey
NodeKey_eq = record {
  beq = λ a b. eqb a.bucket b.bucket && a.node_id == b.node_id;
  beq_iff = node_beq_iff;
}

-- database.BandwidthBucket and database.NodeBandwidth, without their key
pub record Bandwidth : Type 0 where
  pub tx_bytes : ℕ
  pub rx_bytes : ℕ

pub record Tables : Type 0 where
  pub pairs : Map PairKey PairRow
  pub protos : Map PairKey PairProtos
  pub stats : Map ℕ StatsAccum
  pub bandwidth : Map ℕ Bandwidth
  pub node_bandwidth : Map NodeKey Bandwidth

abbrev pub no_tables : Tables
no_tables = record { pairs = []; protos = []; stats = []; bandwidth = []; node_bandwidth = [] }

abbrev pub has_service : FlowLog → Bool
has_service log = not (is_physical log) && ltb 0 (service_port log)

abbrev pub service_key : FlowLog → PortKey
service_key log = record { proto = log.protocol; port = service_port log }

unfoldable pub or_no_protos : Option PairProtos → PairProtos
or_no_protos none = record {
  protocols = [];
  ports = [];
  tx_protocols = [];
  rx_protocols = [];
  tx_ports = [];
  rx_ports = [];
}
or_no_protos (some p) = p

unfoldable pub or_no_stats : Option StatsAccum → StatsAccum
or_no_stats none = record {
  tcp_bytes = 0;
  udp_bytes = 0;
  other_proto_bytes = 0;
  virtual_bytes = 0;
  exit_bytes = 0;
  subnet_bytes = 0;
  physical_bytes = 0;
  total_flows = 0;
  unique_pairs = [];
  ports = [];
}
or_no_stats (some s) = s

unfoldable pub count_by_protocol : FlowLog → StatsAccum → StatsAccum
count_by_protocol log s =
    if is_physical log
    then s
    else if eqb log.protocol 6
    then record s { tcp_bytes = add64 s.tcp_bytes log.tx_bytes }
    else if eqb log.protocol 17
    then record s { udp_bytes = add64 s.udp_bytes log.tx_bytes }
    else record s { other_proto_bytes = add64 s.other_proto_bytes log.tx_bytes }

unfoldable pub count_by_type : FlowLog → StatsAccum → StatsAccum
count_by_type log s =
    if log.traffic_type == "virtual"
    then record s { virtual_bytes = add64 s.virtual_bytes log.tx_bytes }
    else if log.traffic_type == "exit"
    then record s { exit_bytes = add64 s.exit_bytes log.tx_bytes }
    else if log.traffic_type == "subnet"
    then record s { subnet_bytes = add64 s.subnet_bytes log.tx_bytes }
    else if log.traffic_type == "physical"
    then record s { physical_bytes = add64 s.physical_bytes log.tx_bytes }
    else s

unfoldable pub add_tx : FlowLog → Option Bandwidth → Bandwidth
add_tx log none = record { tx_bytes = log.tx_bytes; rx_bytes = 0 }
add_tx log (some b) = record b { tx_bytes = add64 b.tx_bytes log.tx_bytes }

unfoldable pub add_rx : FlowLog → Option Bandwidth → Bandwidth
add_rx log none = record { tx_bytes = 0; rx_bytes = log.tx_bytes }
add_rx log (some b) = record b { rx_bytes = add64 b.rx_bytes log.tx_bytes }
