-- ===== src/Convert/Typed.antt =====
-- `convertTailscaleLog` of backend/internal/services/log_converter.go: the records of one log of the client
-- library. A time is its nanoseconds since 1970, and `none` is the zero time; a stored record keeps whole
-- seconds.
use tsflow.Prelude.{
  ℕ, ◌/◌, ◌^◌, String, Bool, true, false, List, [], ◌∷◌, ◌++◌, Option, none, some, ltb, String_eq,
  ℕ_eq, if◌then◌else◌,
}
use tsflow.Aggregate.Flow.{FlowLog}
use tsflow.Rolling.Cover.{Time}
use tsflow.Convert.Endpoint.{extract_port, traffic_endpoints}
use tsflow.Convert.Counter.{uint64_to_int64}

-- tailscale.TrafficStats
pub record TrafficStats : Type 0 where
  pub proto : ℕ
  pub src : String
  pub dst : String
  pub tx_pkts : ℕ
  pub tx_bytes : ℕ
  pub rx_pkts : ℕ
  pub rx_bytes : ℕ

-- tailscale.NetworkFlowLog
pub record NetworkFlowLog : Type 0 where
  pub node_id : String
  pub start : Option Time
  pub logged : Option Time
  pub virtual_traffic : List TrafficStats
  pub subnet_traffic : List TrafficStats
  pub exit_traffic : List TrafficStats
  pub physical_traffic : List TrafficStats

-- flowLogTime
abbrev pub flow_log_time : Option Time → Option Time → Option Time
flow_log_time none logged = logged
flow_log_time (some start) none = some start
flow_log_time (some start) (some logged) = if ltb logged start then some logged else some start

pub record Counters : Type 0 where
  pub tx_bytes : ℕ
  pub rx_bytes : ℕ
  pub tx_pkts : ℕ
  pub rx_pkts : ℕ

abbrev pub all_four : Option ℕ → Option ℕ → Option ℕ → Option ℕ → Option Counters
all_four (some a) (some b) (some c) (some d) =
    some (record { tx_bytes = a; rx_bytes = b; tx_pkts = c; rx_pkts = d })
all_four o p q r = none

-- convertTypedCounters
unfoldable pub convert_typed_counters : TrafficStats → Bool → Option Counters
convert_typed_counters traffic include_rx =
    if include_rx
    then all_four (uint64_to_int64 traffic.tx_bytes) (uint64_to_int64 traffic.rx_bytes)
        (uint64_to_int64 traffic.tx_pkts) (uint64_to_int64 traffic.rx_pkts)
    else all_four (uint64_to_int64 traffic.tx_bytes) (some 0) (uint64_to_int64 traffic.tx_pkts)
        (some 0)

-- The record of a row, if its endpoints and counters are good
abbrev pub row_record :
    Time → String → String → ℕ → ℕ → ℕ → Option (String × String) → Option Counters → List FlowLog
row_record t node_id traffic_type proto src_port dst_port (some (src_ip, dst_ip)) (some c) =
    record {
      logged_at = t / 10 ^ 9;
      node_id = node_id;
      traffic_type = traffic_type;
      protocol = proto;
      src_ip = src_ip;
      src_port = src_port;
      dst_ip = dst_ip;
      dst_port = dst_port;
      tx_bytes = c.tx_bytes;
      rx_bytes = c.rx_bytes;
      tx_pkts = c.tx_pkts;
      rx_pkts = c.rx_pkts;
    }
    ∷ []
row_record t node_id traffic_type proto src_port dst_port o p = []

module _ (is_ip : String → Bool) where
  -- appendTraffic
  unfoldable pub append_traffic : Time → String → String → Bool → TrafficStats → List FlowLog
  append_traffic t node_id traffic_type include_rx traffic =
      row_record t node_id traffic_type traffic.proto (extract_port is_ip traffic.src)
        (extract_port is_ip traffic.dst)
        (traffic_endpoints is_ip traffic_type traffic.src traffic.dst)
        (convert_typed_counters traffic include_rx)

  unfoldable pub append_all : Time → String → String → Bool → List TrafficStats → List FlowLog
  append_all t node_id traffic_type include_rx [] = []
  append_all t node_id traffic_type include_rx (traffic ∷ rest) =
      append_traffic t node_id traffic_type include_rx traffic
      ++ append_all t node_id traffic_type include_rx rest

  abbrev pub at_time : NetworkFlowLog → Option Time → List FlowLog
  at_time l none = []
  at_time l (some t) =
      append_all t l.node_id "virtual" true l.virtual_traffic
      ++ append_all t l.node_id "subnet" true l.subnet_traffic
      ++ append_all t l.node_id "exit" true l.exit_traffic
      ++ append_all t l.node_id "physical" false l.physical_traffic

  unfoldable pub convert_tailscale_log : NetworkFlowLog → List FlowLog
  convert_tailscale_log l = at_time l (flow_log_time l.start l.logged)
