-- ===== src/Convert/Tests.antt =====
-- Runs of backend/internal/services/log_converter.go, and its theorems at concrete inputs.
use tsflow.Prelude.{
  ℕ, ◌*◌, ◌^◌, String, ◌≡◌, refl, ap, Bool, false, ◌||◌, List, [], ◌∷◌, Option, none, some, arith,
  ◌==◌, eq_iff, String_eq, ℕ_eq, if◌then◌else◌, length, All, keep,
}
use tsflow.Prelude.Maps.{lookup}
use tsflow.Rolling.Cover.{Time}
use tsflow.Aggregate.Flow.{FlowLog, Devices, PairKey, PairKey_eq, pair_key}
use tsflow.Aggregate.Tables.{no_tables}
use tsflow.Aggregate.State.{add_logs}
use tsflow.Access.Text.{trim_space, append, contains_char}
use tsflow.Convert.Endpoint.{
  parse_int, split_host_port, cut, valid_port, bracketed, after_bracket, split_endpoint, extract_ip,
  extract_port, flow_endpoints, traffic_endpoints,
}
use tsflow.Convert.Counter.{
  Any, finite, text, float64, array, object, no_items, item, Fields, no_fields, field, get,
  get_string, get_int, get_counter, parse_int64,
}
use tsflow.Convert.Generic.{
  LogsResponse, decoded, map_counters, map_row, map_rows, convert_map_log, convert_items,
  convert_logs,
}
use tsflow.Convert.StoredTyped.{IsStored}
use tsflow.Convert.Stored.{convert_logs-IsStored}
use tsflow.Convert.Exact.{exact_row, NoOverflow, convert_logs-exact_row}
use tsflow.Convert.Decimal.{Written, digit, more}
use tsflow.Convert.Joined.{split_endpoint-join_host_port}

abbrev is_ip : String → Bool
is_ip s = s == "100.64.0.1" || s == "fd7a::1"

abbrev parse_time : String → Option Time
parse_time s = if s == "2024" then some (125 * 10 ^ 9) else none

abbrev number : ℕ → Any
number n = float64 (finite false n 0)

abbrev row : ℕ → Fields
row bytes =
    field "proto" (number 6)
      (field "src" (text "[fd7a::1]:40000") (field "txBytes" (number bytes) no_fields))

-- One exit row without a public side, and one row whose counter is above the cap
abbrev response : LogsResponse
response = decoded (
    object (
      field "logs"
        (array (
          item
            (object (
              field "nodeId" (text "n1") (
                field "start" (text "2024") (
                  field "exitTraffic"
                    (array (item (object (row 100)) (item (object (row (2 ^ 60))) no_items)))
                    no_fields))))
            no_items))
        no_fields))

abbrev stored : List FlowLog
stored =
    record {
      logged_at = 125;
      node_id = "n1";
      traffic_type = "exit";
      protocol = 6;
      src_ip = "fd7a::1";
      src_port = 40000;
      dst_ip = "internet";
      dst_port = 0;
      tx_bytes = 100;
      rx_bytes = 0;
      tx_pkts = 0;
      rx_pkts = 0;
    }
    ∷ []

converted : convert_logs is_ip parse_time response ≡ stored
unfolding convert_logs convert_items convert_map_log map_rows map_row map_counters get get_string
    get_int get_counter parse_int64 traffic_endpoints flow_endpoints extract_ip extract_port
    split_endpoint bracketed after_bracket cut split_host_port valid_port parse_int trim_space
converted = refl

abbrev devices : Devices
devices = record { device_id = λ id. some id; resolve_ip = λ ip. ip }

abbrev key : PairKey
key = record { bucket = 120; node_a = "fd7a::1"; node_b = "internet"; traffic_type = "exit" }

convert_logs-exact_row_example :
    (lookup key (add_logs devices (convert_logs is_ip parse_time response) no_tables).pairs
      ≡ exact_row devices
          (keep (λ l. pair_key devices l == key) (convert_logs is_ip parse_time response)))
    × NoOverflow devices
        (lookup key (add_logs devices (convert_logs is_ip parse_time response) no_tables).pairs)
convert_logs-exact_row_example =
    convert_logs-exact_row devices is_ip parse_time response key
      (omega (arith, ap length converted))

convert_logs-IsStored_example : All IsStored (convert_logs is_ip parse_time response)
convert_logs-IsStored_example = convert_logs-IsStored is_ip parse_time response

written_443 : Written "443" 443
unfolding append
written_443 =
    more (more (digit "4" 4 (omega arith) refl) "4" 4 (omega arith) refl) "3" 3 (omega arith) refl

split_endpoint-join_host_port_example : split_endpoint is_ip "[fd7a::1]:443" ≡ some ("fd7a::1", 443)
unfolding contains_char append
split_endpoint-join_host_port_example =
    split_endpoint-join_host_port is_ip "fd7a::1" "443" 443 written_443 refl
      (λ e. ground (arith, eq_iff "fd7a::1" "", e)) (refl, refl) (λ e. refl)

port_443 : valid_port "443" ≡ 443
unfolding valid_port parse_int
port_443 = refl
