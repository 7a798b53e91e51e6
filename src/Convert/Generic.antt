-- ===== src/Convert/Generic.antt =====
-- `convertMapLog` and `convertLogs` of backend/internal/services/log_converter.go: the records of a log of
-- decoded JSON, and of a whole response. The reading of an RFC 3339 time is an argument, `none` where it
-- fails; a time is its nanoseconds since 1970.
use tsflow.Prelude.{
  ℕ, String, Bool, List, [], ◌∷◌, ◌++◌, Option, none, some, ◌==◌, String_eq, ℕ_eq, if◌then◌else◌,
}
use tsflow.Aggregate.Flow.{FlowLog}
use tsflow.Rolling.Cover.{Time}
use tsflow.Convert.Endpoint.{extract_port, traffic_endpoints}
use tsflow.Convert.Counter.{
  Any, text, array, object, Items, no_items, item, Fields, get, get_counter, get_int, get_string,
}
use tsflow.Convert.Typed.{
  NetworkFlowLog, flow_log_time, Counters, all_four, row_record, convert_tailscale_log,
}

-- A response: what the client library gives, decoded JSON, or anything else
pub data LogsResponse : Type 0 where
  client_logs : List NetworkFlowLog → LogsResponse
  decoded : Any → LogsResponse
  not_logs : LogsResponse

-- v.(map[string]any)
abbrev pub as_object : Any → Option Fields
as_object (object m) = some m
as_object v = none

abbrev pub as_text : Option Any → Option String
as_text (some (text s)) = some s
as_text v = none

abbrev pub as_items : Option Any → Items
as_items (some (array items)) = items
as_items v = no_items

-- A counter that the physical rows have not: unread, and 0
abbrev pub unless_physical : Bool → Option ℕ → Option ℕ
unless_physical is_physical o = if is_physical then some 0 else o

unfoldable pub map_counters : Bool → Fields → Option Counters
map_counters is_physical m =
    all_four (get_counter m "txBytes") (unless_physical is_physical (get_counter m "rxBytes"))
      (get_counter m "txPkts") (unless_physical is_physical (get_counter m "rxPkts"))

module _ (is_ip : String → Bool) (parse_time : String → Option Time) where
  unfoldable pub map_row : Time → String → String → Fields → List FlowLog
  map_row t node_id traffic_type m =
      row_record t node_id traffic_type (get_int m "proto")
        (extract_port is_ip (get_string m "src")) (extract_port is_ip (get_string m "dst"))
        (traffic_endpoints is_ip traffic_type (get_string m "src") (get_string m "dst"))
        (map_counters (traffic_type == "physical") m)

  abbrev pub object_row : Time → String → String → Option Fields → List FlowLog
  object_row t node_id traffic_type (some m) = map_row t node_id traffic_type m
  object_row t node_id traffic_type none = []

  unfoldable pub map_rows : Time → String → String → Items → List FlowLog
  map_rows t node_id traffic_type no_items = []
  map_rows t node_id traffic_type (item v items) =
      object_row t node_id traffic_type (as_object v) ++ map_rows t node_id traffic_type items

  abbrev pub rows_at : Fields → Option String → Option Time → List FlowLog
  rows_at m (some node_id) (some t) =
      map_rows t node_id "virtual" (as_items (get "virtualTraffic" m))
      ++ map_rows t node_id "subnet" (as_items (get "subnetTraffic" m))
      ++ map_rows t node_id "exit" (as_items (get "exitTraffic" m))
      ++ map_rows t node_id "physical" (as_items (get "physicalTraffic" m))
  rows_at m o p = []

  unfoldable pub convert_map_log : Fields → List FlowLog
  convert_map_log m =
      rows_at m (as_text (get "nodeId" m))
        (flow_log_time (parse_time (get_string m "start")) (parse_time (get_string m "logged")))

  abbrev pub object_log : Option Fields → List FlowLog
  object_log (some m) = convert_map_log m
  object_log none = []

  unfoldable pub convert_items : Items → List FlowLog
  convert_items no_items = []
  convert_items (item v items) = object_log (as_object v) ++ convert_items items

  unfoldable pub convert_typed : List NetworkFlowLog → List FlowLog
  convert_typed [] = []
  convert_typed (l ∷ logs) = convert_tailscale_log is_ip l ++ convert_typed logs

  abbrev pub logs_in : Option Fields → List FlowLog
  logs_in (some m) = convert_items (as_items (get "logs" m))
  logs_in none = []

  unfoldable pub convert_logs : LogsResponse → List FlowLog
  convert_logs not_logs = []
  convert_logs (client_logs logs) = convert_typed logs
  convert_logs (decoded v) = logs_in (as_object v)
