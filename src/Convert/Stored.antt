-- ===== src/Convert/Stored.antt =====
-- What backend/internal/services/log_converter.go makes of a response: records that can be stored.
use tsflow.Prelude.{
  ℕ, String, refl, Bool, true, false, List, [], ◌∷◌, Option, none, some, arith, ◌==◌, String_eq,
  ℕ_eq, All,
}
use tsflow.Rolling.Cover.{Time}
use tsflow.Convert.Endpoint.{
  extract_port, traffic_endpoints, extract_port-le, traffic_endpoints-Named,
}
use tsflow.Convert.Counter.{
  Items, no_items, item, Fields, get, get_counter, get_int, get_string, CounterFits,
  get_counter-CounterFits,
}
use tsflow.Convert.Typed.{NetworkFlowLog, flow_log_time, convert_tailscale_log}
use tsflow.Convert.Generic.{
  LogsResponse, client_logs, decoded, not_logs, unless_physical, map_counters, map_row, object_row,
  map_rows, as_items, as_text, as_object, logs_in, rows_at, convert_map_log, object_log,
  convert_items, convert_typed, convert_logs,
}
use tsflow.Convert.StoredTyped.{
  IsStored, Fit, all_four-Fit, row_record-IsStored, All-append, All-4,
  convert_tailscale_log-IsStored,
}

module _ (is_ip : String → Bool) where
  CounterFits-unless : (b : Bool) (o : Option ℕ) → CounterFits o → CounterFits (unless_physical b o)
  CounterFits-unless true o h = omega arith
  CounterFits-unless false o h = h

  map_counters-Fit :
      (traffic_type : String) (m : Fields)
      → Fit traffic_type (map_counters (traffic_type == "physical") m)
  unfolding map_counters
  map_counters-Fit traffic_type m =
      let physical = traffic_type == "physical" in
      all_four-Fit traffic_type (get_counter m "txBytes")
        (unless_physical physical (get_counter m "rxBytes")) (get_counter m "txPkts")
        (unless_physical physical (get_counter m "rxPkts")) (get_counter-CounterFits m "txBytes")
        (CounterFits-unless physical (get_counter m "rxBytes")
          (get_counter-CounterFits m "rxBytes"))
        (get_counter-CounterFits m "txPkts")
        (CounterFits-unless physical (get_counter m "rxPkts") (get_counter-CounterFits m "rxPkts"))
        (λ e. rw e (refl, refl))

  module _ (parse_time : String → Option Time) where
    map_row-IsStored :
        (t : Time) (node_id traffic_type : String) (m : Fields)
        → All IsStored (map_row is_ip parse_time t node_id traffic_type m)
    unfolding map_row
    map_row-IsStored t node_id traffic_type m =
        row_record-IsStored t node_id traffic_type (get_int m "proto")
          (extract_port is_ip (get_string m "src")) (extract_port is_ip (get_string m "dst"))
          (traffic_endpoints is_ip traffic_type (get_string m "src") (get_string m "dst"))
          (map_counters (traffic_type == "physical") m) (extract_port-le is_ip (get_string m "src"))
          (extract_port-le is_ip (get_string m "dst"))
          (traffic_endpoints-Named is_ip traffic_type (get_string m "src") (get_string m "dst"))
          (map_counters-Fit traffic_type m)

    object_row-IsStored :
        (t : Time) (node_id traffic_type : String) (o : Option Fields)
        → All IsStored (object_row is_ip parse_time t node_id traffic_type o)
    object_row-IsStored t node_id traffic_type none = tt
    object_row-IsStored t node_id traffic_type (some m) = map_row-IsStored t node_id traffic_type m

    map_rows-IsStored :
        (t : Time) (node_id traffic_type : String) (items : Items)
        → All IsStored (map_rows is_ip parse_time t node_id traffic_type items)
    unfolding map_rows
    map_rows-IsStored t node_id traffic_type no_items = tt
    map_rows-IsStored t node_id traffic_type (item v items) =
        All-append (object_row is_ip parse_time t node_id traffic_type (as_object v))
          (map_rows is_ip parse_time t node_id traffic_type items)
          (object_row-IsStored t node_id traffic_type (as_object v))
          (map_rows-IsStored t node_id traffic_type items)

    rows_at-IsStored :
        (m : Fields) (o : Option String) (p : Option Time)
        → All IsStored (rows_at is_ip parse_time m o p)
    rows_at-IsStored m none none = tt
    rows_at-IsStored m none (some t) = tt
    rows_at-IsStored m (some node_id) none = tt
    rows_at-IsStored m (some node_id) (some t) =
        let rows = map_rows is_ip parse_time t node_id in
        let found : String → Items = λ key. as_items (get key m) in
        All-4 (rows "virtual" (found "virtualTraffic")) (rows "subnet" (found "subnetTraffic"))
          (rows "exit" (found "exitTraffic")) (rows "physical" (found "physicalTraffic"))
          (map_rows-IsStored t node_id "virtual" (found "virtualTraffic"))
          (map_rows-IsStored t node_id "subnet" (found "subnetTraffic"))
          (map_rows-IsStored t node_id "exit" (found "exitTraffic"))
          (map_rows-IsStored t node_id "physical" (found "physicalTraffic"))

    convert_map_log-IsStored : (m : Fields) → All IsStored (convert_map_log is_ip parse_time m)
    unfolding convert_map_log
    convert_map_log-IsStored m =
        rows_at-IsStored m (as_text (get "nodeId" m))
          (flow_log_time (parse_time (get_string m "start")) (parse_time (get_string m "logged")))

    object_log-IsStored : (o : Option Fields) → All IsStored (object_log is_ip parse_time o)
    object_log-IsStored none = tt
    object_log-IsStored (some m) = convert_map_log-IsStored m

    convert_items-IsStored : (items : Items) → All IsStored (convert_items is_ip parse_time items)
    unfolding convert_items
    convert_items-IsStored no_items = tt
    convert_items-IsStored (item v items) =
        All-append (object_log is_ip parse_time (as_object v))
          (convert_items is_ip parse_time items) (object_log-IsStored (as_object v))
          (convert_items-IsStored items)

    convert_typed-IsStored :
        (logs : List NetworkFlowLog) → All IsStored (convert_typed is_ip parse_time logs)
    unfolding convert_typed
    convert_typed-IsStored [] = tt
    convert_typed-IsStored (l ∷ logs) =
        All-append (convert_tailscale_log is_ip l) (convert_typed is_ip parse_time logs)
          (convert_tailscale_log-IsStored is_ip l) (convert_typed-IsStored logs)

    logs_in-IsStored : (o : Option Fields) → All IsStored (logs_in is_ip parse_time o)
    logs_in-IsStored none = tt
    logs_in-IsStored (some m) = convert_items-IsStored (as_items (get "logs" m))

    -- Whatever a response holds, each record made of it has two named ends, two ports below 65536, and
    -- counters up to 2 ^ 44, and a physical record has received nothing.
    pub convert_logs-IsStored : (r : LogsResponse) → All IsStored (convert_logs is_ip parse_time r)
    unfolding convert_logs
    convert_logs-IsStored not_logs = tt
    convert_logs-IsStored (client_logs logs) = convert_typed-IsStored logs
    convert_logs-IsStored (decoded v) = logs_in-IsStored (as_object v)
