-- ===== src/Aggregate/Tests.antt =====
-- Runs of backend/internal/services/aggregator.go, and its theorems at concrete inputs.
use tsflow.Prelude.{
  ℕ, ◌%◌, ◌^◌, ◌≡◌, refl, not, List, [], ◌∷◌, none, some, arith, ◌==◌, keep, min, eqb, ℕ_eq, length,
  ◌++◌, Bool, String_eq,
}
use tsflow.Prelude.Maps.{lookup, insert}
use tsflow.Prelude.Groups.{upsert}
use tsflow.Aggregate.Flow.{
  FlowLog, Devices, PairKey, PairKey_eq, bucket_of, physical_sender, is_reverse, pair_key,
  service_port,
}
use tsflow.Aggregate.Tables.{no_tables, PortKey, or_no_stats}
use tsflow.Aggregate.State.{add_log, add_logs, add_pair}
use tsflow.Aggregate.Rows.{PortStat, top_ports}
use tsflow.Aggregate.Pairs.{expected_row, lookup-pairs}
use tsflow.Aggregate.Stats.{Counted, lookup-stats}
use tsflow.Aggregate.Conserved.{total, row_bytes, add_logs-conserves}
use tsflow.Aggregate.Order.{top_ports_lem, pair_key_swap, Descending, count}

abbrev devices : Devices
devices = record { device_id = λ id. some id; resolve_ip = λ ip. ip }

abbrev request : FlowLog
request = record {
  logged_at = 125;
  node_id = "a";
  traffic_type = "virtual";
  protocol = 6;
  src_ip = "a";
  src_port = 40000;
  dst_ip = "b";
  dst_port = 443;
  tx_bytes = 100;
  rx_bytes = 0;
  tx_pkts = 2;
  rx_pkts = 0;
}

abbrev reply : FlowLog
reply = record request {
  node_id = "b";
  src_ip = "b";
  src_port = 443;
  dst_ip = "a";
  dst_port = 40000;
  tx_bytes = 900;
}

abbrev conversation : List FlowLog
conversation = request ∷ reply ∷ []

abbrev pair_ab : PairKey
pair_ab = record { bucket = 120; node_a = "a"; node_b = "b"; traffic_type = "virtual" }

-- A reply from a server is filed under the server's port.
reply_port : service_port reply ≡ 443
unfolding service_port
reply_port = refl

conversation_row :
    lookup pair_ab (add_logs devices conversation no_tables).pairs
    ≡ some (record { tx_bytes = 100; rx_bytes = 900; tx_pkts = 2; rx_pkts = 2; flow_count = 2 })
unfolding lookup add_logs add_log add_pair upsert insert pair_key bucket_of physical_sender
conversation_row = refl

lookup-pairs_example :
    lookup pair_ab (add_logs devices conversation no_tables).pairs
    ≡ expected_row devices (keep (λ l. pair_key devices l == pair_ab) conversation)
lookup-pairs_example = lookup-pairs devices conversation pair_ab (omega arith)

lookup-stats_example :
    Counted
      (or_no_stats none)
      (keep (λ l. eqb (bucket_of l) 120) conversation)
      (or_no_stats (lookup 120 (add_logs devices conversation no_tables).stats))
lookup-stats_example = lookup-stats devices conversation 120

add_logs-conserves_example :
    total row_bytes (add_logs devices conversation no_tables).pairs % 2 ^ 64 ≡ 1000
add_logs-conserves_example = (add_logs-conserves devices conversation).0

abbrev web_ports : List (PortKey × ℕ)
web_ports = (record { proto = 6; port = 80 }, 5) ∷ (record { proto = 6; port = 443 }, 9) ∷ []

top_ports_lem_example :
    (rest : List PortStat) × Descending (top_ports web_ports ++ rest)
    × ((p : PortStat → Bool)
        → count p (top_ports web_ports ++ rest)
          ≡ count
              (λ (k, bytes). p (record { port = k.port; proto = k.proto; bytes = bytes }))
              web_ports)
    × (length (top_ports web_ports) ≡ min 20 2)
top_ports_lem_example = top_ports_lem web_ports

pair_key_swap_example :
    (pair_key devices request ≡ pair_key devices reply)
    × (is_reverse devices request ≡ not (is_reverse devices reply))
unfolding bucket_of physical_sender
pair_key_swap_example = pair_key_swap devices request reply refl refl refl refl
