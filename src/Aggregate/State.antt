-- ===== src/Aggregate/State.antt =====
-- The loop of `aggregate` in backend/internal/services/aggregator.go.
use tsflow.Prelude.{List, [], ◌∷◌, Option, none, some, ◌==◌, String_eq, if◌then◌else◌, ℕ_eq}
use tsflow.Prelude.Maps.{Map, insert}
use tsflow.Prelude.Groups.{add64, upsert, bump}
use tsflow.Aggregate.Flow.{
  FlowLog, Devices, PairKey_eq, bucket_of, is_physical, sender, receiver, is_reverse, pair_key,
}
use tsflow.Aggregate.Tables.{
  PairRow, PortKey_eq, PairProtos, TrafficPairKey_eq, StatsAccum, NodeKey, NodeKey_eq, Bandwidth,
  Tables, has_service, service_key, or_no_protos, or_no_stats, count_by_protocol, count_by_type,
  add_tx, add_rx,
}

module _ (d : Devices) where
  unfoldable pub add_pair : FlowLog → Option PairRow → PairRow
  add_pair log none =
      if is_reverse d log
      then record {
        tx_bytes = 0;
        rx_bytes = log.tx_bytes;
        tx_pkts = 0;
        rx_pkts = log.tx_pkts;
        flow_count = 1;
      }
      else record {
        tx_bytes = log.tx_bytes;
        rx_bytes = 0;
        tx_pkts = log.tx_pkts;
        rx_pkts = 0;
        flow_count = 1;
      }
  add_pair log (some agg) =
      if is_reverse d log
      then record agg {
        rx_bytes = add64 agg.rx_bytes log.tx_bytes;
        rx_pkts = add64 agg.rx_pkts log.tx_pkts;
        flow_count = add64 agg.flow_count 1;
      }
      else record agg {
        tx_bytes = add64 agg.tx_bytes log.tx_bytes;
        tx_pkts = add64 agg.tx_pkts log.tx_pkts;
        flow_count = add64 agg.flow_count 1;
      }

  count_protocol : FlowLog → PairProtos → PairProtos
  count_protocol log p =
      if is_reverse d log
      then record p {
        protocols = bump log.protocol log.tx_bytes p.protocols;
        rx_protocols = bump log.protocol log.tx_bytes p.rx_protocols;
      }
      else record p {
        protocols = bump log.protocol log.tx_bytes p.protocols;
        tx_protocols = bump log.protocol log.tx_bytes p.tx_protocols;
      }

  count_port : FlowLog → PairProtos → PairProtos
  count_port log p =
      if has_service log
      then (if is_reverse d log
          then record p {
            ports = bump (service_key log) log.tx_bytes p.ports;
            rx_ports = bump (service_key log) log.tx_bytes p.rx_ports;
          }
          else record p {
            ports = bump (service_key log) log.tx_bytes p.ports;
            tx_ports = bump (service_key log) log.tx_bytes p.tx_ports;
          })
      else p

  unfoldable pub add_protos : FlowLog → Option PairProtos → PairProtos
  unfolding or_no_protos count_protocol count_port
  add_protos log o = count_port log (count_protocol log (or_no_protos o))

  unfoldable pub count_flow : FlowLog → StatsAccum → StatsAccum
  count_flow log s = record s {
    total_flows = add64 s.total_flows 1;
    unique_pairs =
        insert
          (record { src_node_id = (pair_key d log).node_a; dst_node_id = (pair_key d log).node_b })
          tt s.unique_pairs;
    ports = if has_service log then bump (service_key log) log.tx_bytes s.ports else s.ports;
  }

  unfoldable pub add_stats : FlowLog → Option StatsAccum → StatsAccum
  unfolding or_no_stats count_by_protocol count_by_type count_flow
  add_stats log o = count_flow log (count_by_type log (count_by_protocol log (or_no_stats o)))

  abbrev pub sender_key : FlowLog → NodeKey
  sender_key log = record { bucket = bucket_of log; node_id = sender d log }

  abbrev pub receiver_key : FlowLog → NodeKey
  receiver_key log = record { bucket = bucket_of log; node_id = receiver d log }

  unfoldable pub add_nodes : FlowLog → Map NodeKey Bandwidth → Map NodeKey Bandwidth
  add_nodes log m =
      let sent = upsert (sender_key log) (add_tx log) m in
      if sender d log == receiver d log then sent else upsert (receiver_key log) (add_rx log) sent

  unfoldable pub add_log : FlowLog → Tables → Tables
  add_log log t = record {
    pairs = upsert (pair_key d log) (add_pair log) t.pairs;
    protos = upsert (pair_key d log) (add_protos log) t.protos;
    stats = upsert (bucket_of log) (add_stats log) t.stats;
    bandwidth =
        if is_physical log then t.bandwidth else upsert (bucket_of log) (add_tx log) t.bandwidth;
    node_bandwidth = if is_physical log then t.node_bandwidth else add_nodes log t.node_bandwidth;
  }

  unfoldable pub add_logs : List FlowLog → Tables → Tables
  add_logs [] t = t
  add_logs (log ∷ logs) t = add_logs logs (add_log log t)
