-- ===== src/Convert/StoredTyped.antt =====
-- The records that backend/internal/services/log_converter.go makes of the client library's logs can be stored.
use tsflow.Prelude.{
  ℕ, ◌≤◌, String, ◌≡◌, refl, ap, ◌≢◌, Bool, true, false, List, [], ◌∷◌, ◌++◌, Option, none, some,
  arith, ◌==◌, String_eq, ℕ_eq, All,
}
use tsflow.Aggregate.Flow.{FlowLog, is_physical}
use tsflow.Rolling.Cover.{Time}
use tsflow.Convert.Endpoint.{
  extract_port, traffic_endpoints, extract_port-le, Named, traffic_endpoints-Named,
}
use tsflow.Convert.Counter.{
  max_flow_counter, uint64_to_int64, CounterFits, uint64_to_int64-CounterFits,
}
use tsflow.Convert.Typed.{
  TrafficStats, NetworkFlowLog, flow_log_time, Counters, all_four, row_record,
  convert_typed_counters, append_traffic, append_all, at_time, convert_tailscale_log,
}

-- Both ends are named, the ports are ports, the counters stay below the cap, and a physical record has
-- received nothing.
abbrev pub IsStored : FlowLog → Type 0
IsStored l =
    ((l.src_ip ≢ "") × (l.dst_ip ≢ ""))
    × ((l.src_port ≤ 65535) × (l.dst_port ≤ 65535))
    × ((l.tx_bytes ≤ max_flow_counter)
        × (l.rx_bytes ≤ max_flow_counter)
        × (l.tx_pkts ≤ max_flow_counter)
        × (l.rx_pkts ≤ max_flow_counter))
    × (is_physical l ≡ true → (l.rx_bytes ≡ 0) × (l.rx_pkts ≡ 0))

abbrev pub Fit : String → Option Counters → Type 0
Fit traffic_type none = Unit
Fit traffic_type (some c) =
    ((c.tx_bytes ≤ max_flow_counter)
      × (c.rx_bytes ≤ max_flow_counter)
      × (c.tx_pkts ≤ max_flow_counter)
      × (c.rx_pkts ≤ max_flow_counter))
    × ((traffic_type == "physical") ≡ true → (c.rx_bytes ≡ 0) × (c.rx_pkts ≡ 0))

value : Option ℕ → ℕ
value none = 0
value (some n) = n

some_inj : {m n : ℕ} → some m ≡ some n → m ≡ n
unfolding value
some_inj e = ap value e

pub all_four-Fit :
    (traffic_type : String) (a b c d : Option ℕ)
    → CounterFits a
    → CounterFits b
    → CounterFits c
    → CounterFits d
    → ((traffic_type == "physical") ≡ true → (b ≡ some 0) × (d ≡ some 0))
    → Fit traffic_type (all_four a b c d)
all_four-Fit traffic_type none b c d p q r s h = tt
all_four-Fit traffic_type (some a) none c d p q r s h = tt
all_four-Fit traffic_type (some a) (some b) none d p q r s h = tt
all_four-Fit traffic_type (some a) (some b) (some c) none p q r s h = tt
all_four-Fit traffic_type (some a) (some b) (some c) (some d) p q r s h =
    ((p, q, r, s), λ e. (some_inj (h e).0, some_inj (h e).1))

pub row_record-IsStored :
    (t : Time) (node_id traffic_type : String) (proto src_port dst_port : ℕ)
    (ends : Option (String × String)) (c : Option Counters)
    → src_port ≤ 65535
    → dst_port ≤ 65535
    → Named ends
    → Fit traffic_type c
    → All IsStored (row_record t node_id traffic_type proto src_port dst_port ends c)
row_record-IsStored t node_id traffic_type proto src_port dst_port none none p q n f = tt
row_record-IsStored t node_id traffic_type proto src_port dst_port none (some c) p q n f = tt
row_record-IsStored t node_id traffic_type proto src_port dst_port (some ends) none p q n f = tt
row_record-IsStored t node_id traffic_type proto src_port dst_port (some (src_ip, dst_ip)) (some c)
      p q n (f, g) =
    ((n, (p, q), f, g), tt)

pub All-append :
    (xs ys : List FlowLog) → All IsStored xs → All IsStored ys → All IsStored (xs ++ ys)
All-append [] ys h g = g
All-append (x ∷ xs) ys (h, hs) g = (h, All-append xs ys hs g)

pub All-4 :
    (ws xs ys zs : List FlowLog)
    → All IsStored ws
    → All IsStored xs
    → All IsStored ys
    → All IsStored zs
    → All IsStored (ws ++ xs ++ ys ++ zs)
All-4 ws xs ys zs a b c d =
    All-append (ws ++ xs ++ ys) zs (All-append (ws ++ xs) ys (All-append ws xs a b) c) d

module _ (is_ip : String → Bool) where
  convert_typed_counters-Fit :
      (traffic_type : String) (row : TrafficStats) (include_rx : Bool)
      → ((traffic_type == "physical") ≡ true → include_rx ≡ false)
      → Fit traffic_type (convert_typed_counters row include_rx)
  unfolding convert_typed_counters
  convert_typed_counters-Fit traffic_type row true h =
      all_four-Fit traffic_type (uint64_to_int64 row.tx_bytes) (uint64_to_int64 row.rx_bytes)
        (uint64_to_int64 row.tx_pkts) (uint64_to_int64 row.rx_pkts)
        (uint64_to_int64-CounterFits row.tx_bytes) (uint64_to_int64-CounterFits row.rx_bytes)
        (uint64_to_int64-CounterFits row.tx_pkts) (uint64_to_int64-CounterFits row.rx_pkts)
        (λ e. absurd (ground (arith, h e)))
  convert_typed_counters-Fit traffic_type row false h =
      all_four-Fit traffic_type (uint64_to_int64 row.tx_bytes) (some 0)
        (uint64_to_int64 row.tx_pkts) (some 0) (uint64_to_int64-CounterFits row.tx_bytes)
        (omega arith) (uint64_to_int64-CounterFits row.tx_pkts) (omega arith) (λ e. (refl, refl))

  append_traffic-IsStored :
      (t : Time) (node_id traffic_type : String) (include_rx : Bool) (row : TrafficStats)
      → ((traffic_type == "physical") ≡ true → include_rx ≡ false)
      → All IsStored (append_traffic is_ip t node_id traffic_type include_rx row)
  unfolding append_traffic
  append_traffic-IsStored t node_id traffic_type include_rx row h =
      row_record-IsStored t node_id traffic_type row.proto (extract_port is_ip row.src)
        (extract_port is_ip row.dst) (traffic_endpoints is_ip traffic_type row.src row.dst)
        (convert_typed_counters row include_rx) (extract_port-le is_ip row.src)
        (extract_port-le is_ip row.dst) (traffic_endpoints-Named is_ip traffic_type row.src row.dst)
        (convert_typed_counters-Fit traffic_type row include_rx h)

  append_all-IsStored :
      (t : Time) (node_id traffic_type : String) (include_rx : Bool) (rows : List TrafficStats)
      → ((traffic_type == "physical") ≡ true → include_rx ≡ false)
      → All IsStored (append_all is_ip t node_id traffic_type include_rx rows)
  unfolding append_all
  append_all-IsStored t node_id traffic_type include_rx [] h = tt
  append_all-IsStored t node_id traffic_type include_rx (row ∷ rows) h =
      All-append (append_traffic is_ip t node_id traffic_type include_rx row)
        (append_all is_ip t node_id traffic_type include_rx rows)
        (append_traffic-IsStored t node_id traffic_type include_rx row h)
        (append_all-IsStored t node_id traffic_type include_rx rows h)

  at_time-IsStored : (l : NetworkFlowLog) (o : Option Time) → All IsStored (at_time is_ip l o)
  at_time-IsStored l none = tt
  at_time-IsStored l (some t) =
      let typed = append_all is_ip t l.node_id in
      All-4 (typed "virtual" true l.virtual_traffic) (typed "subnet" true l.subnet_traffic)
        (typed "exit" true l.exit_traffic) (typed "physical" false l.physical_traffic)
        (append_all-IsStored t l.node_id "virtual" true l.virtual_traffic (λ e. ground (arith, e)))
        (append_all-IsStored t l.node_id "subnet" true l.subnet_traffic (λ e. ground (arith, e)))
        (append_all-IsStored t l.node_id "exit" true l.exit_traffic (λ e. ground (arith, e)))
        (append_all-IsStored t l.node_id "physical" false l.physical_traffic (λ e. refl))

  pub convert_tailscale_log-IsStored :
      (l : NetworkFlowLog) → All IsStored (convert_tailscale_log is_ip l)
  unfolding convert_tailscale_log
  convert_tailscale_log-IsStored l = at_time-IsStored l (flow_log_time l.start l.logged)
