-- ===== src/PairGroups/Group.antt =====
-- pairGroup of backend/internal/database/node_pair_read.go and its merge of node_pair_parallel.go. A row has its
-- columns as mergeProtocolColumn and mergePortColumn decode them; an int key is its bit pattern.
use tsflow.Prelude.{
  ℕ, ◌≡◌, ◌↔◌, Bool, true, false, not, ◌&&◌, ◌||◌, List, [], ◌∷◌, Option, none, some, arith, Eq,
  eqb, ltb, String_eq, ℕ_eq, if◌then◌else◌,
}
use tsflow.Prelude.Groups.{or_zero}
use tsflow.PairGroups.Sums.{SumState, add, PortKey, Entry, KeyedSums, no_sums, add_item, add_items}

abbrev pub port_beq : PortKey → PortKey → Bool
port_beq a b =
    same a.port_null b.port_null
    && same a.proto_null b.proto_null
    && eqb a.port b.port
    && eqb a.proto b.proto
  where
    same : Bool → Bool → Bool
    same true b = b
    same false b = not b

pub port_beq_iff : (a b : PortKey) → (port_beq a b ≡ true) ↔ (a ≡ b)
port_beq_iff a b = ground arith

instance abbrev pub PortKey_eq : Eq PortKey
PortKey_eq = record { beq = port_beq; beq_iff = port_beq_iff }

-- A key, `none` for a null key, and a value
abbrev pub ProtoItem : Type 0
ProtoItem = Option ℕ × SumState

pub record ProtoSums : Type 0 where
  pub sums : KeyedSums ℕ
  pub null_key : SumState
  pub has_null : Bool

abbrev pub no_protos : ProtoSums
no_protos = record { sums = no_sums; null_key = none; has_null = false }

-- protoSums.add
unfoldable pub add_proto : ProtoItem → ProtoSums → ProtoSums
add_proto (none, v) p = record p { null_key = add p.null_key v; has_null = true }
add_proto (some k, v) p = record p { sums = add_item (k, v) p.sums }

-- The additions of one column
unfoldable pub add_protos : List ProtoItem → ProtoSums → ProtoSums
add_protos [] p = p
add_protos (x ∷ xs) p = add_protos xs (add_proto x p)

-- protoSums.merge
unfoldable pub merge_protos : ProtoSums → ProtoSums → ProtoSums
merge_protos p o =
    let q = record p { sums = add_items o.sums.items p.sums } in
    if o.has_null then add_proto (none, o.null_key) q else q

-- The least of the values that are there
abbrev pub take_least : Option ℕ → Option ℕ → Option ℕ
take_least a none = a
take_least none (some n) = some n
take_least (some m) (some n) = if ltb n m then some n else some m

pub record Row : Type 0 where
  pub bucket : Option ℕ
  pub tx : Option ℕ
  pub rx : Option ℕ
  pub tx_pkts : Option ℕ
  pub rx_pkts : Option ℕ
  pub flows : Option ℕ
  pub directional : Option ℕ
  pub protocols : List ProtoItem
  pub tx_proto : List ProtoItem
  pub rx_proto : List ProtoItem
  pub ports : List (Entry PortKey)
  pub tx_ports : List (Entry PortKey)
  pub rx_ports : List (Entry PortKey)

-- pairGroup; `none` is the missing bucket and direction.
pub record PairGroup : Type 0 where
  pub bucket : Option ℕ
  pub tx : SumState
  pub rx : SumState
  pub tx_pkts : SumState
  pub rx_pkts : SumState
  pub flows : SumState
  pub directional : Option ℕ
  pub protocols : ProtoSums
  pub tx_proto : ProtoSums
  pub rx_proto : ProtoSums
  pub ports : KeyedSums PortKey
  pub tx_ports : KeyedSums PortKey
  pub rx_ports : KeyedSums PortKey
  pub dirty : Bool

abbrev pub new_pair_group : PairGroup
new_pair_group = record {
  bucket = none;
  tx = none;
  rx = none;
  tx_pkts = none;
  rx_pkts = none;
  flows = none;
  directional = none;
  protocols = no_protos;
  tx_proto = no_protos;
  rx_proto = no_protos;
  ports = no_sums;
  tx_ports = no_sums;
  rx_ports = no_sums;
  dirty = false;
}

-- pairGroup.addRow
unfoldable pub add_row : Row → PairGroup → PairGroup
add_row r g = record {
  bucket = take_least g.bucket r.bucket;
  tx = add g.tx r.tx;
  rx = add g.rx r.rx;
  tx_pkts = add g.tx_pkts r.tx_pkts;
  rx_pkts = add g.rx_pkts r.rx_pkts;
  flows = add g.flows r.flows;
  directional = take_least g.directional (some (or_zero r.directional));
  protocols = add_protos r.protocols g.protocols;
  tx_proto = add_protos r.tx_proto g.tx_proto;
  rx_proto = add_protos r.rx_proto g.rx_proto;
  ports = add_items r.ports g.ports;
  tx_ports = add_items r.tx_ports g.tx_ports;
  rx_ports = add_items r.rx_ports g.rx_ports;
  dirty = g.dirty;
}

-- One row of scanPairRows, for the group of its key
unfoldable pub scan_row : Bool → Row → PairGroup → PairGroup
scan_row dirty r g = if dirty then record (add_row r g) { dirty = true } else add_row r g

unfoldable pub scan_rows : Bool → List Row → PairGroup → PairGroup
scan_rows dirty [] g = g
scan_rows dirty (r ∷ rows) g = scan_rows dirty rows (scan_row dirty r g)

-- pairGroup.merge
unfoldable pub merge_group : PairGroup → PairGroup → PairGroup
merge_group g o = record {
  bucket = take_least g.bucket o.bucket;
  tx = add g.tx o.tx;
  rx = add g.rx o.rx;
  tx_pkts = add g.tx_pkts o.tx_pkts;
  rx_pkts = add g.rx_pkts o.rx_pkts;
  flows = add g.flows o.flows;
  directional = take_least g.directional o.directional;
  protocols = merge_protos g.protocols o.protocols;
  tx_proto = merge_protos g.tx_proto o.tx_proto;
  rx_proto = merge_protos g.rx_proto o.rx_proto;
  ports = add_items o.ports.items g.ports;
  tx_ports = add_items o.tx_ports.items g.tx_ports;
  rx_ports = add_items o.rx_ports.items g.rx_ports;
  dirty = g.dirty || o.dirty;
}

-- The partial groups of one key, merged into the first one as aggregateWithClosedSpans does
unfoldable pub merge_all : PairGroup → List PairGroup → PairGroup
merge_all g [] = g
merge_all g (o ∷ groups) = merge_all (merge_group g o) groups
