-- ===== src/PairGroups/Packed.antt =====
-- The packed rows of a closed hour in backend/internal/database/closed_hour_cache.go, for one pair: packHour and
-- mergePartition. A pair has the part of the arrays that is its own.
use tsflow.Prelude.{
  ℕ, ◌+◌, ◌-◌, ◌*◌, ◌^◌, Bool, true, false, not, ◌&&◌, ◌||◌, List, [], ◌∷◌, ◌++◌, Option, none,
  some, eqb, ltb, leb, String_eq, ℕ_eq, if◌then◌else◌, length, take, drop,
}
use tsflow.Prelude.Groups.{or_zero}
use tsflow.PairGroups.Sums.{SumState, add, PortKey, Entry, KeyedSums, add_item}
use tsflow.PairGroups.Group.{PortKey_eq, ProtoSums, add_proto, take_least, PairGroup}
use tsflow.PairGroups.Packing.{
  bit, is_set, fits, pack_proto_key, unpack_proto_key, pack_port_key, unpack_port_key,
}

-- A packed key and its number
abbrev pub Item : Type 0
Item = ℕ × ℕ

abbrev pub numeric : SumState → Bool
numeric none = false
numeric (some n) = true

abbrev pub sum_of : Bool → ℕ → SumState
sum_of b n = if b then some n else none

abbrev pub max_uint16 : ℕ
max_uint16 = 65535

abbrev pub cons_if {ℓ} : {A : Type ℓ} → Bool → A → Option (List A) → Option (List A)
cons_if b a none = none
cons_if b a (some rest) = if b then some (a ∷ rest) else none

unfoldable pub pack_proto_items : List (Entry ℕ) → Option (List Item)
pack_proto_items [] = some []
pack_proto_items ((k, v) ∷ items) =
    cons_if (fits (2 ^ 29) k) (pack_proto_key k (numeric v) false, or_zero v)
      (pack_proto_items items)

abbrev pub null_item : ProtoSums → List Item
null_item p =
    if p.has_null then (pack_proto_key 0 (numeric p.null_key) true, or_zero p.null_key) ∷ [] else []

abbrev pub append_some : Option (List Item) → List Item → Option (List Item)
append_some none ys = none
append_some (some xs) ys = some (xs ++ ys)

-- packProtos
unfoldable pub pack_protos : ProtoSums → Option (List Item)
pack_protos p =
    if ltb max_uint16 (length p.sums.items + bit p.has_null)
    then none
    else append_some (pack_proto_items p.sums.items) (null_item p)

-- packPorts
unfoldable pub pack_port_items : List (Entry PortKey) → Option (List Item)
pack_port_items [] = some []
pack_port_items ((k, v) ∷ items) =
    cons_if (fits (2 ^ 31) k.port && fits (2 ^ 15) k.proto) (pack_port_key k (numeric v), or_zero v)
      (pack_port_items items)

unfoldable pub pack_ports : KeyedSums PortKey → Option (List Item)
pack_ports s = if ltb max_uint16 (length s.items) then none else pack_port_items s.items

-- mergePartition, the items of one column
abbrev pub proto_key : ℕ → Bool → Option ℕ
proto_key key key_null = if key_null then none else some key

unfoldable pub add_packed_proto : Item → ProtoSums → ProtoSums
add_packed_proto (k, n) p =
    let (key, is_numeric, key_null) = unpack_proto_key k in
    add_proto (proto_key key key_null, sum_of is_numeric n) p

unfoldable pub add_packed_protos : List Item → ProtoSums → ProtoSums
add_packed_protos [] p = p
add_packed_protos (x ∷ xs) p = add_packed_protos xs (add_packed_proto x p)

unfoldable pub add_packed_ports : List Item → KeyedSums PortKey → KeyedSums PortKey
add_packed_ports [] s = s
add_packed_ports ((k, n) ∷ xs) s =
    let (key, is_numeric) = unpack_port_key k in
    add_packed_ports xs (add_item (key, sum_of is_numeric n) s)

-- packedPair, without what names the pair
pub record PackedPair : Type 0 where
  pub tx : ℕ
  pub rx : ℕ
  pub tx_pkts : ℕ
  pub rx_pkts : ℕ
  pub flows : ℕ
  pub bucket_off : ℕ
  pub flags : ℕ
  pub protos : List Item
  pub n_protocols : ℕ
  pub n_tx_proto : ℕ
  pub n_rx_proto : ℕ
  pub ports : List Item
  pub n_ports : ℕ
  pub n_tx_ports : ℕ
  pub n_rx_ports : ℕ

abbrev pub is_some : Option ℕ → Bool
is_some none = false
is_some (some n) = true

-- The flags, from pfBucket to pfDirSet
abbrev pub flags_of : PairGroup → ℕ
flags_of g =
    bit (is_some g.bucket)
    + bit (numeric g.tx) * 2
    + bit (numeric g.rx) * 4
    + bit (numeric g.tx_pkts) * 8
    + bit (numeric g.rx_pkts) * 16
    + bit (numeric g.flows) * 32
    + bit (eqb (or_zero g.directional) 1) * 64
    + bit (is_some g.directional) * 128

abbrev pub bucket_fits : ℕ → Option ℕ → Bool
bucket_fits hour none = true
bucket_fits hour (some b) = leb hour b && ltb b (hour + 3600)

abbrev pub with_columns : ℕ → PairGroup → (a b c d e f : Option (List Item)) → Option PackedPair
with_columns hour g (some a) (some b) (some c) (some d) (some e) (some f) = some (record {
  tx = or_zero g.tx;
  rx = or_zero g.rx;
  tx_pkts = or_zero g.tx_pkts;
  rx_pkts = or_zero g.rx_pkts;
  flows = or_zero g.flows;
  bucket_off = or_zero g.bucket - hour;
  flags = flags_of g;
  protos = a ++ (b ++ c);
  n_protocols = length a;
  n_tx_proto = length b;
  n_rx_proto = length c;
  ports = d ++ (e ++ f);
  n_ports = length d;
  n_tx_ports = length e;
  n_rx_ports = length f;
})
with_columns hour g a b c d e f = none

-- One round of packHour
unfoldable pub pack_pair : ℕ → PairGroup → Option PackedPair
pack_pair hour g =
    if not (bucket_fits hour g.bucket) || ltb 1 (or_zero g.directional)
    then none
    else with_columns hour g (pack_protos g.protocols) (pack_protos g.tx_proto)
        (pack_protos g.rx_proto) (pack_ports g.ports) (pack_ports g.tx_ports)
        (pack_ports g.rx_ports)

-- The bucket and the direction of a packed pair
abbrev pub packed_bucket : ℕ → PackedPair → Option ℕ
packed_bucket hour p = if is_set p.flags 1 then some (hour + p.bucket_off) else none

abbrev pub packed_direction : PackedPair → Option ℕ
packed_direction p = if is_set p.flags 128 then some (bit (is_set p.flags 64)) else none

-- mergePartition, one pair and the group of its key
unfoldable pub merge_packed : ℕ → PackedPair → PairGroup → PairGroup
merge_packed hour p g = record {
  bucket = take_least g.bucket (packed_bucket hour p);
  tx = add g.tx (sum_of (is_set p.flags 2) p.tx);
  rx = add g.rx (sum_of (is_set p.flags 4) p.rx);
  tx_pkts = add g.tx_pkts (sum_of (is_set p.flags 8) p.tx_pkts);
  rx_pkts = add g.rx_pkts (sum_of (is_set p.flags 16) p.rx_pkts);
  flows = add g.flows (sum_of (is_set p.flags 32) p.flows);
  directional = take_least g.directional (packed_direction p);
  protocols = add_packed_protos (take p.n_protocols p.protos) g.protocols;
  tx_proto = add_packed_protos (take p.n_tx_proto (drop p.n_protocols p.protos)) g.tx_proto;
  rx_proto =
      add_packed_protos (take p.n_rx_proto (drop p.n_tx_proto (drop p.n_protocols p.protos)))
        g.rx_proto;
  ports = add_packed_ports (take p.n_ports p.ports) g.ports;
  tx_ports = add_packed_ports (take p.n_tx_ports (drop p.n_ports p.ports)) g.tx_ports;
  rx_ports =
      add_packed_ports (take p.n_rx_ports (drop p.n_tx_ports (drop p.n_ports p.ports))) g.rx_ports;
  dirty = g.dirty;
}
