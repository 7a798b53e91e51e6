-- ===== src/PairGroups/Tests.antt =====
-- Runs of the groups of node_pair_read.go, and their theorems at concrete inputs.
use tsflow.Prelude.{
  ℕ, ◌+◌, ◌-◌, ◌^◌, ◌≡◌, refl, true, false, List, [], ◌∷◌, Option, none, some, arith, String_eq,
  ℕ_eq,
}
use tsflow.Prelude.Slots.{upsert_linear, position}
use tsflow.PairGroups.Sums.{PortKey, add_item, add_items, add_at}
use tsflow.PairGroups.Group.{
  PairGroup, new_pair_group, PortKey_eq, Row, add_proto, add_protos, merge_protos, add_row,
  scan_row, scan_rows, merge_group, merge_all,
}
use tsflow.PairGroups.Packing.{pack_proto_key, unpack_proto_key}
use tsflow.PairGroups.Packed.{
  PackedPair, pack_proto_items, pack_port_items, pack_protos, pack_ports, pack_pair,
}
use tsflow.PairGroups.Roundtrip.{MergedAlike, merge_packed-pack_pair}
use tsflow.PairGroups.Parts.{scan, scan_each}

abbrev web : PortKey
web = record { port_null = false; proto_null = false; port = 443; proto = 6 }

-- A minute row, and a row whose protocol column is a bare number
abbrev minute : Row
minute = record {
  bucket = some 120;
  tx = some 100;
  rx = some 50;
  tx_pkts = some 2;
  rx_pkts = none;
  flows = some 1;
  directional = none;
  protocols = (some 6, some 100) ∷ (some 17, none) ∷ [];
  tx_proto = [];
  rx_proto = [];
  ports = (web, some 100) ∷ [];
  tx_ports = [];
  rx_ports = [];
}

abbrev bare : Row
bare = record minute { bucket = some 60; protocols = (none, some 7) ∷ (some 6, some 1) ∷ [] }

abbrev merged_sums : List (ℕ × Option ℕ)
merged_sums = (merge_all (scan (minute ∷ [])) (scan_each ((bare ∷ []) ∷ []))).protocols.sums.items

merged : merged_sums ≡ (6, some 101) ∷ (17, none) ∷ []
unfolding merge_all merge_group merge_protos scan_rows scan_row add_row add_protos add_proto
    add_items add_item add_at upsert_linear position
merged = refl

-- A protocol key of -1
abbrev minus_one : ℕ
minus_one = 2 ^ 64 - 1

negative_key : unpack_proto_key (pack_proto_key minus_one true false) ≡ (minus_one, true, false)
unfolding pack_proto_key unpack_proto_key
negative_key = refl

abbrev stored : PairGroup
stored = record new_pair_group {
  bucket = some 3660;
  tx = some 100;
  directional = some 1;
  protocols = record {
    sums = record { items = (minus_one, some 100) ∷ (17, none) ∷ []; index = none };
    null_key = some 7;
    has_null = true;
  };
  ports = record { items = (web, some 100) ∷ []; index = none };
}

packed_flags : Option PackedPair → ℕ
packed_flags none = 0
packed_flags (some p) = p.flags

-- It can be packed: with a bucket, a number of bytes, and a direction of 1.
packed : packed_flags (pack_pair 3600 stored) ≡ 1 + 2 + 64 + 128
unfolding packed_flags pack_pair pack_protos pack_ports pack_proto_items pack_port_items
packed = refl

merge_packed-pack_pair_example : MergedAlike 3600 new_pair_group stored refl (pack_pair 3600 stored)
merge_packed-pack_pair_example =
    merge_packed-pack_pair 3600 new_pair_group stored refl
      ((omega arith, (omega arith, tt)), tt, tt, ((omega arith, omega arith), tt), tt, tt)
