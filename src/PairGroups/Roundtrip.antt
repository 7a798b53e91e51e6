-- ===== src/PairGroups/Roundtrip.antt =====
-- A pair that is packed by packHour of backend/internal/database/closed_hour_cache.go is merged by mergePartition as
-- its group is merged.
use tsflow.Prelude.{
  ℕ, ◌+◌, ◌-◌, ◌≤◌, ◌≡◌, ap, ◌∙◌, inl, inr, Bool, true, false, not, ◌||◌, List, ◌++◌, Option, none,
  some, arith, eqb, ltb, String_eq, ℕ_eq, if◌then◌else◌, length, take, drop, Bool-cases,
}
use tsflow.Prelude.Groups.{or_zero}
use tsflow.PairGroups.Sums.{SumState, add}
use tsflow.PairGroups.Group.{PortKey_eq, take_least, PairGroup, merge_group}
use tsflow.PairGroups.Packing.{bit, is_set}
use tsflow.PairGroups.Packed.{
  Item, numeric, sum_of, pack_protos, pack_ports, add_packed_protos, add_packed_ports, PackedPair,
  is_some, flags_of, bucket_fits, with_columns, pack_pair, merge_packed,
}
use tsflow.PairGroups.Unpacked.{
  WordKeys, PortWords, PortAdds, Merges, pack_protos-Merges, pack_ports-PortAdds, take_front,
  drop_front, take_whole, sum_of_lem,
}
use tsflow.PairGroups.Flags.{flag_lem, direction_lem, bucket_lem}

-- The keys of the columns are int values.
abbrev pub HasWordKeys : PairGroup → Type 0
HasWordKeys o =
    WordKeys o.protocols.sums.items
    × WordKeys o.tx_proto.sums.items
    × WordKeys o.rx_proto.sums.items
    × PortWords o.ports.items
    × PortWords o.tx_ports.items
    × PortWords o.rx_ports.items

module _ (hour : ℕ) (g o : PairGroup) (clean : o.dirty ≡ false) where
  abbrev pub MergedAlike : Option PackedPair → Type 0
  MergedAlike none = Unit
  MergedAlike (some p) = merge_packed hour p g ≡ merge_group g o

  abbrev flags : ℕ
  flags = flags_of o

  columns :
      (a b c d e f : Option (List Item))
      → bucket_fits hour o.bucket ≡ true
      → or_zero o.directional ≤ 1
      → Merges g.protocols o.protocols a
      → Merges g.tx_proto o.tx_proto b
      → Merges g.rx_proto o.rx_proto c
      → PortAdds o.ports.items g.ports d
      → PortAdds o.tx_ports.items g.tx_ports e
      → PortAdds o.rx_ports.items g.rx_ports f
      → MergedAlike (with_columns hour o a b c d e f)
  unfolding merge_packed merge_group
  columns none b c d e f in_hour dir p q r s t u = tt
  columns (some a) none c d e f in_hour dir p q r s t u = tt
  columns (some a) (some b) none d e f in_hour dir p q r s t u = tt
  columns (some a) (some b) (some c) none e f in_hour dir p q r s t u = tt
  columns (some a) (some b) (some c) (some d) none f in_hour dir p q r s t u = tt
  columns (some a) (some b) (some c) (some d) (some e) none in_hour dir p q r s t u = tt
  columns (some a) (some b) (some c) (some d) (some e) (some f) in_hour dir p q r s t u = λ i.
      record {
        bucket = take_least g.bucket (bucket i);
        tx = add g.tx (tx i);
        rx = add g.rx (rx i);
        tx_pkts = add g.tx_pkts (tx_pkts i);
        rx_pkts = add g.rx_pkts (rx_pkts i);
        flows = add g.flows (flows i);
        directional = take_least g.directional (direction i);
        protocols = (ap (λ xs. add_packed_protos xs g.protocols) (take_front a (b ++ c)) ∙ p) i;
        tx_proto = (ap (λ xs. add_packed_protos xs g.tx_proto) (second a b c) ∙ q) i;
        rx_proto = (ap (λ xs. add_packed_protos xs g.rx_proto) (third a b c) ∙ r) i;
        ports = (ap (λ xs. add_packed_ports xs g.ports) (take_front d (e ++ f)) ∙ s) i;
        tx_ports = (ap (λ xs. add_packed_ports xs g.tx_ports) (second d e f) ∙ t) i;
        rx_ports = (ap (λ xs. add_packed_ports xs g.rx_ports) (third d e f) ∙ u) i;
        dirty = same_dirty i;
      }
    where
      bits :
          (is_set flags 1 ≡ is_some o.bucket)
          × (is_set flags 2 ≡ numeric o.tx)
          × (is_set flags 4 ≡ numeric o.rx)
          × (is_set flags 8 ≡ numeric o.tx_pkts)
          × (is_set flags 16 ≡ numeric o.rx_pkts)
          × (is_set flags 32 ≡ numeric o.flows)
          × (is_set flags 64 ≡ eqb (or_zero o.directional) 1)
          × (is_set flags 128 ≡ is_some o.directional)
      bits =
          flag_lem (is_some o.bucket) (numeric o.tx) (numeric o.rx) (numeric o.tx_pkts)
            (numeric o.rx_pkts) (numeric o.flows) (eqb (or_zero o.directional) 1)
            (is_some o.directional)

      counter : (v : SumState) (k : Bool) → k ≡ numeric v → sum_of k (or_zero v) ≡ v
      counter v k h = ap (λ m. sum_of m (or_zero v)) h ∙ sum_of_lem v

      tx : sum_of (is_set flags 2) (or_zero o.tx) ≡ o.tx
      tx = counter o.tx (is_set flags 2) bits.1

      rx : sum_of (is_set flags 4) (or_zero o.rx) ≡ o.rx
      rx = counter o.rx (is_set flags 4) bits.2

      tx_pkts : sum_of (is_set flags 8) (or_zero o.tx_pkts) ≡ o.tx_pkts
      tx_pkts = counter o.tx_pkts (is_set flags 8) bits.3

      rx_pkts : sum_of (is_set flags 16) (or_zero o.rx_pkts) ≡ o.rx_pkts
      rx_pkts = counter o.rx_pkts (is_set flags 16) bits.4

      flows : sum_of (is_set flags 32) (or_zero o.flows) ≡ o.flows
      flows = counter o.flows (is_set flags 32) bits.5

      bucket : (if is_set flags 1 then some (hour + (or_zero o.bucket - hour)) else none) ≡ o.bucket
      bucket =
          ap (λ k. if k then some (hour + (or_zero o.bucket - hour)) else none) bits.0
          ∙ bucket_lem hour o.bucket in_hour

      direction : (if is_set flags 128 then some (bit (is_set flags 64)) else none) ≡ o.directional
      direction =
          ap (λ k. if k then some (bit (is_set flags 64)) else none) bits.7
          ∙ ap (λ k. if is_some o.directional then some (bit k) else none) bits.6
          ∙ direction_lem o.directional dir

      second : (xs ys zs : List Item) → take (length ys) (drop (length xs) (xs ++ (ys ++ zs))) ≡ ys
      second xs ys zs = ap (take (length ys)) (drop_front xs (ys ++ zs)) ∙ take_front ys zs

      third :
          (xs ys zs : List Item)
          → take (length zs) (drop (length ys) (drop (length xs) (xs ++ (ys ++ zs)))) ≡ zs
      third xs ys zs =
          ap (λ l. take (length zs) (drop (length ys) l)) (drop_front xs (ys ++ zs))
          ∙ ap (take (length zs)) (drop_front ys zs)
          ∙ take_whole zs

      same_dirty : g.dirty ≡ (g.dirty || o.dirty)
      same_dirty = ground (arith, clean)

  -- A group that is not marked dirty and whose protocols and ports are int values: if it can be packed, merging
  -- what was packed into any group is merging the group itself.
  pub merge_packed-pack_pair : HasWordKeys o → MergedAlike (pack_pair hour o)
  unfolding pack_pair
  merge_packed-pack_pair (a, b, c, d, e, f) =
      elim (Bool-cases (not (bucket_fits hour o.bucket) || ltb 1 (or_zero o.directional))) [
        | inl h ↦ rw h tt
        | inr h ↦ rw h (
            columns (pack_protos o.protocols) (pack_protos o.tx_proto) (pack_protos o.rx_proto)
              (pack_ports o.ports) (pack_ports o.tx_ports) (pack_ports o.rx_ports)
              (ground (arith, h)) (ground (arith, h)) (pack_protos-Merges g.protocols o.protocols a)
              (pack_protos-Merges g.tx_proto o.tx_proto b)
              (pack_protos-Merges g.rx_proto o.rx_proto c) (pack_ports-PortAdds g.ports o.ports d)
              (pack_ports-PortAdds g.tx_ports o.tx_ports e)
              (pack_ports-PortAdds g.rx_ports o.rx_ports f))
      ]
