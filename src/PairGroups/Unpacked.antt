-- ===== src/PairGroups/Unpacked.antt =====
-- Packing a pair of a closed hour and merging it into a group, in backend/internal/database/closed_hour_cache.go, is
-- merging the group that was packed.
use tsflow.Prelude.{
  ℕ, ◌+◌, ◌^◌, ◌<◌, ◌≡◌, refl, ap, ◌∙◌, inl, inr, Bool, true, false, ◌&&◌, List, [], ◌∷◌, ◌++◌,
  Option, none, some, arith, ltb, String_eq, ℕ_eq, length, take, drop, Bool-cases,
}
use tsflow.Prelude.Groups.{or_zero}
use tsflow.PairGroups.Sums.{SumState, PortKey, Entry, KeyedSums, add_item, add_items}
use tsflow.PairGroups.Group.{PortKey_eq, ProtoSums, add_proto, merge_protos}
use tsflow.PairGroups.Packing.{
  bit, fits, pack_proto_key, unpack-pack_proto_key, pack_port_key, unpack-pack_port_key,
}
use tsflow.PairGroups.Packed.{
  Item, numeric, sum_of, max_uint16, cons_if, pack_proto_items, null_item, append_some, pack_protos,
  pack_port_items, pack_ports, add_packed_proto, add_packed_protos, add_packed_ports,
}

-- The keys are int values.
abbrev pub WordKeys : List (Entry ℕ) → Type 0
WordKeys [] = Unit
WordKeys ((k, v) ∷ items) = (k < 2 ^ 64) × WordKeys items

abbrev pub PortWords : List (Entry PortKey) → Type 0
PortWords [] = Unit
PortWords ((k, v) ∷ items) = ((k.port < 2 ^ 64) × (k.proto < 2 ^ 64)) × PortWords items

pub sum_of_lem : (v : SumState) → sum_of (numeric v) (or_zero v) ≡ v
sum_of_lem none = refl
sum_of_lem (some n) = refl

add_packed_proto_lem :
    (k : ℕ) (v : SumState) (p : ProtoSums)
    → k < 2 ^ 64
    → fits (2 ^ 29) k ≡ true
    → add_packed_proto (pack_proto_key k (numeric v) false, or_zero v) p
      ≡ record p { sums = add_item (k, v) p.sums }
unfolding add_packed_proto
add_packed_proto_lem k v p w h =
    rw (unpack-pack_proto_key k (numeric v) false w h, sum_of_lem v) (unfold add_proto in refl)

-- What packed items add
abbrev pub Adds : List (Entry ℕ) → ProtoSums → Option (List Item) → Type 0
Adds items p none = Unit
Adds items p (some xs) = add_packed_protos xs p ≡ record p { sums = add_items items p.sums }

abbrev pub PortAdds : List (Entry PortKey) → KeyedSums PortKey → Option (List Item) → Type 0
PortAdds items s none = Unit
PortAdds items s (some xs) = add_packed_ports xs s ≡ add_items items s

one_more :
    (b : Bool) (k : ℕ) (v : SumState) (items : List (Entry ℕ)) (p : ProtoSums)
    (o : Option (List Item))
    → k < 2 ^ 64
    → fits (2 ^ 29) k ≡ b
    → ((q : ProtoSums) → Adds items q o)
    → Adds ((k, v) ∷ items) p (cons_if b (pack_proto_key k (numeric v) false, or_zero v) o)
unfolding add_packed_protos add_items
one_more b k v items p none w h rest = tt
one_more false k v items p (some xs) w h rest = tt
one_more true k v items p (some xs) w h rest =
    ap (add_packed_protos xs) (add_packed_proto_lem k v p w h)
    ∙ rest (record p { sums = add_item (k, v) p.sums })

pack_proto_items-Adds :
    (items : List (Entry ℕ)) (p : ProtoSums)
    → WordKeys items
    → Adds items p (pack_proto_items items)
unfolding pack_proto_items add_packed_protos add_items
pack_proto_items-Adds [] p w = refl
pack_proto_items-Adds ((k, v) ∷ items) p (w, ws) =
    one_more (fits (2 ^ 29) k) k v items p (pack_proto_items items) w refl
      (λ q. pack_proto_items-Adds items q ws)

one_more_port :
    (b : Bool) (k : PortKey) (v : SumState) (items : List (Entry PortKey)) (s : KeyedSums PortKey)
    (o : Option (List Item))
    → (k.port < 2 ^ 64) × (k.proto < 2 ^ 64)
    → (fits (2 ^ 31) k.port && fits (2 ^ 15) k.proto) ≡ b
    → ((t : KeyedSums PortKey) → PortAdds items t o)
    → PortAdds ((k, v) ∷ items) s (cons_if b (pack_port_key k (numeric v), or_zero v) o)
unfolding add_packed_ports add_items
one_more_port b k v items s none w h rest = tt
one_more_port false k v items s (some xs) w h rest = tt
one_more_port true k v items s (some xs) (w, w') h rest =
    rw
      (
        unpack-pack_port_key k (numeric v) w w' (ground (arith, h)) (ground (arith, h)),
        sum_of_lem v,
      )
      (rest (add_item (k, v) s))

pack_port_items-PortAdds :
    (items : List (Entry PortKey)) (s : KeyedSums PortKey)
    → PortWords items
    → PortAdds items s (pack_port_items items)
unfolding pack_port_items add_packed_ports add_items
pack_port_items-PortAdds [] s w = refl
pack_port_items-PortAdds ((k, v) ∷ items) s (w, ws) =
    one_more_port (fits (2 ^ 31) k.port && fits (2 ^ 15) k.proto) k v items s
      (pack_port_items items) w refl (λ t. pack_port_items-PortAdds items t ws)

-- What a packed column adds
abbrev pub Merges : ProtoSums → ProtoSums → Option (List Item) → Type 0
Merges p o none = Unit
Merges p o (some xs) = add_packed_protos xs p ≡ merge_protos p o

add_packed_protos-append :
    (xs ys : List Item) (p : ProtoSums)
    → add_packed_protos (xs ++ ys) p ≡ add_packed_protos ys (add_packed_protos xs p)
unfolding add_packed_protos
add_packed_protos-append [] ys p = refl
add_packed_protos-append (x ∷ xs) ys p = add_packed_protos-append xs ys (add_packed_proto x p)

null_item_lem :
    (p o : ProtoSums)
    → add_packed_protos (null_item o) (record p { sums = add_items o.sums.items p.sums })
      ≡ merge_protos p o
unfolding add_packed_protos merge_protos
null_item_lem p o = elim (Bool-cases o.has_null) [
  | inl e ↦ rw e (
      unfold add_packed_proto in
      rw
        (
          unpack-pack_proto_key 0 (numeric o.null_key) true (omega arith) refl,
          sum_of_lem o.null_key,
        )
        refl)
  | inr e ↦ rw e refl
]

with_null :
    (p o : ProtoSums) (r : Option (List Item))
    → Adds o.sums.items p r
    → Merges p o (append_some r (null_item o))
with_null p o none h = tt
with_null p o (some xs) h =
    add_packed_protos-append xs (null_item o) p
    ∙ ap (add_packed_protos (null_item o)) h
    ∙ null_item_lem p o

pub pack_protos-Merges : (p o : ProtoSums) → WordKeys o.sums.items → Merges p o (pack_protos o)
unfolding pack_protos
pack_protos-Merges p o w =
    elim (Bool-cases (ltb max_uint16 (length o.sums.items + bit o.has_null))) [
      | inl e ↦ rw e tt
      | inr e ↦
          rw e
            (with_null p o (pack_proto_items o.sums.items) (pack_proto_items-Adds o.sums.items p w))
    ]

pub pack_ports-PortAdds :
    (s o : KeyedSums PortKey) → PortWords o.items → PortAdds o.items s (pack_ports o)
unfolding pack_ports
pack_ports-PortAdds s o w = elim (Bool-cases (ltb max_uint16 (length o.items))) [
  | inl e ↦ rw e tt
  | inr e ↦ rw e (pack_port_items-PortAdds o.items s w)
]

pub take_front : (xs ys : List Item) → take (length xs) (xs ++ ys) ≡ xs
take_front [] ys = refl
take_front (x ∷ xs) ys = ap (λ l. x ∷ l) (take_front xs ys)

pub drop_front : (xs ys : List Item) → drop (length xs) (xs ++ ys) ≡ ys
drop_front [] ys = refl
drop_front (x ∷ xs) ys = drop_front xs ys

pub take_whole : (xs : List Item) → take (length xs) xs ≡ xs
take_whole [] = refl
take_whole (x ∷ xs) = ap (λ l. x ∷ l) (take_whole xs)
