-- ===== src/PairGroups/Sums.antt =====
-- sumState, protoSums and portSums of backend/internal/database/node_pair_read.go. A sum is `none` while it
-- is not numeric, when its number is 0; numbers are int64, as bit patterns.
use tsflow.Prelude.{
  ℕ, suc, Bool, true, false, List, [], ◌∷◌, Option, none, some, Eq, ltb, String_eq, ℕ_eq,
  if◌then◌else◌, length,
}
use tsflow.Prelude.Maps.{Map, insert}
use tsflow.Prelude.Groups.{add64}
use tsflow.Prelude.Slots.{upsert_linear, upsert_indexed, position}

abbrev pub SumState : Type 0
SumState = Option ℕ

-- sumState.add
abbrev pub add : SumState → SumState → SumState
add a none = a
add none (some n) = some (add64 0 n)
add (some m) (some n) = some (add64 m n)

abbrev pub small_sums_limit : ℕ
small_sums_limit = 16

-- portKey
pub record PortKey : Type 0 where
  pub port_null : Bool
  pub proto_null : Bool
  pub port : ℕ
  pub proto : ℕ

-- protoEntry and portEntry
abbrev pub Entry : Type 0 → Type 0
Entry K = K × SumState

abbrev pub key_of : {K : Type 0} → Entry K → K
key_of (k, v) = k

abbrev pub merge_entry : {K : Type 0} → Entry K → Entry K → Entry K
merge_entry (k, a) (j, b) = (k, add a b)

-- A new entry, to which a value is added
abbrev pub entry : {K : Type 0} → K → SumState → Entry K
entry k v = (k, add none v)

-- portSums, and protoSums without its null key
pub record KeyedSums (K : Type 0) : Type 0 where
  pub items : List (Entry K)
  pub index : Option (Map K ℕ)

abbrev pub no_sums : {K : Type 0} → KeyedSums K
no_sums = record { items = []; index = none }

abbrev pub is_some : Option ℕ → Bool
is_some none = false
is_some (some n) = true

module _ {K : Type 0} ⦃e : Eq K⦄ where
  -- The index of the items, from a position on
  unfoldable pub build_index : ℕ → List (Entry K) → Map K ℕ → Map K ℕ
  build_index n [] index = index
  build_index n (item ∷ items) index = build_index (suc n) items (insert (key_of item) n index)

  -- The end of slot, where the items are not indexed
  abbrev pub index_if_many : Bool → List (Entry K) → Option (Map K ℕ)
  index_if_many found items =
      if found
      then none
      else if ltb small_sums_limit (length items)
      then some (build_index 0 items [])
      else none

  -- slot, and the addition to what it returns
  unfoldable pub add_at : K → SumState → List (Entry K) → Option (Map K ℕ) → KeyedSums K
  add_at k v items none =
      let items' = upsert_linear key_of merge_entry (entry k v) items in
      record {
        items = items';
        index = index_if_many (is_some (position key_of merge_entry k items)) items';
      }
  add_at k v items (some index) =
      let (items', index') = upsert_indexed key_of merge_entry (entry k v) (items, index) in
      record { items = items'; index = some index' }

  unfoldable pub add_item : Entry K → KeyedSums K → KeyedSums K
  add_item (k, v) s = add_at k v s.items s.index

  -- Also the merge of the sums of another group, by its items
  unfoldable pub add_items : List (Entry K) → KeyedSums K → KeyedSums K
  add_items [] s = s
  add_items (item ∷ items) s = add_items items (add_item item s)
