-- ===== src/PairGroups/Packing.antt =====
-- The packed keys of backend/internal/database/closed_hour_cache.go. An int is its bit pattern of 64 bits; a bit
-- that is set by `|=` where it is clear is added, and a mask of low bits is a remainder.
use tsflow.Prelude.{
  ℕ, ◌+◌, ◌-◌, ◌*◌, ◌/◌, ◌%◌, ◌^◌, ◌<◌, ◌≡◌, refl, Bool, true, false, ◌||◌, arith, eqb, ltb, leb,
  String_eq, ℕ_eq, if◌then◌else◌,
}
use tsflow.PairGroups.Sums.{PortKey}

abbrev pub bit : Bool → ℕ
bit true = 1
bit false = 0

abbrev pub is_set : ℕ → ℕ → Bool
is_set v place = eqb (v / place % 2) 1

-- The int of a signed number of fewer bits, by its half range
abbrev pub sign_extend : ℕ → ℕ → ℕ
sign_extend half raw = if leb half raw then raw + (2 ^ 64 - 2 * half) else raw

-- From - half up to half, without it
abbrev pub fits : ℕ → ℕ → Bool
fits half k = ltb k half || leb (2 ^ 64 - half) k

-- packProtoKey
unfoldable pub pack_proto_key : ℕ → Bool → Bool → ℕ
pack_proto_key key numeric key_null = key % 2 ^ 30 + bit numeric * 2 ^ 30 + bit key_null * 2 ^ 31

-- unpackProtoKey
unfoldable pub unpack_proto_key : ℕ → ℕ × Bool × Bool
unpack_proto_key v = (sign_extend (2 ^ 29) (v % 2 ^ 30), is_set v (2 ^ 30), is_set v (2 ^ 31))

bit_lem : (b : Bool) → eqb (bit b) 1 ≡ b
bit_lem true = refl
bit_lem false = refl

module _ (key : ℕ) (numeric key_null : Bool) where
  -- A key of 30 bits, with its two flags, is unpacked as it was packed.
  pub unpack-pack_proto_key :
      key < 2 ^ 64
      → fits (2 ^ 29) key ≡ true
      → unpack_proto_key (pack_proto_key key numeric key_null) ≡ (key, numeric, key_null)
  unfolding pack_proto_key unpack_proto_key
  unpack-pack_proto_key word h = ground (arith, word, h)

-- packPorts, one key
unfoldable pub pack_port_key : PortKey → Bool → ℕ
pack_port_key k numeric =
    k.port % 2 ^ 32
    + k.proto % 2 ^ 16 * 2 ^ 32
    + (bit numeric + bit k.port_null * 2 + bit k.proto_null * 4) * 2 ^ 48

-- mergePartition, one key of a port
unfoldable pub unpack_port_key : ℕ → PortKey × Bool
unpack_port_key v =
    let flags = v / 2 ^ 48 in
    (
      record {
        port_null = is_set flags 2;
        proto_null = is_set flags 4;
        port = sign_extend (2 ^ 31) (v % 2 ^ 32);
        proto = sign_extend (2 ^ 15) (v / 2 ^ 32 % 2 ^ 16);
      },
      is_set flags 1,
    )

-- A port key of 32 and 16 bits, with its three flags, is unpacked as it was packed.
pub unpack-pack_port_key :
    (k : PortKey) (numeric : Bool)
    → k.port < 2 ^ 64
    → k.proto < 2 ^ 64
    → fits (2 ^ 31) k.port ≡ true
    → fits (2 ^ 15) k.proto ≡ true
    → unpack_port_key (pack_port_key k numeric) ≡ (k, numeric)
unfolding pack_port_key unpack_port_key
unpack-pack_port_key k numeric w w' h h' = ground (arith, w, w', h, h')
