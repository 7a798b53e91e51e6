-- ===== src/HourCache/Lru.antt =====
-- The elements of container/list as closed_hour_cache.go uses them: each has an identity, by which
-- `Remove` and `MoveToFront` find it, and an entry that never changes.
use tsflow.Prelude.{
  ℕ, ◌+◌, String, ◌≡◌, ◌↔◌, Bool, true, ◌&&◌, List, [], ◌∷◌, Option, none, some, arith, Eq, ◌==◌,
  eqb, eq_iff, String_eq, if◌then◌else◌,
}

-- hourCacheKey
pub record HourCacheKey : Type 0 where
  pub tailnet : String
  pub hour : ℕ

abbrev pub key_beq : HourCacheKey → HourCacheKey → Bool
key_beq a b = a.tailnet == b.tailnet && eqb a.hour b.hour

pub key_beq_iff : (a b : HourCacheKey) → (key_beq a b ≡ true) ↔ (a ≡ b)
key_beq_iff a b = ground (arith, eq_iff a.tailnet b.tailnet)

instance abbrev pub HourCacheKey_eq : Eq HourCacheKey
HourCacheKey_eq = record { beq = key_beq; beq_iff = key_beq_iff }

-- hourEntry, with its packed rows as one field
pub record HourEntry (P : Type 0) : Type 0 where
  pub tailnet : String
  pub hour : ℕ
  pub size : ℕ
  pub rows : P

pub record Element (P : Type 0) : Type 0 where
  pub id : ℕ
  pub value : HourEntry P

module _ {P : Type 0} where
  abbrev pub key_of : Element P → HourCacheKey
  key_of el = record { tailnet = el.value.tailnet; hour = el.value.hour }

  unfoldable pub remove : ℕ → List (Element P) → List (Element P)
  remove i [] = []
  remove i (x ∷ xs) = if eqb x.id i then xs else x ∷ remove i xs

  unfoldable pub back : List (Element P) → Option (Element P)
  back [] = none
  back (x ∷ []) = some x
  back (x ∷ y ∷ ys) = back (y ∷ ys)

  unfoldable pub find : HourCacheKey → List (Element P) → Option (Element P)
  find k [] = none
  find k (x ∷ xs) = if key_of x == k then some x else find k xs

  unfoldable pub find_id : ℕ → List (Element P) → Option (Element P)
  find_id i [] = none
  find_id i (x ∷ xs) = if eqb x.id i then some x else find_id i xs

  -- No two elements share a key or an identity.
  abbrev pub Distinct : List (Element P) → Type 0
  Distinct [] = Unit {0}
  Distinct (x ∷ xs) = (find (key_of x) xs ≡ none) × (find_id x.id xs ≡ none) × Distinct xs

  unfoldable pub total : List (Element P) → ℕ
  total [] = 0
  total (x ∷ xs) = x.value.size + total xs
