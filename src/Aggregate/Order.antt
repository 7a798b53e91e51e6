-- ===== src/Aggregate/Order.antt =====
-- The order of the rows that backend/internal/services/aggregator.go returns, and of a pair's nodes.
use tsflow.Prelude.{
  ℕ, zero, suc, ◌≡◌, refl, Bool, true, false, not, List, [], ◌∷◌, map, arith, ◌==◌, String_eq,
  eq_iff, length, take, drop, min, if◌then◌else◌, ap, sym, subst, ◌∙◌, ◌++◌, ◌+◌, ◌≤◌, ◌^◌, ◌%◌,
}
use tsflow.Prelude.Maps.{Map}
use tsflow.Prelude.Sort.{sort, insert_sorted, Ordered, sort-Ordered, length-sort}
use tsflow.Prelude.TextOrder.{before_str_asym, before_str_total}
use tsflow.Aggregate.Flow.{FlowLog, Devices, sender, receiver, is_reverse, pair_key, bucket_of}
use tsflow.Aggregate.Tables.{PortKey}
use tsflow.Aggregate.Rows.{PortStat, port_stat, before_port, top_ports}

before_port_asym : (a b : PortStat) → before_port a b ≡ true → before_port b a ≡ false
unfolding before_port
before_port_asym a b h = ground arith

module _ {A : Type 0} where
  length-take-le : (n : ℕ) (xs : List A) → length (take n xs) ≡ min n (length xs)
  length-take-le zero xs = omega arith
  length-take-le (suc n) [] = omega arith
  length-take-le (suc n) (x ∷ xs) = omega (arith, length-take-le n xs)

  take-++-drop : (n : ℕ) (xs : List A) → take n xs ++ drop n xs ≡ xs
  take-++-drop zero xs = refl
  take-++-drop (suc n) [] = refl
  take-++-drop (suc n) (x ∷ xs) = ap (λ ys. x ∷ ys) (take-++-drop n xs)

  -- How many elements pass a test
  abbrev pub count : (A → Bool) → List A → ℕ
  count p [] = 0
  count p (x ∷ xs) = (if p x then 1 else 0) + count p xs

  module _ (before : A → A → Bool) (p : A → Bool) where
    count-insert_sorted :
        (a : A) (xs : List A)
        → count p (insert_sorted before a xs) ≡ (if p a then 1 else 0) + count p xs
    unfolding insert_sorted
    count-insert_sorted a [] = refl
    count-insert_sorted a (x ∷ xs) = ground (arith, count-insert_sorted a xs)

    count-sort : (xs : List A) → count p (sort before xs) ≡ count p xs
    unfolding sort
    count-sort [] = refl
    count-sort (x ∷ xs) = ground (arith, count-sort xs, count-insert_sorted x (sort before xs))

count-map :
    {A B : Type 0} (p : B → Bool) (f : A → B) (xs : List A)
    → count p (map f xs) ≡ count (λ x. p (f x)) xs
count-map p f [] = refl
count-map p f (x ∷ xs) = omega (arith, count-map p f xs)

length-map : {A B : Type 0} (f : A → B) (xs : List A) → length (map f xs) ≡ length xs
length-map f [] = refl
length-map f (x ∷ xs) = omega (arith, length-map f xs)

-- A signed integer of 64 bits, from its bit pattern, put in the order of the natural numbers
abbrev pub signed : ℕ → ℕ
signed n = (n + 2 ^ 63) % 2 ^ 64

-- `a` may stand before `b` in a list of ports: more bytes, or as many and a lower protocol, or both
-- level and no higher port.
abbrev pub Heavier : PortStat → PortStat → Type 0
Heavier a b =
    (signed b.bytes ≤ signed a.bytes)
    × (a.bytes ≡ b.bytes → signed a.proto ≤ signed b.proto)
    × (a.bytes ≡ b.bytes → a.proto ≡ b.proto → a.port ≤ b.port)

abbrev pub Descending : List PortStat → Type 0
Descending [] = Unit
Descending (x ∷ []) = Unit
Descending (x ∷ y ∷ ys) = Heavier x y × Descending (y ∷ ys)

before_port-Heavier : (a b : PortStat) → before_port b a ≡ false → Heavier a b
unfolding before_port
before_port-Heavier a b h = (ground arith, λ e. ground arith, λ e f. ground arith)

Ordered-Descending : (xs : List PortStat) → Ordered before_port xs → Descending xs
Ordered-Descending [] h = tt
Ordered-Descending (x ∷ []) h = tt
Ordered-Descending (x ∷ y ∷ ys) (h, hs) =
    (before_port-Heavier x y h, Ordered-Descending (y ∷ ys) hs)

-- The listed ports are the first ones of all ports of the map, each as often as the map has it, in an
-- order of their own: the most bytes first, as signed integers, of equal bytes the lower signed
-- protocol first, of equal protocols the lower port; they are all of them or, where the map has more,
-- twenty.
pub top_ports_lem :
    (m : Map PortKey ℕ)
    → (rest : List PortStat) × Descending (top_ports m ++ rest)
      × ((p : PortStat → Bool)
          → count p (top_ports m ++ rest)
            ≡ count (λ (k, bytes). p (record { port = k.port; proto = k.proto; bytes = bytes })) m)
      × (length (top_ports m) ≡ min 20 (length m))
unfolding top_ports
top_ports_lem m =
    let all = map port_stat m in
    let sorted = sort before_port all in
    (
      drop 20 sorted,
      subst Descending (sym (take-++-drop 20 sorted))
          (Ordered-Descending sorted (sort-Ordered before_port before_port_asym all)),
      λ p.
          ap (count p) (take-++-drop 20 sorted)
          ∙ count-sort before_port p all
          ∙ count-map p port_stat m,
      omega (arith, length-take-le 20 sorted, length-sort before_port all, length-map port_stat m),
    )

-- Two records of one bucket and traffic type that go opposite ways between two nodes have one key,
-- and opposite directions; a record from a node to itself counts as forward.
pub pair_key_swap :
    (d : Devices) (l m : FlowLog)
    → bucket_of l ≡ bucket_of m
    → l.traffic_type ≡ m.traffic_type
    → sender d l ≡ receiver d m
    → receiver d l ≡ sender d m
    → (pair_key d l ≡ pair_key d m)
      × (is_reverse d l ≡ (if sender d l == receiver d l then false else not (is_reverse d m)))
unfolding pair_key
pair_key_swap d l m b t s r = ground (
  arith,
  eq_iff (sender d l) (receiver d l),
  eq_iff (sender d m) (receiver d m),
  before_str_asym (sender d l) (receiver d l),
  before_str_total (sender d l) (receiver d l),
  before_str_asym (sender d m) (receiver d m),
  before_str_total (sender d m) (receiver d m),
)
