-- ===== src/Convert/Counter.antt =====
-- The counters of a flow record in backend/internal/services/log_converter.go, and the values of decoded
-- JSON that it reads.
use tsflow.Prelude.{
  ℕ, suc, ◌*◌, ◌/◌, ◌%◌, ◌^◌, ◌≤◌, String, inl, inr, Bool, true, false, not, ◌&&◌, ◌||◌, Option,
  none, some, arith, ◌==◌, eqb, ltb, leb, String_eq, ℕ_eq, if◌then◌else◌, Bool-cases,
}
use native.Mathlib.Nat.{div-lt_iff_lt-mul, one-le-pow}
use tsflow.Window.Page.{ℤ, pos, negsuc}
use tsflow.Convert.Endpoint.{parse_int}

-- A float64 or float32: a finite one is a number divided by a power of two, with a sign.
pub data Float : Type 0 where
  not_a_number infinite : Float
  finite : (negative : Bool) → (numerator places : ℕ) → Float

-- What an `any` holds here; another type is `other`.
mutual
  pub data Any : Type 0 where
    null other : Any
    text : String → Any
    float64 float32 : Float → Any
    json_number : String → Any
    int int64 : ℤ → Any
    uint uint64 : ℕ → Any
    array : Items → Any
    object : Fields → Any

  pub data Items : Type 0 where
    no_items : Items
    item : Any → Items → Items

  pub data Fields : Type 0 where
    no_fields : Fields
    field : String → Any → Fields → Fields

-- `m[key]`, with `none` for a missing key
unfoldable pub get : String → Fields → Option Any
get key no_fields = none
get key (field k v rest) = if k == key then some v else get key rest

abbrev pub max_flow_counter : ℕ
max_flow_counter = 2 ^ 44

-- uint64ToInt64
abbrev pub uint64_to_int64 : ℕ → Option ℕ
uint64_to_int64 n = if ltb max_flow_counter n then none else some n

abbrev of_int : ℤ → Option ℕ
of_int (negsuc n) = none
of_int (pos n) = if leb n max_flow_counter then some n else none

-- Whole and not negative, where -0 counts as 0
of_float : Float → Option ℕ
of_float not_a_number = none
of_float infinite = none
of_float (finite negative n places) =
    if not (eqb (n % 2 ^ places) 0)
      || (negative && not (eqb n 0))
      || ltb (max_flow_counter * 2 ^ places) n
    then none
    else some (n / 2 ^ places)

of_parsed : Option ℤ → Option ℕ
of_parsed none = none
of_parsed (some i) = of_int i

-- parseInt64
unfoldable pub parse_int64 : Any → Option ℕ
unfolding of_float of_parsed
parse_int64 (float64 v) = of_float v
parse_int64 (float32 v) = of_float v
parse_int64 (json_number s) = of_parsed (parse_int s)
parse_int64 (int v) = of_int v
parse_int64 (int64 v) = of_int v
parse_int64 (uint v) = uint64_to_int64 v
parse_int64 (uint64 v) = uint64_to_int64 v
parse_int64 other = none
parse_int64 null = none
parse_int64 (text s) = none
parse_int64 (array items) = none
parse_int64 (object m) = none

is_null : Any → Bool
is_null null = true
is_null v = false

counter_of : Option Any → Option ℕ
counter_of none = some 0
counter_of (some v) = if is_null v then some 0 else parse_int64 v

-- getCounter
unfoldable pub get_counter : Fields → String → Option ℕ
unfolding counter_of is_null
get_counter m key = counter_of (get key m)

int_of : Option Any → ℕ
int_of none = 0
int_of (some v) = elim (parse_int64 v) [ none ↦ 0 | some n ↦ n ]

-- getInt, whose bounds of int hold for every counter
unfoldable pub get_int : Fields → String → ℕ
unfolding int_of
get_int m key = int_of (get key m)

string_of : Option Any → String
string_of (some (text s)) = s
string_of v = ""

-- getString
unfoldable pub get_string : Fields → String → String
unfolding string_of
get_string m key = string_of (get key m)

abbrev pub CounterFits : Option ℕ → Type 0
CounterFits none = Unit
CounterFits (some n) = n ≤ max_flow_counter

pub uint64_to_int64-CounterFits : (n : ℕ) → CounterFits (uint64_to_int64 n)
uint64_to_int64-CounterFits n = ground arith

of_int-CounterFits : (i : ℤ) → CounterFits (of_int i)
of_int-CounterFits (negsuc n) = tt
of_int-CounterFits (pos n) = ground arith

quotient_le : (n m d : ℕ) → 1 ≤ d → n ≤ m * d → n / d ≤ m
quotient_le n m d least le =
    let h = (div-lt_iff_lt-mul {k = d} {x = n} {y = suc m} (omega (arith, least))).1 in
    omega (arith, h (ground (arith, least, le)))

of_float-CounterFits : (v : Float) → CounterFits (of_float v)
unfolding of_float
of_float-CounterFits not_a_number = tt
of_float-CounterFits infinite = tt
of_float-CounterFits (finite negative n places) =
    elim (Bool-cases (ltb (max_flow_counter * 2 ^ places) n)) [
      | inl h ↦ ground (arith, h)
      | inr h ↦ ground (
        arith,
        h,
        quotient_le n max_flow_counter (2 ^ places) (one-le-pow places 2 (omega arith))
            (ground (arith, h)),
      )
    ]

of_parsed-CounterFits : (o : Option ℤ) → CounterFits (of_parsed o)
unfolding of_parsed
of_parsed-CounterFits none = tt
of_parsed-CounterFits (some i) = of_int-CounterFits i

parse_int64-CounterFits : (v : Any) → CounterFits (parse_int64 v)
unfolding parse_int64
parse_int64-CounterFits (float64 v) = of_float-CounterFits v
parse_int64-CounterFits (float32 v) = of_float-CounterFits v
parse_int64-CounterFits (json_number s) = of_parsed-CounterFits (parse_int s)
parse_int64-CounterFits (int v) = of_int-CounterFits v
parse_int64-CounterFits (int64 v) = of_int-CounterFits v
parse_int64-CounterFits (uint v) = uint64_to_int64-CounterFits v
parse_int64-CounterFits (uint64 v) = uint64_to_int64-CounterFits v
parse_int64-CounterFits other = tt
parse_int64-CounterFits null = tt
parse_int64-CounterFits (text s) = tt
parse_int64-CounterFits (array xs) = tt
parse_int64-CounterFits (object m) = tt

counter_of-CounterFits : (o : Option Any) → CounterFits (counter_of o)
unfolding counter_of
counter_of-CounterFits none = omega arith
counter_of-CounterFits (some v) = ground (arith, parse_int64-CounterFits v)

pub get_counter-CounterFits : (m : Fields) (key : String) → CounterFits (get_counter m key)
unfolding get_counter
get_counter-CounterFits m key = counter_of-CounterFits (get key m)
