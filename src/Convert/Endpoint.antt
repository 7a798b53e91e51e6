-- ===== src/Convert/Endpoint.antt =====
-- The endpoints of a flow record in backend/internal/services/log_converter.go. `net.ParseIP` is an
-- argument; the other functions of Go that the code calls are written over the characters of a text.
use Prim.Native.Char.{Char, code}
use tsflow.Prelude.{
  ℕ, zero, suc, ◌+◌, ◌-◌, ◌*◌, ◌^◌, ◌≤◌, String, ◌≡◌, refl, ◌≢◌, inl, inr, Bool, true, false, not,
  ◌&&◌, ◌||◌, Option, none, some, arith, ◌==◌, eqb, ltb, leb, eq_iff, String_eq, ℕ_eq,
  if◌then◌else◌, Bool-cases,
}
use tsflow.Access.Text.{trim_space, contains_char}
use tsflow.Window.Page.{ℤ, pos, negsuc}

-- A text in two at the first of a character, without it
cons_cut : Char → Option (String × String) → Option (String × String)
cons_cut c none = none
cons_cut c (some (s, t)) = some (String.◌∷◌ c s, t)

unfoldable pub cut : ℕ → String → Option (String × String)
unfolding cons_cut
cut k String.[] = none
cut k (String.◌∷◌ c s) =
    let rest = cut k s in if eqb (code c) k then some (String.[], s) else cons_cut c rest

-- net.SplitHostPort on a text that begins with no bracket: one colon, and no bracket anywhere
abbrev pub one_port : String → Option (String × String) → Option (String × String)
one_port s none = none
one_port s (some (host, port)) =
    if contains_char b':' port || contains_char b'[' s || contains_char b']' s
    then none
    else some (host, port)

unfoldable pub split_host_port : String → Option (String × String)
split_host_port s = one_port s (cut b':' s)

unfoldable pub digits : String → ℕ → Option ℕ
digits String.[] n = some n
digits (String.◌∷◌ c s) n =
    let rest = digits s (n * 10 + (code c - b'0')) in
    if leb b'0' (code c) && leb (code c) b'9' then rest else none

unfoldable pub number : String → Option ℕ
number String.[] = none
number (String.◌∷◌ c s) = digits (String.◌∷◌ c s) 0

unfoldable pub within : Bool → Option ℕ → Option ℤ
within negative none = none
within false (some n) = if ltb n (2 ^ 63) then some (pos n) else none
within true (some zero) = some (pos 0)
within true (some (suc n)) = if ltb n (2 ^ 63) then some (negsuc n) else none

-- strconv.ParseInt for base 10 and 64 bits, which is strconv.Atoi
unfoldable pub parse_int : String → Option ℤ
unfolding digits number within
parse_int String.[] = none
parse_int (String.◌∷◌ c s) =
    if eqb (code c) b'-'
    then within true (number s)
    else if eqb (code c) b'+'
    then within false (number s)
    else within false (number (String.◌∷◌ c s))

abbrev port_of : Option ℤ → ℕ
port_of none = 0
port_of (some (negsuc n)) = 0
port_of (some (pos n)) = if eqb n 0 || ltb 65535 n then 0 else n

-- validPort
unfoldable pub valid_port : String → ℕ
valid_port raw = port_of (parse_int raw)

abbrev pub with_port : Option (String × String) → Option (String × ℕ)
with_port none = none
with_port (some (host, port)) = some (host, valid_port port)

abbrev pub Named : Option (String × String) → Type 0
Named none = Unit
Named (some (src_ip, dst_ip)) = (src_ip ≢ "") × (dst_ip ≢ "")

module _ (is_ip : String → Bool) where
  unfoldable pub after_bracket : String → String → Option (String × ℕ)
  after_bracket host String.[] = some (host, 0)
  after_bracket host (String.◌∷◌ c s) =
      if eqb (code c) b':' then some (host, valid_port s) else none

  unfoldable pub bracketed : Option (String × String) → Option (String × ℕ)
  bracketed none = none
  bracketed (some (String.[], suffix)) = none
  bracketed (some (String.◌∷◌ c host, suffix)) =
      if is_ip (String.◌∷◌ c host) then after_bracket (String.◌∷◌ c host) suffix else none

  -- splitEndpoint
  unfoldable pub split_endpoint : String → Option (String × ℕ)
  split_endpoint String.[] = none
  split_endpoint (String.◌∷◌ c s) =
      if is_ip (String.◌∷◌ c s)
      then some (String.◌∷◌ c s, 0)
      else if eqb (code c) b'['
      then bracketed (cut b']' s)
      else with_port (split_host_port (String.◌∷◌ c s))

  unfoldable pub extract_ip : String → String
  extract_ip addr = elim (split_endpoint addr) [ none ↦ addr | some (host, port) ↦ host ]

  unfoldable pub extract_port : String → ℕ
  extract_port addr = elim (split_endpoint addr) [ none ↦ 0 | some (host, port) ↦ port ]

  -- flowEndpoints
  unfoldable pub flow_endpoints : String → String → String × String × Bool
  flow_endpoints src dst =
      let src_ip = trim_space (extract_ip src) in
      let dst_ip = trim_space (extract_ip dst) in
      (src_ip, dst_ip, not (src_ip == "") && not (dst_ip == ""))

  abbrev pub exit_internet_endpoint : String
  exit_internet_endpoint = "internet"

  with_stand_in : String → String × String × Bool → Option (String × String)
  with_stand_in traffic_type (src_ip, dst_ip, ok) =
      if ok
      then some (src_ip, dst_ip)
      else if not (traffic_type == "exit")
      then none
      else if src_ip == "" && not (dst_ip == "")
      then some (exit_internet_endpoint, dst_ip)
      else if dst_ip == "" && not (src_ip == "")
      then some (src_ip, exit_internet_endpoint)
      else none

  -- trafficEndpoints; `none` where the source answers that the row is skipped
  unfoldable pub traffic_endpoints : String → String → String → Option (String × String)
  unfolding with_stand_in
  traffic_endpoints traffic_type src dst = with_stand_in traffic_type (flow_endpoints src dst)

  not_blank : (s : String) → (s == "") ≡ false → s ≢ ""
  not_blank s h e = ground (arith, eq_iff s "", h, e)

  exit_only : (b : Bool) (o : Option (String × String)) → Named o → Named (if b then none else o)
  exit_only true o h = tt
  exit_only false o h = h

  with_stand_in-Named :
      (traffic_type src_ip dst_ip : String)
      → Named
          (with_stand_in traffic_type (src_ip, dst_ip, not (src_ip == "") && not (dst_ip == "")))
  unfolding with_stand_in
  with_stand_in-Named traffic_type src_ip dst_ip = elim (Bool-cases (src_ip == "")) [
    | inl a ↦ elim (Bool-cases (dst_ip == "")) [
      | inl b ↦ rw (a, b) (exit_only (not (traffic_type == "exit")) none tt)
      | inr b ↦
          rw (a, b)
            (exit_only (not (traffic_type == "exit")) (some (exit_internet_endpoint, dst_ip))
              (not_blank exit_internet_endpoint refl, not_blank dst_ip b))
    ]
    | inr a ↦ elim (Bool-cases (dst_ip == "")) [
      | inl b ↦
          rw (a, b)
            (exit_only (not (traffic_type == "exit")) (some (src_ip, exit_internet_endpoint))
              (not_blank src_ip a, not_blank exit_internet_endpoint refl))
      | inr b ↦ rw (a, b) (not_blank src_ip a, not_blank dst_ip b)
    ]
  ]

  -- The endpoints of a row are never blank.
  pub traffic_endpoints-Named :
      (traffic_type src dst : String) → Named (traffic_endpoints traffic_type src dst)
  unfolding traffic_endpoints flow_endpoints
  traffic_endpoints-Named traffic_type src dst =
      with_stand_in-Named traffic_type (trim_space (extract_ip src)) (trim_space (extract_ip dst))

  port_of-le : (i : Option ℤ) → port_of i ≤ 65535
  port_of-le none = omega arith
  port_of-le (some (negsuc n)) = omega arith
  port_of-le (some (pos n)) = ground arith

  abbrev PortFits : Option (String × ℕ) → Type 0
  PortFits none = Unit
  PortFits (some (host, port)) = port ≤ 65535

  valid_port-le : (raw : String) → valid_port raw ≤ 65535
  unfolding valid_port
  valid_port-le raw = port_of-le (parse_int raw)

  with_port-PortFits : (o : Option (String × String)) → PortFits (with_port o)
  with_port-PortFits none = tt
  with_port-PortFits (some (host, port)) = valid_port-le port

  bracketed-PortFits : (o : Option (String × String)) → PortFits (bracketed o)
  unfolding bracketed after_bracket
  bracketed-PortFits none = tt
  bracketed-PortFits (some (String.[], suffix)) = tt
  bracketed-PortFits (some (String.◌∷◌ c host, String.[])) = ground arith
  bracketed-PortFits (some (String.◌∷◌ c host, String.◌∷◌ d s)) = ground (arith, valid_port-le s)

  split_endpoint-PortFits : (addr : String) → PortFits (split_endpoint addr)
  unfolding split_endpoint
  split_endpoint-PortFits String.[] = tt
  split_endpoint-PortFits (String.◌∷◌ c s) = ground (
    arith,
    bracketed-PortFits (cut b']' s),
    with_port-PortFits (split_host_port (String.◌∷◌ c s)),
  )

  port_else-le :
      (o : Option (String × ℕ))
      → PortFits o
      → elim o as (λ _. ℕ) [ none ↦ 0 | some (host, port) ↦ port ] ≤ 65535
  port_else-le none h = omega arith
  port_else-le (some (host, port)) h = h

  pub extract_port-le : (addr : String) → extract_port addr ≤ 65535
  unfolding extract_port
  extract_port-le addr = port_else-le (split_endpoint addr) (split_endpoint-PortFits addr)
