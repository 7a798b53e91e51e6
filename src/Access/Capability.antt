-- ===== src/Access/Capability.antt =====
-- Grants and capability values of backend/internal/access/resolve.go and backend/internal/config/
-- access.go. The decoding of JSON is the Go library's.
use Prim.Native.Char.{code}
use tsflow.Prelude.{
  eqb, ℕ, String, ◌≡◌, refl, Bool, true, false, ◌||◌, List, [], ◌∷◌, ◌++◌, Option, none, some, ◌==◌,
  String_eq, mem, if◌then◌else◌,
}
use tsflow.Prelude.Maps.{Map, lookup}
use tsflow.Prelude.Sort.{sort, before_str}
use tsflow.Access.Text.{trim_space}
use tsflow.Access.Allow.{Grant, grant_ids}

pub data Error : Type 0 where
  missing_grant invalid_grant identity_unavailable missing_identity : Error

-- What a Go function returns with an error
pub data Result {ℓ} (X : Type ℓ) : Type ℓ where
  err : Error → Result X
  ok : X → Result X

infixl 5 ◌>>=◌
abbrev pub ◌>>=◌ {ℓ κ} : {X : Type ℓ} {Y : Type κ} → Result X → (X → Result Y) → Result Y
err denied >>= step = err denied
ok x >>= step = step x

-- A chain that succeeds has a first step that does.
pub first_step {ℓ κ} :
    {X : Type ℓ} {Y : Type κ} {y : Y} (r : Result X) (step : X → Result Y)
    → (r >>= step) ≡ ok y
    → (x : X) × (r ≡ ok x) × (step x ≡ ok y)
first_step (err denied) step chain = cc
first_step (ok x) step chain = (x, refl, chain)

-- encoding/json, as ParseGrant, capabilityValues and splitGrantValues call it
pub record Json : Type 0 where
  pub decode_tailnets : String → Option (Option (List String))
  pub decode_object : String → Option (Map String String)
  pub decode_array : String → Option (List String)

-- unionNames
union_from : List String → List String → List String
union_from [] out = out
union_from (raw ∷ names) out =
    let name = trim_space raw in
    union_from names (if name == "" then out else if mem name out then out else out ++ name ∷ [])

unfoldable pub union_names : List String → List String → List String
unfolding union_from
union_names a b = sort before_str (union_from (a ++ b) [])

-- config.ParseGrant
grant_of : Option (Option (List String)) → Option Grant
grant_of none = none
grant_of (some none) = some (record { all = true; tailnets = [] })
grant_of (some (some names)) = grant_ids names [] []

unfoldable pub parse_grant : Json → String → Option Grant
unfolding grant_of
parse_grant json raw =
    let trimmed = trim_space raw in
    if trimmed == "" || trimmed == "null"
    then some (record { all = true; tailnets = [] })
    else grant_of (json.decode_tailnets trimmed)

starts_with : ℕ → String → Bool
starts_with k String.[] = false
starts_with k (String.◌∷◌ c s) = eqb (code c) k

-- splitGrantValues; `none` is an error
unfoldable pub split_grant_values : Json → String → Option (List String)
unfolding starts_with
split_grant_values json raw =
    let r = trim_space raw in
    if r == "" || r == "null"
    then some []
    else if starts_with b'[' r
    then json.decode_array r
    else some (r ∷ [])

-- capabilityValues: an error, no such capability, or its values
unfoldable pub capability_values : Json → String → String → Result (Option (List String))
unfolding starts_with
capability_values json raw capability =
    let trimmed = trim_space raw in
    if trimmed == ""
    then ok none
    else if starts_with b'{' trimmed
    then elim (json.decode_object trimmed) [
      | none ↦ err invalid_grant
      | some body ↦ elim (lookup capability body) [
        | none ↦ ok none
        | some value ↦ elim (split_grant_values json value) [
          | none ↦ err invalid_grant
          | some vs ↦ ok (some vs)
        ]
      ]
    ]
    else elim (split_grant_values json trimmed) [
      | none ↦ err invalid_grant
      | some vs ↦ ok (some vs)
    ]
