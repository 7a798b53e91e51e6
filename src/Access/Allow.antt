-- ===== src/Access/Allow.antt =====
-- backend/internal/access/allow.go and the grants of backend/internal/config/access.go
use tsflow.Prelude.{
  String, Bool, true, false, List, [], ◌∷◌, Option, none, some, ◌==◌, String_eq, keep, ◌++◌,
  if◌then◌else◌,
}
use tsflow.Prelude.Maps.{Map, lookup, insert, keys}
use tsflow.Access.Text.{trim_space}

pub record Grant : Type 0 where
  pub all : Bool
  pub tailnets : List String

-- `map[string]struct{}`
abbrev pub Names : Type 0
Names = Map String (Unit {0})

abbrev pub is_some {ℓ} : {A : Type ℓ} → Option A → Bool
is_some none = false
is_some (some a) = true

abbrev pub has : Names → String → Bool
has m id = is_some (lookup id m)

pub record Allow : Type 0 where
  pub all : Bool
  pub ids : Names

abbrev pub nothing : Allow
nothing = record { all = false; ids = [] }

unfoldable pub insert_names : List String → Names → Names
insert_names [] m = m
insert_names (id ∷ ids) m = insert_names ids (insert id tt m)

-- Allow.Add
unfoldable pub add : Allow → Grant → Allow
unfolding insert_names
add a grant =
    if grant.all
    then record a { all = true }
    else record a { ids = insert_names grant.tailnets a.ids }

unfoldable pub permits : Allow → String → Bool
permits a id = if a.all then true else has a.ids id

unfoldable pub filter_ids : Allow → List String → List String
filter_ids a ids = if a.all then ids else keep (permits a) ids

-- mergeAllow
unfoldable pub merge_allow : Allow → Allow → Allow
unfolding insert_names
merge_allow dst src = record {
  all = if src.all then true else dst.all;
  ids = insert_names (keys src.ids) dst.ids;
}

-- allowFromGroups
unfoldable pub add_found : Option Grant → Bool × Allow → Bool × Allow
add_found none r = r
add_found (some grant) (matched, allow) = (true, add allow grant)

unfoldable pub from_groups : List String → Map String Grant → Bool × Allow → Bool × Allow
from_groups [] grants r = r
from_groups (group ∷ groups) grants r =
    from_groups groups grants (add_found (lookup group grants) r)

unfoldable pub allow_from_groups : List String → Map String Grant → Bool × Allow
unfolding from_groups add_found
allow_from_groups groups grants = from_groups groups grants (false, nothing)

-- grantsFromValues, over config.ParseGrant
unfoldable pub add_values {ℓ} :
    {Raw : Type ℓ} → (Raw → Option Grant) → List Raw → Allow → Option Allow
add_values parse [] allow = some allow
add_values parse (raw ∷ values) allow = elim (parse raw) [
  | none ↦ none
  | some grant ↦ add_values parse values (add allow grant)
]

unfoldable pub grants_from_values {ℓ} :
    {Raw : Type ℓ} → (Raw → Option Grant) → List Raw → Option Allow
unfolding add_values
grants_from_values parse [] = some (record nothing { all = true })
grants_from_values parse (raw ∷ values) = add_values parse (raw ∷ values) nothing

-- The loop of ParseGrant over the list of tailnets; `none` is the error of an empty entry.
unfoldable pub grant_ids : List String → Names → List String → Option Grant
grant_ids [] seen ids = some (record { all = false; tailnets = ids })
grant_ids (raw ∷ rest) seen ids =
    let id = trim_space raw in
    if id == ""
    then none
    else if id == "*"
    then some (record { all = true; tailnets = [] })
    else elim (has seen id) [
      | true ↦ grant_ids rest seen ids
      | false ↦ grant_ids rest (insert id tt seen) (ids ++ id ∷ [])
    ]
