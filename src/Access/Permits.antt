-- ===== src/Access/Permits.antt =====
-- What an allow list of backend/internal/access permits, for each way in which one is built.
use tsflow.Prelude.{
  String, ◌≡◌, refl, Bool, true, false, not, ◌||◌, List, [], ◌∷◌, Option, none, some, arith,
  String_eq, mem, any, keep, Option-cases, inl, inr,
}
use tsflow.Prelude.Maps.{Map, lookup, insert, lookup-insert, keys, lookup-keys}
use tsflow.Access.Allow.{
  Grant, Names, is_some, has, Allow, nothing, insert_names, add, permits, filter_ids, merge_allow,
  add_found, from_groups, allow_from_groups, add_values, grants_from_values,
}

has-insert_names :
    (ids : List String) (m : Names) (id : String)
    → has (insert_names ids m) id ≡ (has m id || mem id ids)
unfolding insert_names
has-insert_names [] m id = ground arith
has-insert_names (x ∷ ids) m id =
    ground (arith, has-insert_names ids (insert x tt m) id, lookup-insert x id tt m)

-- The tailnets that one grant opens.
abbrev pub opens : Grant → String → Bool
opens grant id = grant.all || mem id grant.tailnets

-- Adding a grant permits what was permitted and what the grant opens, and nothing else.
pub permits-add :
    (a : Allow) (grant : Grant) (id : String)
    → permits (add a grant) id ≡ (permits a id || opens grant id)
unfolding permits add
permits-add a grant id = ground (arith, has-insert_names grant.tailnets a.ids id)

-- Merging two allow lists permits what one of them permits.
pub permits-merge_allow :
    (dst src : Allow) (id : String)
    → permits (merge_allow dst src) id ≡ (permits dst id || permits src id)
unfolding permits merge_allow
permits-merge_allow dst src id =
    ground (arith, has-insert_names (keys src.ids) dst.ids id, lookup-keys id src.ids)

-- `Filter` keeps the permitted ids, in their order, also where everything is permitted.
pub filter_ids-keep : (a : Allow) (ids : List String) → filter_ids a ids ≡ keep (permits a) ids
unfolding filter_ids permits
filter_ids-keep a [] = ground arith
filter_ids-keep a (id ∷ ids) = ground (arith, filter_ids-keep a ids)

abbrev pub group_opens : Map String Grant → String → String → Bool
group_opens grants id group = elim (lookup group grants) [ none ↦ false | some g ↦ opens g id ]

from_groups_lem :
    (groups : List String) (grants : Map String Grant) (r : Bool × Allow) (id : String)
    → ((from_groups groups grants r).0 ≡ (r.0 || any (λ g. is_some (lookup g grants)) groups))
      × (permits (from_groups groups grants r).1 id
          ≡ (permits r.1 id || any (group_opens grants id) groups))
unfolding from_groups add_found
from_groups_lem [] grants r id = (ground arith, ground arith)
from_groups_lem (group ∷ groups) grants (matched, allow) id =
    elim (Option-cases (lookup group grants)) [
      | inl e ↦
          let r = from_groups_lem groups grants (matched, allow) id in
          (ground (arith, e, r.0), ground (arith, e, r.1))
      | inr (g, e) ↦
          let r = from_groups_lem groups grants (true, add allow g) id in
          (ground (arith, e, r.0), ground (arith, e, r.1, permits-add allow g id))
    ]

-- A viewer is matched exactly if one of the groups is mapped, and then sees exactly what the grants
-- of the mapped groups open.
pub allow_from_groups_lem :
    (groups : List String) (grants : Map String Grant) (id : String)
    → ((allow_from_groups groups grants).0 ≡ any (λ g. is_some (lookup g grants)) groups)
      × (permits (allow_from_groups groups grants).1 id ≡ any (group_opens grants id) groups)
unfolding allow_from_groups permits lookup
allow_from_groups_lem groups grants id = from_groups_lem groups grants (false, nothing) id

module _ {ℓ} {Raw : Type ℓ} (parse : Raw → Option Grant) where
  abbrev pub value_opens : String → Raw → Bool
  value_opens id raw = elim (parse raw) [ none ↦ false | some g ↦ opens g id ]

  add_values_lem :
      (values : List Raw) (allow : Allow) (id : String) (a : Allow)
      → add_values parse values allow ≡ some a
      → (any (λ raw. not (is_some (parse raw))) values ≡ false)
        × (permits a id ≡ (permits allow id || any (value_opens id) values))
  unfolding add_values
  add_values_lem [] allow id a h = ground arith
  add_values_lem (raw ∷ values) allow id a h = elim (Option-cases (parse raw)) [
    | inl e ↦ ground arith
    | inr (g, e) ↦
        rw e (ground (arith, add_values_lem values (add allow g) id a, permits-add allow g id, e))
  ]

  add_values_ok :
      (values : List Raw) (allow : Allow)
      → any (λ raw. not (is_some (parse raw))) values ≡ false
      → (a : Allow) × (add_values parse values allow ≡ some a)
  unfolding add_values
  add_values_ok [] allow h = (allow, refl)
  add_values_ok (raw ∷ values) allow h = elim (Option-cases (parse raw)) [
    | inl e ↦ absurd (ground (arith, e, h))
    | inr (g, e) ↦ rw (e, add_values) (add_values_ok values (add allow g) (ground (arith, e, h)))
  ]

  add_values_error :
      (values : List Raw) (allow : Allow)
      → any (λ raw. not (is_some (parse raw))) values ≡ true
      → add_values parse values allow ≡ none
  unfolding add_values
  add_values_error [] allow h = cc
  add_values_error (raw ∷ values) allow h = elim (Option-cases (parse raw)) [
    | inl e ↦ rw (e, add_values)
    | inr (g, e) ↦ rw (e, add_values) (add_values_error values (add allow g) (ground (arith, e)))
  ]

  -- Some capability values of which one does not parse are an error, whatever the others say. Values
  -- that all parse give an allow list, which permits exactly what one of them opens. No values at all
  -- give an allow list that permits every tailnet.
  pub grants_from_values_lem :
      (raw : Raw) (values : List Raw)
      → (any (λ x. not (is_some (parse x))) (raw ∷ values) ≡ true
          → grants_from_values parse (raw ∷ values) ≡ none)
        × (any (λ x. not (is_some (parse x))) (raw ∷ values) ≡ false
            → (a : Allow) × (grants_from_values parse (raw ∷ values) ≡ some a)
              × ((id : String) → permits a id ≡ any (value_opens id) (raw ∷ values)))
        × ((a : Allow) × (grants_from_values parse [] ≡ some a)
            × ((id : String) → permits a id ≡ true))
  unfolding grants_from_values permits lookup
  grants_from_values_lem raw values = (
    λ h. add_values_error (raw ∷ values) nothing h,
    λ h.
        let (a, e) = add_values_ok (raw ∷ values) nothing h in
        (a, e, λ id. (add_values_lem (raw ∷ values) nothing id a e).1),
    (record nothing { all = true }, refl, λ id. ground arith),
  )
