-- ===== src/Tailnets/Listed.antt =====
-- The list of tailnets that `BindTailnet` of backend/internal/handlers/tailnet_scope.go offers to choose from.
use tsflow.Prelude.{
  String, ◌≡◌, refl, ◌∙◌, inl, inr, Bool, true, false, not, ◌&&◌, ◌||◌, List, [], ◌∷◌, Option, none,
  some, arith, ◌==◌, eq_iff, String_eq, ℕ_eq, mem, keep, Bool-cases, ap,
}
use tsflow.Prelude.Maps.{Map, lookup}
use tsflow.Access.Allow.{Allow, permits, filter_ids}
use tsflow.Access.Permits.{filter_ids-keep}
use tsflow.Tailnets.Registry.{TailnetRuntime, Registry, list_from}
use tsflow.Tailnets.Bind.{default_tailnet_id, tailnet_ids}

mem-keep :
    (p : String → Bool) (id : String) (xs : List String) → mem id (keep p xs) ≡ (p id && mem id xs)
mem-keep p id [] = ground arith
mem-keep p id (x ∷ xs) = elim (Bool-cases (x == id)) [
  | inl e ↦
      let same : p x ≡ p id = ap p ((eq_iff x id).0 e) in ground (arith, mem-keep p id xs, same, e)
  | inr e ↦ ground (arith, mem-keep p id xs, e)
]

pub mem-filter_ids :
    (a : Allow) (id : String) (xs : List String)
    → mem id (filter_ids a xs) ≡ (permits a id && mem id xs)
mem-filter_ids a id xs = ap (mem id) (filter_ids-keep a xs) ∙ mem-keep (permits a) id xs

module _ {P : Type 0} where
  abbrev pub in_map : Map String (TailnetRuntime P) → String → Bool
  in_map m id = elim (lookup id m) as (λ _. Bool) [ none ↦ false | some r ↦ true ]

  -- A tailnet is configured by the registry, or is the default one where there is no registry.
  abbrev pub is_configured : Option (Registry P) → String → Bool
  is_configured none id = default_tailnet_id == id
  is_configured (some reg) id = in_map reg.by_id id

  -- What the viewer may use
  abbrev pub usable : Bool → Allow → Option (Registry P) → String → Bool
  usable restricted allow o id = (not restricted || permits allow id) && is_configured o id

  module _ (m : Map String (TailnetRuntime P))
      (named : (id : String) (r : TailnetRuntime P)
        → lookup id m ≡ some r
        → (r.id ≡ id) × ((id ≡ "") → ⊥)) where
    mem-listed :
        (x id : String) (found : Option (TailnetRuntime P))
        (rest : List (Option (TailnetRuntime P))) (b : Bool)
        → lookup x m ≡ found
        → mem id (tailnet_ids rest) ≡ b
        → mem id (tailnet_ids (found ∷ rest)) ≡ ((x == id && in_map m x) || b)
    mem-listed x id none rest b e h = ground (arith, e, h)
    mem-listed x id (some r) rest b e h =
        let (same, blank) = named x r e in
        let full : (r.id == "") ≡ false = ground (arith, eq_iff r.id "", same, blank) in
        let name : (r.id == id) ≡ (x == id) = ap (λ k. k == id) same in
        ground (arith, e, h, full, name)

    -- Of the ids of an order, the entries of the map have those that it maps.
    pub mem-tailnet_ids :
        (order : List String) (id : String)
        → mem id (tailnet_ids (list_from order m)) ≡ (mem id order && in_map m id)
    mem-tailnet_ids [] id = ground arith
    mem-tailnet_ids (x ∷ order) id =
        mem-listed x id (lookup x m) (list_from order m) (mem id order && in_map m id) refl
          (mem-tailnet_ids order id)
        ∙ by_same (x == id) refl
      where
        by_same :
            (b : Bool)
            → (x == id) ≡ b
            → ((x == id && in_map m x) || (mem id order && in_map m id))
              ≡ ((x == id || mem id order) && in_map m id)
        by_same true e =
            let same : in_map m x ≡ in_map m id = ap (in_map m) ((eq_iff x id).0 e) in
            ground (arith, e, same)
        by_same false e = ground (arith, e)
