-- ===== src/Tailnets/Registry.antt =====
-- backend/internal/services/registry.go, without the running of the pollers. What NewRegistry builds for a
-- tailnet, its service and its poller, is an argument, `none` where it fails.
use tsflow.Prelude.{
  String, List, [], ◌∷◌, ◌++◌, Option, none, some, ◌==◌, String_eq, ℕ_eq, if◌then◌else◌,
}
use tsflow.Prelude.Maps.{Map, lookup, insert}

-- config.TailnetSpec, as far as the registry keeps it
pub record TailnetSpec : Type 0 where
  pub id : String
  pub name : String
  pub display_name : String

-- TailnetRuntime; `clients` are its service and its poller.
pub record TailnetRuntime (P : Type 0) : Type 0 where
  pub id : String
  pub name : String
  pub display_name : String
  pub clients : P

pub record Registry (P : Type 0) : Type 0 where
  pub order : List String
  pub by_id : Map String (TailnetRuntime P)

pub data RegistryError : Type 0 where
  no_tailnets blank_id : RegistryError
  duplicate not_built : String → RegistryError

pub data NewRegistry (P : Type 0) : Type 0 where
  built : Registry P → NewRegistry P
  refused : RegistryError → NewRegistry P

module _ {P : Type 0} where
  abbrev pub with_runtime : Registry P → TailnetSpec → P → Registry P
  with_runtime reg spec clients = record {
    order = reg.order ++ spec.id ∷ [];
    by_id =
        insert spec.id
          (record {
            id = spec.id;
            name = spec.name;
            display_name = spec.display_name;
            clients = clients;
          })
          reg.by_id;
  }

  module _ (build : TailnetSpec → Option P) where
    unfoldable pub add_specs : List TailnetSpec → Registry P → NewRegistry P
    add_specs [] reg = built reg
    add_specs (spec ∷ specs) reg =
        if spec.id == "" then refused blank_id else elim (lookup spec.id reg.by_id) [
          | some r ↦ refused (duplicate spec.id)
          | none ↦ elim (build spec) [
            | none ↦ refused (not_built spec.id)
            | some clients ↦ add_specs specs (with_runtime reg spec clients)
          ]
        ]

    unfoldable pub new_registry : List TailnetSpec → NewRegistry P
    new_registry [] = refused no_tailnets
    new_registry (spec ∷ specs) = add_specs (spec ∷ specs) (record { order = []; by_id = [] })

  -- Registry.List, `none` where the map has no entry
  abbrev pub list_from :
      List String → Map String (TailnetRuntime P) → List (Option (TailnetRuntime P))
  list_from [] m = []
  list_from (id ∷ order) m = lookup id m ∷ list_from order m

  abbrev pub list_entries : Registry P → List (Option (TailnetRuntime P))
  list_entries reg = list_from reg.order reg.by_id
