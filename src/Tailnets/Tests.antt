-- ===== src/Tailnets/Tests.antt =====
-- Runs of the tailnet registry and of BindTailnet, and their theorems at concrete inputs.
use tsflow.Prelude.{
  String, ◌≡◌, refl, subst, true, false, List, [], ◌∷◌, Option, some, String_eq, ℕ_eq,
}
use tsflow.Prelude.Maps.{lookup, insert}
use tsflow.Access.Text.{trim_space}
use tsflow.Access.Allow.{Allow, permits, filter_ids}
use tsflow.Tailnets.Registry.{
  TailnetSpec, Registry, built, refused, duplicate, add_specs, new_registry,
}
use tsflow.Tailnets.Bind.{Handlers, failed, tailnet_required, bind_trimmed, bind_tailnet}
use tsflow.Tailnets.Built.{WellFormed, Built, new_registry-Built}
use tsflow.Tailnets.Bound.{Rightly, bind_tailnet-Rightly}

abbrev spec : String → TailnetSpec
spec id = record { id = id; name = id; display_name = "" }

abbrev build : TailnetSpec → Option String
build s = some s.name

abbrev specs : List TailnetSpec
specs = spec "home" ∷ spec "work" ∷ spec "lab" ∷ []

abbrev reg : Registry String
reg = record {
  order = "home" ∷ "work" ∷ "lab" ∷ [];
  by_id =
      ("home", record { id = "home"; name = "home"; display_name = ""; clients = "home" })
      ∷ ("work", record { id = "work"; name = "work"; display_name = ""; clients = "work" })
      ∷ ("lab", record { id = "lab"; name = "lab"; display_name = ""; clients = "lab" })
      ∷ [];
}

registered : new_registry build specs ≡ built reg
unfolding new_registry add_specs lookup insert
registered = refl

twice : new_registry build (spec "home" ∷ spec "home" ∷ []) ≡ refused (duplicate "home")
unfolding new_registry add_specs lookup insert
twice = refl

abbrev handlers : Handlers String
handlers = record { registry = some reg; clients = "" }

-- A viewer of two of the three tailnets
abbrev allow : Allow
allow = record { all = false; ids = ("work", tt) ∷ ("lab", tt) ∷ [] }

-- Without an id, the choice names those two alone.
choice : bind_tailnet true allow handlers " " ≡ failed (tailnet_required ("work" ∷ "lab" ∷ []))
unfolding bind_tailnet bind_trimmed trim_space lookup permits filter_ids
choice = refl

new_registry-Built_example : Built (new_registry build specs)
new_registry-Built_example = new_registry-Built build specs

reg-WellFormed : WellFormed reg
reg-WellFormed = subst Built registered new_registry-Built_example

bind_tailnet-Rightly_example :
    Rightly true allow handlers
      (some reg)
      (trim_space " work")
      (bind_tailnet true allow handlers " work")
bind_tailnet-Rightly_example = bind_tailnet-Rightly true allow handlers " work" reg-WellFormed
