-- ===== src/Tailnets/Bind.antt =====
-- `BindTailnet` of backend/internal/handlers/tailnet_scope.go.
use tsflow.Prelude.{
  ℕ, String, Bool, not, ◌&&◌, ◌||◌, List, [], ◌∷◌, Option, none, some, ◌==◌, String_eq, ℕ_eq,
  if◌then◌else◌,
}
use tsflow.Prelude.Maps.{lookup}
use tsflow.Access.Text.{trim_space}
use tsflow.Access.Allow.{Allow, permits, filter_ids}
use tsflow.Tailnets.Registry.{TailnetRuntime, Registry, list_entries}

-- database.DefaultTailnetID
abbrev pub default_tailnet_id : String
default_tailnet_id = "default"

-- Handlers, as far as BindTailnet reads it
pub record Handlers (P : Type 0) : Type 0 where
  pub registry : Option (Registry P)
  pub clients : P

pub record TailnetBinding (P : Type 0) : Type 0 where
  pub id : String
  pub clients : P

-- TailnetError: tailnetForbidden, unknownTailnet, and the list of valid ids
pub data TailnetError : Type 0 where
  forbidden unknown : String → TailnetError
  none_permitted : TailnetError
  tailnet_required : List String → TailnetError

abbrev pub status : TailnetError → ℕ
status (forbidden id) = 403
status none_permitted = 403
status (unknown id) = 404
status (tailnet_required ids) = 400

-- `panics` is the use of an entry that is not there.
pub data Answer (P : Type 0) : Type 0 where
  bound : TailnetBinding P → Answer P
  failed : TailnetError → Answer P
  panics : Answer P

module _ {P : Type 0} where
  -- bindingFrom
  abbrev pub binding_from : TailnetRuntime P → TailnetBinding P
  binding_from r = record { id = r.id; clients = r.clients }

  -- tailnetIDs
  abbrev pub tailnet_ids : List (Option (TailnetRuntime P)) → List String
  tailnet_ids [] = []
  tailnet_ids (none ∷ entries) = tailnet_ids entries
  tailnet_ids (some r ∷ entries) =
      let ids = tailnet_ids entries in if r.id == "" then ids else r.id ∷ ids

  module _ (restricted : Bool) (allow : Allow) where
    abbrev pub if_permitted : TailnetBinding P → Answer P
    if_permitted b =
        if restricted && not (permits allow b.id) then failed (forbidden b.id) else bound b

    abbrev pub without_registry : Handlers P → String → Answer P
    without_registry h raw =
        if not (raw == "") && not (raw == default_tailnet_id)
        then failed (unknown raw)
        else if_permitted (record { id = default_tailnet_id; clients = h.clients })

    abbrev pub only_tailnet : Option (TailnetRuntime P) → String → Answer P
    only_tailnet none raw = panics
    only_tailnet (some r) raw =
        if raw == "" || raw == r.id then if_permitted (binding_from r) else failed (unknown raw)

    abbrev pub or_none : List String → Answer P
    or_none [] = failed none_permitted
    or_none (id ∷ ids) = failed (tailnet_required (id ∷ ids))

    abbrev pub ask : List String → Answer P
    ask ids = if restricted then or_none (filter_ids allow ids) else failed (tailnet_required ids)

    abbrev pub from_default : Option (TailnetRuntime P) → List String → Answer P
    from_default none ids = ask ids
    from_default (some r) ids =
        if not restricted || permits allow r.id then bound (binding_from r) else ask ids

    abbrev pub from_entry : Option (TailnetRuntime P) → String → Answer P
    from_entry none raw = failed (unknown raw)
    from_entry (some r) raw = if_permitted (binding_from r)

    abbrev pub by_entries : Registry P → List (Option (TailnetRuntime P)) → String → Answer P
    by_entries reg (only ∷ []) raw = only_tailnet only raw
    by_entries reg entries raw =
        if raw == ""
        then from_default (lookup default_tailnet_id reg.by_id) (tailnet_ids entries)
        else from_entry (lookup raw reg.by_id) raw

    abbrev pub with_registry : Handlers P → Option (Registry P) → String → Answer P
    with_registry h none raw = without_registry h raw
    with_registry h (some reg) raw = by_entries reg (list_entries reg) raw

    -- BindTailnet after the space around the id is cut off
    unfoldable pub bind_trimmed : Handlers P → String → Answer P
    bind_trimmed h raw =
        if restricted && not (raw == "") && not (permits allow raw)
        then failed (forbidden raw)
        else with_registry h h.registry raw

    unfoldable pub bind_tailnet : Handlers P → String → Answer P
    bind_tailnet h raw = bind_trimmed h (trim_space raw)
