-- ===== src/Ingest/Select.antt =====
-- The first loop of `Poll` in backend/internal/services/object_store_source.go: the objects to read.
use tsflow.Prelude.{
  ℕ, true, false, List, [], ◌∷◌, ◌++◌, none, some, ltb, leb, String_eq, ℕ_eq, if◌then◌else◌, length,
}
use tsflow.Rolling.Cover.{Time}
use tsflow.Ingest.Source.{FlowObject, Outside}

abbrev pub later : Time → Time → Time
later last t = if ltb last t then t else last

-- The selected objects and the time reached, or the time reached before the store failed
pub data Selection : Type 0 where
  selected : List FlowObject → Time → Selection
  select_failed : Time → Selection

module _ {W N : Type 0} (o : Outside W N) (max_objects : ℕ) where
  unfoldable pub select : List FlowObject → List FlowObject → Time → W → Selection
  select [] chosen last w = selected chosen last
  select (obj ∷ objects) chosen last w = elim (o.is_object_ingested obj.key w) [
    | none ↦ select_failed last
    | some true ↦ select objects chosen (later last obj.log_time) w
    | some false ↦ elim (leb max_objects (length chosen)) [
      | true ↦ selected chosen last
      | false ↦ select objects (chosen ++ obj ∷ []) last w
    ]
  ]
