-- ===== src/Ingest/List.antt =====
-- `listObjects` of backend/internal/services/object_store_source.go. The prefixes of the days and the
-- reading of a key as a time are arguments, since the time package of Go formats and parses them.
use tsflow.Prelude.{
  String, Bool, not, ◌||◌, List, [], ◌∷◌, ◌++◌, Option, none, some, eqb, ltb, String_eq, ℕ_eq,
  if◌then◌else◌,
}
use tsflow.Prelude.Sort.{before_str, sort}
use tsflow.Rolling.Cover.{Time}
use tsflow.Ingest.Source.{BlobObject, FlowObject, Outside}

abbrev flow_object : BlobObject → Time → FlowObject
flow_object b t = record {
  key = b.key;
  last_modified = b.last_modified;
  size = b.size;
  log_time = t;
}

-- An object of the window
abbrev in_window : Time → Time → BlobObject → Option Time → List FlowObject
in_window start end b none = []
in_window start end b (some t) = if ltb t start || not (ltb t end) then [] else flow_object b t ∷ []

unfoldable pub before_object : FlowObject → FlowObject → Bool
before_object a b =
    if eqb a.log_time b.log_time then before_str a.key b.key else ltb a.log_time b.log_time

module _ {W N : Type 0} (o : Outside W N) (day_prefixes : Time → Time → List String)
    (object_time : String → Option Time) where
  unfoldable pub of_window : Time → Time → List BlobObject → List FlowObject
  of_window start end [] = []
  of_window start end (b ∷ bs) = in_window start end b (object_time b.key) ++ of_window start end bs

  unfoldable pub list_prefixes : Time → Time → List String → W → Option (List FlowObject)
  list_prefixes start end [] w = some []
  list_prefixes start end (p ∷ prefixes) w = elim (o.list p w) [
    | none ↦ none
    | some listed ↦ elim (list_prefixes start end prefixes w) [
      | none ↦ none
      | some objects ↦ some (of_window start end listed ++ objects)
    ]
  ]

  unfoldable pub list_objects : Time → Time → W → Option (List FlowObject)
  list_objects start end w = elim (list_prefixes start end (day_prefixes start end) w) [
    | none ↦ none
    | some objects ↦ some (sort before_object objects)
  ]
