-- ===== src/PairGroups/Parts.antt =====
-- The partial groups that backend/internal/database/node_pair_parallel.go reads in parallel and merges.
use tsflow.Prelude.{false, List, [], ◌∷◌, ◌++◌, String_eq, ℕ_eq}
use tsflow.PairGroups.Group.{PortKey_eq, Row, PairGroup, new_pair_group, scan_rows}

abbrev pub scan : List Row → PairGroup
scan rows = scan_rows false rows new_pair_group

abbrev pub scan_each : List (List Row) → List PairGroup
scan_each [] = []
scan_each (rows ∷ parts) = scan rows ∷ scan_each parts

abbrev pub joined : List (List Row) → List Row
joined [] = []
joined (rows ∷ parts) = rows ++ joined parts
