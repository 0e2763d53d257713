-- ===== src/Runtime/Gr4/Graph/Values.antt =====
-- Property maps and sequences under a key.
use gr4_control_plane.Prelude.{String, string_eq, nat_eq, Option, none, some, List, []}
use gr4_control_plane.Prelude.Dict.{Dict, lookup}
use gr4_control_plane.Pmt.{Pmt, as_map, as_tensor}

module _ (p : Pmt) where
  abbrev pub Block : Type 0
  Block = Dict String p.Value

  -- The map under a key, empty if there is none.
  abbrev pub map_under : String → Block → Block
  map_under key block = elim (lookup key block) [
    | none ↦ []
    | some v ↦ elim (as_map (p.visit v)) [ none ↦ [] | some m ↦ m ]
  ]

  -- The sequence of values under a key.
  abbrev pub tensor_under : String → Block → Option (List p.Value)
  tensor_under key root = elim (lookup key root) [ none ↦ none | some v ↦ as_tensor (p.visit v) ]
