-- ===== src/Catalog/Wire/RoundTrip.antt =====
-- A block that the reflecting process writes as JSON is read back as it was.
pub mod Ports
pub mod Parameters
use gr4_control_plane.Prelude.{
  String, ◌==◌, string_eq, if◌then◌else◌, Bool, Option, none, some, List, [], ◌∷◌, map, ◌≡◌, ◌≢◌,
  refl, ap, ◌∙◌, arith, All,
}
use gr4_control_plane.Prelude.Int.{ℤ}
use gr4_control_plane.Prelude.Dict.{Dict, lookup}
use gr4_control_plane.Errors.{Result, ok, then_ok}
use gr4_control_plane.Domain.Catalog.{
  BlockPortCardinalityKind, fixed, dynamic, BlockPortDescriptor, BlockParameterDefault,
  default_null, default_bool, default_int, default_double, default_string, BlockParameterDescriptor,
  BlockDescriptor,
}
use gr4_control_plane.Json.{
  Json, bool, number, string, array, over, at_key, lookup-put, to_list-of_list, to_dict-of_dict,
}
use gr4_control_plane.Catalog.Wire.{to_int, as_text, as_integer, as_bool, each, elements_of}
use gr4_control_plane.Catalog.Wire.Ports.{
  cardinality_kind_to_string, cardinality_kind_from_string, cardinality_or, port_members,
  port_to_json, parse_port_members, parse_port_descriptor,
}
use gr4_control_plane.Catalog.Wire.Parameters.{
  default_to_json, strings_to_json, string_map_to_json, unless_empty, parameter_members,
  parameter_to_json, parse_default_value, parse_parameter_members, parse_parameter_descriptor,
  read_choices, read_labels,
}
use gr4_control_plane.Catalog.Wire.Blocks.{
  array_of, block_members, block_to_json, unless_blank, parse_block_members, parse_block,
}
use gr4_control_plane.Catalog.Wire.Kept.{
  IsInt, as_integer-over, as_text-over, as_bool-over, each-map, read_choices-over, read_labels-over,
}
use gr4_control_plane.Catalog.Wire.RoundTrip.Ports.{HasInts, parse_port_descriptor-port_to_json}
use gr4_control_plane.Catalog.Wire.RoundTrip.Parameters.{
  HasInt, parse_parameter_descriptor-parameter_to_json,
}

-- All numbers are values of `int`, and there is no empty canonical type.
pub record IsWritable {D : Type 0} (block : BlockDescriptor D) : Type 0 where
  pub canonical : unless_blank block.canonical_type ≡ block.canonical_type
  pub inputs : All HasInts block.inputs
  pub outputs : All HasInts block.outputs
  pub parameters : All (λ parameter. HasInt parameter.default_value) block.parameters

module _ (D : Type 0) (block : BlockDescriptor D) where
  abbrev block_at : String → Option (Json D)
  block_at j = at_key j "canonical_type" string block.canonical_type (
      if j == "id"
      then some (string block.id)
      else if j == "name"
      then some (string block.name)
      else if j == "category"
      then some (string block.category)
      else if j == "summary"
      then some (string block.summary)
      else if j == "inputs"
      then some (array_of port_to_json block.inputs)
      else if j == "outputs"
      then some (array_of port_to_json block.outputs)
      else if j == "parameters"
      then some (array_of parameter_to_json block.parameters)
      else none)

  lookup-block_members : (j : String) → lookup j (block_members {D = D} block) ≡ block_at j
  unfolding block_members lookup
  lookup-block_members j = rw (lookup-put {D = D} j) refl

  -- The elements of an array of written items, read.
  array-read :
      {A : Type 0} (read : Json D → Result A) (write : A → Json D) (P : A → Type 0) (items : List A)
      → ((a : A) → P a → read (write a) ≡ ok a)
      → All P items
      → each read (elements_of (array_of write items)) ≡ ok items
  array-read read write P items back h =
      ap (each read) (to_list-of_list (map write items)) ∙ each-map D read write P items back h

  parse_block_members-block_members :
      IsWritable block → parse_block_members (block_members {D = D} block) ≡ ok block
  unfolding parse_block_members string_eq
  parse_block_members-block_members h =
      rw
        (
          lookup-block_members "id",
          lookup-block_members "name",
          lookup-block_members "category",
          lookup-block_members "summary",
          lookup-block_members "inputs",
          array-read parse_port_descriptor port_to_json HasInts block.inputs
              (parse_port_descriptor-port_to_json D) h.inputs,
          lookup-block_members "outputs",
          array-read parse_port_descriptor port_to_json HasInts block.outputs
              (parse_port_descriptor-port_to_json D) h.outputs,
          lookup-block_members "parameters",
          array-read parse_parameter_descriptor parameter_to_json _ block.parameters
              (parse_parameter_descriptor-parameter_to_json D) h.parameters,
          ap as_text (lookup-block_members "canonical_type") ∙ as_text-over D block.canonical_type,
          h.canonical,
        )
        refl

  -- A block that the reflecting process writes as JSON is read back as it was, if its port counts and
  -- default numbers are values of `int` and it has no empty canonical type.
  pub parse_block-block_to_json :
      IsWritable block → parse_block (block_to_json {D = D} block) ≡ ok block
  unfolding parse_block block_to_json
  parse_block-block_to_json h =
      ap parse_block_members (to_dict-of_dict (block_members {D = D} block))
      ∙ parse_block_members-block_members h
