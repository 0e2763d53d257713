-- ===== src/Catalog/Wire/Blocks.antt =====
-- Blocks: `to_json` and `parse_block_descriptor` of src/catalog/gr4_block_catalog_provider.cpp, from
-- the JSON value that the payload is parsed to.
use gr4_control_plane.Prelude.{
  String, ◌==◌, string_eq, if◌then◌else◌, Option, none, some, List, [], ◌∷◌, map,
}
use gr4_control_plane.Prelude.Dict.{Dict, lookup}
use gr4_control_plane.Errors.{Result, ok, then_ok}
use gr4_control_plane.Domain.Catalog.{BlockDescriptor}
use gr4_control_plane.Json.{Json, string, object, array, of_list, of_dict, put}
use gr4_control_plane.Catalog.Wire.{as_text, text_at, members_of, elements_at, each}
use gr4_control_plane.Catalog.Wire.Ports.{port_to_json, parse_port_descriptor}
use gr4_control_plane.Catalog.Wire.Parameters.{parameter_to_json, parse_parameter_descriptor}

abbrev pub unless_blank : Option String → Option String
unless_blank none = none
unless_blank (some s) = if s == "" then none else some s

module _ {D : Type 0} where
  -- A loop that pushes back the JSON of each item.
  abbrev pub array_of : {A : Type 0} → (A → Json D) → List A → Json D
  array_of f items = array (of_list (map f items))

  -- The members of a block's object.
  unfoldable pub block_members : BlockDescriptor D → Dict String (Json D)
  unfolding put port_to_json parameter_to_json
  block_members block = put "canonical_type" string block.canonical_type (
      ("id", string block.id)
      ∷ ("name", string block.name)
      ∷ ("category", string block.category)
      ∷ ("summary", string block.summary)
      ∷ ("inputs", array_of port_to_json block.inputs)
      ∷ ("outputs", array_of port_to_json block.outputs)
      ∷ ("parameters", array_of parameter_to_json block.parameters)
      ∷ [])

  unfoldable pub block_to_json : BlockDescriptor D → Json D
  unfolding block_members
  block_to_json block = object (of_dict (block_members block))

  unfoldable pub parse_block_members : Dict String (Json D) → Result (BlockDescriptor D)
  unfolding each parse_port_descriptor parse_parameter_descriptor
  parse_block_members value = then_ok (text_at "id" value) λ id.
      then_ok (text_at "name" value) λ name. then_ok (text_at "category" value) λ category.
        then_ok (text_at "summary" value) λ summary.
          then_ok (elements_at "inputs" value) λ inputs_json.
            then_ok (each parse_port_descriptor inputs_json) λ inputs.
              then_ok (elements_at "outputs" value) λ outputs_json.
                then_ok (each parse_port_descriptor outputs_json) λ outputs.
                  then_ok (elements_at "parameters" value) λ parameters_json.
                    then_ok (each parse_parameter_descriptor parameters_json) λ parameters.
                      ok (record {
                        id = id;
                        canonical_type = unless_blank (as_text (lookup "canonical_type" value));
                        name = name;
                        category = category;
                        summary = summary;
                        inputs = inputs;
                        outputs = outputs;
                        parameters = parameters;
                      })

  unfoldable pub parse_block : Json D → Result (BlockDescriptor D)
  unfolding parse_block_members
  parse_block value = then_ok (members_of value) parse_block_members
