-- ===== src/Catalog/Wire/Ports.antt =====
-- Ports: `to_json` and `parse_port_descriptor` of src/catalog/gr4_block_catalog_provider.cpp.
use gr4_control_plane.Prelude.{String, ◌==◌, string_eq, if◌then◌else◌, Option, none, some, [], ◌∷◌}
use gr4_control_plane.Prelude.Dict.{Dict, lookup}
use gr4_control_plane.Errors.{Result, ok, then_ok}
use gr4_control_plane.Domain.Catalog.{BlockPortCardinalityKind, fixed, dynamic, BlockPortDescriptor}
use gr4_control_plane.Json.{Json, number, string, object, of_dict, put}
use gr4_control_plane.Catalog.Wire.{to_int, as_text, as_integer, text_at, members_of}

unfoldable pub cardinality_kind_to_string : BlockPortCardinalityKind → String
cardinality_kind_to_string fixed = "fixed"
cardinality_kind_to_string dynamic = "dynamic"

unfoldable pub cardinality_kind_from_string : String → Option BlockPortCardinalityKind
cardinality_kind_from_string value =
    if value == "fixed" then some fixed else if value == "dynamic" then some dynamic else none

abbrev pub cardinality_or : BlockPortCardinalityKind → Option String → BlockPortCardinalityKind
cardinality_or default none = default
cardinality_or default (some s) = elim (cardinality_kind_from_string s) [
  | none ↦ default
  | some kind ↦ kind
]

module _ {D : Type 0} where
  -- The members of a port's object.
  unfoldable pub port_members : BlockPortDescriptor → Dict String (Json D)
  unfolding put cardinality_kind_to_string
  port_members port = put "handle_name_template" string port.handle_name_template (
      put "size_parameter" string port.size_parameter (
        put "max_port_count" number port.max_port_count (
          put "min_port_count" number port.min_port_count (
            put "render_port_count" number port.render_port_count (
              put "current_port_count" number port.current_port_count (
                ("name", string port.name)
                ∷ ("type", string port.type)
                ∷ ("cardinality_kind", string (cardinality_kind_to_string port.cardinality_kind))
                ∷ []))))))

  unfoldable pub port_to_json : BlockPortDescriptor → Json D
  unfolding port_members
  port_to_json port = object (of_dict (port_members port))

  unfoldable pub parse_port_members : Dict String (Json D) → Result BlockPortDescriptor
  unfolding cardinality_kind_from_string to_int
  parse_port_members value = then_ok (text_at "name" value) λ name.
      then_ok (text_at "type" value) λ type. ok (record {
        name = name;
        type = type;
        cardinality_kind = cardinality_or fixed (as_text (lookup "cardinality_kind" value));
        current_port_count = as_integer (lookup "current_port_count" value);
        render_port_count = as_integer (lookup "render_port_count" value);
        min_port_count = as_integer (lookup "min_port_count" value);
        max_port_count = as_integer (lookup "max_port_count" value);
        size_parameter = as_text (lookup "size_parameter" value);
        handle_name_template = as_text (lookup "handle_name_template" value);
      })

  unfoldable pub parse_port_descriptor : Json D → Result BlockPortDescriptor
  unfolding parse_port_members
  parse_port_descriptor value = then_ok (members_of value) parse_port_members
