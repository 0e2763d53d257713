-- ===== src/Catalog/Wire/Parameters.antt =====
-- Parameters: `to_json`, `parse_default_value` and `parse_parameter_descriptor` of
-- src/catalog/gr4_block_catalog_provider.cpp.
use gr4_control_plane.Prelude.{String, string_eq, Option, none, some, List, [], ◌∷◌, map}
use gr4_control_plane.Prelude.Dict.{Dict, lookup}
use gr4_control_plane.Errors.{catalog_load_error, Result, ok, err, then_ok}
use gr4_control_plane.Domain.Catalog.{
  BlockParameterDefault, default_null, default_bool, default_int, default_double, default_string,
  BlockParameterDescriptor,
}
use gr4_control_plane.Json.{
  Json, null, bool, number, float, string, object, array, of_list, of_dict, to_list, to_dict, put,
}
use gr4_control_plane.Catalog.Wire.{
  to_int, as_text, as_bool, found_or_throw, text_at, members_of, each,
}

-- `if (!labels.empty())`
abbrev pub unless_empty : Dict String String → Option (Dict String String)
unless_empty [] = none
unless_empty (entry ∷ entries) = some (entry ∷ entries)

module _ {D : Type 0} where
  unfoldable pub default_to_json : BlockParameterDefault D → Json D
  default_to_json default_null = null
  default_to_json (default_bool b) = bool b
  default_to_json (default_int n) = number n
  default_to_json (default_double d) = float d
  default_to_json (default_string s) = string s

  abbrev pub strings_to_json : List String → Json D
  strings_to_json ss = array (of_list (map string ss))

  abbrev pub string_entry : String × String → String × Json D
  string_entry (key, s) = (key, string s)

  abbrev pub string_map_to_json : Dict String String → Json D
  string_map_to_json d = object (of_dict (map string_entry d))

  -- The members of a parameter's object.
  unfoldable pub parameter_members : BlockParameterDescriptor D → Dict String (Json D)
  unfolding put default_to_json
  parameter_members parameter = put "allow_custom_value" bool parameter.allow_custom_value (
      put "ui_hint" string parameter.ui_hint (
        put "enum_source" string parameter.enum_source (
          put "enum_labels" string_map_to_json (unless_empty parameter.enum_labels) (
            put "enum_type" string parameter.enum_type (
              put "enum_choices" strings_to_json parameter.enum_choices (
                put "value_kind" string parameter.value_kind (
                  put "runtime_mutability" string parameter.runtime_mutability (
                    ("name", string parameter.name)
                    ∷ ("type", string parameter.type)
                    ∷ ("required", bool parameter.required)
                    ∷ ("default_value", default_to_json parameter.default_value)
                    ∷ ("summary", string parameter.summary)
                    ∷ []))))))))

  unfoldable pub parameter_to_json : BlockParameterDescriptor D → Json D
  unfolding parameter_members
  parameter_to_json parameter = object (of_dict (parameter_members parameter))

  unfoldable pub parse_default_value : Json D → Result (BlockParameterDefault D)
  unfolding to_int
  parse_default_value null = ok default_null
  parse_default_value (bool b) = ok (default_bool b)
  parse_default_value (number n) = ok (default_int (to_int n))
  parse_default_value (float d) = ok (default_double d)
  parse_default_value (string s) = ok (default_string s)
  parse_default_value _ = err (
      catalog_load_error
        "invalid GNU Radio 4 block reflection payload: unsupported parameter default value")

  abbrev pub string_or_throw : Json D → Result String
  string_or_throw item = found_or_throw (as_text (some item))

  -- `it->get<std::vector<std::string>>()` of an array
  abbrev pub read_choices : Option (Json D) → Result (Option (List String))
  read_choices (some (array items)) =
      then_ok (each string_or_throw (to_list items)) λ choices. ok (some choices)
  read_choices _ = ok none

  unfoldable pub string_map : Dict String (Json D) → Result (Dict String String)
  string_map [] = ok []
  string_map ((key, item) ∷ items) =
      then_ok (string_or_throw item) λ s. then_ok (string_map items) λ rest. ok ((key, s) ∷ rest)

  -- `it->get<std::map<std::string, std::string>>()` of an object
  abbrev pub read_labels : Option (Json D) → Result (Dict String String)
  read_labels (some (object items)) = string_map (to_dict items)
  read_labels _ = ok []

  unfoldable pub parse_parameter_members :
      Dict String (Json D) → Result (BlockParameterDescriptor D)
  unfolding parse_default_value each string_map
  parse_parameter_members value = then_ok (text_at "name" value) λ name.
      then_ok (text_at "type" value) λ type.
        then_ok (found_or_throw (as_bool (lookup "required" value))) λ required.
          then_ok (found_or_throw (lookup "default_value" value)) λ default.
            then_ok (parse_default_value default) λ default_value.
              then_ok (text_at "summary" value) λ summary.
                then_ok (read_choices (lookup "enum_choices" value)) λ enum_choices.
                  then_ok (read_labels (lookup "enum_labels" value)) λ enum_labels. ok (record {
                    name = name;
                    type = type;
                    required = required;
                    default_value = default_value;
                    summary = summary;
                    runtime_mutability = as_text (lookup "runtime_mutability" value);
                    value_kind = as_text (lookup "value_kind" value);
                    enum_choices = enum_choices;
                    enum_type = as_text (lookup "enum_type" value);
                    enum_labels = enum_labels;
                    enum_source = as_text (lookup "enum_source" value);
                    ui_hint = as_text (lookup "ui_hint" value);
                    allow_custom_value = as_bool (lookup "allow_custom_value" value);
                  })

  unfoldable pub parse_parameter_descriptor : Json D → Result (BlockParameterDescriptor D)
  unfolding parse_parameter_members
  parse_parameter_descriptor value = then_ok (members_of value) parse_parameter_members
