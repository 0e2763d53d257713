-- ===== src/Catalog/Wire/RoundTrip/Parameters.antt =====
-- A parameter that is written as JSON is read back as it was.
use gr4_control_plane.Prelude.{
  String, ◌==◌, string_eq, if◌then◌else◌, Option, none, some, ◌≡◌, refl, ap, ◌∙◌,
}
use gr4_control_plane.Prelude.Dict.{lookup}
use gr4_control_plane.Errors.{ok}
use gr4_control_plane.Domain.Catalog.{
  BlockParameterDefault, default_null, default_bool, default_int, default_double, default_string,
  BlockParameterDescriptor,
}
use gr4_control_plane.Json.{Json, bool, string, over, at_key, lookup-put, to_dict-of_dict}
use gr4_control_plane.Catalog.Wire.{to_int, as_text, as_bool}
use gr4_control_plane.Catalog.Wire.Parameters.{
  default_to_json, strings_to_json, string_map_to_json, unless_empty, parameter_members,
  parameter_to_json, parse_default_value, parse_parameter_members, parse_parameter_descriptor,
  read_choices, read_labels,
}
use gr4_control_plane.Catalog.Wire.Kept.{
  as_text-over, as_bool-over, read_choices-over, read_labels-over,
}

abbrev pub HasInt : {D : Type 0} → BlockParameterDefault D → Type 0
HasInt (default_int n) = to_int n ≡ n
HasInt _ = Unit {0}

module _ (D : Type 0) where
  parse_default_value-default_to_json :
      (value : BlockParameterDefault D)
      → HasInt value
      → parse_default_value (default_to_json value) ≡ ok value
  unfolding parse_default_value default_to_json
  parse_default_value-default_to_json default_null h = refl
  parse_default_value-default_to_json (default_bool b) h = refl
  parse_default_value-default_to_json (default_int n) h = rw h refl
  parse_default_value-default_to_json (default_double d) h = refl
  parse_default_value-default_to_json (default_string s) h = refl

module _ (D : Type 0) (parameter : BlockParameterDescriptor D) where
  abbrev parameter_at : String → Option (Json D)
  parameter_at j = at_key j "allow_custom_value" bool parameter.allow_custom_value (
      at_key j "ui_hint" string parameter.ui_hint (
        at_key j "enum_source" string parameter.enum_source (
          at_key j "enum_labels" string_map_to_json (unless_empty parameter.enum_labels) (
            at_key j "enum_type" string parameter.enum_type (
              at_key j "enum_choices" strings_to_json parameter.enum_choices (
                at_key j "value_kind" string parameter.value_kind (
                  at_key j "runtime_mutability" string parameter.runtime_mutability (
                    if j == "name"
                    then some (string parameter.name)
                    else if j == "type"
                    then some (string parameter.type)
                    else if j == "required"
                    then some (bool parameter.required)
                    else if j == "default_value"
                    then some (default_to_json parameter.default_value)
                    else if j == "summary"
                    then some (string parameter.summary)
                    else none))))))))

  lookup-parameter_members :
      (j : String) → lookup j (parameter_members {D = D} parameter) ≡ parameter_at j
  unfolding parameter_members lookup
  lookup-parameter_members j =
      rw
        (
          lookup-put {D = D} j,
          lookup-put {D = D} j,
          lookup-put {D = D} j,
          lookup-put {D = D} j,
          lookup-put {D = D} j,
          lookup-put {D = D} j,
          lookup-put {D = D} j,
          lookup-put {D = D} j,
        )
        refl

  parameter_text :
      (j : String) (o : Option String)
      → parameter_at j ≡ over string o none
      → as_text (lookup j (parameter_members {D = D} parameter)) ≡ o
  parameter_text j o e = ap as_text (lookup-parameter_members j ∙ e) ∙ as_text-over D o

  parse_parameter_members-parameter_members :
      HasInt parameter.default_value
      → parse_parameter_members (parameter_members {D = D} parameter) ≡ ok parameter
  unfolding parse_parameter_members string_eq
  parse_parameter_members-parameter_members h =
      rw
        (
          lookup-parameter_members "name",
          lookup-parameter_members "type",
          lookup-parameter_members "required",
          lookup-parameter_members "default_value",
          parse_default_value-default_to_json D parameter.default_value h,
          lookup-parameter_members "summary",
          ap read_choices (lookup-parameter_members "enum_choices")
              ∙ read_choices-over D parameter.enum_choices,
          ap read_labels (lookup-parameter_members "enum_labels")
              ∙ read_labels-over D parameter.enum_labels,
          parameter_text "runtime_mutability" parameter.runtime_mutability refl,
          parameter_text "value_kind" parameter.value_kind refl,
          parameter_text "enum_type" parameter.enum_type refl,
          parameter_text "enum_source" parameter.enum_source refl,
          parameter_text "ui_hint" parameter.ui_hint refl,
          ap as_bool (lookup-parameter_members "allow_custom_value")
              ∙ as_bool-over D parameter.allow_custom_value,
        )
        refl

  pub parse_parameter_descriptor-parameter_to_json :
      HasInt parameter.default_value
      → parse_parameter_descriptor (parameter_to_json {D = D} parameter) ≡ ok parameter
  unfolding parse_parameter_descriptor parameter_to_json
  parse_parameter_descriptor-parameter_to_json h =
      ap parse_parameter_members (to_dict-of_dict (parameter_members {D = D} parameter))
      ∙ parse_parameter_members-parameter_members h
