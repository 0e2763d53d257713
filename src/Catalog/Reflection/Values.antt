-- ===== src/Catalog/Reflection/Values.antt =====
-- What src/catalog/gr4_block_catalog_provider.cpp reads of a block's settings and its meta information.
use gr4_control_plane.Prelude.{
  String, ◌<>◌, ◌==◌, string_eq, nat_eq, if◌then◌else◌, ltb, Bool, true, false, not, ◌&&◌, ◌||◌,
  Option, none, some, List, [], ◌∷◌,
}
use gr4_control_plane.Prelude.Int.{ℤ, pos, negsuc}
use gr4_control_plane.Prelude.Dict.{Dict, lookup}
use gr4_control_plane.Pmt.{Pmt, Shape, boolean, integer, floating, text, tensor, as_string, as_map}
use gr4_control_plane.Domain.Catalog.{
  BlockParameterDefault, default_null, default_bool, default_int, default_double, default_string,
}
use gr4_control_plane.Catalog.Reflection.Names.{
  is_sane_explicit_category, derive_category_from_block_id,
}

-- `gr::pmt::Value::ValueType`; the switch has no case for `unlisted`.
pub data ValueType : Type 0 where
  bool_type int8 int16 int32 int64 uint8 uint16 uint32 uint64 float32 float64 complex_float32
        complex_float64 string_type nested_value monostate unlisted :
      ValueType

-- What else is asked of a `gr::pmt::Value`: whether a visitor gets a `std::string_view` or a tensor of
-- strings, and its queries.
pub record Queries (V : Type 0) : Type 0 where
  pub string_view : V → Option String
  pub string_tensor : V → Option (List String)
  pub is_map : V → Bool
  pub is_complex : V → Bool
  pub is_tensor : V → Bool
  pub is_string : V → Bool
  pub is_integral : V → Bool
  pub is_floating_point : V → Bool
  pub value_type : V → ValueType

abbrev vector_name : ValueType → Option String
vector_name ValueType.bool_type = some "bool_vector"
vector_name ValueType.int8 = some "int_vector"
vector_name ValueType.int16 = some "int_vector"
vector_name ValueType.int32 = some "int_vector"
vector_name ValueType.int64 = some "int_vector"
vector_name ValueType.uint8 = some "int_vector"
vector_name ValueType.uint16 = some "int_vector"
vector_name ValueType.uint32 = some "int_vector"
vector_name ValueType.uint64 = some "int_vector"
vector_name ValueType.float32 = some "float32_vector"
vector_name ValueType.float64 = some "float64_vector"
vector_name ValueType.complex_float32 = some "complex_float32_vector"
vector_name ValueType.complex_float64 = some "complex_float64_vector"
vector_name ValueType.string_type = some "string_vector"
vector_name ValueType.nested_value = some "value_vector"
vector_name ValueType.monostate = some "vector"
vector_name ValueType.unlisted = none

abbrev is_bool_type : ValueType → Bool
is_bool_type ValueType.bool_type = true
is_bool_type _ = false

module _ {V : Type 0} (q : Queries V) where
  abbrev scalar_name : V → String
  scalar_name value =
      if q.is_string value
      then "string"
      else if is_bool_type (q.value_type value)
      then "bool"
      else if q.is_integral value
      then "int"
      else if q.is_floating_point value
      then "float"
      else "value"

  abbrev or_else : Option String → String → String
  or_else none s = s
  or_else (some s) _ = s

  unfoldable pub parameter_type_name : V → String
  parameter_type_name value =
      if q.is_map value
      then "map"
      else if q.is_complex value
      then "complex"
      else if q.is_tensor value
      then or_else (vector_name (q.value_type value)) (scalar_name value)
      else scalar_name value

  unfoldable pub parameter_value_kind : V → Option String
  parameter_value_kind value =
      if not (q.is_map value) && not (q.is_tensor value) then some "scalar" else none

-- `item >= numeric_limits<int>::min() && item <= numeric_limits<int>::max()`
abbrev pub fits_int : ℤ → Bool
fits_int (pos n) = ltb n 2147483648
fits_int (negsuc n) = ltb n 2147483648

abbrev pub default_of : {V D : Type 0} → Shape V D → BlockParameterDefault D
default_of (boolean b) = default_bool b
default_of (integer n) = if fits_int n then default_int n else default_null
default_of (floating d) = default_double d
default_of (text s) = default_string s
default_of _ = default_null

unfoldable pub parameter_runtime_mutability : String → Option String
parameter_runtime_mutability name =
    if name == "name" || name == "unique_name" then some "immutable" else none

unfoldable pub parameter_ui_hint : String → Option String
parameter_ui_hint name =
    if name == "name" || name == "unique_name"
    then some "read_only"
    else if name == "compute_domain"
        || name == "disconnect_on_done"
        || name == "ui_constraints"
        || name == "input_chunk_size"
        || name == "output_chunk_size"
        || name == "stride"
    then some "advanced"
    else none

-- `has_value() && !empty()`
abbrev said : Option String → Option String
said none = none
said (some s) = if s == "" then none else some s

abbrev first_said : Option String → Option String → String
first_said (some s) _ = s
first_said none (some s) = s
first_said none none = ""

module _ (p : Pmt) (q : Queries p.Value) where
  unfoldable pub parameter_default_value : p.Value → BlockParameterDefault p.Double
  parameter_default_value value = default_of (p.visit value)

  unfoldable pub value_to_string : p.Value → Option String
  value_to_string value = as_string (p.visit value)

  unfoldable pub value_to_map : p.Value → Option (Dict String p.Value)
  value_to_map value = as_map (p.visit value)

  -- The loop over a tensor, which gives up at an entry that is no text.
  unfoldable pub strings_of : List p.Value → Option (List String)
  unfolding value_to_string
  strings_of [] = some []
  strings_of (entry ∷ entries) = elim (value_to_string entry) [
    | none ↦ none
    | some s ↦ elim (strings_of entries) [ none ↦ none | some rest ↦ some (s ∷ rest) ]
  ]

  abbrev list_of : Shape p.Value p.Double → Option String → Option (List String)
  list_of (tensor entries) _ = strings_of entries
  list_of _ (some s) = some (s ∷ [])
  list_of _ none = none

  unfoldable pub value_to_string_list : p.Value → Option (List String)
  unfolding strings_of
  value_to_string_list value = elim (q.string_tensor value) [
    | some values ↦ some values
    | none ↦ list_of (p.visit value) (q.string_view value)
  ]

  abbrev meta_value : {A : Type 0} → (p.Value → Option A) → Option p.Value → Option A
  meta_value f none = none
  meta_value f (some value) = f value

  unfoldable pub parameter_meta_string : Dict String p.Value → String → String → Option String
  unfolding value_to_string
  parameter_meta_string meta parameter_name suffix =
      meta_value value_to_string (lookup (parameter_name <> suffix) meta)

  unfoldable pub parameter_meta_string_list :
      Dict String p.Value → String → String → Option (List String)
  unfolding value_to_string_list
  parameter_meta_string_list meta parameter_name suffix =
      meta_value value_to_string_list (lookup (parameter_name <> suffix) meta)

  unfoldable pub block_summary : Dict String p.Value → String
  unfolding parameter_meta_string
  block_summary meta =
      first_said (said (parameter_meta_string meta "" "description"))
        (said (parameter_meta_string meta "" "Description"))

  unfoldable pub parameter_summary : Dict String p.Value → String → String
  unfolding parameter_meta_string
  parameter_summary meta name =
      first_said (said (parameter_meta_string meta name "::description"))
        (said (parameter_meta_string meta name "::documentation"))

  unfoldable pub parameter_enum_choices : Dict String p.Value → String → Option (List String)
  unfolding parameter_meta_string_list
  parameter_enum_choices meta name = parameter_meta_string_list meta name "::enum_values"

  unfoldable pub parameter_enum_type : Dict String p.Value → String → Option String
  unfolding parameter_meta_string
  parameter_enum_type meta name = parameter_meta_string meta name "::enum_type"

  abbrev explicit_category : Option String → Option String
  explicit_category none = none
  explicit_category (some value) =
      if not (value == "") && is_sane_explicit_category value then some value else none

  abbrev category_in : Option (Dict String p.Value) → Option String
  category_in none = none
  category_in (some drawable_info) =
      explicit_category (meta_value value_to_string (lookup "Category" drawable_info))

  abbrev or_derived : Option String → String → String
  or_derived (some category) id = category
  or_derived none id = derive_category_from_block_id id

  unfoldable pub derive_category_from_metadata : Dict String p.Value → String → String
  unfolding value_to_map value_to_string
  derive_category_from_metadata meta fallback_id =
      or_derived (category_in (meta_value value_to_map (lookup "Drawable" meta))) fallback_id
