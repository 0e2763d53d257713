-- ===== src/Catalog/Reflection/Collections.antt =====
-- The counts of port collections in src/catalog/gr4_block_catalog_provider.cpp. `DynamicPort` and
-- `DynamicPortCollection` are GNU Radio's.
use gr4_control_plane.Prelude.{
  ℕ, String, ◌<>◌, ◌==◌, string_eq, nat_eq, if◌then◌else◌, ltb, Bool, not, ◌&&◌, Option, none, some,
  List, [], ◌∷◌, map, length,
}
use gr4_control_plane.Prelude.Int.{ℤ, pos, negsuc, ltb_ℤ}
use gr4_control_plane.Domain.Catalog.{
  BlockPortCardinalityKind, fixed, dynamic, BlockPortDescriptor, BlockParameterDescriptor,
}
use gr4_control_plane.Catalog.Wire.{to_int}
use gr4_control_plane.Catalog.Reflection.Ports.{
  port_count_lower_bound, port_count_upper_bound, find_parameter, infer_collection_size_parameter,
  parameter_default_int, infer_collection_element_type,
}

abbrev at_least : Option ℤ → ℤ → ℤ
at_least none count = count
at_least (some min) count = if ltb_ℤ count min then min else count

-- A negative maximum is none.
abbrev at_most : Option ℤ → ℤ → ℤ
at_most none count = count
at_most (some max) count = if not (ltb_ℤ max (pos 0)) && ltb_ℤ max count then max else count

-- The count that a parameter sets, kept within both bounds.
unfoldable pub clamped : Option ℤ → Option ℤ → ℤ → ℤ
clamped min max count = at_most max (at_least min count)

abbrev positive : Option ℤ → Option ℤ
positive none = none
positive (some min) = if ltb_ℤ (pos 0) min then some min else none

-- Without a parameter that sets it.
abbrev pub other_count : ℕ → Option ℤ → Option ℤ
other_count current min = if ltb 0 current then some (to_int (pos current)) else positive min

module _ {D : Type 0} where
  abbrev pub counted : Option (BlockParameterDescriptor D) → Option ℤ
  counted none = none
  counted (some parameter) = parameter_default_int parameter

  -- The integer that a size parameter holds.
  abbrev pub default_count : List (BlockParameterDescriptor D) → Option String → Option ℤ
  default_count parameters none = none
  default_count parameters (some name) = counted (find_parameter name parameters)

  unfoldable pub infer_collection_render_port_count :
      String → Bool → List (BlockParameterDescriptor D) → ℕ → Option ℤ → Option ℤ → Option ℤ
  infer_collection_render_port_count name is_input parameters current min max =
      elim (default_count parameters (infer_collection_size_parameter name is_input parameters)) [
        | some count ↦ some (clamped min max count)
        | none ↦ other_count current min
      ]

pub record CollectionMetadata : Type 0 where
  pub cardinality_kind : BlockPortCardinalityKind
  pub current_port_count : Option ℤ
  pub render_port_count : Option ℤ
  pub min_port_count : Option ℤ
  pub max_port_count : Option ℤ
  pub size_parameter : Option String
  pub handle_name_template : Option String
  pub element_type : Option String

abbrev pub counted_or : Option ℤ → ℤ → ℤ
counted_or none default = default
counted_or (some n) default = n

abbrev bound_or : (String → Option ℤ) → Option String → ℤ → ℤ
bound_or bound none default = default
bound_or bound (some size_parameter) default = counted_or (bound size_parameter) default

unfoldable pub min_count : Option String → ℕ → ℤ
unfolding port_count_lower_bound
min_count size_parameter current =
    bound_or port_count_lower_bound size_parameter (if current == 0 then pos 0 else pos 1)

unfoldable pub max_count : Option String → ℤ
unfolding port_count_upper_bound
max_count size_parameter = bound_or port_count_upper_bound size_parameter (negsuc 0)

module _ {D : Type 0} where
  unfoldable pub infer_collection_metadata :
      String → String → Bool → List (BlockParameterDescriptor D) → ℕ → CollectionMetadata
  infer_collection_metadata name block_id is_input parameters current =
      let size_parameter = infer_collection_size_parameter name is_input parameters in
      let min = some (min_count size_parameter current) in
      let max = some (max_count size_parameter) in
      record {
        cardinality_kind = dynamic;
        current_port_count = some (to_int (pos current));
        render_port_count =
            infer_collection_render_port_count name is_input parameters current min max;
        min_port_count = min;
        max_port_count = max;
        size_parameter = size_parameter;
        handle_name_template = some (name <> "#${index}");
        element_type = infer_collection_element_type block_id;
      }

-- `gr::BlockModel::DynamicPortOrCollection`: a port with its name and type, or a collection with its name
-- and the types of its ports.
pub data DynamicPortOrCollection : Type 0 where
  single : String → String → DynamicPortOrCollection
  collection : String → List String → DynamicPortOrCollection

abbrev front_type : List String → String
front_type [] = ""
front_type (type ∷ types) = type

abbrev or_element : String → Option String → String
or_element type none = type
or_element type (some element) = if type == "" then element else type

module _ {D : Type 0} (block_id : String) (parameters : List (BlockParameterDescriptor D))
    (is_input : Bool) where
  unfoldable pub to_port_descriptor : DynamicPortOrCollection → BlockPortDescriptor
  to_port_descriptor (single name type) = record {
    name = name;
    type = type;
    cardinality_kind = fixed;
    current_port_count = some (pos 1);
    render_port_count = some (pos 1);
    min_port_count = some (pos 1);
    max_port_count = some (pos 1);
    size_parameter = none;
    handle_name_template = none;
  }
  to_port_descriptor (collection name types) =
      let metadata = infer_collection_metadata name block_id is_input parameters (length types) in
      record {
        name = name;
        type = or_element (front_type types) metadata.element_type;
        cardinality_kind = metadata.cardinality_kind;
        current_port_count = metadata.current_port_count;
        render_port_count = metadata.render_port_count;
        min_port_count = metadata.min_port_count;
        max_port_count = metadata.max_port_count;
        size_parameter = metadata.size_parameter;
        handle_name_template = metadata.handle_name_template;
      }

  unfoldable pub to_ports : List DynamicPortOrCollection → List BlockPortDescriptor
  to_ports = map to_port_descriptor
