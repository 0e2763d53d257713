-- ===== src/Domain/Catalog.antt =====
-- include/gr4cp/domain/block_catalog.hpp and include/gr4cp/domain/scheduler_catalog.hpp. Nothing
-- computes with the `double` of a default, so its type is a parameter.
use gr4_control_plane.Prelude.{String, Bool, Option, List}
use gr4_control_plane.Prelude.Dict.{Dict}
use gr4_control_plane.Prelude.Int.{ℤ}

pub data BlockParameterDefault (Double : Type 0) : Type 0 where
  default_null : BlockParameterDefault Double
  default_bool : Bool → BlockParameterDefault Double
  default_int : ℤ → BlockParameterDefault Double
  default_double : Double → BlockParameterDefault Double
  default_string : String → BlockParameterDefault Double

pub data BlockPortCardinalityKind : Type 0 where
  fixed dynamic : BlockPortCardinalityKind

pub record BlockPortDescriptor : Type 0 where
  pub name : String
  pub type : String
  pub cardinality_kind : BlockPortCardinalityKind
  pub current_port_count : Option ℤ
  pub render_port_count : Option ℤ
  pub min_port_count : Option ℤ
  pub max_port_count : Option ℤ
  pub size_parameter : Option String
  pub handle_name_template : Option String

pub record BlockParameterDescriptor (Double : Type 0) : Type 0 where
  pub name : String
  pub type : String
  pub required : Bool
  pub default_value : BlockParameterDefault Double
  pub summary : String
  pub runtime_mutability : Option String
  pub value_kind : Option String
  pub enum_choices : Option (List String)
  pub enum_type : Option String
  pub enum_labels : Dict String String
  pub enum_source : Option String
  pub ui_hint : Option String
  pub allow_custom_value : Option Bool

pub record BlockDescriptor (Double : Type 0) : Type 0 where
  pub id : String
  pub canonical_type : Option String
  pub name : String
  pub category : String
  pub summary : String
  pub inputs : List BlockPortDescriptor
  pub outputs : List BlockPortDescriptor
  pub parameters : List (BlockParameterDescriptor Double)

pub record SchedulerDescriptor : Type 0 where
  pub id : String
