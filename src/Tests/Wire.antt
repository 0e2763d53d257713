-- ===== src/Tests/Wire.antt =====
-- A reflected block, through JSON and back.
use gr4_control_plane.Prelude.{◌≡◌, refl, none, some, [], ◌∷◌, true, false, string_eq}
use gr4_control_plane.Prelude.Int.{pos, negsuc}
use gr4_control_plane.Errors.{ok}
use gr4_control_plane.Domain.Catalog.{
  BlockPortDescriptor, BlockParameterDescriptor, BlockDescriptor, dynamic, default_int,
}
use gr4_control_plane.Catalog.Wire.{to_int}
use gr4_control_plane.Catalog.Wire.Blocks.{block_to_json, parse_block}
use gr4_control_plane.Catalog.Wire.RoundTrip.{IsWritable, parse_block-block_to_json}
use gr4_control_plane.Catalog.Wire.RoundTrip.Ports.{HasInts}

abbrev dynamic_port : BlockPortDescriptor
dynamic_port = record {
  name = "in";
  type = "float32";
  cardinality_kind = dynamic;
  current_port_count = some (pos 2);
  render_port_count = none;
  min_port_count = some (pos 1);
  max_port_count = some (negsuc 0);
  size_parameter = some "n_inputs";
  handle_name_template = none;
}

dynamic_port-HasInts : HasInts dynamic_port
unfolding to_int
dynamic_port-HasInts = record { current = refl; render = tt; min = refl; max = refl }

abbrev choice : BlockParameterDescriptor (Unit {0})
choice = record {
  name = "mode";
  type = "enum";
  required = false;
  default_value = default_int (negsuc 4);
  summary = "";
  runtime_mutability = some "mutable";
  value_kind = some "enum";
  enum_choices = some ("a" ∷ "b" ∷ []);
  enum_type = none;
  enum_labels = ("a", "first") ∷ [];
  enum_source = none;
  ui_hint = some "dropdown";
  allow_custom_value = some true;
}

abbrev reflected : BlockDescriptor (Unit {0})
reflected = record {
  id = "gr::Adder<float>";
  canonical_type = some "gr::Adder";
  name = "Adder";
  category = "math";
  summary = "";
  inputs = dynamic_port ∷ [];
  outputs = [];
  parameters = choice ∷ [];
}

reflected-IsWritable : IsWritable reflected
unfolding to_int string_eq
reflected-IsWritable = record {
  canonical = refl;
  inputs = (dynamic_port-HasInts, tt);
  outputs = tt;
  parameters = (refl, tt);
}

parse_block-block_to_json_example :
    parse_block {D = Unit {0}} (block_to_json reflected) ≡ ok reflected
parse_block-block_to_json_example =
    parse_block-block_to_json (Unit {0}) reflected reflected-IsWritable
