-- ===== src/Tests/Reflection.antt =====
-- Names, categories and ports that are derived of blocks, and what the providers list.
use gr4_control_plane.Prelude.{
  String, ◌≡◌, ◌≢◌, refl, string_eq, nat_eq, true, false, ◌&&◌, contains, Option, none, some, List,
  [], ◌∷◌, arith,
}
use gr4_control_plane.Prelude.Int.{ℤ, pos}
use gr4_control_plane.Prelude.Chars.{toupper, tolower}
use gr4_control_plane.Prelude.Distinct.{Increasing}
use gr4_control_plane.Errors.{Result, ok, err}
use gr4_control_plane.Domain.Catalog.{BlockParameterDescriptor, default_int}
use gr4_control_plane.Catalog.Schedulers
use gr4_control_plane.Catalog.Schedulers.{
  SchedulerLoader, is_alias_scheduler_id, described, list-Increasing,
}
use gr4_control_plane.Catalog.Reflection.Names.{
  derive_name_from_id, title_case, to_title_case, after_last, derive_category_from_block_id,
  split_tokens, join,
}
use gr4_control_plane.Catalog.Reflection.Ports.{
  infer_collection_size_parameter, candidates, unique_candidates, singular, plural, before_suffix,
  first_match, find_parameter, parameter_default_int, port_count_lower_bound,
  port_count_upper_bound,
}
use gr4_control_plane.Catalog.Reflection.Collections.{
  CollectionMetadata, infer_collection_metadata, infer_collection_render_port_count, min_count,
  max_count, clamped,
}
use gr4_control_plane.Prelude.Sorting.{sort, insert_sorted, unique}
use gr4_control_plane.Prelude.TextOrder.{str_ltb}
use gr4_control_plane.Catalog.Wire.Blocks.{block_to_json}
use gr4_control_plane.Catalog.Reflection.Values.{Queries, ValueType}
use gr4_control_plane.Catalog.Reflection.Collections.{single, collection}
use gr4_control_plane.Catalog.Reflection.Blocks.{
  BlockModel, PluginLoader, Platform, Worker, exited, describe, reflect_block,
  instantiate_from_retained_loaders, available_blocks_from_retained_loaders, loader_blocks,
}
use gr4_control_plane.Catalog.Reflection.Provider
use gr4_control_plane.Catalog.Reflection.Faithful.{list-reflected}
use gr4_control_plane.Tests.Values.{Node, whole, reader}
use text.Mathlib.TextEquality.{eq_iff}
use gr4_control_plane.Catalog.Reflection.Bounds.{IsWithin, render_port_count-IsWithin}

title : derive_name_from_id "gr::blocks::math.fast_fourier" ≡ "Fast Fourier"
unfolding derive_name_from_id title_case to_title_case after_last toupper tolower nat_eq
title = refl

category : derive_category_from_block_id "gr::blocks::math::Add<float>" ≡ "blocks/math"
unfolding derive_category_from_block_id split_tokens join string_eq nat_eq
category = refl

abbrev inputs_count : BlockParameterDescriptor (Unit {0})
inputs_count = record {
  name = "n_inputs";
  type = "int";
  required = false;
  default_value = default_int (pos 40);
  summary = "";
  runtime_mutability = none;
  value_kind = some "scalar";
  enum_choices = none;
  enum_type = none;
  enum_labels = [];
  enum_source = none;
  ui_hint = none;
  allow_custom_value = none;
}

abbrev adder_inputs : CollectionMetadata
adder_inputs = infer_collection_metadata "in" "Add<float>" true (inputs_count ∷ []) 2

-- The parameter asks for more ports than there may be.
render_port_count-IsWithin_example :
    (min max count : ℤ) × (adder_inputs.min_port_count ≡ some min)
    × (adder_inputs.max_port_count ≡ some max)
    × (adder_inputs.render_port_count ≡ some count)
    × IsWithin min max count
unfolding infer_collection_metadata infer_collection_size_parameter candidates unique_candidates
    singular plural before_suffix first_match find_parameter parameter_default_int string_eq
render_port_count-IsWithin_example =
    render_port_count-IsWithin "in" "Add<float>" true (inputs_count ∷ []) 2 (pos 40) refl

rendered : adder_inputs.render_port_count ≡ some (pos 32)
unfolding infer_collection_metadata infer_collection_render_port_count
    infer_collection_size_parameter candidates unique_candidates singular plural before_suffix
    first_match find_parameter parameter_default_int min_count max_count port_count_lower_bound
    port_count_upper_bound clamped string_eq nat_eq
rendered = refl

abbrev scheduler_loader : SchedulerLoader
scheduler_loader = record {
  available_schedulers = "b" ∷ "a" ∷ "s<x>" ∷ "b" ∷ [];
  failed_plugins = [];
}

list-Increasing_example :
    (ids : List String) × Increasing ids
    × ((j : String)
        → contains ids j
          ≡ (is_alias_scheduler_id j && contains scheduler_loader.available_schedulers j))
    × (Schedulers.list ("plugins" ∷ []) (ok scheduler_loader) ≡ described ids)
list-Increasing_example = list-Increasing "plugins" [] scheduler_loader refl

abbrev queries : Queries Node
queries = record {
  string_view = λ _. none;
  string_tensor = λ _. none;
  is_map = λ _. false;
  is_complex = λ _. false;
  is_tensor = λ _. false;
  is_string = λ _. false;
  is_integral = λ _. true;
  is_floating_point = λ _. false;
  value_type = λ _. ValueType.int32;
}

abbrev adder : BlockModel Node
adder = record {
  name = "Adder";
  type_name = "Add";
  meta_information = [];
  settings = ("n_inputs", whole (pos 40)) ∷ [];
  dynamic_input_ports = collection "in" ("float32" ∷ "float32" ∷ []) ∷ [];
  dynamic_output_ports = single "out" "float32" ∷ [];
}

abbrev no_blocks : String → Option (BlockModel Node)
no_blocks _ = none

abbrev adder_loader : PluginLoader Node
adder_loader = record {
  available_blocks = "Add" ∷ [];
  instantiate = λ id. some adder;
  failed_plugins = [];
}

abbrev outcome : Result String → Worker
outcome (ok payload) = exited 0 payload
outcome (err e) = exited 2 ""

abbrev platform : Platform (Unit {0})
platform = record {
  run = λ id r. outcome r;
  parse = λ _. ok (block_to_json (describe reader queries "Add" adder));
  dump = λ _. ok "payload";
}

payload_full : ◌≢◌ {A = String} "payload" ""
payload_full = ground (arith, eq_iff "payload" "")

list-reflected_example :
    Provider.list reader queries platform no_blocks ("plugins" ∷ []) (ok adder_loader) [] []
    ≡ (ok (describe reader queries "Add" adder ∷ []), adder_loader ∷ [])
unfolding available_blocks_from_retained_loaders loader_blocks sort insert_sorted unique str_ltb
    string_eq reflect_block instantiate_from_retained_loaders
list-reflected_example =
    list-reflected reader queries platform no_blocks "plugins" [] [] adder_loader []
      (describe reader queries "Add" adder) [] refl
      (("payload", payload_full, refl, refl, refl), tt) refl
