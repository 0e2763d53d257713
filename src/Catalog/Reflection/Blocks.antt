-- ===== src/Catalog/Reflection/Blocks.antt =====
-- The reflection of one block and of all in src/catalog/gr4_block_catalog_provider.cpp: `reflect_block`,
-- `reflect_block_in_subprocess` and `Gr4BlockCatalogProvider::list`. GNU Radio's blocks and plugin
-- loaders, the process that is forked, and nlohmann::json are parameters.
use gr4_control_plane.Prelude.{
  ℕ, String, ◌<>◌, ◌==◌, string_eq, nat_eq, if◌then◌else◌, true, false, not, Option, none, some,
  List, [], ◌∷◌, ◌++◌, map,
}
use gr4_control_plane.Prelude.Decimal.{decimal}
use gr4_control_plane.Prelude.Dict.{Dict}
use gr4_control_plane.Prelude.Sorting.{sort}
use gr4_control_plane.Prelude.Distinct.{sort_unique}
use gr4_control_plane.Prelude.TextOrder.{str_ltb}
use gr4_control_plane.Errors.{Exception, catalog_load_error, what, Result, ok, err, then_ok}
use gr4_control_plane.Json.{Json}
use gr4_control_plane.Pmt.{Pmt}
use gr4_control_plane.Domain.Catalog.{BlockParameterDescriptor, BlockDescriptor}
use gr4_control_plane.Catalog.Wire.Blocks.{block_to_json, parse_block}
use gr4_control_plane.Catalog.Reflection.Names.{block_name}
use gr4_control_plane.Catalog.Reflection.Values.{
  Queries, parameter_type_name, parameter_value_kind, parameter_default_value,
  parameter_runtime_mutability, parameter_ui_hint, parameter_summary, parameter_enum_choices,
  parameter_enum_type, block_summary, derive_category_from_metadata,
}
use gr4_control_plane.Catalog.Reflection.Collections.{DynamicPortOrCollection, to_ports}

-- `gr::BlockModel`, its settings as they are once staged ones are applied.
pub record BlockModel (V : Type 0) : Type 0 where
  pub name : String
  pub type_name : String
  pub meta_information : Dict String V
  pub settings : Dict String V
  pub dynamic_input_ports : List DynamicPortOrCollection
  pub dynamic_output_ports : List DynamicPortOrCollection

-- `gr::PluginLoader`, with the plugins that failed to load and their errors.
pub record PluginLoader (V : Type 0) : Type 0 where
  pub available_blocks : List String
  pub instantiate : String → Option (BlockModel V)
  pub failed_plugins : Dict String String

abbrev pub or_earlier : {A : Type 0} → Option A → Option A → Option A
or_earlier (some a) _ = some a
or_earlier none o = o

module _ {V : Type 0} where
  -- From the loader that was retained last.
  unfoldable pub instantiate_from_retained_loaders :
      List (PluginLoader V) → String → Option (BlockModel V)
  instantiate_from_retained_loaders [] id = none
  instantiate_from_retained_loaders (loader ∷ pool) id =
      or_earlier (instantiate_from_retained_loaders pool id) (loader.instantiate id)

  unfoldable pub loader_blocks : List (PluginLoader V) → List String
  loader_blocks [] = []
  loader_blocks (loader ∷ pool) = loader.available_blocks ++ loader_blocks pool

  unfoldable pub available_blocks_from_retained_loaders : List (PluginLoader V) → List String
  unfolding loader_blocks
  available_blocks_from_retained_loaders pool = sort_unique (loader_blocks pool)

abbrev unless_empty : String → Option String
unless_empty s = if s == "" then none else some s

module _ (p : Pmt) (q : Queries p.Value) where
  unfoldable pub to_parameter :
      Dict String p.Value → String × p.Value → BlockParameterDescriptor p.Double
  unfolding parameter_type_name parameter_default_value parameter_summary
      parameter_runtime_mutability parameter_value_kind parameter_enum_choices parameter_enum_type
      parameter_ui_hint
  to_parameter meta (name, value) = record {
    name = name;
    type = parameter_type_name q value;
    required = false;
    default_value = parameter_default_value p q value;
    summary = parameter_summary p q meta name;
    runtime_mutability = parameter_runtime_mutability name;
    value_kind = parameter_value_kind q value;
    enum_choices = parameter_enum_choices p q meta name;
    enum_type = parameter_enum_type p q meta name;
    enum_labels = [];
    enum_source = none;
    ui_hint = parameter_ui_hint name;
    allow_custom_value = none;
  }

  unfoldable pub to_parameters : BlockModel p.Value → List (BlockParameterDescriptor p.Double)
  unfolding to_parameter
  to_parameters block =
      sort (λ left right. str_ltb left.name right.name)
        (map (to_parameter block.meta_information) block.settings)

  unfoldable pub describe : String → BlockModel p.Value → BlockDescriptor p.Double
  unfolding to_parameters block_summary block_name derive_category_from_metadata to_ports
  describe id block =
      let parameters = to_parameters block in
      record {
        id = id;
        canonical_type = unless_empty block.type_name;
        name = block_name block.name id;
        category = derive_category_from_metadata p q block.meta_information id;
        summary = block_summary p q block.meta_information;
        inputs = to_ports id parameters true block.dynamic_input_ports;
        outputs = to_ports id parameters false block.dynamic_output_ports;
        parameters = parameters;
      }

  -- `registry` is `gr::globalBlockRegistry().create`.
  unfoldable pub reflect_block :
      (String → Option (BlockModel p.Value))
      → List (PluginLoader p.Value)
      → String
      → Result (BlockDescriptor p.Double)
  unfolding instantiate_from_retained_loaders describe
  reflect_block registry pool id =
      elim (or_earlier (instantiate_from_retained_loaders pool id) (registry id)) [
        | none ↦
            err (catalog_load_error ("failed to instantiate GNU Radio 4 block for catalog: " <> id))
        | some block ↦ ok (describe id block)
      ]

-- How the forked process ends, with what could be read of it.
pub data Worker : Type 0 where
  no_pipe no_fork unread unwaited : Worker
  signaled : ℕ → String → Worker
  exited : ℕ → String → Worker
  other_end : String → Worker

-- `run` is what becomes of a process that writes a text and exits with 0, or throws and exits with 2.
pub record Platform (D : Type 0) : Type 0 where
  pub run : String → Result String → Worker
  pub parse : String → Result (Json D)
  pub dump : Json D → Result String

module _ {D : Type 0} (os : Platform D) where
  abbrev load_error : {A : Type 0} → String → Result A
  load_error message = err (catalog_load_error message)

  -- `catch (const std::exception&)` around the parsing.
  abbrev invalid_payload : String → Exception → Exception
  invalid_payload id e = elim (what e) [
    | none ↦ e
    | some message ↦ catalog_load_error (
        "GNU Radio 4 block reflection returned invalid payload for block " <> id <> ": " <> message)
  ]

  abbrev parsed_or_invalid : String → Result (BlockDescriptor D) → Result (BlockDescriptor D)
  parsed_or_invalid id (ok block) = ok block
  parsed_or_invalid id (err e) = err (invalid_payload id e)

  unfoldable pub parse_block_descriptor : String → Result (BlockDescriptor D)
  unfolding parse_block
  parse_block_descriptor payload = then_ok (os.parse payload) parse_block

  abbrev read_payload : String → String → Result (BlockDescriptor D)
  read_payload id payload =
      if payload == ""
      then load_error ("GNU Radio 4 block reflection returned empty payload for block: " <> id)
      else parsed_or_invalid id (parse_block_descriptor payload)

  unfoldable pub answer_of : String → Worker → Result (BlockDescriptor D)
  unfolding parse_block_descriptor
  answer_of id no_pipe =
      load_error ("failed to create GNU Radio 4 reflection pipe for block: " <> id)
  answer_of id no_fork =
      load_error ("failed to fork GNU Radio 4 reflection worker for block: " <> id)
  answer_of id unread =
      load_error ("failed to read GNU Radio 4 reflection payload for block: " <> id)
  answer_of id unwaited =
      load_error ("failed to wait for GNU Radio 4 reflection worker for block: " <> id)
  answer_of id (signaled signal payload) = load_error (
      "GNU Radio 4 block reflection crashed for block "
      <> id
      <> " (signal "
      <> decimal signal
      <> ")")
  answer_of id (exited code payload) =
      if not (code == 0)
      then load_error ("GNU Radio 4 block reflection failed for block: " <> id)
      else read_payload id payload
  answer_of id (other_end payload) =
      load_error ("GNU Radio 4 block reflection failed for block: " <> id)

  -- The process forks off `reflect`, and reads back what it has written.
  unfoldable pub reflect_block_in_subprocess :
      (String → Result (BlockDescriptor D)) → String → Result (BlockDescriptor D)
  unfolding block_to_json answer_of
  reflect_block_in_subprocess reflect id =
      answer_of id (os.run id (then_ok (reflect id) λ block. os.dump (block_to_json block)))

  abbrev pub kept_or_thrown :
      Result (BlockDescriptor D)
      → Result (List (BlockDescriptor D))
      → Result (List (BlockDescriptor D))
  kept_or_thrown (ok block) rest = then_ok rest λ descriptors. ok (block ∷ descriptors)
  kept_or_thrown (err (catalog_load_error message)) rest = rest
  kept_or_thrown (err e) rest = err e

  -- The loop over the ids; a block that gives a `CatalogLoadError` is skipped.
  unfoldable pub reflect_all :
      (String → Result (BlockDescriptor D)) → List String → Result (List (BlockDescriptor D))
  unfolding reflect_block_in_subprocess
  reflect_all reflect [] = ok []
  reflect_all reflect (id ∷ ids) =
      kept_or_thrown (reflect_block_in_subprocess reflect id) (reflect_all reflect ids)
