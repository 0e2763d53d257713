-- ===== src/Api/Render.antt =====
-- The JSON of the answers: the `..._to_json` functions of src/api/http_server.cpp. `format` stands for
-- `format_timestamp_utc`, which is the C library's.
use gr4_control_plane.Prelude.{ℕ, String, Option, none, some, List, [], ◌∷◌, map}
use gr4_control_plane.Prelude.Dict.{Dict}
use gr4_control_plane.Domain.Catalog.{
  BlockPortCardinalityKind, fixed, dynamic, BlockPortDescriptor, BlockParameterDefault,
  default_null, default_bool, default_int, default_double, default_string, BlockParameterDescriptor,
  BlockDescriptor, SchedulerDescriptor,
}
use gr4_control_plane.Domain.Session.{Session, to_string}
use gr4_control_plane.Domain.Stream.{
  BrowserStreamDescriptor, StreamRuntimePlan, to_browser_stream_descriptor,
}
use gr4_control_plane.App.BlockSettings.{BlockSettingsUpdateResult}
use gr4_control_plane.Json.{
  Json, null, bool, number, float, string, object, array, of_list, of_dict, put,
}

abbrev unless_empty : Dict String String → Option (Dict String String)
unless_empty [] = none
unless_empty (entry ∷ entries) = some (entry ∷ entries)

abbrev kind_text : BlockPortCardinalityKind → String
kind_text dynamic = "dynamic"
kind_text fixed = "fixed"

module _ {D : Type 0} where
  abbrev pub object_of : Dict String (Json D) → Json D
  object_of members = object (of_dict members)

  -- A loop that pushes back the JSON of each item.
  abbrev pub array_of : {A : Type 0} → (A → Json D) → List A → Json D
  array_of f items = array (of_list (map f items))

  unfoldable pub stream_to_json : BrowserStreamDescriptor → Json D
  stream_to_json stream = object_of (
      ("id", string stream.id)
      ∷ ("block_instance_name", string stream.block_instance_name)
      ∷ ("transport", string stream.transport)
      ∷ ("payload_format", string stream.payload_format)
      ∷ ("path", string stream.path)
      ∷ ("ready", bool stream.ready)
      ∷ [])

  unfoldable pub stream_plan_to_json : StreamRuntimePlan → Json D
  unfolding stream_to_json to_browser_stream_descriptor
  stream_plan_to_json plan =
      array_of (λ stream_plan. stream_to_json (to_browser_stream_descriptor stream_plan))
        plan.streams

  unfoldable pub block_parameter_default_to_json : BlockParameterDefault D → Json D
  block_parameter_default_to_json default_null = null
  block_parameter_default_to_json (default_bool b) = bool b
  block_parameter_default_to_json (default_int n) = number n
  block_parameter_default_to_json (default_double d) = float d
  block_parameter_default_to_json (default_string s) = string s

  unfoldable pub block_port_to_json : BlockPortDescriptor → Json D
  unfolding put
  block_port_to_json port = object_of (
      put "handle_name_template" string port.handle_name_template (
        put "size_parameter" string port.size_parameter (
          put "max_port_count" number port.max_port_count (
            put "min_port_count" number port.min_port_count (
              put "render_port_count" number port.render_port_count (
                put "current_port_count" number port.current_port_count (
                  ("name", string port.name)
                  ∷ ("type", string port.type)
                  ∷ ("cardinality_kind", string (kind_text port.cardinality_kind))
                  ∷ [])))))))

  abbrev strings_to_json : List String → Json D
  strings_to_json = array_of string

  abbrev string_map_to_json : Dict String String → Json D
  string_map_to_json entries = object_of (map (λ (key, s). (key, string s)) entries)

  unfoldable pub block_parameter_to_json : BlockParameterDescriptor D → Json D
  unfolding put block_parameter_default_to_json
  block_parameter_to_json parameter = object_of (
      put "allow_custom_value" bool parameter.allow_custom_value (
        put "ui_hint" string parameter.ui_hint (
          put "enum_source" string parameter.enum_source (
            put "enum_labels" string_map_to_json (unless_empty parameter.enum_labels) (
              put "enum_type" string parameter.enum_type (
                put "enum_choices" strings_to_json parameter.enum_choices (
                  put "value_kind" string parameter.value_kind (
                    put "runtime_mutability" string parameter.runtime_mutability (
                      ("name", string parameter.name)
                      ∷ ("type", string parameter.type)
                      ∷ ("required", bool parameter.required)
                      ∷ ("default", block_parameter_default_to_json parameter.default_value)
                      ∷ ("summary", string parameter.summary)
                      ∷ [])))))))))

  unfoldable pub block_to_json : BlockDescriptor D → Json D
  unfolding block_port_to_json block_parameter_to_json
  block_to_json block = object_of (
      ("id", string block.id)
      ∷ ("name", string block.name)
      ∷ ("category", string block.category)
      ∷ ("summary", string block.summary)
      ∷ ("inputs", array_of block_port_to_json block.inputs)
      ∷ ("outputs", array_of block_port_to_json block.outputs)
      ∷ ("parameters", array_of block_parameter_to_json block.parameters)
      ∷ [])

  unfoldable pub blocks_to_json : List (BlockDescriptor D) → Json D
  unfolding block_to_json
  blocks_to_json = array_of block_to_json

  unfoldable pub scheduler_to_json : SchedulerDescriptor → Json D
  scheduler_to_json scheduler = object_of (("id", string scheduler.id) ∷ [])

  unfoldable pub schedulers_to_json : List SchedulerDescriptor → Json D
  unfolding scheduler_to_json
  schedulers_to_json = array_of scheduler_to_json

  abbrev text_or_null : Option String → Json D
  text_or_null none = null
  text_or_null (some s) = string s

  module _ (format : ℕ → String) where
    unfoldable pub session_to_json : Session → Option StreamRuntimePlan → Json D
    unfolding put stream_plan_to_json to_string
    session_to_json session stream_plan = object_of (
        put "streams" stream_plan_to_json stream_plan (
          put "scheduler_id" string session.scheduler_alias (
            ("id", string session.id)
            ∷ ("name", string session.name)
            ∷ ("state", string (to_string session.state))
            ∷ ("created_at", string (format session.created_at))
            ∷ ("updated_at", string (format session.updated_at))
            ∷ ("last_error", text_or_null session.last_error)
            ∷ [])))

    -- The loop over the index; a session with no entry in `stream_plans` has no plan.
    unfoldable pub sessions_body : List Session → List (Option StreamRuntimePlan) → List (Json D)
    unfolding session_to_json
    sessions_body [] plans = []
    sessions_body (session ∷ sessions) [] = session_to_json session none ∷ sessions_body sessions []
    sessions_body (session ∷ sessions) (plan ∷ plans) =
        session_to_json session plan ∷ sessions_body sessions plans

    unfoldable pub sessions_to_json : List Session → List (Option StreamRuntimePlan) → Json D
    unfolding sessions_body
    sessions_to_json sessions stream_plans = array (of_list (sessions_body sessions stream_plans))

  unfoldable pub block_settings_update_to_json : BlockSettingsUpdateResult → Json D
  block_settings_update_to_json result = object_of (
      ("session_id", string result.session_id)
      ∷ ("block", string result.block)
      ∷ ("applied_via", string result.applied_via)
      ∷ ("accepted", bool result.accepted)
      ∷ [])
