-- ===== src/Domain/Stream/Normalize.antt =====
-- src/domain/session_stream.cpp: what a block of the authored graph says of its stream.
use gr4_control_plane.Prelude.{
  String, ◌==◌, string_eq, if◌then◌else◌, Bool, true, false, not, ◌&&◌, ◌||◌, Option, none, some,
  [], ◌∷◌,
}
use gr4_control_plane.Prelude.Dict.{Dict, lookup, insert}
use gr4_control_plane.Pmt.{Pmt, as_string, as_map}

abbrev pub has_value : Option String → Bool
has_value none = false
has_value (some _) = true

-- `value.has_value() && !value->empty()`
abbrev pub has_text : Option String → Bool
has_text none = false
has_text (some s) = not (s == "")

abbrev pub value_or : String → Option String → String
value_or d none = d
value_or d (some s) = s

abbrev pub or_else : Option String → Option String → Option String
or_else none b = b
or_else (some s) b = some s

pub record AuthoredStreamIntent : Type 0 where
  pub declared : Bool
  pub stream_id : Option String
  pub transport : Option String
  pub payload_format : Option String

pub record NormalizedBlock : Type 0 where
  pub block_type_id : String
  pub instance_name : String
  pub stream : AuthoredStreamIntent

module _ (p : Pmt) where
  abbrev pub PropertyMap : Type 0
  PropertyMap = Dict String p.Value

  unfoldable pub value_to_string : p.Value → Option String
  value_to_string v = as_string (p.visit v)

  unfoldable pub value_to_property_map : p.Value → Option PropertyMap
  value_to_property_map v = as_map (p.visit v)

  string_of : Option p.Value → Option String
  unfolding value_to_string
  string_of none = none
  string_of (some v) = value_to_string v

  unfoldable pub parameter_string : PropertyMap → String → Option String
  unfolding string_of
  parameter_string parameters key = string_of (lookup key parameters)

  abbrev intent_of_map : Option PropertyMap → AuthoredStreamIntent
  intent_of_map none = record {
    declared = true;
    stream_id = none;
    transport = none;
    payload_format = none;
  }
  intent_of_map (some stream) = record {
    declared = true;
    stream_id = parameter_string stream "id";
    transport = parameter_string stream "transport";
    payload_format = parameter_string stream "payload_format";
  }

  abbrev intent_of_flat : PropertyMap → AuthoredStreamIntent
  intent_of_flat parameters =
      let stream_id = parameter_string parameters "stream_id" in
      let transport = parameter_string parameters "transport" in
      let payload_format = parameter_string parameters "payload_format" in
      record {
        declared = has_value stream_id || has_value transport || has_value payload_format;
        stream_id = stream_id;
        transport = transport;
        payload_format = payload_format;
      }

  unfoldable pub normalize_stream_intent : PropertyMap → AuthoredStreamIntent
  unfolding parameter_string value_to_property_map
  normalize_stream_intent parameters = elim (lookup "stream" parameters) [
    | some stream ↦ intent_of_map (value_to_property_map stream)
    | none ↦ intent_of_flat parameters
  ]

  -- `parameters.contains(key)`
  abbrev pub has_key : Option p.Value → Bool
  has_key none = false
  has_key (some _) = true

  -- The entries of the second map whose keys the first one lacks.
  unfoldable pub add_missing : PropertyMap → PropertyMap → PropertyMap
  add_missing parameters [] = parameters
  add_missing parameters ((key, value) ∷ raw) =
      add_missing
        (if has_key (lookup key parameters) then parameters else insert key value parameters) raw

  -- The map under a key, empty if there is none.
  abbrev map_at : PropertyMap → String → PropertyMap
  map_at block key = elim (lookup key block) [
    | none ↦ []
    | some v ↦ elim (as_map (p.visit v)) [ none ↦ [] | some m ↦ m ]
  ]

  unfoldable pub merged_parameters : PropertyMap → PropertyMap
  unfolding add_missing
  merged_parameters block = add_missing (map_at block "parameters") (map_at block "raw_parameters")

  unfoldable pub block_type_of : PropertyMap → Option String
  unfolding parameter_string
  block_type_of block =
      or_else (or_else (parameter_string block "block") (parameter_string block "id"))
        (parameter_string block "block_type")

  -- The loop over the two candidate keys. A candidate that is found replaces the name, even by nothing.
  abbrev candidate : PropertyMap → String → Option String → Option String
  candidate block key name =
      if has_text name
      then name
      else if has_key (lookup key block)
      then parameter_string block key
      else name

  unfoldable pub instance_name_of : PropertyMap → PropertyMap → Option String
  unfolding parameter_string
  instance_name_of block parameters =
      let named = parameter_string parameters "name" in
      let studio_node_id = parameter_string block "id" in
      let given =
        if not (has_text named) && has_text studio_node_id && has_key (lookup "block" block)
        then studio_node_id
        else named in
      candidate block "name" (candidate block "instance_name" given)

  unfoldable pub normalize_stream_block : PropertyMap → Option NormalizedBlock
  unfolding block_type_of merged_parameters instance_name_of normalize_stream_intent
  normalize_stream_block block =
      if has_text (block_type_of block)
      then some (record {
        block_type_id = value_or "" (block_type_of block);
        instance_name = value_or "" (instance_name_of block (merged_parameters block));
        stream = normalize_stream_intent (merged_parameters block);
      })
      else none
