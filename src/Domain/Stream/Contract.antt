-- ===== src/Domain/Stream/Contract.antt =====
-- src/domain/session_stream.cpp: the managed-stream contract of a graph and the plan derived from it.
use gr4_control_plane.Prelude.{
  String, ◌<>◌, ◌==◌, string_eq, if◌then◌else◌, contains, Bool, true, not, Option, none, some, List,
  [], ◌∷◌, ◌++◌,
}
use gr4_control_plane.Prelude.Dict.{Dict, lookup}
use gr4_control_plane.Pmt.{Pmt, as_map, as_tensor}
use gr4_control_plane.Domain.Session.{Session}
use gr4_control_plane.Domain.Stream.{RuntimeStreamBindingPlan, StreamRuntimePlan}
use gr4_control_plane.Domain.Stream.Normalize.{
  NormalizedBlock, normalize_stream_block, has_text, value_or,
}

abbrev pub supported_transports : List String
supported_transports = "http_snapshot" ∷ "http_poll" ∷ "websocket" ∷ []

unfoldable pub transport_supported : String → Bool
transport_supported transport = contains supported_transports transport

unfoldable pub make_stream_path : String → String → String → String
make_stream_path session_id stream_id transport =
    if transport == "websocket"
    then "/sessions/" <> session_id <> "/streams/" <> stream_id <> "/ws"
    else "/sessions/" <> session_id <> "/streams/" <> stream_id <> "/http"

-- The authored id, or the block's name.
unfoldable pub stream_id_of : NormalizedBlock → String
stream_id_of block =
    if has_text block.stream.stream_id
    then value_or "" block.stream.stream_id
    else block.instance_name

-- The error, and `seen_stream_ids` after the call.
unfoldable pub validate_stream_block : NormalizedBlock → List String → Option String × List String
unfolding transport_supported stream_id_of
validate_stream_block block seen =
    let stream_id = stream_id_of block in
    let transport = value_or "" block.stream.transport in
    if not block.stream.declared
    then (none, seen)
    else if block.instance_name == ""
    then (some ("managed stream block is missing instance name: " <> block.block_type_id), seen)
    else if stream_id == ""
    then (some ("managed stream id is missing: " <> block.block_type_id), seen)
    else if not (has_text block.stream.transport)
    then (some ("managed stream block is missing transport: " <> block.block_type_id), seen)
    else if not (transport_supported transport)
    then (some ("managed stream transport is not supported: " <> transport), seen)
    else if not (has_text block.stream.payload_format)
    then (some ("managed stream block is missing payload_format: " <> block.block_type_id), seen)
    else if contains seen stream_id
    then (some ("managed stream id is duplicated: " <> stream_id), seen)
    else (none, stream_id ∷ seen)

unfoldable pub plan_of : String → NormalizedBlock → RuntimeStreamBindingPlan
plan_of session_id block = record {
  stream_id = stream_id_of block;
  block_instance_name = block.instance_name;
  transport = value_or "" block.stream.transport;
  payload_format = value_or "" block.stream.payload_format;
  path = make_stream_path session_id (stream_id_of block) (value_or "" block.stream.transport);
  ready = true;
}

module _ (p : Pmt) where
  abbrev if_declared : Option NormalizedBlock → Option NormalizedBlock
  if_declared none = none
  if_declared (some block) = if block.stream.declared then some block else none

  abbrev normalized : Option (Dict String p.Value) → Option NormalizedBlock
  normalized none = none
  normalized (some block) = if_declared (normalize_stream_block p block)

  -- The block that an iteration goes on with; `none` where it says `continue`.
  unfoldable pub declared_block : p.Value → Option NormalizedBlock
  declared_block value = normalized (as_map (p.visit value))

  -- The `blocks` of the graph; `none` where the function returns before its loop.
  abbrev blocks_in : Option (Dict String p.Value) → Option (List p.Value)
  blocks_in none = none
  blocks_in (some root) = elim (lookup "blocks" root) [
    | none ↦ none
    | some blocks ↦ as_tensor (p.visit blocks)
  ]

  unfoldable pub graph_blocks : Session → Option (List p.Value)
  graph_blocks session = blocks_in (p.deserialize session.grc_content)

  -- The loop of `derive_stream_runtime_plan`; `none` where it returns `nullopt`.
  unfoldable pub derive_streams :
      String
      → List p.Value
      → List String
      → List RuntimeStreamBindingPlan
      → Option (List RuntimeStreamBindingPlan)
  derive_streams session_id [] seen streams = some streams
  derive_streams session_id (value ∷ values) seen streams = elim (declared_block value) [
    | none ↦ derive_streams session_id values seen streams
    | some block ↦
        let (error, seen') = validate_stream_block block seen in
        let rest =
          derive_streams session_id values seen' (streams ++ (plan_of session_id block ∷ [])) in
        elim error [ some _ ↦ none | none ↦ rest ]
  ]

  abbrev plan_unless_empty : Option (List RuntimeStreamBindingPlan) → Option StreamRuntimePlan
  plan_unless_empty none = none
  plan_unless_empty (some []) = none
  plan_unless_empty (some (s ∷ ss)) = some (record { streams = s ∷ ss })

  unfoldable pub derive_stream_runtime_plan : Session → Option StreamRuntimePlan
  unfolding graph_blocks
  derive_stream_runtime_plan session = elim (graph_blocks session) [
    | none ↦ none
    | some values ↦ plan_unless_empty (derive_streams session.id values [] [])
  ]

  -- The loop of `validate_stream_runtime_contract`.
  unfoldable pub validate_blocks : List p.Value → List String → Option String
  validate_blocks [] seen = none
  validate_blocks (value ∷ values) seen = elim (declared_block value) [
    | none ↦ validate_blocks values seen
    | some block ↦
        let (error, seen') = validate_stream_block block seen in
        let rest = validate_blocks values seen' in
        elim error [ some message ↦ some message | none ↦ rest ]
  ]

  unfoldable pub validate_stream_runtime_contract : Session → Option String
  unfolding graph_blocks
  validate_stream_runtime_contract session = elim (graph_blocks session) [
    | none ↦ none
    | some values ↦ validate_blocks values []
  ]

  unfoldable pub derive_stream_runtime_plans : List Session → List (Option StreamRuntimePlan)
  derive_stream_runtime_plans [] = []
  derive_stream_runtime_plans (session ∷ sessions) =
      derive_stream_runtime_plan session ∷ derive_stream_runtime_plans sessions
