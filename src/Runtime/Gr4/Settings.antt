-- ===== src/Runtime/Gr4/Settings.antt =====
-- The settings of blocks of a running session in src/runtime/gr4_runtime_manager.cpp. The request to a
-- block, with its wait for the reply, is GNU Radio's.
use gr4_control_plane.Prelude.{
  String, ◌<>◌, ◌==◌, string_eq, if◌then◌else◌, Bool, false, not, ◌&&◌, Option, none, some, List,
  [], ◌∷◌,
}
use gr4_control_plane.Prelude.Dict.{Dict}
use gr4_control_plane.Errors.{
  Exception, std_exception, block_not_found_error, reply_timeout_error, what, Result, ok, err, M,
  ◌>>=◌, pure, throw, try_catch,
}
use gr4_control_plane.Pmt.{Pmt}
use gr4_control_plane.Domain.Session.{Session}
use gr4_control_plane.Domain.Stream.Normalize.{parameter_string}
use gr4_control_plane.Runtime.Manager.{BlockSettingsMode, staged, immediate}
use gr4_control_plane.Runtime.Gr4.{
  BlockModel, Reply, replied, refused, SettingsCommand, set, get, GnuRadio, Execution,
  SessionRuntimeResources, Gr4RuntimeManager,
}
use gr4_control_plane.Runtime.Gr4.Steps.{runtime_failure}
use gr4_control_plane.Runtime.Gr4.Streams.{active_resources}

module _ (p : Pmt) where
  abbrev settings_name : BlockModel p → Option String
  settings_name block = parameter_string p block.settings "name"

  abbrev part : String → String → String → Bool → String
  part before text after shown = if shown then before <> text <> after else ""

  abbrev described_name : Option String → BlockModel p → String
  described_name none block = ""
  described_name (some name) block =
      part " [settings.name=" name "]"
        (not (name == "") && not (name == block.unique_name) && not (name == block.name))

  unfoldable pub describe_runtime_block : BlockModel p → String
  unfolding parameter_string
  describe_runtime_block block =
      block.unique_name
      <> part " (name=" block.name ")"
          (not (block.name == "") && not (block.name == block.unique_name))
      <> part " [type=" block.type_name "]" (not (block.type_name == ""))
      <> described_name (settings_name block) block

  abbrev summarize_from : BlockModel p → List (BlockModel p) → String
  summarize_from block [] = describe_runtime_block block
  summarize_from block (next ∷ blocks) =
      describe_runtime_block block <> ", " <> summarize_from next blocks

  unfoldable pub summarize_runtime_blocks : List (BlockModel p) → String
  unfolding describe_runtime_block
  summarize_runtime_blocks [] = "<none>"
  summarize_runtime_blocks (block ∷ blocks) = summarize_from block blocks

  abbrev find_block : (BlockModel p → Bool) → List (BlockModel p) → Option (BlockModel p)
  find_block test [] = none
  find_block test (block ∷ blocks) = if test block then some block else find_block test blocks

  abbrev or_block : Option (BlockModel p) → Option (BlockModel p) → Option (BlockModel p)
  or_block (some block) other = some block
  or_block none other = other

  abbrev is_text : String → Option String → Bool
  is_text s none = false
  is_text s (some t) = t == s

  -- The three loops: by name, by unique name, and by the name in the settings.
  unfoldable pub resolve_runtime_block : List (BlockModel p) → String → Option (BlockModel p)
  unfolding parameter_string
  resolve_runtime_block blocks target =
      or_block (find_block (λ block. block.name == target) blocks) (
        or_block (find_block (λ block. block.unique_name == target) blocks)
          (find_block (λ block. is_text target (settings_name block)) blocks))

  -- `parse_settings_reply`
  unfoldable pub parse_settings_reply : String → String → Reply p → Result (Dict String p.Value)
  parse_settings_reply block endpoint (replied values) = ok values
  parse_settings_reply block endpoint (refused message) = err (
      std_exception
        ("runtime returned error for block " <> block <> " " <> endpoint <> ": " <> message))

-- The handlers around a request.
abbrev pub settings_failure : Session → String → Exception → Exception
settings_failure session phase (block_not_found_error m) = block_not_found_error m
settings_failure session phase (reply_timeout_error m) = reply_timeout_error m
settings_failure session phase e = elim (what e) [
  | none ↦ e
  | some detail ↦ runtime_failure session phase detail
]

module _ {p : Pmt} (g : GnuRadio p) where
  abbrev in_gnuradio : {A : Type 0} → M g.State A → M (Gr4RuntimeManager g) A
  in_gnuradio m rm =
      let (r, n) = m rm.shared.gnuradio in
      (r, record rm { shared = record rm.shared { gnuradio = n } })

  abbrev request_to :
      Session
      → String
      → Execution g
      → SettingsCommand
      → String
      → Dict String p.Value
      → BlockModel p
      → M (Gr4RuntimeManager g) (Dict String p.Value)
  request_to session phase execution command endpoint payload block =
      try_catch
        (in_gnuradio (do
          reply ← g.request execution.scheduler command block.unique_name endpoint payload
          λ n. (parse_settings_reply p block.unique_name endpoint reply, n)))
        (λ e. throw (settings_failure session phase e))

  abbrev request_found :
      Session
      → String
      → String
      → Execution g
      → SettingsCommand
      → String
      → Dict String p.Value
      → Option (List (BlockModel p))
      → M (Gr4RuntimeManager g) (Dict String p.Value)
  request_found session phase target execution command endpoint payload none =
      throw (runtime_failure session phase "scheduler does not expose a runtime block model")
  request_found session phase target execution command endpoint payload (some blocks) =
      elim (resolve_runtime_block p blocks target) [
        | none ↦ throw (
            block_not_found_error (
              "block not found in running session: "
              <> target
              <> "; available runtime blocks: "
              <> summarize_runtime_blocks p blocks))
        | some block ↦ request_to session phase execution command endpoint payload block
      ]

  abbrev request_active :
      Session
      → String
      → String
      → SettingsCommand
      → String
      → Dict String p.Value
      → Option (SessionRuntimeResources g)
      → M (Gr4RuntimeManager g) (Dict String p.Value)
  request_active session phase target command endpoint payload none rm =
      (err (runtime_failure session phase "session runtime is not running"), rm)
  request_active session phase target command endpoint payload (some r) rm = elim r.execution [
    | none ↦ (err (runtime_failure session phase "session runtime is not running"), rm)
    | some execution ↦
        request_found session phase target execution command endpoint payload
          (g.runtime_blocks execution.scheduler rm.shared.gnuradio) rm
  ]

  -- What `set_block_settings` and `get_block_settings` share.
  unfoldable pub block_settings :
      Session
      → String
      → String
      → SettingsCommand
      → String
      → Dict String p.Value
      → M (Gr4RuntimeManager g) (Dict String p.Value)
  unfolding active_resources resolve_runtime_block summarize_runtime_blocks parse_settings_reply
  block_settings session phase target command endpoint payload rm =
      request_active session phase target command endpoint payload
        (active_resources g session.id rm) rm

  abbrev endpoint_of : BlockSettingsMode → String
  endpoint_of staged = g.staged_setting_endpoint
  endpoint_of immediate = g.setting_endpoint

  unfoldable pub set_block_settings :
      Session
      → String
      → Dict String p.Value
      → BlockSettingsMode
      → M (Gr4RuntimeManager g) (Unit {0})
  unfolding block_settings
  set_block_settings session target patch mode = do
    _ ← block_settings session "settings update" target set (endpoint_of mode) patch
    pure tt

  unfoldable pub get_block_settings :
      Session → String → M (Gr4RuntimeManager g) (Dict String p.Value)
  unfolding block_settings
  get_block_settings session target =
      block_settings session "settings read" target get g.setting_endpoint []
