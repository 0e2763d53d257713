-- ===== src/App/BlockSettings.antt =====
-- src/app/block_settings_service.cpp, over any runtime manager.
pub mod Conversion
pub mod Acceptance
pub mod Answers
pub mod Recursion
pub mod RoundTrip
use gr4_control_plane.Prelude.{
  String, ◌<>◌, if◌then◌else◌, Bool, true, Option, none, some, List, [],
}
use gr4_control_plane.Prelude.Dict.{Dict}
use gr4_control_plane.Errors.{
  Exception, not_found_error, invalid_state_error, runtime_error, timeout_error,
  block_not_found_error, reply_timeout_error, what, Result, ok, err, M, ◌>>=◌, pure, throw,
  try_catch,
}
use gr4_control_plane.Pmt.{Pmt, PmtWriter}
use gr4_control_plane.Domain.Session.{Session, is_running}
use gr4_control_plane.Storage
use gr4_control_plane.Storage.{Repository}
use gr4_control_plane.Runtime.Manager.{RuntimeManager, BlockSettingsMode, applied_via}
use gr4_control_plane.Json.{Json}
use gr4_control_plane.App.BlockSettings.Conversion.{
  Nesting, json_to_property_map, property_map_to_json,
}

pub record BlockSettingsUpdateResult : Type 0 where
  pub session_id : String
  pub block : String
  pub applied_via : String
  pub accepted : Bool

-- The handlers of `update` and `get`. `catch (const std::exception&)` lets any other value through.
unfoldable pub as_application_error : Exception → Exception
as_application_error (block_not_found_error message) = not_found_error message
as_application_error (reply_timeout_error message) = timeout_error message
as_application_error e = elim (what e) [ none ↦ e | some message ↦ runtime_error message ]

unfoldable pub load_running_session_or_throw : String → Repository → Result Session
load_running_session_or_throw session_id repository = elim (Storage.get session_id repository) [
  | none ↦ err (not_found_error ("session not found: " <> session_id))
  | some session ↦
      if is_running session.state
      then ok session
      else err (invalid_state_error ("session not running: " <> session_id))
]

module _ {PropertyMap : Type 0} (rm : RuntimeManager PropertyMap) where
  -- `repository_`, which the session service shares, and the runtime manager.
  pub record World : Type 0 where
    pub repository : Repository
    pub runtime : rm.State

  abbrev lift : {A : Type 0} → (World → Result A) → M World A
  lift f st = (f st, st)

  abbrev call : {A : Type 0} → M rm.State A → M World A
  call m st = let (r, runtime) = m st.runtime in (r, record st { runtime = runtime })

  abbrev load : String → M World Session
  load session_id = lift λ st. load_running_session_or_throw session_id st.repository

  -- A call of the runtime manager with its handlers.
  abbrev pub handled : {A : Type 0} → M rm.State A → M World A
  handled m = try_catch (call m) λ e. throw (as_application_error e)

module _ {p : Pmt} (rm : RuntimeManager (Dict String p.Value)) where
  unfoldable pub update :
      PmtWriter p
      → String
      → String
      → Json p.Double
      → BlockSettingsMode
      → M (World rm) BlockSettingsUpdateResult
  unfolding as_application_error load_running_session_or_throw json_to_property_map applied_via
  update w session_id block_unique_name patch mode = do
    session ← load rm session_id
    property_map ← lift rm λ _. json_to_property_map w patch
    _ ← handled rm (rm.set_block_settings session block_unique_name property_map mode)
    pure (record {
      session_id = session.id;
      block = block_unique_name;
      applied_via = applied_via mode;
      accepted = true;
    })

  -- The conversion stands in the `try` block too.
  abbrev read_settings : Nesting p → Session → String → M rm.State (Json p.Double)
  read_settings nesting session block_unique_name = do
    property_map ← rm.get_block_settings session block_unique_name
    λ n. (property_map_to_json nesting property_map, n)

  unfoldable pub get : Nesting p → String → String → M (World rm) (Json p.Double)
  unfolding as_application_error load_running_session_or_throw property_map_to_json
  get nesting session_id block_unique_name = do
    session ← load rm session_id
    handled rm (read_settings nesting session block_unique_name)
