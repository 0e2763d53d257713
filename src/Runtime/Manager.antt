-- ===== src/Runtime/Manager.antt =====
-- include/gr4cp/runtime/runtime_manager.hpp: the interface that the services use. An
-- implementation is a type of states and one function for each virtual method.
use gr4_control_plane.Prelude.{ℕ, String, Option}
use gr4_control_plane.Errors.{M}
use gr4_control_plane.Domain.Session.{Session}
use gr4_control_plane.Domain.Stream.{StreamRuntimePlan, InternalStreamBinding}

pub record HttpStreamResponse : Type 0 where
  pub status : ℕ
  pub body : String
  pub content_type : String

pub record WebSocketStreamRoute : Type 0 where
  pub internal : InternalStreamBinding

-- include/gr4cp/runtime/block_settings.hpp
pub data BlockSettingsMode : Type 0 where
  staged immediate : BlockSettingsMode

unfoldable pub applied_via : BlockSettingsMode → String
applied_via staged = "staged_settings"
applied_via immediate = "settings"

-- `PropertyMap` is GNU Radio's `gr::property_map`.
pub record RuntimeManager (PropertyMap : Type 0) : Type 1 where
  pub State : Type 0
  pub prepare : Session → M State (Unit {0})
  pub start : Session → M State (Unit {0})
  pub stop : Session → M State (Unit {0})
  pub destroy : Session → M State (Unit {0})
  pub active_stream_plan : Session → M State (Option StreamRuntimePlan)
  pub fetch_http_stream : Session → String → M State HttpStreamResponse
  pub resolve_websocket_stream : Session → String → M State WebSocketStreamRoute
  pub set_block_settings : Session → String → PropertyMap → BlockSettingsMode → M State (Unit {0})
  pub get_block_settings : Session → String → M State PropertyMap
