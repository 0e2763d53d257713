-- ===== src/Api/Settings.antt =====
-- The handlers of the routes of block settings in src/api/http_server.cpp.
use gr4_control_plane.Prelude.{ℕ, String, List, [], ◌∷◌}
use gr4_control_plane.Prelude.Dict.{Dict}
use gr4_control_plane.Errors.{M, ◌>>=◌, of_result}
use gr4_control_plane.Pmt.{Pmt, PmtWriter}
use gr4_control_plane.Runtime.Manager.{RuntimeManager}
use gr4_control_plane.App.BlockSettings
use gr4_control_plane.App.BlockSettings.{World}
use gr4_control_plane.App.BlockSettings.Conversion.{Nesting}
use gr4_control_plane.Api.Render.{object_of, block_settings_update_to_json}
use gr4_control_plane.Api.Messages.{
  Libraries, Request, Response, respond, execute, parse_json_body, parse_settings_mode,
}
use gr4_control_plane.Api.Sessions.{decoded}

module _ {p : Pmt} (rm : RuntimeManager (Dict String p.Value)) (lib : Libraries p.Double) where
  -- The body is read before the mode, which C++ leaves open.
  unfoldable pub post_settings : PmtWriter p → Request → String → List ℕ → M (World rm) Response
  post_settings w request session_id encoded = execute lib (do
    block_unique_name ← of_result (decoded lib encoded)
    patch ← of_result (parse_json_body lib request)
    mode ← of_result (parse_settings_mode request)
    result ← BlockSettings.update rm w session_id block_unique_name patch mode
    respond lib (block_settings_update_to_json result) 200)

  unfoldable pub get_settings : Nesting p → String → List ℕ → M (World rm) Response
  get_settings nesting session_id encoded = execute lib (do
    block_unique_name ← of_result (decoded lib encoded)
    settings ← BlockSettings.get rm nesting session_id block_unique_name
    respond lib (object_of (("settings", settings) ∷ [])) 200)
