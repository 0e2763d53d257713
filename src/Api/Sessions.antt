-- ===== src/Api/Sessions.antt =====
-- The handlers of the routes under `/sessions` in src/api/http_server.cpp, over any runtime manager, by
-- what the routes' patterns match. An argument's `now` and `draws` are the clock and the drawn ids.
use gr4_control_plane.Prelude.{ℕ, String, if◌then◌else◌, Option, none, some, List, [], ◌∷◌}
use gr4_control_plane.Errors.{Result, ok, err, then_ok, M, ◌>>=◌, ◌>>◌, pure, throw, of_result}
use gr4_control_plane.Domain.Session.{Session}
use gr4_control_plane.Domain.Stream.{StreamRuntimePlan}
use gr4_control_plane.Runtime.Manager.{RuntimeManager}
use gr4_control_plane.App.SessionService.{Service}
use gr4_control_plane.App.SessionService.Sections.{create, get}
use gr4_control_plane.App.SessionService.Listing
use gr4_control_plane.App.SessionService.Operations.{
  World, locked, start, stop, restart, remove, active_stream_plan, fetch_http_stream,
  resolve_websocket_stream,
}
use gr4_control_plane.Api.Targets.{decode_percent_encoded}
use gr4_control_plane.Api.Render.{session_to_json, sessions_to_json}
use gr4_control_plane.Api.Messages.{
  Libraries, Request, Response, set_error_response, respond, execute, parse_json_body,
  set_no_content_response, set_http_stream_response, is_websocket_upgrade_request, get_required_grc,
  get_optional_name, get_optional_scheduler_id,
}

-- The body of `POST /sessions`, read.
pub record NewSession : Type 0 where
  pub name : String
  pub grc : String
  pub scheduler_id : Option String

module _ {D : Type 0} (lib : Libraries D) where
  -- The arguments of `create`. C++ leaves open in which order they are computed, and so which of
  -- several exceptions is thrown; here it is from left to right.
  unfoldable pub read_new_session : Request → Result NewSession
  read_new_session request = then_ok (parse_json_body lib request) λ body.
      then_ok (get_optional_name body) λ name. then_ok (get_required_grc body) λ grc.
        then_ok (get_optional_scheduler_id body)
          λ scheduler_id. ok (record { name = name; grc = grc; scheduler_id = scheduler_id })

  unfoldable pub decoded : List ℕ → Result String
  decoded encoded = then_ok (decode_percent_encoded encoded) λ bytes. ok (lib.text bytes)

module _ {PropertyMap D : Type 0} (rm : RuntimeManager PropertyMap) (lib : Libraries D) where
  abbrev pub show_session : Session → Option StreamRuntimePlan → ℕ → M (World rm) Response
  show_session session plan status =
      respond lib (session_to_json lib.format_timestamp session plan) status

  abbrev pub answer_created : Result Session × Service → M (World rm) Response
  answer_created (r, service) w =
      ((λ _. (r, record w { service = service })) >>= λ session. show_session session none 201) w

  -- `none` while the loop for a free id still runs.
  unfoldable pub post_sessions :
      Request → List String → ℕ → World rm → Option (Result Response × World rm)
  post_sessions request draws now w = elim (read_new_session lib request) [
    | err e ↦ some (execute lib (throw e) w)
    | ok body ↦ elim (create body.name body.grc body.scheduler_id draws now w.service) [
      | none ↦ none
      | some created ↦ some (execute lib (answer_created created) w)
    ]
  ]

  -- The loop over the sessions of the answer.
  unfoldable pub active_stream_plans : List Session → M (World rm) (List (Option StreamRuntimePlan))
  active_stream_plans [] = pure []
  active_stream_plans (session ∷ sessions) = do
    plan ← active_stream_plan rm session.id
    plans ← active_stream_plans sessions
    pure (plan ∷ plans)

  unfoldable pub get_sessions : M (World rm) Response
  get_sessions = execute lib (do
    sessions ← λ w. (ok (Listing.list w.service), w)
    stream_plans ← active_stream_plans sessions
    respond lib (sessions_to_json lib.format_timestamp sessions stream_plans) 200)

  unfoldable pub get_stream : String → List ℕ → M (World rm) Response
  get_stream id encoded = execute lib (do
    stream_id ← of_result (decoded lib encoded)
    response ← fetch_http_stream rm id stream_id
    pure (set_http_stream_response response))

  abbrev upgrade_required : Response
  upgrade_required = record {
    status = 426;
    body = "";
    content_type = some "text/plain";
    headers = ("Upgrade", "websocket") ∷ ("Connection", "Upgrade") ∷ [];
  }

  abbrev not_implemented : Result Response
  not_implemented =
      set_error_response lib 501 "not_implemented"
        "websocket proxy upgrade is not implemented on the current server stack"

  unfoldable pub get_websocket : Request → String → List ℕ → M (World rm) Response
  get_websocket request id encoded = execute lib (do
    stream_id ← of_result (decoded lib encoded)
    _ ← resolve_websocket_stream rm id stream_id
    of_result
        (if is_websocket_upgrade_request request then not_implemented else ok upgrade_required))

  unfoldable pub get_session : String → M (World rm) Response
  get_session id = execute lib (do
    session ← locked rm (get id)
    plan ← active_stream_plan rm session.id
    show_session session plan 200)

  unfoldable pub delete_session : String → ℕ → M (World rm) Response
  delete_session id now = execute lib (do remove rm id now; pure set_no_content_response)

  unfoldable pub post_start : String → ℕ → M (World rm) Response
  post_start id now = execute lib (do session ← start rm id now; show_session session none 200)

  unfoldable pub post_stop : String → ℕ → M (World rm) Response
  post_stop id now = execute lib (do session ← stop rm id now; show_session session none 200)

  unfoldable pub post_restart : String → ℕ → M (World rm) Response
  post_restart id now = execute lib (do session ← restart rm id now; show_session session none 200)
