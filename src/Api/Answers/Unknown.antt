-- ===== src/Api/Answers/Unknown.antt =====
-- Requests for a session that is not there.
use gr4_control_plane.Prelude.{ℕ, String, ◌<>◌, ◌≡◌, refl, none, some, List, arith, string_eq}
use gr4_control_plane.Prelude.Dict.{Dict}
use gr4_control_plane.Errors.{not_found_error, Result, ok, err, M}
use gr4_control_plane.Json.{Json}
use gr4_control_plane.Domain.Catalog.{BlockDescriptor, SchedulerDescriptor}
use gr4_control_plane.Pmt.{Pmt, PmtWriter}
use gr4_control_plane.Storage
use gr4_control_plane.Runtime.Manager.{RuntimeManager, BlockSettingsMode}
use gr4_control_plane.App.BlockSettings
use gr4_control_plane.App.BlockSettings.{load_running_session_or_throw}
use gr4_control_plane.App.BlockSettings.Conversion.{Nesting}
use gr4_control_plane.App.SessionService.{load_or_throw}
use gr4_control_plane.App.SessionService.Sections.{
  get, begin_start, begin_stop, begin_restart, begin_remove,
}
use gr4_control_plane.App.SessionService.Operations.{
  World, start, stop, restart, remove, fetch_http_stream, resolve_websocket_stream, load_if_running,
}
use gr4_control_plane.Api.Messages.{
  Libraries, Request, execute, parse_json_body, parse_settings_mode,
}
use gr4_control_plane.Api.Sessions
use gr4_control_plane.Api.Sessions.{decoded}
use gr4_control_plane.Api.Settings
use gr4_control_plane.Api.Server.{
  Route, get_healthz, get_blocks, get_schedulers, post_sessions, get_sessions, get_block,
  get_scheduler, get_stream, get_websocket, get_settings, post_settings, get_session,
  delete_session, post_start, post_stop, post_restart, Services, serve,
}
use gr4_control_plane.Api.Answers.{answer_error, handle_exception-answer}

abbrev not_found : {A : Type 0} → String → Result A
not_found id = err (not_found_error ("session not found: " <> id))

module _ {PropertyMap : Type 0} (rm : RuntimeManager PropertyMap) (id : String) (w : World rm)
    (missing : Storage.get id w.service.repository ≡ none) where
  get-missing : get id w.service ≡ (not_found id, w.service)
  unfolding get load_or_throw
  get-missing = rw missing refl

  start-missing : (now : ℕ) → start rm id now w ≡ (not_found id, w)
  unfolding start begin_start load_or_throw
  start-missing now = ground (arith, missing)

  stop-missing : (now : ℕ) → stop rm id now w ≡ (not_found id, w)
  unfolding stop begin_stop load_or_throw
  stop-missing now = ground (arith, missing)

  restart-missing : (now : ℕ) → restart rm id now w ≡ (not_found id, w)
  unfolding restart begin_restart load_or_throw
  restart-missing now = ground (arith, missing)

  remove-missing : (now : ℕ) → remove rm id now w ≡ (not_found id, w)
  unfolding remove begin_remove load_or_throw
  remove-missing now = ground (arith, missing)

  fetch-missing : (stream_id : String) → fetch_http_stream rm id stream_id w ≡ (not_found id, w)
  unfolding fetch_http_stream load_if_running load_or_throw
  fetch-missing stream_id = ground (arith, missing)

  route-missing :
      (stream_id : String) → resolve_websocket_stream rm id stream_id w ≡ (not_found id, w)
  unfolding resolve_websocket_stream load_if_running load_or_throw
  route-missing stream_id = ground (arith, missing)

-- The session that a route's pattern names.
abbrev pub id_of : Route → String
id_of (get_session id) = id
id_of (delete_session id) = id
id_of (post_start id) = id
id_of (post_stop id) = id
id_of (post_restart id) = id
id_of (get_stream id _) = id
id_of (get_websocket id _) = id
id_of (get_settings id _) = id
id_of (post_settings id _) = id
id_of _ = ""

module _ {D : Type 0} (lib : Libraries D) where
  abbrev pub IsDecoded : List ℕ → Type 0
  IsDecoded encoded = (name : String) × (decoded lib encoded ≡ ok name)

  -- A route of one session, in a request whose other parts can be read.
  abbrev pub IsAboutSession : Request → Route → Type 0
  IsAboutSession request (get_session id) = Unit {0}
  IsAboutSession request (delete_session id) = Unit {0}
  IsAboutSession request (post_start id) = Unit {0}
  IsAboutSession request (post_stop id) = Unit {0}
  IsAboutSession request (post_restart id) = Unit {0}
  IsAboutSession request (get_stream id encoded) = IsDecoded encoded
  IsAboutSession request (get_websocket id encoded) = IsDecoded encoded
  IsAboutSession request (get_settings id encoded) = IsDecoded encoded
  IsAboutSession request (post_settings id encoded) =
      IsDecoded encoded
      × ((body : Json D) × (parse_json_body lib request ≡ ok body))
      × ((mode : BlockSettingsMode) × (parse_settings_mode request ≡ ok mode))
  IsAboutSession request _ = ⊥

module _ {p : Pmt} (rm : RuntimeManager (Dict String p.Value)) (id : String)
    (w : BlockSettings.World rm) (missing : Storage.get id w.repository ≡ none) where
  update-missing :
      (writer : PmtWriter p) (name : String) (patch : Json p.Double) (mode : BlockSettingsMode)
      → BlockSettings.update rm writer id name patch mode w ≡ (not_found id, w)
  unfolding BlockSettings.update load_running_session_or_throw
  update-missing writer name patch mode = ground (arith, missing)

  settings-missing :
      (nesting : Nesting p) (name : String)
      → BlockSettings.get rm nesting id name w ≡ (not_found id, w)
  unfolding BlockSettings.get load_running_session_or_throw
  settings-missing nesting name = ground (arith, missing)

module _ {p : Pmt} (rm : RuntimeManager (Dict String p.Value)) (lib : Libraries p.Double)
    (dump : Json p.Double → String) (dumps : (j : Json p.Double) → lib.dump j ≡ ok (dump j))
    (w : PmtWriter p) (nesting : Nesting p) {PB PS : Type 0}
    (provide_blocks : M PB (List (BlockDescriptor p.Double)))
    (provide_schedulers : M PS (List SchedulerDescriptor)) where
  -- Each request about one session, if its other parts can be read, is answered 404, as not found and with
  -- the session's id, where that session is not stored, and it changes nothing.
  pub serve-unknown :
      (route : Route) (request : Request) (draws : List String) (now : ℕ)
      (st : Services rm lib w nesting provide_blocks provide_schedulers)
      → IsAboutSession lib request route
      → Storage.get (id_of route) st.sessions.service.repository ≡ none
      → serve rm lib w nesting provide_blocks provide_schedulers route request draws now st
        ≡ some (
          ok (answer_error lib dump dumps (not_found_error ("session not found: " <> id_of route))),
          st,
        )
  unfolding serve Sessions.get_stream Sessions.get_websocket Sessions.get_session
      Sessions.delete_session Sessions.post_start Sessions.post_stop Sessions.post_restart
      Settings.post_settings Settings.get_settings execute
  serve-unknown (get_session id) request draws now st h m =
      rw (get-missing rm id st.sessions m, handle_exception-answer lib dump dumps, serve) refl
  serve-unknown (delete_session id) request draws now st h m =
      rw (remove-missing rm id st.sessions m now, handle_exception-answer lib dump dumps, serve)
        refl
  serve-unknown (post_start id) request draws now st h m =
      rw (start-missing rm id st.sessions m now, handle_exception-answer lib dump dumps, serve) refl
  serve-unknown (post_stop id) request draws now st h m =
      rw (stop-missing rm id st.sessions m now, handle_exception-answer lib dump dumps, serve) refl
  serve-unknown (post_restart id) request draws now st h m =
      rw (restart-missing rm id st.sessions m now, handle_exception-answer lib dump dumps, serve)
        refl
  serve-unknown (get_stream id b) request draws now st (name, h) m =
      rw (h, fetch-missing rm id st.sessions m name, handle_exception-answer lib dump dumps, serve)
        refl
  serve-unknown (get_websocket id b) request draws now st (name, h) m =
      rw (h, route-missing rm id st.sessions m name, handle_exception-answer lib dump dumps, serve)
        refl
  serve-unknown (get_settings id b) request draws now st (name, h) m =
      rw
        (
          h,
          settings-missing rm id
              (record {
                repository = st.sessions.service.repository;
                runtime = st.sessions.runtime;
              })
              m nesting name,
          handle_exception-answer lib dump dumps,
          serve,
        )
        refl
  serve-unknown (post_settings id b) request draws now st ((name, h), (body, k), (mode, q)) m =
      rw
        (
          h,
          k,
          q,
          update-missing rm id
              (record {
                repository = st.sessions.service.repository;
                runtime = st.sessions.runtime;
              })
              m w name body mode,
          handle_exception-answer lib dump dumps,
          serve,
        )
        refl
  serve-unknown get_healthz request draws now st h m = absurd h
  serve-unknown get_blocks request draws now st h m = absurd h
  serve-unknown get_schedulers request draws now st h m = absurd h
  serve-unknown post_sessions request draws now st h m = absurd h
  serve-unknown get_sessions request draws now st h m = absurd h
  serve-unknown (get_block id) request draws now st h m = absurd h
  serve-unknown (get_scheduler id) request draws now st h m = absurd h
