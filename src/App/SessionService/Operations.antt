-- ===== src/App/SessionService/Operations.antt =====
-- The public methods of src/app/session_service.cpp, over any runtime manager.
use gr4_control_plane.Prelude.{
  ℕ, zero, suc, String, ◌<>◌, ◌==◌, string_eq, nat_eq, Bool, true, false, not, ◌&&◌, Option, none,
  some,
}
use gr4_control_plane.Errors.{
  Exception, invalid_state_error, runtime_error, what, M, ◌>>=◌, ◌>>◌, pure, throw, try_catch,
}
use gr4_control_plane.Domain.Session.{Session, SessionState, is_running}
use gr4_control_plane.Domain.Stream.{StreamRuntimePlan}
use gr4_control_plane.Runtime.Manager.{RuntimeManager, HttpStreamResponse, WebSocketStreamRoute}
use gr4_control_plane.App.SessionService.{
  Service, is_running_phase, phase_for_locked, load_or_throw, record_runtime_failure,
  runtime_message,
}
use gr4_control_plane.App.SessionService.Sections.{
  begin_start, Entry, return_now, go_on, begin_stop, begin_restart, begin_remove, finish_running,
  finish_stop, finish_remove,
}
use text.Mathlib.Text.{find?}

abbrev is_some {ℓ} : {A : Type ℓ} → Option A → Bool
is_some none = false
is_some (some _) = true

unfoldable pub is_transient_http_stream_connect_error : String → Bool
is_transient_http_stream_connect_error message =
    is_some (find? message "failed to reach internal HTTP stream endpoint")

abbrev pub stopped_copy : Session → Session
stopped_copy s = record s { state = SessionState.stopped }

abbrev when {ℓ} : {A : Type ℓ} → Bool → A → Option A
when true a = some a
when false a = none

module _ {PropertyMap : Type 0} (rm : RuntimeManager PropertyMap) where
  pub record World : Type 0 where
    pub service : Service
    pub runtime : rm.State

  -- What holds the mutex, and a call of the runtime manager.
  abbrev pub locked : {A : Type 0} → M Service A → M World A
  locked m w = let (r, service) = m w.service in (r, record w { service = service })

  abbrev pub call : {A : Type 0} → M rm.State A → M World A
  call m w = let (r, runtime) = m w.runtime in (r, record w { runtime = runtime })

  -- The `try` block around the calls of the runtime, with both of its handlers.
  abbrev recording_failure :
      String → String → Session → ℕ → M rm.State (Unit {0}) → M World (Unit {0})
  recording_failure action id session now calls =
      try_catch (call calls)
        λ e. locked (record_runtime_failure session (runtime_message action id e) now)

  unfoldable pub start_runtime : Session → M rm.State (Unit {0})
  start_runtime session = do rm.prepare session; rm.start session

  unfoldable pub start : String → ℕ → M World Session
  unfolding start_runtime
  start id now = do
    session ← locked (begin_start id)
    recording_failure "start" id session now (start_runtime session)
    locked (finish_running id now)

  stop_if_entered : String → ℕ → Entry → M World Session
  stop_if_entered id now (return_now session) = pure session
  stop_if_entered id now (go_on session) = do
    recording_failure "stop" id session now (rm.stop session)
    locked (finish_stop id now)

  unfoldable pub stop : String → ℕ → M World Session
  unfolding stop_if_entered
  stop id now = do entry ← locked (begin_stop id); stop_if_entered id now entry

  -- A running session is stopped first, and the later calls are given its stopped copy.
  abbrev stop_first : Bool → Session → M rm.State Session
  stop_first true session = do rm.stop session; pure (stopped_copy session)
  stop_first false session = pure session

  unfoldable pub restart_runtime : Session → M rm.State (Unit {0})
  restart_runtime session = do
    session' ← stop_first (is_running session.state) session
    rm.destroy session'
    rm.prepare session'
    rm.start session'

  unfoldable pub restart : String → ℕ → M World Session
  unfolding restart_runtime
  restart id now = do
    session ← locked (begin_restart id)
    recording_failure "restart" id session now (restart_runtime session)
    locked (finish_running id now)

  unfoldable pub remove_runtime : Session → M rm.State (Unit {0})
  remove_runtime session = do
    session' ← stop_first (is_running session.state) session
    rm.destroy session'

  unfoldable pub remove : String → ℕ → M World (Unit {0})
  unfolding remove_runtime
  remove id now = do
    session ← locked (begin_remove id)
    recording_failure "remove" id session now (remove_runtime session)
    locked (finish_remove id)

  -- The test at the head of the three methods that read streams: `none` if the session is not
  -- running.
  unfoldable pub load_if_running : String → M Service (Option Session)
  unfolding load_or_throw phase_for_locked
  load_if_running id = do
    session ← load_or_throw id
    phase ← phase_for_locked session
    pure (when (is_running session.state && is_running_phase phase) session)

  abbrev rethrow : {A : Type 0} → String → String → M rm.State A → M World A
  rethrow action id calls =
      try_catch (call calls) λ e. throw (runtime_error (runtime_message action id e))

  plan_if : String → Option Session → M World (Option StreamRuntimePlan)
  plan_if id none = pure none
  plan_if id (some session) = rethrow "stream lookup" id (rm.active_stream_plan session)

  unfoldable pub active_stream_plan : String → M World (Option StreamRuntimePlan)
  unfolding load_if_running plan_if
  active_stream_plan id = do loaded ← locked (load_if_running id); plan_if id loaded

  abbrev pub transient_fetch_retries : ℕ
  transient_fetch_retries = 20

  abbrev retry_or_throw :
      Bool → String → Exception → M World HttpStreamResponse → M World HttpStreamResponse
  retry_or_throw true id e again = again
  retry_or_throw false id e again = throw (runtime_error (runtime_message "stream fetch" id e))

  -- `attempt + 1 == kTransientFetchRetries` is `left == 0`; what `catch (...)` takes is never retried.
  abbrev pub retries : ℕ → Exception → Bool
  retries left e = elim (what e) [
    | none ↦ false
    | some message ↦ not (left == 0) && is_transient_http_stream_connect_error message
  ]

  -- The loop, by the attempts that are left. The throw behind the loop is the case `zero`.
  unfoldable pub fetch_attempts : ℕ → String → Session → String → M World HttpStreamResponse
  fetch_attempts zero id session stream_id =
      throw (runtime_error ("runtime " <> "stream fetch" <> " failed for session " <> id))
  fetch_attempts (suc left) id session stream_id =
      try_catch (call (rm.fetch_http_stream session stream_id)) λ e.
        let again = fetch_attempts left id session stream_id in
        retry_or_throw (retries left e) id e again

  fetch_if : String → String → Option Session → M World HttpStreamResponse
  fetch_if id stream_id none = throw (invalid_state_error ("session is not running: " <> id))
  fetch_if id stream_id (some session) = fetch_attempts transient_fetch_retries id session stream_id

  unfoldable pub fetch_http_stream : String → String → M World HttpStreamResponse
  unfolding load_if_running fetch_if
  fetch_http_stream id stream_id = do
    loaded ← locked (load_if_running id)
    fetch_if id stream_id loaded

  route_if : String → String → Option Session → M World WebSocketStreamRoute
  route_if id stream_id none = throw (invalid_state_error ("session is not running: " <> id))
  route_if id stream_id (some session) =
      rethrow "websocket route" id (rm.resolve_websocket_stream session stream_id)

  unfoldable pub resolve_websocket_stream : String → String → M World WebSocketStreamRoute
  unfolding load_if_running route_if
  resolve_websocket_stream id stream_id = do
    loaded ← locked (load_if_running id)
    route_if id stream_id loaded
