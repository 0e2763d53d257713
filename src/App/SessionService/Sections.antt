-- ===== src/App/SessionService/Sections.antt =====
-- The sections of the public methods in src/app/session_service.cpp that hold `mutex_`: the check
-- and the change of phase before the runtime is called, and the update of the session after it.
-- `now` is the time that the section reads from the clock.
use gr4_control_plane.Prelude.{
  ℕ, String, ◌<>◌, ◌==◌, string_eq, if◌then◌else◌, Bool, true, false, not, ◌&&◌, ◌||◌, Option, none,
  some, List, [], ◌∷◌,
}
use gr4_control_plane.Prelude.Dict
use gr4_control_plane.Errors.{
  not_found_error, validation_error, invalid_state_error, Result, ok, err, M, ◌>>=◌, ◌>>◌, pure,
  throw_if,
}
use gr4_control_plane.Domain.Session.{Session, SessionState, is_running, is_stopped}
use gr4_control_plane.Storage
use gr4_control_plane.Storage.{Repository}
use gr4_control_plane.App.SessionService.{
  Service, idle, starting, running, stopping, is_idle, is_starting, is_running_phase, is_stopping,
  phase_for_locked, load_or_throw, set_phase, erase_phase_locked, stored, store_session_locked,
}

unfoldable pub begin_start : String → M Service Session
unfolding load_or_throw phase_for_locked
begin_start id = do
  session ← load_or_throw id
  phase ← phase_for_locked session
  throw_if (is_running session.state || is_running_phase phase)
      (invalid_state_error ("session already running: " <> id))
  throw_if (is_starting phase) (invalid_state_error ("session start already in progress: " <> id))
  throw_if (is_stopping phase) (invalid_state_error ("session stop in progress: " <> id))
  set_phase id starting
  pure session

-- `stop` may return from its first section.
pub data Entry : Type 0 where
  return_now : Session → Entry
  go_on : Session → Entry

abbrev stop_or_return : Bool → String → Session → M Service Entry
stop_or_return true id session sv = (ok (return_now session), sv)
stop_or_return false id session sv =
    (ok (go_on session), record sv { phases = Dict.insert id stopping sv.phases })

unfoldable pub begin_stop : String → M Service Entry
unfolding load_or_throw phase_for_locked
begin_stop id = do
  session ← load_or_throw id
  phase ← phase_for_locked session
  throw_if (is_stopping phase) (invalid_state_error ("session stop already in progress: " <> id))
  throw_if (is_starting phase) (invalid_state_error ("session start in progress: " <> id))
  stop_or_return (is_stopped session.state && is_idle phase) id session

unfoldable pub begin_restart : String → M Service Session
unfolding load_or_throw phase_for_locked
begin_restart id = do
  session ← load_or_throw id
  phase ← phase_for_locked session
  throw_if (is_stopping phase) (invalid_state_error ("session stop in progress: " <> id))
  throw_if (is_starting phase) (invalid_state_error ("session start already in progress: " <> id))
  set_phase id starting
  pure session

unfoldable pub begin_remove : String → M Service Session
unfolding load_or_throw phase_for_locked
begin_remove id = do
  session ← load_or_throw id
  phase ← phase_for_locked session
  throw_if (is_stopping phase) (invalid_state_error ("session stop in progress: " <> id))
  throw_if (is_starting phase) (invalid_state_error ("session start in progress: " <> id))
  set_phase id stopping
  pure session

-- The last section of `start`, and of `restart`.
unfoldable pub finish_running : String → ℕ → M Service Session
unfolding load_or_throw store_session_locked
finish_running id now = do
  loaded ← load_or_throw id
  let session = record loaded { state = SessionState.running; last_error = none; updated_at = now }
  store_session_locked session running
  pure session

unfoldable pub finish_stop : String → ℕ → M Service Session
unfolding load_or_throw store_session_locked
finish_stop id now = do
  loaded ← load_or_throw id
  let session = record loaded { state = SessionState.stopped; last_error = none; updated_at = now }
  store_session_locked session idle
  pure session

unfoldable pub finish_remove : String → M Service (Unit {0})
unfolding erase_phase_locked
finish_remove id = do
  erased ← λ sv.
      let (b, repository) = Storage.remove id sv.repository in
      (ok b, record sv { repository = repository })
  throw_if (not erased) (not_found_error ("session not found: " <> id))
  erase_phase_locked id

-- `do … while (repository_.get(session.id).has_value())` over the ids that the generator draws;
-- `none` if each of them is taken, that is, if the loop still runs.
unfoldable pub fresh_id : List String → Repository → Option String
fresh_id [] r = none
fresh_id (id ∷ draws) r =
    let later = fresh_id draws r in elim (Storage.get id r) [ none ↦ some id | some _ ↦ later ]

abbrev pub new_session : String → String → String → Option String → ℕ → Session
new_session id name grc scheduler_alias now = record {
  id = id;
  name = name;
  grc_content = grc;
  scheduler_alias = scheduler_alias;
  state = SessionState.stopped;
  last_error = none;
  created_at = now;
  updated_at = now;
}

abbrev store_new : Session → M Service Session
store_new session = do
  λ sv. stored (Storage.create session sv.repository) sv
  set_phase session.id idle
  pure session

-- `none` while the loop for an id still runs.
unfoldable pub create :
    String → String → Option String → List String → ℕ → Service → Option (Result Session × Service)
unfolding fresh_id
create name grc scheduler_alias draws now sv =
    if grc == ""
    then some (err (validation_error "grc_content must not be empty"), sv)
    else elim (fresh_id draws sv.repository) [
      | none ↦ none
      | some id ↦ some (store_new (new_session id name grc scheduler_alias now) sv)
    ]

unfoldable pub get : String → M Service Session
unfolding load_or_throw
get id = load_or_throw id
