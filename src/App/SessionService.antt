-- ===== src/App/SessionService.antt =====
-- The state of `SessionService` and the private methods of src/app/session_service.cpp that run
-- under its mutex. `Sections` has the public methods' locked sections, and `Operations` the methods.

pub mod Sections
pub mod Operations
pub mod Interleaving
pub mod Stores
pub mod Invariant
pub mod Guarantees
pub mod Outcomes
pub mod Fetch
pub mod Listing
pub mod Creation
use gr4_control_plane.Prelude.{
  ℕ, String, ◌<>◌, ◌==◌, string_eq, if◌then◌else◌, Bool, true, false, ◌&&◌, ◌||◌, Option, none,
  some, List, [], ◌∷◌,
}
use gr4_control_plane.Prelude.Dict
use gr4_control_plane.Prelude.Dict.{Dict}
use gr4_control_plane.Errors.{
  Exception, not_found_error, validation_error, invalid_state_error, runtime_error, what, Result,
  ok, err, M, ◌>>=◌, ◌>>◌, continue, pure, throw, throw_if,
}
use gr4_control_plane.Domain.Session.{Session, SessionState, is_running, is_stopped}
use gr4_control_plane.Storage
use gr4_control_plane.Storage.{Repository}

pub data InternalLifecyclePhase : Type 0 where
  idle starting running stopping failed : InternalLifecyclePhase

abbrev pub is_idle : InternalLifecyclePhase → Bool
is_idle idle = true
is_idle _ = false

abbrev pub is_starting : InternalLifecyclePhase → Bool
is_starting starting = true
is_starting _ = false

abbrev pub is_running_phase : InternalLifecyclePhase → Bool
is_running_phase running = true
is_running_phase _ = false

abbrev pub is_stopping : InternalLifecyclePhase → Bool
is_stopping stopping = true
is_stopping _ = false

-- `repository_` and `phases_`.
pub record Service : Type 0 where
  pub repository : Repository
  pub phases : Dict String InternalLifecyclePhase

-- Both overloads: an exception without `what` is one that `catch (...)` takes.
unfoldable pub runtime_message : String → String → Exception → String
runtime_message action id e = elim (what e) [
  | some detail ↦ ("runtime " <> action <> " failed for session " <> id) <> ": " <> detail
  | none ↦ "runtime " <> action <> " failed for session " <> id
]

abbrev pub phase_of_state : SessionState → InternalLifecyclePhase
phase_of_state SessionState.stopped = idle
phase_of_state SessionState.running = running
phase_of_state SessionState.error = failed

abbrev phase_or : Option InternalLifecyclePhase → Session → InternalLifecyclePhase
phase_or (some p) s = p
phase_or none s = phase_of_state s.state

unfoldable pub phase_for_locked : Session → M Service InternalLifecyclePhase
phase_for_locked s sv = (ok (phase_or (Dict.lookup s.id sv.phases) s), sv)

abbrev loaded : String → Option Session → Result Session
loaded id (some s) = ok s
loaded id none = err (not_found_error ("session not found: " <> id))

unfoldable pub load_or_throw : String → M Service Session
load_or_throw id sv = (loaded id (Storage.get id sv.repository), sv)

-- `phases_[id] = phase`
abbrev pub set_phase : String → InternalLifecyclePhase → M Service (Unit {0})
set_phase id p sv = (ok tt, record sv { phases = Dict.insert id p sv.phases })

unfoldable pub erase_phase_locked : String → M Service (Unit {0})
erase_phase_locked id sv = (ok tt, record sv { phases = Dict.erase id sv.phases })

-- A call of the repository.
abbrev pub stored : {A : Type 0} → Result A × Repository → M Service A
stored (r, repository) sv = (r, record sv { repository = repository })

unfoldable pub store_session_locked : Session → InternalLifecyclePhase → M Service (Unit {0})
store_session_locked s p = do λ sv. stored (Storage.update s sv.repository) sv; set_phase s.id p

unfoldable pub record_runtime_failure : Session → String → ℕ → M Service (Unit {0})
unfolding load_or_throw store_session_locked
record_runtime_failure session message now = do
  s ← load_or_throw session.id
  store_session_locked
      (record s { state = SessionState.error; last_error = some message; updated_at = now }) failed
  throw (runtime_error message)
