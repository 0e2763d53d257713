-- ===== src/App/SessionService/Stores.antt =====
-- What the last sections leave under each id, when the session is there.
use gr4_control_plane.Prelude.{ℕ, String, ◌≡◌, ◌==◌, string_eq, if◌then◌else◌, none, some, arith}
use gr4_control_plane.Prelude.Dict
use gr4_control_plane.Prelude.Dict.{lookup-insert, lookup-erase}
use gr4_control_plane.Errors.{ok, err, runtime_error}
use gr4_control_plane.Domain.Session.{Session, SessionState}
use gr4_control_plane.Storage
use gr4_control_plane.Storage.Laws.{get-update, get-remove, remove-present}
use gr4_control_plane.App.SessionService.{
  Service, InternalLifecyclePhase, idle, running, failed, record_runtime_failure,
}
use gr4_control_plane.App.SessionService.Sections.{finish_running, finish_stop, finish_remove}

-- `s` stands under `id` in phase `p`, and all else is as in `before`.
pub record Puts (id : String) (s : Session) (p : InternalLifecyclePhase) (before later : Service)
    : Type 0 where
  pub session_at :
      (j : String)
      → Storage.get j later.repository
        ≡ (if j == id then some s else Storage.get j before.repository)
  pub phase_at :
      (j : String)
      → Dict.lookup j later.phases ≡ (if j == id then some p else Dict.lookup j before.phases)

module _ (id : String) (now : ℕ) (sv : Service) (s : Session)
    (found : Storage.get id sv.repository ≡ some s) (keyed : s.id ≡ id) where
  abbrev pub with_state : SessionState → Session
  with_state st = record s { state = st; last_error = none; updated_at = now }

  abbrev pub with_error : String → Session
  with_error message = record s {
    state = SessionState.error;
    last_error = some message;
    updated_at = now;
  }

  pub finish_running-result : (finish_running id now sv).0 ≡ ok (with_state SessionState.running)
  unfolding finish_running
  finish_running-result =
      ground (arith, get-update (with_state SessionState.running) s sv.repository id)

  pub finish_running-Puts :
      Puts id (with_state SessionState.running) running sv (finish_running id now sv).1
  unfolding finish_running
  finish_running-Puts = record {
    session_at =
        λ j. ground (arith, get-update (with_state SessionState.running) s sv.repository j);
    phase_at = λ j. ground (
      arith,
      get-update (with_state SessionState.running) s sv.repository j,
      lookup-insert j s.id running sv.phases,
    );
  }

  pub finish_stop-result : (finish_stop id now sv).0 ≡ ok (with_state SessionState.stopped)
  unfolding finish_stop
  finish_stop-result =
      ground (arith, get-update (with_state SessionState.stopped) s sv.repository id)

  pub finish_stop-Puts : Puts id (with_state SessionState.stopped) idle sv (finish_stop id now sv).1
  unfolding finish_stop
  finish_stop-Puts = record {
    session_at =
        λ j. ground (arith, get-update (with_state SessionState.stopped) s sv.repository j);
    phase_at = λ j. ground (
      arith,
      get-update (with_state SessionState.stopped) s sv.repository j,
      lookup-insert j s.id idle sv.phases,
    );
  }

  module _ (session : Session) (message : String) (own : session.id ≡ id) where
    pub record_runtime_failure-result :
        (record_runtime_failure session message now sv).0 ≡ err (runtime_error message)
    unfolding record_runtime_failure
    record_runtime_failure-result =
        ground (arith, get-update (with_error message) s sv.repository id)

    pub record_runtime_failure-Puts :
        Puts id (with_error message) failed sv (record_runtime_failure session message now sv).1
    unfolding record_runtime_failure
    record_runtime_failure-Puts = record {
      session_at = λ j. ground (arith, get-update (with_error message) s sv.repository j);
      phase_at = λ j. ground (
        arith,
        get-update (with_error message) s sv.repository j,
        lookup-insert j s.id failed sv.phases,
      );
    }

module _ (id : String) (sv : Service) (s : Session)
    (found : Storage.get id sv.repository ≡ some s) where
  pub finish_remove-result : (finish_remove id sv).0 ≡ ok tt
  unfolding finish_remove
  finish_remove-result = ground (arith, remove-present id s sv.repository)

  -- Only `id` is gone, from both maps.
  pub finish_remove-gone :
      (j : String)
      → (Storage.get j (finish_remove id sv).1.repository
          ≡ (if j == id then none else Storage.get j sv.repository))
        × (Dict.lookup j (finish_remove id sv).1.phases
            ≡ (if j == id then none else Dict.lookup j sv.phases))
  unfolding finish_remove
  finish_remove-gone j = ground (
    arith,
    remove-present id s sv.repository,
    get-remove id sv.repository j,
    lookup-erase j id sv.phases,
  )
