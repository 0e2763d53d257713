-- ===== src/App/SessionService/Outcomes.antt =====
-- One request alone, from its call to its return: `start`, `stop`, `restart` and `remove` over any
-- runtime manager, on a session whose phase is that of its state.
use gr4_control_plane.Prelude.{
  ℕ, String, ◌<>◌, ◌≡◌, ◌≢◌, refl, sym, subst, ◌==◌, string_eq, if◌then◌else◌, false, none, some,
  arith,
}
use gr4_control_plane.Prelude.Dict
use gr4_control_plane.Prelude.Dict.{lookup-insert}
use gr4_control_plane.Errors.{
  runtime_error, invalid_state_error, Result, ok, err, M, continue, recover, continue_of_err,
}
use gr4_control_plane.Domain.Session.{Session, SessionState, is_running}
use gr4_control_plane.Storage
use gr4_control_plane.Runtime.Manager.{RuntimeManager}
use gr4_control_plane.App.SessionService.{
  Service, InternalLifecyclePhase, idle, starting, running, stopping, failed, phase_of_state,
  record_runtime_failure, runtime_message,
}
use gr4_control_plane.App.SessionService.Sections.{
  begin_start, go_on, begin_stop, begin_restart, begin_remove, finish_running, finish_stop,
  finish_remove,
}
use gr4_control_plane.App.SessionService.Stores.{
  Puts, finish_running-result, finish_running-Puts, finish_stop-result, finish_stop-Puts,
  record_runtime_failure-result, record_runtime_failure-Puts, finish_remove-result,
  finish_remove-gone,
}
use gr4_control_plane.App.SessionService.Operations.{
  World, locked, start_runtime, start, stop, restart_runtime, restart, remove_runtime, remove,
}

-- The change of phase at the beginning is covered by the one at the end.
Puts-set_phase :
    {id : String} {s : Session} {p : InternalLifecyclePhase} (q : InternalLifecyclePhase)
    {sv later : Service}
    → Puts id s p (record sv { phases = Dict.insert id q sv.phases }) later
    → Puts id s p sv later
Puts-set_phase {id} {s} {p} q {sv} {later} h = record {
  session_at = h.session_at;
  phase_at = λ j. ground (arith, h.phase_at j, lookup-insert j id q sv.phases);
}

module _ {PropertyMap : Type 0} (rm : RuntimeManager PropertyMap) where
  -- What is returned and left, by the outcome of the runtime's calls: the session in state `st` and
  -- phase `p`, or the failure, recorded in the session.
  abbrev pub Ends :
      String
      → String
      → ℕ
      → Session
      → SessionState
      → InternalLifecyclePhase
      → Service
      → Result (Unit {0}) × rm.State
      → Result Session × World rm
      → Type 0
  Ends action id now s st p sv (ok _, rt) r =
      (r.0 ≡ ok (record s { state = st; last_error = none; updated_at = now }))
      × (r.1.runtime ≡ rt)
      × Puts id (record s { state = st; last_error = none; updated_at = now }) p sv r.1.service
  Ends action id now s st p sv (err e, rt) r =
      (r.0 ≡ err (runtime_error (runtime_message action id e)))
      × (r.1.runtime ≡ rt)
      × Puts id
          (record s {
            state = SessionState.error;
            last_error = some (runtime_message action id e);
            updated_at = now;
          })
          failed sv r.1.service

  -- `remove`'s end: the session is gone from both maps, or the failure is recorded in it.
  abbrev pub EndsRemoved :
      String
      → ℕ
      → Session
      → Service
      → Result (Unit {0}) × rm.State
      → Result (Unit {0}) × World rm
      → Type 0
  EndsRemoved id now s sv (ok _, rt) r =
      (r.0 ≡ ok tt)
      × (r.1.runtime ≡ rt)
      × ((j : String)
          → (Storage.get j r.1.service.repository
              ≡ (if j == id then none else Storage.get j sv.repository))
            × (Dict.lookup j r.1.service.phases
                ≡ (if j == id then none else Dict.lookup j sv.phases)))
  EndsRemoved id now s sv (err e, rt) r =
      (r.0 ≡ err (runtime_error (runtime_message "remove" id e)))
      × (r.1.runtime ≡ rt)
      × Puts id
          (record s {
            state = SessionState.error;
            last_error = some (runtime_message "remove" id e);
            updated_at = now;
          })
          failed sv r.1.service

  -- From the calls on: `c` is their outcome, `q` the phase while they ran.
  pub Ends-of_calls :
      (action id : String) (now : ℕ) (s : Session) (st : SessionState)
      (p q : InternalLifecyclePhase) (w : World rm) (fin : M Service Session)
      (c : Result (Unit {0}) × rm.State)
      → let sv' : Service = record w.service { phases = Dict.insert id q w.service.phases } in
        Storage.get id w.service.repository ≡ some s
        → s.id ≡ id
        → (fin sv').0 ≡ ok (record s { state = st; last_error = none; updated_at = now })
        → Puts id (record s { state = st; last_error = none; updated_at = now }) p sv' (fin sv').1
        → Ends action id now s st p w.service c (
            continue
              (recover
                (c.0, record { service = sv'; runtime = c.1 })
                (λ e. locked rm (record_runtime_failure s (runtime_message action id e) now)))
              (λ _. locked rm fin))
  Ends-of_calls action id now s st p q w fin (ok _, rt) found keyed result put =
      (result, refl, Puts-set_phase q put)
  Ends-of_calls action id now s st p q w fin (err e, rt) found keyed result put =
      let sv' : Service = record w.service { phases = Dict.insert id q w.service.phases } in
      let message = runtime_message action id e in
      let failed_call =
        locked rm (record_runtime_failure s message now) (record { service = sv'; runtime = rt }) in
      let thrown : failed_call.0 ≡ err (runtime_error message) =
        record_runtime_failure-result id now sv' s found keyed s message keyed in
      subst (Ends action id now s st p w.service (err e, rt))
        (sym (continue_of_err failed_call (λ _. locked rm fin) (runtime_error message) thrown))
        (
          refl,
          refl,
          Puts-set_phase q (record_runtime_failure-Puts id now sv' s found keyed s message keyed),
        )

  module _ (id : String) (now : ℕ) (w : World rm) (s : Session)
      (found : Storage.get id w.service.repository ≡ some s) (keyed : s.id ≡ id)
      (settled : Dict.lookup id w.service.phases ≡ some (phase_of_state s.state)) where
    -- `start` on a session that runs: refused, with nothing changed.
    pub start_running :
        s.state ≡ SessionState.running
        → start rm id now w ≡ (err (invalid_state_error ("session already running: " <> id)), w)
    unfolding start begin_start
    start_running r = ground arith

    begin_start-settled :
        is_running s.state ≡ false
        → begin_start id w.service
          ≡ (ok s, record w.service { phases = Dict.insert id starting w.service.phases })
    unfolding begin_start
    begin_start-settled r = ground arith

    -- `start` of a stored session that is not running, and whose phase is that of its state, ends
    -- as `prepare` and then `start` do: in state `running` and phase `running`, or with the
    -- failure thrown and recorded in the session. No other session changes.
    pub start_lem :
        is_running s.state ≡ false
        → Ends "start" id now s SessionState.running running w.service
            (start_runtime rm s w.runtime)
            (start rm id now w)
    unfolding start
    start_lem r =
        let sv' : Service = record w.service {
          phases = Dict.insert id starting w.service.phases;
        } in
        rw (begin_start-settled r, start)
          (Ends-of_calls "start" id now s SessionState.running running starting w
            (finish_running id now) (start_runtime rm s w.runtime) found keyed
            (finish_running-result id now sv' s found keyed)
            (finish_running-Puts id now sv' s found keyed))

    begin_restart-settled :
        begin_restart id w.service
        ≡ (ok s, record w.service { phases = Dict.insert id starting w.service.phases })
    unfolding begin_restart
    begin_restart-settled = ground arith

    -- `restart` of a stored session whose phase is that of its state, in every state, ends as its
    -- runtime calls do: in state `running` and phase `running`, or with the failure thrown and
    -- recorded in the session. No other session changes.
    pub restart_lem :
        Ends "restart" id now s SessionState.running running w.service
          (restart_runtime rm s w.runtime)
          (restart rm id now w)
    unfolding restart
    restart_lem =
        let sv' : Service = record w.service {
          phases = Dict.insert id starting w.service.phases;
        } in
        rw (begin_restart-settled, restart)
          (Ends-of_calls "restart" id now s SessionState.running running starting w
            (finish_running id now) (restart_runtime rm s w.runtime) found keyed
            (finish_running-result id now sv' s found keyed)
            (finish_running-Puts id now sv' s found keyed))

    -- `stop` on a stopped session returns it, and calls nothing.
    pub stop_stopped : s.state ≡ SessionState.stopped → stop rm id now w ≡ (ok s, w)
    unfolding stop begin_stop
    stop_stopped r = ground arith

    begin_stop-settled :
        s.state ≢ SessionState.stopped
        → begin_stop id w.service
          ≡ (ok (go_on s), record w.service { phases = Dict.insert id stopping w.service.phases })
    unfolding begin_stop
    begin_stop-settled r = ground arith

    -- `stop` of a stored session that is not stopped, and whose phase is that of its state, ends
    -- as the runtime's `stop` does: stopped and idle, or with the failure thrown and recorded in
    -- the session. No other session changes.
    pub stop_lem :
        s.state ≢ SessionState.stopped
        → Ends "stop" id now s SessionState.stopped idle w.service
            (rm.stop s w.runtime)
            (stop rm id now w)
    unfolding stop
    stop_lem r =
        let sv' : Service = record w.service {
          phases = Dict.insert id stopping w.service.phases;
        } in
        rw (begin_stop-settled r, stop)
          (Ends-of_calls "stop" id now s SessionState.stopped idle stopping w (finish_stop id now)
            (rm.stop s w.runtime) found keyed (finish_stop-result id now sv' s found keyed)
            (finish_stop-Puts id now sv' s found keyed))

    abbrev while_removing : Service
    while_removing = record w.service { phases = Dict.insert id stopping w.service.phases }

    EndsRemoved-of_calls :
        (c : Result (Unit {0}) × rm.State)
        → EndsRemoved id now s w.service c (
            continue
              (recover
                (c.0, record { service = while_removing; runtime = c.1 })
                (λ e. locked rm (record_runtime_failure s (runtime_message "remove" id e) now)))
              (λ _. locked rm (finish_remove id)))
    EndsRemoved-of_calls (ok _, rt) = (
      finish_remove-result id while_removing s found,
      refl,
      λ j. (
        (finish_remove-gone id while_removing s found j).0,
        ground (
          arith,
          finish_remove-gone id while_removing s found j,
          lookup-insert j id stopping w.service.phases,
        ),
      ),
    )
    EndsRemoved-of_calls (err e, rt) =
        let message = runtime_message "remove" id e in
        let failed_call =
          locked rm (record_runtime_failure s message now)
            (record { service = while_removing; runtime = rt }) in
        let thrown : failed_call.0 ≡ err (runtime_error message) =
          record_runtime_failure-result id now while_removing s found keyed s message keyed in
        subst (EndsRemoved id now s w.service (err e, rt))
          (sym (
            continue_of_err failed_call (λ _. locked rm (finish_remove id)) (runtime_error message)
              thrown))
          (
            refl,
            refl,
            Puts-set_phase stopping
                (record_runtime_failure-Puts id now while_removing s found keyed s message keyed),
          )

    begin_remove-settled : begin_remove id w.service ≡ (ok s, while_removing)
    unfolding begin_remove
    begin_remove-settled = ground arith

    -- `remove` of a stored session whose phase is that of its state ends as its runtime calls do:
    -- the session is gone from the repository and the phases, or the failure is thrown and
    -- recorded in the session. No other session changes.
    pub remove_lem :
        EndsRemoved id now s w.service (remove_runtime rm s w.runtime) (remove rm id now w)
    unfolding remove
    remove_lem =
        rw (begin_remove-settled, remove) (EndsRemoved-of_calls (remove_runtime rm s w.runtime))
