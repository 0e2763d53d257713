-- ===== src/Runtime/Gr4/Running.antt =====
-- The locked sections of `start`, `stop` and `destroy` of src/runtime/gr4_runtime_manager.cpp.
use gr4_control_plane.Prelude.{
  ℕ, String, ◌<>◌, string_eq, if◌then◌else◌, true, false, ◌&&◌, Option, none, some, List,
}
use gr4_control_plane.Errors.{Exception, what, ok, err, M, ◌>>=◌, ◌>>◌, throw, try_catch}
use gr4_control_plane.Pmt.{Pmt, PmtWriter}
use gr4_control_plane.Domain.Session.{Session}
use gr4_control_plane.Runtime.Allocator.{SocketAnswer}
use gr4_control_plane.Runtime.Gr4.{
  idle, starting, running, stopping, failed, is_running, is_stopping, GnuRadio, Execution,
  SessionRuntimeResources, Locked,
}
use gr4_control_plane.Runtime.Gr4.Steps.{
  runtime_failure, call, modify, release_stream_bindings_locked,
}
use gr4_control_plane.Runtime.Gr4.Preparation.{prepare_locked}

module _ {p : Pmt} (w : PmtWriter p) (g : GnuRadio p) (os : ℕ → SocketAnswer)
    (plugin_directories : List String) where
  abbrev pub mark_starting : SessionRuntimeResources g → SessionRuntimeResources g
  mark_starting r = record r {
    async_error = none;
    teardown_error = none;
    teardown_complete = false;
    lifecycle_phase = starting;
  }

  abbrev pub mark_running : Execution g → SessionRuntimeResources g → SessionRuntimeResources g
  mark_running execution r = record r {
    execution = some (record execution { running = true });
    lifecycle_phase = running;
  }

  unfoldable pub run_execution : Execution g → M (Locked g) (Unit {0})
  run_execution execution = do
    modify g mark_starting
    call g (g.start execution.scheduler)
    modify g (mark_running execution)

  -- The section of `start` that holds the lock, from the prepared execution on.
  unfoldable pub run_prepared : Session → Execution g → M (Locked g) (Unit {0})
  unfolding run_execution
  run_prepared session execution st =
      if is_stopping st.mine.lifecycle_phase
      then (
        err (runtime_failure session "start" "session runtime teardown is still in progress"),
        st,
      )
      else if execution.running && is_running st.mine.lifecycle_phase
      then (ok tt, st)
      else run_execution execution st

  unfoldable pub start_locked : Session → M (Locked g) (Unit {0})
  unfolding run_prepared
  start_locked session = do
    execution ← prepare_locked w g os plugin_directories session
    run_prepared session execution

module _ {p : Pmt} (g : GnuRadio p) where
  abbrev pub mark_idle : SessionRuntimeResources g → SessionRuntimeResources g
  mark_idle r = record r { lifecycle_phase = idle; teardown_complete = true; teardown_error = none }

  abbrev pub mark_stopping : SessionRuntimeResources g → SessionRuntimeResources g
  mark_stopping r = record r {
    lifecycle_phase = stopping;
    teardown_complete = false;
    teardown_error = none;
  }

  abbrev pub mark_failed : String → SessionRuntimeResources g → SessionRuntimeResources g
  mark_failed message r = record r { lifecycle_phase = failed; teardown_error = some message }

  -- The handler around the scheduler's `stop`.
  unfoldable pub stop_failed : Session → Exception → M (Locked g) (Unit {0})
  stop_failed session e st = elim (what e) [
    | none ↦ (err e, st)
    | some detail ↦ (
      err (runtime_failure session "stop" ("failed to stop scheduler: " <> detail)),
      record st { mine = mark_failed ("failed to stop scheduler: " <> detail) st.mine },
    )
  ]

  abbrev stop_if_running : Session → Execution g → M (Locked g) (Unit {0})
  stop_if_running session execution st =
      if execution.running
      then try_catch (call g (g.stop execution.scheduler)) (stop_failed session) st
      else (ok tt, st)

  abbrev end_of_stop : Session → Option String → M (Locked g) (Unit {0})
  end_of_stop session none = modify g mark_idle
  end_of_stop session (some error) = do
    modify g (mark_failed error)
    throw (runtime_failure session "execution" error)

  -- `stop_locked` up to the release of the streams.
  unfoldable pub halt : Session → Execution g → M (Locked g) (Unit {0})
  unfolding stop_failed
  halt session execution = do modify g mark_stopping; stop_if_running session execution

  -- `stop_locked` behind the release of the streams.
  unfoldable pub finish_stop : Session → M (Locked g) (Unit {0})
  finish_stop session = do
    modify g (λ r. record r { execution = none; teardown_complete = true })
    λ st. end_of_stop session st.mine.async_error st

  unfoldable pub stop_execution : Session → Execution g → M (Locked g) (Unit {0})
  unfolding halt release_stream_bindings_locked finish_stop
  stop_execution session execution = do
    halt session execution
    release_stream_bindings_locked g
    finish_stop session

  abbrev pub stop_nothing : M (Locked g) (Unit {0})
  stop_nothing = do release_stream_bindings_locked g; modify g mark_idle

  abbrev pub stop_found : Session → Option (Execution g) → M (Locked g) (Unit {0})
  stop_found session none st = stop_nothing st
  stop_found session (some execution) st =
      if is_stopping st.mine.lifecycle_phase
      then (err (runtime_failure session "stop" "session runtime stop already in progress"), st)
      else stop_execution session execution st

  unfoldable pub stop_locked : Session → M (Locked g) (Unit {0})
  unfolding release_stream_bindings_locked
  stop_locked session st = stop_found session st.mine.execution st

  -- `destroy` behind `stop_locked`.
  unfoldable pub clear_execution : M (Locked g) (Unit {0})
  unfolding release_stream_bindings_locked
  clear_execution = do
    modify g (λ r. record r { execution = none })
    release_stream_bindings_locked g
    modify g mark_idle

  -- The section of `destroy` that holds the lock.
  unfoldable pub destroy_locked : Session → M (Locked g) (Unit {0})
  unfolding stop_locked clear_execution
  destroy_locked session = do stop_locked session; clear_execution
