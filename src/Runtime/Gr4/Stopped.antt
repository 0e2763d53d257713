-- ===== src/Runtime/Gr4/Stopped.antt =====
-- What is left of a session behind `stop` of src/runtime/gr4_runtime_manager.cpp.
use gr4_control_plane.Prelude.{
  String, ◌≡◌, refl, string_eq, true, false, none, some, arith, Option, Option-cases, Bool-cases,
  inl, inr,
}
use gr4_control_plane.Prelude.Dict
use gr4_control_plane.Prelude.Dict.{lookup-insert, lookup-erase}
use gr4_control_plane.Errors.{Exception, what, Result, ok, err, continue_post, recover_post}
use gr4_control_plane.Pmt.{Pmt}
use gr4_control_plane.Domain.Session.{Session}
use gr4_control_plane.Runtime.Manager.{BlockSettingsMode}
use gr4_control_plane.Runtime.Gr4.{
  LifecyclePhase, idle, starting, running, stopping, failed, is_running, is_stopping, Execution,
  GnuRadio, Locked, Gr4RuntimeManager,
}
use gr4_control_plane.Runtime.Gr4.Steps.{
  runtime_failure, call, release_stream_bindings_locked, on_found,
}
use gr4_control_plane.Runtime.Gr4.Running.{
  stop_failed, halt, finish_stop, stop_execution, stop_locked, stop_found, mark_stopping,
}
use gr4_control_plane.Runtime.Gr4.Lifecycle.{stop}
use gr4_control_plane.Runtime.Gr4.Streams.{
  is_active, active_resources, active_stream_plan, active_stream, fetch_http_stream,
  resolve_websocket_stream,
}
use gr4_control_plane.Runtime.Gr4.Settings.{block_settings, set_block_settings, get_block_settings}

stopping-halts : (phase : LifecyclePhase) → is_stopping phase ≡ true → is_running phase ≡ false
stopping-halts stopping h = refl
stopping-halts idle h = refl
stopping-halts starting h = refl
stopping-halts failed h = refl
stopping-halts running h = cc

module _ {p : Pmt} {g : GnuRadio p} where
  -- While a session does not run, its streams cannot be fetched or routed to and its blocks' settings
  -- cannot be read or written: each throws, and the manager is left as it was. It shows no plan.
  pub record IsInactive (session : Session) (rm : Gr4RuntimeManager g) : Type 0 where
    pub shows_none : active_stream_plan g session rm ≡ (ok none, rm)
    pub fetches_none :
        (stream_id : String)
        → fetch_http_stream g session stream_id rm
          ≡ (err (runtime_failure session "stream fetch" "session runtime is not running"), rm)
    pub routes_none :
        (stream_id : String)
        → resolve_websocket_stream g session stream_id rm
          ≡ (err (runtime_failure session "websocket route" "session runtime is not running"), rm)
    pub sets_none :
        (target : String) (patch : Dict.Dict String p.Value) (mode : BlockSettingsMode)
        → set_block_settings g session target patch mode rm
          ≡ (err (runtime_failure session "settings update" "session runtime is not running"), rm)
    pub reads_none :
        (target : String)
        → get_block_settings g session target rm
          ≡ (err (runtime_failure session "settings read" "session runtime is not running"), rm)

  of_no_resources :
      (session : Session) (rm : Gr4RuntimeManager g)
      → active_resources g session.id rm ≡ none
      → IsInactive session rm
  unfolding active_stream_plan active_stream fetch_http_stream resolve_websocket_stream
      set_block_settings get_block_settings block_settings
  of_no_resources session rm h = record {
    shows_none = ground arith;
    fetches_none = λ stream_id. ground arith;
    routes_none = λ stream_id. ground arith;
    sets_none = λ target patch mode. ground arith;
    reads_none = λ target. ground arith;
  }

  abbrev IsHalted : {A : Type 0} → Result A × Locked g → Type 0
  IsHalted c = is_running c.1.mine.lifecycle_phase ≡ false

  -- Each step of a stop leaves a halted session halted, also where it throws.
  stop_failed-IsHalted :
      (session : Session) (e : Exception) (st : Locked g)
      → is_running st.mine.lifecycle_phase ≡ false
      → IsHalted (stop_failed g session e st)
  unfolding stop_failed
  stop_failed-IsHalted session e st h = elim (Option-cases (what e)) [
    | inl none_given ↦ rw (none_given, stop_failed) h
    | inr (detail, given) ↦ rw (given, stop_failed) refl
  ]

  halt-IsHalted :
      (session : Session) (execution : Execution g) (st : Locked g)
      → IsHalted (halt g session execution st)
  unfolding halt
  halt-IsHalted session execution st = elim (Bool-cases execution.running) [
    | inl runs ↦ rw runs (
        recover_post IsHalted IsHalted
          (call g (g.stop execution.scheduler) (record st { mine = mark_stopping g st.mine }))
          (stop_failed g session) refl (λ a s h. h) (λ e s h. stop_failed-IsHalted session e s h))
    | inr rests ↦ rw rests refl
  ]

  finish_stop-IsHalted :
      (session : Session) (st : Locked g)
      → is_running st.mine.lifecycle_phase ≡ false
      → IsHalted (finish_stop g session st)
  unfolding finish_stop
  finish_stop-IsHalted session st h = elim (Option-cases st.mine.async_error) [
    | inl e ↦ rw e refl
    | inr (x, e) ↦ rw e refl
  ]

  stop_execution-IsHalted :
      (session : Session) (execution : Execution g) (st : Locked g)
      → IsHalted (stop_execution g session execution st)
  unfolding stop_execution release_stream_bindings_locked
  stop_execution-IsHalted session execution st =
      continue_post IsHalted IsHalted (halt g session execution st) _
        (halt-IsHalted session execution st)
        (λ a s h. finish_stop-IsHalted session (release_stream_bindings_locked g s).1 h)
        (λ e s h. h)

  stop_found-IsHalted :
      (session : Session) (held : Option (Execution g)) (st : Locked g)
      → IsHalted (stop_found g session held st)
  unfolding release_stream_bindings_locked
  stop_found-IsHalted session none st = refl
  stop_found-IsHalted session (some execution) st =
      elim (Bool-cases (is_stopping st.mine.lifecycle_phase)) [
        | inl busy ↦ rw busy (stopping-halts st.mine.lifecycle_phase busy)
        | inr free ↦ rw free (stop_execution-IsHalted session execution st)
      ]

  stop_locked-inactive :
      (session : Session) (st : Locked g) → is_active g (stop_locked g session st).1.mine ≡ false
  unfolding stop_locked is_active
  stop_locked-inactive session st =
      let halted = stop_found-IsHalted session st.mine.execution st in ground (arith, halted)

  stop-no_resources :
      (session : Session) (rm : Gr4RuntimeManager g)
      → active_resources g session.id (stop g session rm).1 ≡ none
  unfolding stop on_found active_resources
  stop-no_resources session rm = elim (Option-cases (Dict.lookup session.id rm.resources)) [
    | inl e ↦ rw (e, on_found, active_resources) (rw e refl)
    | inr (r, e) ↦
        let st : Locked g = record { mine = r; shared = rm.shared } in
        let left = (stop_locked g session st).1.mine in
        ground (
          arith,
          e,
          stop_locked-inactive session st,
          lookup-insert session.id session.id left rm.resources,
        )
  ]

  -- Whatever `stop` finds and whatever it throws, the session is inactive behind it: no stream of it
  -- is shown, fetched or routed to, no setting of its blocks is read or written, and each such request
  -- throws and leaves the manager as it was.
  pub stop-IsInactive :
      (session : Session) (rm : Gr4RuntimeManager g) → IsInactive session (stop g session rm).1
  stop-IsInactive session rm = of_no_resources session _ (stop-no_resources session rm)
