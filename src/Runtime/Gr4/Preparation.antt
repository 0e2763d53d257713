-- ===== src/Runtime/Gr4/Preparation.antt =====
-- `prepare_locked` of src/runtime/gr4_runtime_manager.cpp. What `stream_debug` writes to the log is left
-- out.
use gr4_control_plane.Prelude.{
  ℕ, ◌+◌, ◌%◌, String, ◌<>◌, string_eq, if◌then◌else◌, true, false, Option, none, some, List, [],
  ◌∷◌, contains,
}
use gr4_control_plane.Prelude.TextOrder.{str_ltb}
use gr4_control_plane.Prelude.Sorting.{sort}
use gr4_control_plane.Errors.{
  Exception, std_exception, what, Result, ok, err, M, ◌>>=◌, ◌>>◌, pure, throw, try_catch,
}
use gr4_control_plane.Pmt.{Pmt, PmtWriter}
use gr4_control_plane.Domain.Session.{Session}
use gr4_control_plane.Domain.Stream.{
  RuntimeStreamBindingPlan, StreamRuntimePlan, InternalStreamBinding, RuntimeStreamBinding,
}
use gr4_control_plane.Domain.Stream.Contract.{
  validate_stream_runtime_contract, derive_stream_runtime_plan,
}
use gr4_control_plane.Runtime.Allocator.{SocketAnswer, Allocator}
use gr4_control_plane.Runtime.Stub.{release_all, binding_of, allocate_for}
use gr4_control_plane.Runtime.Gr4.{
  idle, is_stopping, GnuRadio, Execution, SessionRuntimeResources, Locked,
}
use gr4_control_plane.Runtime.Gr4.Graph.{normalize_graph_content}
use gr4_control_plane.Runtime.Gr4.Steps.{
  runtime_failure, call, modify, release_stream_bindings_locked,
}

-- The first of the preferred schedulers that is available, or the first available one.
unfoldable pub choose_scheduler : List String → String
choose_scheduler available =
    let in_order = sort str_ltb available in
    if contains in_order "gr::incubator::scheduler::BlockingBackoff"
    then "gr::incubator::scheduler::BlockingBackoff"
    else if contains in_order "gr::scheduler::SimpleMulti"
    then "gr::scheduler::SimpleMulti"
    else if contains in_order "gr::scheduler::SimpleSingle"
    then "gr::scheduler::SimpleSingle"
    else elim in_order [ [] ↦ "gr::scheduler::SimpleMulti" | front ∷ rest ↦ front ]

module _ {p : Pmt} (w : PmtWriter p) (g : GnuRadio p) (os : ℕ → SocketAnswer)
    (plugin_directories : List String) where
  abbrev throw_bootstrap : Option String → M (Locked g) (Unit {0})
  throw_bootstrap none = pure tt
  throw_bootstrap (some error) =
      throw (std_exception ("GNU Radio 4 runtime initialization failed: " <> error))

  -- The end of `std::call_once`: an exception that the handler does not take leaves the flag unset.
  abbrev once : Result (Unit {0}) × g.State → M (Locked g) (Unit {0})
  once (ok _, gnuradio) st = (
    ok tt,
    record st {
      shared = record st.shared {
        gnuradio = gnuradio;
        bootstrapped = true;
        bootstrap_error = none;
      };
    },
  )
  once (err e, gnuradio) st = elim (what e) [
    | none ↦ (err e, record st { shared = record st.shared { gnuradio = gnuradio } })
    | some message ↦ (
      ok tt,
      record st {
        shared = record st.shared {
          gnuradio = gnuradio;
          bootstrapped = true;
          bootstrap_error = some message;
        };
      },
    )
  ]

  abbrev bootstrap : List String → M g.State (Unit {0})
  bootstrap [] = throw (std_exception "no GNU Radio 4 plugin directories are configured")
  bootstrap (directory ∷ directories) = g.bootstrap (directory ∷ directories)

  unfoldable pub ensure_runtime_environment : M (Locked g) (Unit {0})
  ensure_runtime_environment = do
    λ st.
        if st.shared.bootstrapped
        then (ok tt, st)
        else once (bootstrap plugin_directories st.shared.gnuradio) st
    λ st. throw_bootstrap st.shared.bootstrap_error st

  abbrev allocated : Result InternalStreamBinding × Allocator → M (Locked g) InternalStreamBinding
  allocated (r, a) st = (r, record st { shared = record st.shared { stream_allocator = a } })

  -- The loop of `prepare_locked` over the streams of the plan.
  unfoldable pub allocate_streams :
      List RuntimeStreamBindingPlan → M (Locked g) (List RuntimeStreamBinding)
  allocate_streams [] = pure []
  allocate_streams (plan ∷ plans) = do
    internal ← λ st. allocated (allocate_for os plan st.shared.stream_allocator) st
    bindings ← allocate_streams plans
    pure (binding_of plan internal ∷ bindings)

  unfoldable pub default_scheduler_alias : M g.State String
  unfolding choose_scheduler
  default_scheduler_alias n =
      let n' = g.register_default_schedulers n in
      (ok (choose_scheduler (g.available_schedulers n')), n')

  abbrev alias_or : Option String → String → String
  alias_or none default = default
  alias_or (some alias) default = alias

  abbrev scheduler_or_throw : Session → String → Option g.Scheduler → M g.State g.Scheduler
  scheduler_or_throw session alias none =
      throw (runtime_failure session "prepare" ("scheduler not found: " <> alias))
  scheduler_or_throw session alias (some scheduler) = pure scheduler

  abbrev from_result : {S A : Type 0} → Result A → M S A
  from_result r s = (r, s)

  -- The `try` block of `prepare_locked`.
  unfoldable pub build_execution : Session → List RuntimeStreamBinding → M g.State (Execution g)
  unfolding default_scheduler_alias
  build_execution session bindings = do
    content ← from_result (normalize_graph_content w session.grc_content bindings)
    graph ← g.load_grc content
    default ← default_scheduler_alias
    let alias = alias_or session.scheduler_alias default
    found ← g.instantiate_scheduler alias
    scheduler ← scheduler_or_throw session alias found
    g.set_graph scheduler graph
    pure (record { scheduler = scheduler; running = false })

  -- Its handler gives the new ports back, and takes what is derived from `std::exception`.
  unfoldable pub give_back :
      Session → List RuntimeStreamBinding → Exception → M (Locked g) (Execution g)
  give_back session bindings e st = elim (what e) [
    | none ↦ (err e, st)
    | some detail ↦ (
      err (runtime_failure session "prepare" detail),
      record st {
        shared = record st.shared {
          stream_allocator = release_all bindings st.shared.stream_allocator;
        };
      },
    )
  ]

  abbrev pub streams_of : Option StreamRuntimePlan → List RuntimeStreamBindingPlan
  streams_of none = []
  streams_of (some plan) = plan.streams

  -- `generation` is a `std::uint64_t`.
  abbrev pub prepared :
      Execution g
      → List RuntimeStreamBinding
      → SessionRuntimeResources g
      → SessionRuntimeResources g
  prepared execution bindings r = record r {
    execution = some execution;
    stream_bindings = bindings;
    generation = (r.generation + 1) % 18446744073709551616;
    lifecycle_phase = idle;
    teardown_complete = true;
    teardown_error = none;
  }

  abbrev pub throw_contract : Session → Option String → M (Locked g) (Unit {0})
  throw_contract session none = pure tt
  throw_contract session (some contract_error) =
      throw (runtime_failure session "prepare" contract_error)

  -- `prepare_locked` up to the streams.
  unfoldable pub clear : Session → M (Locked g) (Unit {0})
  unfolding ensure_runtime_environment release_stream_bindings_locked
  clear session = do
    throw_contract session (validate_stream_runtime_contract p session)
    ensure_runtime_environment
    release_stream_bindings_locked g

  -- `prepare_locked` from the `try` block on, with the new bindings in hand.
  unfoldable pub commit : Session → List RuntimeStreamBinding → M (Locked g) (Execution g)
  commit session bindings = do
    execution ← try_catch (call g (build_execution session bindings)) (give_back session bindings)
    modify g (prepared execution bindings)
    pure execution

  abbrev pub derived_streams : Session → List RuntimeStreamBindingPlan
  derived_streams session = streams_of (derive_stream_runtime_plan p session)

  -- `prepare_locked` from the streams on.
  unfoldable pub place_streams : Session → M (Locked g) (Execution g)
  unfolding commit
  place_streams session = do
    bindings ← allocate_streams (derived_streams session)
    commit session bindings

  -- `prepare_locked` from where no execution is there.
  unfoldable pub prepare_new : Session → M (Locked g) (Execution g)
  unfolding clear place_streams
  prepare_new session = do clear session; place_streams session

  abbrev pub existing_or :
      Option (Execution g) → M (Locked g) (Execution g) → M (Locked g) (Execution g)
  existing_or (some execution) make = pure execution
  existing_or none make = make

  unfoldable pub prepare_locked : Session → M (Locked g) (Execution g)
  prepare_locked session st =
      if is_stopping st.mine.lifecycle_phase
      then (
        err (runtime_failure session "prepare" "session runtime teardown is still in progress"),
        st,
      )
      else existing_or st.mine.execution (prepare_new session) st
