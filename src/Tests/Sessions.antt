-- ===== src/Tests/Sessions.antt =====
-- Sessions, their repository and `SessionService`.
use gr4_control_plane.Prelude.{
  String, ◌≡◌, ◌≢◌, ◌≤◌, refl, string_eq, nat_eq, none, some, List, [], ◌∷◌, arith,
}
use gr4_control_plane.Prelude.Dict
use gr4_control_plane.Errors.{ok, err, std_exception, runtime_error}
use gr4_control_plane.Domain.Session.{SessionState}
use gr4_control_plane.Storage
use gr4_control_plane.Storage.Laws.{
  creates, updates, gets, removes, Request, serve_all, serve_all_spec, serve_all-serve_all_spec,
}
use gr4_control_plane.App.SessionService.{Service, InternalLifecyclePhase, record_runtime_failure}
use gr4_control_plane.App.SessionService.Interleaving.{begin, finish, tasks_on, starts, stops}
use gr4_control_plane.App.SessionService.Guarantees.{
  Reachable-exclusive, begin-busy, finish-total, failure-recorded, settled_phase,
}
use gr4_control_plane.App.SessionService.Operations.{
  start, stop, restart, remove, fetch_http_stream, start_runtime, restart_runtime, remove_runtime,
}
use gr4_control_plane.App.SessionService.Outcomes.{
  Ends, EndsRemoved, start_lem, stop_lem, restart_lem, remove_lem,
}
use gr4_control_plane.App.SessionService.Fetch.{Transients, here, later, fetch_http_stream-answer}
use gr4_control_plane.App.SessionService.Operations.{is_transient_http_stream_connect_error}
use gr4_control_plane.App.SessionService.Listing.{list, is_before}
use gr4_control_plane.App.SessionService.Creation.{create_lem}
use gr4_control_plane.App.SessionService.Sections.{create, new_session}
use gr4_control_plane.App.SessionService.Stores.{Puts}
use gr4_control_plane.Prelude.Sorting.{sort}
use gr4_control_plane.Prelude.TextOrder.{str_ltb}
use text.Mathlib.TextEquality.{eq_iff}
use gr4_control_plane.Tests.Fixtures.{
  session_in, service_with, counting, world_with, stopped_a, running_a, created, created-Reachable,
  start_task, at_work, at_work-Reachable,
}

abbrev requests : List Request
requests =
    creates stopped_a
    ∷ creates stopped_a
    ∷ updates running_a
    ∷ gets "a"
    ∷ removes "a"
    ∷ gets "a"
    ∷ []

serve_all-serve_all_spec_example : serve_all requests [] ≡ serve_all_spec requests (λ _. none)
unfolding Storage.get Dict.lookup
serve_all-serve_all_spec_example = serve_all-serve_all_spec requests [] (λ _. none) (λ _. refl)

Reachable-exclusive_example : tasks_on "a" at_work.tasks ≤ 1
Reachable-exclusive_example = Reachable-exclusive "a" at_work-Reachable

begin-busy_example : begin stops "a" at_work ≡ at_work
unfolding string_eq
begin-busy_example = (begin-busy stops "a" at_work-Reachable (omega arith)).1

finish-total_example : (finish starts "a" 9 at_work.service).0 ≡ ok tt
finish-total_example = finish-total at_work-Reachable [] [] start_task 9 refl

failure-recorded_example :
    (record_runtime_failure start_task.session "boom" 9 at_work.service).0
    ≡ err (runtime_error "boom")
failure-recorded_example = (failure-recorded at_work-Reachable [] [] start_task 9 refl "boom").0

settled_phase_example : Dict.lookup "a" created.service.phases ≡ some InternalLifecyclePhase.idle
unfolding Storage.get Dict.lookup string_eq
settled_phase_example =
    settled_phase "a" (new_session "a" "" "g" none 5) created-Reachable refl refl

start_lem_example :
    Ends counting "start" "a" 9 stopped_a SessionState.running InternalLifecyclePhase.running
      (service_with stopped_a InternalLifecyclePhase.idle)
      (start_runtime counting stopped_a 0)
      (start counting "a" 9 (world_with stopped_a InternalLifecyclePhase.idle))
unfolding Storage.get Dict.lookup string_eq
start_lem_example =
    start_lem counting "a" 9 (world_with stopped_a InternalLifecyclePhase.idle) stopped_a refl refl
      refl refl

stop_lem_example :
    Ends counting "stop" "a" 9 running_a SessionState.stopped InternalLifecyclePhase.idle
      (service_with running_a InternalLifecyclePhase.running)
      (counting.stop running_a 0)
      (stop counting "a" 9 (world_with running_a InternalLifecyclePhase.running))
unfolding Storage.get Dict.lookup string_eq
stop_lem_example =
    stop_lem counting "a" 9 (world_with running_a InternalLifecyclePhase.running) running_a refl
      refl refl (λ e. cc)

restart_lem_example :
    Ends counting "restart" "a" 9 running_a SessionState.running InternalLifecyclePhase.running
      (service_with running_a InternalLifecyclePhase.running)
      (restart_runtime counting running_a 0)
      (restart counting "a" 9 (world_with running_a InternalLifecyclePhase.running))
unfolding Storage.get Dict.lookup string_eq
restart_lem_example =
    restart_lem counting "a" 9 (world_with running_a InternalLifecyclePhase.running) running_a refl
      refl refl

remove_lem_example :
    EndsRemoved counting "a" 9 running_a
      (service_with running_a InternalLifecyclePhase.running)
      (remove_runtime counting running_a 0)
      (remove counting "a" 9 (world_with running_a InternalLifecyclePhase.running))
unfolding Storage.get Dict.lookup string_eq
remove_lem_example =
    remove_lem counting "a" 9 (world_with running_a InternalLifecyclePhase.running) running_a refl
      refl refl

-- The first fetch fails to connect, the second is answered.
one_wait : Transients counting running_a "x" 1 0 1
unfolding is_transient_http_stream_connect_error
one_wait = later (std_exception _) _ refl refl refl (here 1)

fetch_http_stream-answer_example :
    fetch_http_stream counting "a" "x" (world_with running_a InternalLifecyclePhase.running) ≡ (
      ok (record { status = 200; body = "x"; content_type = "text/plain" }),
      world_with running_a InternalLifecyclePhase.running,
    )
unfolding Storage.get Dict.lookup string_eq
fetch_http_stream-answer_example =
    fetch_http_stream-answer counting "a" "x" (world_with running_a InternalLifecyclePhase.running)
      running_a refl refl 1 1 0 (omega arith) one_wait refl refl _ refl

abbrev two_sessions : Service
two_sessions = record {
  repository =
      ("b", session_in "b" SessionState.stopped 7)
      ∷ ("a", session_in "a" SessionState.stopped 7)
      ∷ [];
  phases = [];
}

list_two :
    list two_sessions
    ≡ session_in "a" SessionState.stopped 7 ∷ session_in "b" SessionState.stopped 7 ∷ []
unfolding list is_before Storage.list Dict.values sort str_ltb nat_eq
list_two = refl

g_not_empty : ◌≢◌ {A = String} "g" ""
g_not_empty = ground (arith, eq_iff "g" "")

-- The first draw is taken.
create_lem_example :
    (id : String) × (sv : Service) × (Storage.get id created.service.repository ≡ none)
    × (create "n" "g" none ("a" ∷ "b" ∷ []) 9 created.service
        ≡ some (ok (new_session id "n" "g" none 9), sv))
    × Puts id (new_session id "n" "g" none 9) InternalLifecyclePhase.idle created.service sv
unfolding string_eq
create_lem_example =
    create_lem "n" "g" none ("a" ∷ "b" ∷ []) 9 created.service g_not_empty (refl, (refl, tt))
      (omega arith)
