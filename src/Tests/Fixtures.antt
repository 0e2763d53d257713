-- ===== src/Tests/Fixtures.antt =====
-- Sessions, services and a runtime manager that answers everything.
use gr4_control_plane.Prelude.{ℕ, String, none, [], ◌∷◌, refl, subst, ◌≡◌, string_eq}
use gr4_control_plane.Prelude.Dict
use gr4_control_plane.Storage
use gr4_control_plane.Errors.{std_exception, ok, err}
use gr4_control_plane.Domain.Session.{Session, SessionState}
use gr4_control_plane.Runtime.Manager.{RuntimeManager}
use gr4_control_plane.App.SessionService.{Service, InternalLifecyclePhase}
use gr4_control_plane.App.SessionService.Operations.{World}
use gr4_control_plane.App.SessionService.Interleaving.{
  System, Task, starts, begin, creates, begins, Reachable, initially, after,
}
use gr4_control_plane.App.SessionService.Sections.{create, new_session, begin_start}

abbrev pub session_in : String → SessionState → ℕ → Session
session_in id state created_at = record {
  id = id;
  name = "";
  grc_content = "blocks: []";
  scheduler_alias = none;
  state = state;
  last_error = none;
  created_at = created_at;
  updated_at = created_at;
}

abbrev pub service_with : Session → InternalLifecyclePhase → Service
service_with s p = record { repository = (s.id, s) ∷ []; phases = (s.id, p) ∷ [] }

-- Every call of the lifecycle succeeds and is counted. The first two fetches fail to connect.
abbrev pub counting : RuntimeManager (Unit {0})
counting = record {
  State = ℕ;
  prepare = λ s n. (ok tt, ℕ.suc n);
  start = λ s n. (ok tt, ℕ.suc n);
  stop = λ s n. (ok tt, ℕ.suc n);
  destroy = λ s n. (ok tt, ℕ.suc n);
  active_stream_plan = λ s n. (ok none, n);
  fetch_http_stream = λ s id. elim [
    | ℕ.zero ↦ (err (std_exception "failed to reach internal HTTP stream endpoint"), 1)
    | ℕ.suc n ↦ (ok (record { status = 200; body = id; content_type = "text/plain" }), n)
  ];
  resolve_websocket_stream = λ s id n. (err (std_exception "no stream"), n);
  set_block_settings = λ s b p m n. (ok tt, n);
  get_block_settings = λ s b n. (ok tt, n);
}

abbrev pub world_with : Session → InternalLifecyclePhase → World counting
world_with s p = record { service = service_with s p; runtime = 0 }

abbrev pub stopped_a : Session
stopped_a = session_in "a" SessionState.stopped 5

abbrev pub running_a : Session
running_a = session_in "a" SessionState.running 5

abbrev pub created : System
created = record {
  service = service_with (new_session "a" "" "g" none 5) InternalLifecyclePhase.idle;
  tasks = [];
}

pub created-Reachable : Reachable created
unfolding create string_eq Storage.get Storage.create Dict.lookup Dict.insert
created-Reachable =
    after initially
      (creates "" "g" none ("a" ∷ []) 5 (ok (new_session "a" "" "g" none 5), created.service) refl)

abbrev pub start_task : Task
start_task = record { transition = starts; id = "a"; session = new_session "a" "" "g" none 5 }

-- A thread has passed the first section of `start`.
abbrev pub at_work : System
at_work = record {
  service = service_with start_task.session InternalLifecyclePhase.starting;
  tasks = start_task ∷ [];
}

begin-at_work : begin starts "a" created ≡ at_work
unfolding begin begin_start string_eq Storage.get Dict.lookup Dict.insert
begin-at_work = refl

pub at_work-Reachable : Reachable at_work
at_work-Reachable = subst Reachable begin-at_work (after created-Reachable (begins starts "a"))
