-- ===== src/App/SessionService/Interleaving.antt =====
-- Requests are served by many threads. Each locked section is one step, and the runtime works
-- between the two sections of a task: a system is the service's state with the tasks that are
-- between their sections, in any order, and a step is a section of any request or task.
use gr4_control_plane.Prelude.{
  ℕ, suc, String, ◌≡◌, ◌==◌, string_eq, if◌then◌else◌, Option, some, List, [], ◌∷◌, ◌++◌,
}
use gr4_control_plane.Errors.{Result, ok, err}
use gr4_control_plane.Domain.Session.{Session}
use gr4_control_plane.App.SessionService.{Service, record_runtime_failure}
use gr4_control_plane.App.SessionService.Sections.{
  begin_start, Entry, return_now, go_on, begin_stop, begin_restart, begin_remove, finish_running,
  finish_stop, finish_remove, create,
}

pub data Transition : Type 0 where
  starts stops restarts removes : Transition

-- A request between its sections, with the copy of the session that it has loaded.
pub record Task : Type 0 where
  pub transition : Transition
  pub id : String
  pub session : Session

pub record System : Type 0 where
  pub service : Service
  pub tasks : List Task

-- The first section ends the request, or leaves it to the runtime.
abbrev pub entered : Transition → String → List Task → Result Session × Service → System
entered t id ts (ok s, service) = record {
  service = service;
  tasks = record { transition = t; id = id; session = s } ∷ ts;
}
entered t id ts (err e, service) = record { service = service; tasks = ts }

abbrev pub entered_stop : String → List Task → Result Entry × Service → System
entered_stop id ts (ok (return_now s), service) = record { service = service; tasks = ts }
entered_stop id ts (ok (go_on s), service) = record {
  service = service;
  tasks = record { transition = stops; id = id; session = s } ∷ ts;
}
entered_stop id ts (err e, service) = record { service = service; tasks = ts }

unfoldable pub begin : Transition → String → System → System
begin starts id u = entered starts id u.tasks (begin_start id u.service)
begin stops id u = entered_stop id u.tasks (begin_stop id u.service)
begin restarts id u = entered restarts id u.tasks (begin_restart id u.service)
begin removes id u = entered removes id u.tasks (begin_remove id u.service)

abbrev outcome : {A : Type 0} → Result A → Result (Unit {0})
outcome (ok _) = ok tt
outcome (err e) = err e

abbrev without_result : {A : Type 0} → Result A × Service → Result (Unit {0}) × Service
without_result (r, service) = (outcome r, service)

-- The last section of a task whose runtime calls returned.
unfoldable pub finish : Transition → String → ℕ → Service → Result (Unit {0}) × Service
finish starts id now service = without_result (finish_running id now service)
finish stops id now service = without_result (finish_stop id now service)
finish restarts id now service = without_result (finish_running id now service)
finish removes id now service = finish_remove id service

pub data Step (u : System) : System → Type 0 where
  creates :
      (name grc : String) (scheduler_alias : Option String) (draws : List String) (now : ℕ)
      (r : Result Session × Service)
      → create name grc scheduler_alias draws now u.service ≡ some r
      → Step u (record u { service = r.1 })
  begins : (t : Transition) (id : String) → Step u (begin t id u)
  completes :
      (earlier later : List Task) (t : Task) (now : ℕ)
      → u.tasks ≡ earlier ++ (t ∷ later)
      → Step u (record {
        service = (finish t.transition t.id now u.service).1;
        tasks = earlier ++ later;
      })
  fails :
      (earlier later : List Task) (t : Task) (message : String) (now : ℕ)
      → u.tasks ≡ earlier ++ (t ∷ later)
      → Step u (record {
        service = (record_runtime_failure t.session message now u.service).1;
        tasks = earlier ++ later;
      })

pub data Reachable : System → Type 0 where
  initially : Reachable (record { service = record { repository = []; phases = [] }; tasks = [] })
  after : {u v : System} → Reachable u → Step u v → Reachable v

-- The tasks on one session.
abbrev pub tasks_on : String → List Task → ℕ
tasks_on j [] = 0
tasks_on j (t ∷ ts) = if t.id == j then suc (tasks_on j ts) else tasks_on j ts
