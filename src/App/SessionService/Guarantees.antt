-- ===== src/App/SessionService/Guarantees.antt =====
-- What callers of the service rely on, whatever the interleaving of their requests.
use gr4_control_plane.Prelude.{
  ℕ, ◌≤◌, ◌<◌, String, ◌≡◌, string_eq, Option, none, some, List, ◌∷◌, ◌++◌, arith,
}
use gr4_control_plane.Prelude.Dict
use gr4_control_plane.Errors.{Result, ok, err, runtime_error, invalid_state_error}
use gr4_control_plane.Domain.Session.{Session, SessionState}
use gr4_control_plane.Storage
use gr4_control_plane.App.SessionService.{
  Service, InternalLifecyclePhase, idle, starting, running, stopping, failed, phase_of_state,
  record_runtime_failure,
}
use gr4_control_plane.App.SessionService.Sections.{
  begin_start, begin_stop, begin_restart, begin_remove,
}
use gr4_control_plane.App.SessionService.Stores.{
  Puts, finish_running-result, finish_stop-result, finish_remove-result,
  record_runtime_failure-result, record_runtime_failure-Puts,
}
use gr4_control_plane.App.SessionService.Interleaving.{
  Transition, starts, stops, restarts, removes, Task, System, begin, finish, Reachable, tasks_on,
}
use gr4_control_plane.App.SessionService.Invariant.{Sound, Reachable-Inv, busy, own_id}

Sound-le_one :
    (j : String) (o : Option Session) (p : Option InternalLifecyclePhase) (n : ℕ)
    → Sound j o p n
    → n ≤ 1
Sound-le_one j none none n h = omega arith
Sound-le_one j none (some p) n h = absurd h
Sound-le_one j (some s) none n h = absurd h
Sound-le_one j (some s) (some idle) n h = omega (arith, h.1.1)
Sound-le_one j (some s) (some running) n h = omega (arith, h.1.1)
Sound-le_one j (some s) (some failed) n h = omega (arith, h.1.1)
Sound-le_one j (some s) (some starting) n h = omega (arith, h.1)
Sound-le_one j (some s) (some stopping) n h = omega (arith, h.1)

-- In every reachable interleaving at most one start, stop, restart or remove is at work on a
-- session.
pub Reachable-exclusive : {u : System} (id : String) → Reachable u → tasks_on id u.tasks ≤ 1
Reachable-exclusive id r = Sound-le_one id _ _ _ ((Reachable-Inv r).sound id)

abbrev IsInvalidState : {A : Type 0} → Result A → Type 0
IsInvalidState (err (invalid_state_error message)) = Unit
IsInvalidState _ = ⊥

-- The outcome of the first section.
abbrev Refused : Transition → String → Service → Type 0
Refused starts id sv = IsInvalidState (begin_start id sv).0
Refused stops id sv = IsInvalidState (begin_stop id sv).0
Refused restarts id sv = IsInvalidState (begin_restart id sv).0
Refused removes id sv = IsInvalidState (begin_remove id sv).0

-- In a reachable system, a request to start, stop, restart or remove a session on which a task is
-- at work throws an `InvalidStateError`, and changes nothing.
pub begin-busy :
    {u : System} (t : Transition) (id : String)
    → Reachable u
    → 0 < tasks_on id u.tasks
    → Refused t id u.service × (begin t id u ≡ u)
unfolding begin begin_start begin_stop begin_restart begin_remove
begin-busy {u} starts id r h = ground (arith, (Reachable-Inv r).sound id)
begin-busy {u} stops id r h = ground (arith, (Reachable-Inv r).sound id)
begin-busy {u} restarts id r h = ground (arith, (Reachable-Inv r).sound id)
begin-busy {u} removes id r h = ground (arith, (Reachable-Inv r).sound id)

module _ {u : System} (r : Reachable u) (earlier later : List Task) (t : Task) (now : ℕ)
    (here : u.tasks ≡ earlier ++ (t ∷ later)) where
  present : (s : Session) × (Storage.get t.id u.service.repository ≡ some s) × (s.id ≡ t.id)
  present = let b = busy u (Reachable-Inv r) earlier later t here in (b.0, b.1, b.2)

  finish-ok : (k : Transition) → (finish k t.id now u.service).0 ≡ ok tt
  unfolding finish
  finish-ok starts = rw (finish_running-result t.id now u.service present.0 present.1 present.2)
  finish-ok stops = rw (finish_stop-result t.id now u.service present.0 present.1 present.2)
  finish-ok restarts = rw (finish_running-result t.id now u.service present.0 present.1 present.2)
  finish-ok removes = finish_remove-result t.id u.service present.0 present.1

  -- In every reachable interleaving the last section of a task at work succeeds: its session is
  -- still there.
  pub finish-total : (finish t.transition t.id now u.service).0 ≡ ok tt
  finish-total = finish-ok t.transition

  -- In a reachable system a task whose runtime calls fail throws that failure, and leaves its own
  -- session in state `error` with the message, in phase `failed`, and every other one as it was.
  pub failure-recorded :
      (message : String)
      → ((record_runtime_failure t.session message now u.service).0 ≡ err (runtime_error message))
        × ((s : Session) × (Storage.get t.id u.service.repository ≡ some s)
            × Puts t.id
                (record s {
                  state = SessionState.error;
                  last_error = some message;
                  updated_at = now;
                })
                failed
                u.service
                (record_runtime_failure t.session message now u.service).1)
  failure-recorded message =
      let own = own_id u (Reachable-Inv r) earlier later t here in
      (
        record_runtime_failure-result t.id now u.service present.0 present.1 present.2 t.session
            message own,
        (
          present.0,
          present.1,
          record_runtime_failure-Puts t.id now u.service present.0 present.1 present.2 t.session
              message own,
        ),
      )

-- In a reachable system, a session on which no task is at work is in the phase of the state that it reports.
pub settled_phase :
    {u : System} (id : String) (s : Session)
    → Reachable u
    → Storage.get id u.service.repository ≡ some s
    → tasks_on id u.tasks ≡ 0
    → Dict.lookup id u.service.phases ≡ some (phase_of_state s.state)
settled_phase {u} id s r found none_at_work = ground (arith, (Reachable-Inv r).sound id)
