-- ===== src/Api/Answers/Lifecycle.antt =====
-- The answers to `start`, `stop`, `restart` and `DELETE`, and what a `GET` shows after them.
use gr4_control_plane.Prelude.{
  ℕ, String, ◌<>◌, ◌≡◌, ◌≢◌, refl, subst, false, none, some, arith, ◌==◌, string_eq, if◌then◌else◌,
}
use gr4_control_plane.Prelude.Dict
use gr4_control_plane.Errors.{Exception, not_found_error, runtime_error, Result, ok, err, M, ◌>>=◌}
use gr4_control_plane.Json.{Json}
use gr4_control_plane.Domain.Session.{Session, SessionState, is_running}
use gr4_control_plane.Storage
use gr4_control_plane.Runtime.Manager.{RuntimeManager}
use gr4_control_plane.App.SessionService.{InternalLifecyclePhase, phase_of_state, runtime_message}
use gr4_control_plane.App.SessionService.Operations.{
  World, start_runtime, start, stop, restart_runtime, restart, remove_runtime, remove,
}
use gr4_control_plane.App.SessionService.Outcomes.{
  Ends, EndsRemoved, start_lem, stop_lem, restart_lem, remove_lem,
}
use gr4_control_plane.Api.Render.{session_to_json}
use gr4_control_plane.Api.Messages.{Libraries, Response, execute, set_no_content_response}
use gr4_control_plane.Api.Sessions.{
  get_session, delete_session, post_start, post_stop, post_restart,
}
use gr4_control_plane.Api.Answers.{
  answer, answer_error, execute-throw, execute-pure, get_session-at_rest, get_session-missing,
}

-- The requests that change the state of a session.
pub data Change : Type 0 where
  start_it stop_it restart_it delete_it : Change

abbrev pub word : Change → String
word start_it = "start"
word stop_it = "stop"
word restart_it = "restart"
word delete_it = "remove"

-- The states in which the runtime is called.
abbrev pub Applies : Change → Session → Type 0
Applies start_it s = is_running s.state ≡ false
Applies stop_it s = s.state ≢ SessionState.stopped
Applies restart_it s = Unit {0}
Applies delete_it s = Unit {0}

abbrev pub failed_session : Session → ℕ → String → Session
failed_session s now message = record s {
  state = SessionState.error;
  last_error = some message;
  updated_at = now;
}

module _ {PropertyMap D : Type 0} (rm : RuntimeManager PropertyMap) (lib : Libraries D) where
  abbrev pub calls : Change → Session → M rm.State (Unit {0})
  calls start_it s = start_runtime rm s
  calls stop_it s = rm.stop s
  calls restart_it s = restart_runtime rm s
  calls delete_it s = remove_runtime rm s

  abbrev pub handler : Change → String → ℕ → M (World rm) Response
  handler start_it = post_start rm lib
  handler stop_it = post_stop rm lib
  handler restart_it = post_restart rm lib
  handler delete_it = delete_session rm lib

module _ {PropertyMap D : Type 0} (rm : RuntimeManager PropertyMap) (lib : Libraries D)
    (dump : Json D → String) (dumps : (j : Json D) → lib.dump j ≡ ok (dump j)) (id : String)
    (now : ℕ) (w : World rm) (s : Session) (found : Storage.get id w.service.repository ≡ some s)
    (keyed : s.id ≡ id)
    (settled : Dict.lookup id w.service.phases ≡ some (phase_of_state s.state)) where
  module _ (e : Exception) (rt : rm.State) where
    -- What `Ends` and `EndsRemoved` say of calls that fail.
    abbrev Failed : {A : Type 0} → String → Result A × World rm → Type 0
    Failed action r =
        (r.0 ≡ err (runtime_error (runtime_message action id e)))
        × (Storage.get id r.1.service.repository
            ≡ some (failed_session s now (runtime_message action id e)))

    Ends-Failed :
        (action : String) (st : SessionState) (p : InternalLifecyclePhase)
        (c : Result (Unit {0}) × rm.State) (r : Result Session × World rm)
        → c ≡ (err e, rt)
        → Ends rm action id now s st p w.service c r
        → Failed action r
    Ends-Failed action st p c r h ends =
        let (thrown, _, put) = subst (λ c. Ends rm action id now s st p w.service c r) (h) ends in
        (thrown, ground (arith, put.session_at id))

    EndsRemoved-Failed :
        (c : Result (Unit {0}) × rm.State) (r : Result (Unit {0}) × World rm)
        → c ≡ (err e, rt)
        → EndsRemoved rm id now s w.service c r
        → Failed "remove" r
    EndsRemoved-Failed c r h ends =
        let (thrown, _, put) = subst (λ c. EndsRemoved rm id now s w.service c r) (h) ends in
        (thrown, ground (arith, put.session_at id))

    -- The answer to a failure, and what is shown afterwards.
    abbrev Shows : Change → M (World rm) Response → Type 0
    Shows c m =
        let message = runtime_message (word c) id e in
        let (answered, later) = m w in
        (answered ≡ ok (answer_error lib dump dumps (runtime_error message)))
        × (get_session rm lib id later ≡ (
          ok (
              answer lib dump dumps
                (session_to_json lib.format_timestamp (failed_session s now message) none) 200),
          later,
        ))

    Failed-Shows :
        {A : Type 0} (c : Change) (m : M (World rm) A) (f : A → M (World rm) Response)
        → Failed (word c) (m w)
        → Shows c (execute lib (m >>= f))
    Failed-Shows c m f (thrown, there) =
        let message = runtime_message (word c) id e in
        let shown = failed_session s now message in
        rw (execute-throw lib dump dumps m f w (runtime_error message) thrown)
          (refl, get_session-at_rest lib dump dumps rm id (m w).1 shown there keyed refl)

    -- If the runtime's calls fail in a `start`, `stop`, `restart` or `DELETE` of a session whose phase is
    -- that of its state, and they are made in that state, the answer is a runtime error, 500, with the
    -- message, and a `GET` then answers 200 with the session in state error and with that message.
    pub failure-shown :
        (c : Change)
        → Applies c s
        → calls rm lib c s w.runtime ≡ (err e, rt)
        → Shows c (handler rm lib c id now)
    unfolding post_start post_stop post_restart delete_session
    failure-shown start_it a h =
        Failed-Shows start_it (start rm id now) _
          (Ends-Failed "start" _ _ _ _ h (start_lem rm id now w s found keyed settled a))
    failure-shown stop_it a h =
        Failed-Shows stop_it (stop rm id now) _
          (Ends-Failed "stop" _ _ _ _ h (stop_lem rm id now w s found keyed settled a))
    failure-shown restart_it a h =
        Failed-Shows restart_it (restart rm id now) _
          (Ends-Failed "restart" _ _ _ _ h (restart_lem rm id now w s found keyed settled))
    failure-shown delete_it a h =
        Failed-Shows delete_it (remove rm id now) _
          (EndsRemoved-Failed _ _ h (remove_lem rm id now w s found keyed settled))

  -- If the runtime's calls succeed, a `DELETE` of such a session is answered 204 without content, and a
  -- `GET` of it is then answered 404 as not found, while every other session is as it was.
  pub delete_session-gone :
      (rt : rm.State)
      → remove_runtime rm s w.runtime ≡ (ok tt, rt)
      → let (answered, later) = delete_session rm lib id now w in
        (answered ≡ ok set_no_content_response)
        × (get_session rm lib id later ≡ (
          ok (answer_error lib dump dumps (not_found_error ("session not found: " <> id))),
          later,
        ))
        × ((j : String)
            → Storage.get j later.service.repository
              ≡ (if j == id then none else Storage.get j w.service.repository))
  unfolding delete_session
  delete_session-gone rt h =
      let (done, _, gone) =
        subst (λ c. EndsRemoved rm id now s w.service c (remove rm id now w)) h
          (remove_lem rm id now w s found keyed settled) in
      rw (execute-pure lib dump dumps (remove rm id now) (λ _. set_no_content_response) w tt done) (
        refl,
        get_session-missing lib dump dumps rm id (remove rm id now w).1 (ground (arith, gone id)),
        λ j. (gone j).0,
      )
