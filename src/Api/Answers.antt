-- ===== src/Api/Answers.antt =====
-- What the handlers of src/api/http_server.cpp answer, where `dump` writes every value.
pub mod Lifecycle
pub mod Created
pub mod Unknown
pub mod Always
use gr4_control_plane.Prelude.{
  ℕ, String, ◌<>◌, ◌≡◌, refl, false, string_eq, none, some, arith, List, [], ◌∷◌,
}
use gr4_control_plane.Errors.{
  Exception, not_found_error, Result, ok, err, M, ◌>>=◌, pure, continue_of_err, continue_of_ok,
}
use gr4_control_plane.Json.{Json}
use gr4_control_plane.Domain.Session.{Session, SessionState, is_running}
use gr4_control_plane.Storage
use gr4_control_plane.Runtime.Manager.{RuntimeManager}
use gr4_control_plane.App.SessionService.{Service}
use gr4_control_plane.App.SessionService.Operations.{World, load_if_running, active_stream_plan}
use gr4_control_plane.App.SessionService.Sections.{get}
use gr4_control_plane.Api.Errors.{current_error_details, ErrorDetails}
use gr4_control_plane.Api.Render.{session_to_json}
use gr4_control_plane.Api.Messages.{
  Libraries, Response, content, set_json_response, error_body, set_error_response, handle_exception,
  respond, execute,
}
use gr4_control_plane.Api.Sessions.{get_session}

module _ {D : Type 0} (lib : Libraries D) (dump : Json D → String)
    (dumps : (j : Json D) → lib.dump j ≡ ok (dump j)) where
  -- A response with a JSON body.
  abbrev pub answer : Json D → ℕ → Response
  answer body status = content status (dump body) "application/json"

  -- The answer to an exception.
  abbrev pub answer_error : Exception → Response
  answer_error e =
      let details = current_error_details e in
      answer (error_body lib details.code details.message) details.status

  pub set_json_response-answer :
      (body : Json D) (status : ℕ) → set_json_response lib body status ≡ ok (answer body status)
  unfolding set_json_response
  set_json_response-answer body status = rw (dumps body) refl

  pub handle_exception-answer : (e : Exception) → handle_exception lib e ≡ ok (answer_error e)
  unfolding handle_exception set_error_response
  handle_exception-answer e = set_json_response-answer _ _

  pub execute_of_ok :
      {S : Type 0} (m : M S Response) (s s' : S) (r : Response)
      → m s ≡ (ok r, s')
      → execute lib m s ≡ (ok r, s')
  unfolding execute
  execute_of_ok m s s' r h = rw h refl

  pub execute_of_err :
      {S : Type 0} (m : M S Response) (s s' : S) (e : Exception)
      → m s ≡ (err e, s')
      → execute lib m s ≡ (ok (answer_error e), s')
  unfolding execute
  execute_of_err m s s' e h = rw (h, handle_exception-answer e) refl

  -- What stands behind a throw is not answered.
  pub execute-throw :
      {S A : Type 0} (m : M S A) (f : A → M S Response) (s : S) (e : Exception)
      → (m s).0 ≡ err e
      → execute lib (m >>= f) s ≡ (ok (answer_error e), (m s).1)
  execute-throw m f s e h = execute_of_err (m >>= f) s (m s).1 e (continue_of_err (m s) f e h)

  pub execute-pure :
      {S A : Type 0} (m : M S A) (f : A → Response) (s : S) (a : A)
      → (m s).0 ≡ ok a
      → execute lib (m >>= λ a. pure (f a)) s ≡ (ok (f a), (m s).1)
  execute-pure m f s a h =
      execute_of_ok (m >>= λ a. pure (f a)) s (m s).1 (f a)
        (continue_of_ok (m s) (λ a. pure (f a)) a h)

  module _ {PropertyMap : Type 0} (rm : RuntimeManager PropertyMap) (id : String)
      (w : World rm) where
    module _ (s : Session) (found : Storage.get id w.service.repository ≡ some s)
        (keyed : s.id ≡ id) (at_rest : is_running s.state ≡ false) where
      get-found : get id w.service ≡ (ok s, w.service)
      unfolding get
      get-found = ground arith

      active_stream_plan-at_rest : active_stream_plan rm s.id w ≡ (ok none, w)
      unfolding active_stream_plan load_if_running
      active_stream_plan-at_rest = ground arith

      -- A session that does not run is shown without streams.
      pub get_session-at_rest :
          get_session rm lib id w
          ≡ (ok (answer (session_to_json lib.format_timestamp s none) 200), w)
      unfolding get_session execute
      get_session-at_rest =
          rw (get-found, active_stream_plan-at_rest, set_json_response-answer, get_session) refl

    pub get_session-missing :
        Storage.get id w.service.repository ≡ none
        → get_session rm lib id w
          ≡ (ok (answer_error (not_found_error ("session not found: " <> id))), w)
    unfolding get_session get execute
    get_session-missing h = rw (h, handle_exception-answer) refl
