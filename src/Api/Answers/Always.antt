-- ===== src/Api/Answers/Always.antt =====
-- Every request is answered.
use gr4_control_plane.Prelude.{
  ℕ, ◌<◌, String, ◌≡◌, string_eq, refl, ap, inl, inr, Option, some, List, length,
}
use gr4_control_plane.Prelude.Dict.{Dict}
use gr4_control_plane.Errors.{Result, ok, Result-cases, M, throw}
use gr4_control_plane.Json.{Json}
use gr4_control_plane.Domain.Catalog.{BlockDescriptor, SchedulerDescriptor}
use gr4_control_plane.Domain.Session.{Session}
use gr4_control_plane.Pmt.{Pmt, PmtWriter}
use gr4_control_plane.Runtime.Manager.{RuntimeManager}
use gr4_control_plane.App.BlockSettings.Conversion.{Nesting}
use gr4_control_plane.App.SessionService.{Service}
use gr4_control_plane.App.SessionService.Sections.{create}
use gr4_control_plane.App.SessionService.Creation.{Distinct, create_empty, create_lem}
use gr4_control_plane.App.SessionService.Operations.{World}
use gr4_control_plane.Api.Messages.{Libraries, Request, Response, execute}
use gr4_control_plane.Api.Sessions
use gr4_control_plane.Api.Sessions.{read_new_session}
use gr4_control_plane.Api.Catalogs
use gr4_control_plane.Api.Settings
use gr4_control_plane.Api.Server.{
  Route, get_healthz, get_blocks, get_schedulers, post_sessions, get_sessions, get_block,
  get_scheduler, get_stream, get_websocket, get_settings, post_settings, get_session,
  delete_session, post_start, post_stop, post_restart, Services, serve,
}
use gr4_control_plane.Api.Answers.{execute_of_ok, execute_of_err, set_json_response-answer}

module _ {D : Type 0} (lib : Libraries D) (dump : Json D → String)
    (dumps : (j : Json D) → lib.dump j ≡ ok (dump j)) where
  execute-total :
      {S : Type 0} (m : M S Response) (s : S) → (r : Response) × ((execute lib m s).0 ≡ ok r)
  execute-total m s = elim (Result-cases (m s).0) [
    | inl (r, e) ↦
        (r, ap (λ c. c.0) (execute_of_ok lib dump dumps m s (m s).1 r (λ i. (e i, (m s).1))))
    | inr (x, e) ↦
        (_, ap (λ c. c.0) (execute_of_err lib dump dumps m s (m s).1 x (λ i. (e i, (m s).1))))
  ]

create-total :
    (name grc : String) (scheduler_alias : Option String) (draws : List String) (now : ℕ)
    (sv : Service)
    → Distinct draws
    → length sv.repository < length draws
    → (c : Result Session × Service) × (create name grc scheduler_alias draws now sv ≡ some c)
create-total name grc scheduler_alias draws now sv distinct enough = elim (string_eq.dec grc "") [
  | yes e ↦ (_, create_empty name grc scheduler_alias draws now sv e)
  | no n ↦
      let (_, _, _, created, _) =
        create_lem name grc scheduler_alias draws now sv n distinct enough in
      (_, created)
]

module _ {PropertyMap D : Type 0} (rm : RuntimeManager PropertyMap) (lib : Libraries D)
    (dump : Json D → String) (dumps : (j : Json D) → lib.dump j ≡ ok (dump j)) (request : Request)
    (draws : List String) (now : ℕ) (w : World rm) where
  abbrev Answered : Option (Result Response × World rm) → Type 0
  Answered c = (a : Result Response × World rm) × (c ≡ some a) × ((r : Response) × (a.0 ≡ ok r))

  post_sessions-total :
      Distinct draws
      → length w.service.repository < length draws
      → Answered (Sessions.post_sessions rm lib request draws now w)
  unfolding Sessions.post_sessions
  post_sessions-total distinct enough = elim (Result-cases (read_new_session lib request)) [
    | inr (e, q) ↦ (
      execute lib (throw e) w,
      rw (q, Sessions.post_sessions) refl,
      execute-total lib dump dumps (throw e) w,
    )
    | inl (body, q) ↦
        let (c, created) =
          create-total body.name body.grc body.scheduler_id draws now w.service distinct enough in
        (
          execute lib (Sessions.answer_created rm lib c) w,
          rw (q, created, Sessions.post_sessions) refl,
          execute-total lib dump dumps (Sessions.answer_created rm lib c) w,
        )
  ]

module _ {p : Pmt} (rm : RuntimeManager (Dict String p.Value)) (lib : Libraries p.Double)
    (dump : Json p.Double → String) (dumps : (j : Json p.Double) → lib.dump j ≡ ok (dump j))
    (w : PmtWriter p) (nesting : Nesting p) {PB PS : Type 0}
    (provide_blocks : M PB (List (BlockDescriptor p.Double)))
    (provide_schedulers : M PS (List SchedulerDescriptor)) where
  -- Each request of each route is answered, whatever the runtime manager, the providers and the parser
  -- do, if each JSON value can be written and more distinct ids are drawn than there are sessions.
  pub serve-answers :
      (route : Route) (request : Request) (draws : List String) (now : ℕ)
      (st : Services rm lib w nesting provide_blocks provide_schedulers)
      → Distinct draws
      → length st.sessions.service.repository < length draws
      → (a : Result Response × Services rm lib w nesting provide_blocks provide_schedulers) × (serve
            rm lib w nesting provide_blocks provide_schedulers route request draws now st
          ≡ some a)
        × ((r : Response) × (a.0 ≡ ok r))
  unfolding serve Catalogs.get_healthz Catalogs.get_blocks Catalogs.get_block
      Catalogs.get_schedulers Catalogs.get_scheduler Sessions.get_sessions Sessions.get_stream
      Sessions.get_websocket Sessions.get_session Sessions.delete_session Sessions.post_start
      Sessions.post_stop Sessions.post_restart Settings.post_settings Settings.get_settings
  serve-answers get_healthz request draws now st h k =
      (_, refl, (_, set_json_response-answer lib dump dumps _ _))
  serve-answers post_sessions request draws now st h k =
      let (a, q, answered) =
        post_sessions-total rm lib dump dumps request draws now st.sessions h k in
      ((a.0, record st { sessions = a.1 }), rw (q, serve) refl, answered)
  serve-answers get_blocks request draws now st h k = (_, refl, execute-total lib dump dumps _ _)
  serve-answers get_schedulers request draws now st h k =
      (_, refl, execute-total lib dump dumps _ _)
  serve-answers get_sessions request draws now st h k = (_, refl, execute-total lib dump dumps _ _)
  serve-answers (get_block id) request draws now st h k =
      (_, refl, execute-total lib dump dumps _ _)
  serve-answers (get_scheduler id) request draws now st h k =
      (_, refl, execute-total lib dump dumps _ _)
  serve-answers (get_stream id b) request draws now st h k =
      (_, refl, execute-total lib dump dumps _ _)
  serve-answers (get_websocket id b) request draws now st h k =
      (_, refl, execute-total lib dump dumps _ _)
  serve-answers (get_settings id b) request draws now st h k =
      (_, refl, execute-total lib dump dumps _ _)
  serve-answers (post_settings id b) request draws now st h k =
      (_, refl, execute-total lib dump dumps _ _)
  serve-answers (get_session id) request draws now st h k =
      (_, refl, execute-total lib dump dumps _ _)
  serve-answers (delete_session id) request draws now st h k =
      (_, refl, execute-total lib dump dumps _ _)
  serve-answers (post_start id) request draws now st h k =
      (_, refl, execute-total lib dump dumps _ _)
  serve-answers (post_stop id) request draws now st h k =
      (_, refl, execute-total lib dump dumps _ _)
  serve-answers (post_restart id) request draws now st h k =
      (_, refl, execute-total lib dump dumps _ _)
