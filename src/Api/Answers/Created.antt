-- ===== src/Api/Answers/Created.antt =====
-- The answers to `POST /sessions`.
use gr4_control_plane.Prelude.{
  ℕ, ◌<◌, String, ◌≡◌, ◌≢◌, refl, ◌⊎◌, inl, inr, ◌==◌, string_eq, if◌then◌else◌, Option, none, some,
  List, length, arith,
}
use gr4_control_plane.Errors.{Exception, validation_error, Result, ok, err, throw}
use gr4_control_plane.Json.{Json, null, binary, bool, number, float, string, object, array}
use gr4_control_plane.Storage
use gr4_control_plane.Runtime.Manager.{RuntimeManager}
use gr4_control_plane.App.SessionService.{idle}
use gr4_control_plane.App.SessionService.Sections.{new_session}
use gr4_control_plane.App.SessionService.Creation.{Distinct, create_lem}
use gr4_control_plane.App.SessionService.Stores.{Puts}
use gr4_control_plane.App.SessionService.Operations.{World}
use gr4_control_plane.Api.Render.{session_to_json}
use gr4_control_plane.Api.Messages.{
  Libraries, Request, Parsed, value, parse_error, failure, parse_json_body, find_member, grc_of,
  name_of, scheduler_id_of, get_required_grc, get_optional_name, get_optional_scheduler_id, execute,
}
use gr4_control_plane.Api.Sessions.{NewSession, read_new_session, post_sessions, get_session}
use gr4_control_plane.Api.Answers.{
  answer, answer_error, execute_of_err, set_json_response-answer, get_session-at_rest,
}

abbrev pub unless_blank : String → Option String
unless_blank s = if s == "" then none else some s

abbrev IsRefused : {A : Type 0} → Result A → Type 0
IsRefused {A} r = (m : String) × (r ≡ err (validation_error m))

module _ {D : Type 0} where
  abbrev pub IsContent : Option (Json D) → Type 0
  IsContent (some (string s)) = s ≢ ""
  IsContent _ = ⊥

  abbrev pub IsOptionalText : Option (Json D) → Type 0
  IsOptionalText none = Unit {0}
  IsOptionalText (some null) = Unit {0}
  IsOptionalText (some (string s)) = Unit {0}
  IsOptionalText _ = ⊥

  -- A body that describes a session: a graph with content and, if they are there and not null, a name
  -- and a scheduler that are texts.
  pub record IsNewSession (body : Json D) : Type 0 where
    pub grc : IsContent (find_member "grc" body)
    pub name : IsOptionalText (find_member "name" body)
    pub scheduler_id : IsOptionalText (find_member "scheduler_id" body)

  abbrev pub text_of : Option (Json D) → String
  text_of (some (string s)) = s
  text_of _ = ""

  -- What such a body describes.
  abbrev pub described : Json D → NewSession
  described body = record {
    name = text_of (find_member "name" body);
    grc = text_of (find_member "grc" body);
    scheduler_id = unless_blank (text_of (find_member "scheduler_id" body));
  }

  grc_of-content :
      (o : Option (Json D)) → IsContent o → (grc_of o ≡ ok (text_of o)) × (text_of o ≢ "")
  grc_of-content (some (string s)) h = (ground arith, h)
  grc_of-content none h = absurd h
  grc_of-content (some null) h = absurd h
  grc_of-content (some binary) h = absurd h
  grc_of-content (some (bool b)) h = absurd h
  grc_of-content (some (number b)) h = absurd h
  grc_of-content (some (float b)) h = absurd h
  grc_of-content (some (object b)) h = absurd h
  grc_of-content (some (array b)) h = absurd h

  texts_of :
      (o : Option (Json D))
      → IsOptionalText o
      → (name_of o ≡ ok (text_of o)) × (scheduler_id_of o ≡ ok (unless_blank (text_of o)))
  texts_of none h = (refl, ground arith)
  texts_of (some null) h = (refl, ground arith)
  texts_of (some (string s)) h = (refl, refl)
  texts_of (some binary) h = absurd h
  texts_of (some (bool b)) h = absurd h
  texts_of (some (number b)) h = absurd h
  texts_of (some (float b)) h = absurd h
  texts_of (some (object b)) h = absurd h
  texts_of (some (array b)) h = absurd h

  -- Each part of a body is read as it is described, or refused.
  grc_of-cases : (o : Option (Json D)) → IsContent o ⊎ IsRefused (grc_of o)
  grc_of-cases none = inr (_, refl)
  grc_of-cases (some (string s)) = elim (string_eq.dec s "") [
    | yes e ↦ inr ("grc must be a non-empty string", ground arith)
    | no n ↦ inl n
  ]
  grc_of-cases (some null) = inr (_, refl)
  grc_of-cases (some binary) = inr (_, refl)
  grc_of-cases (some (bool b)) = inr (_, refl)
  grc_of-cases (some (number b)) = inr (_, refl)
  grc_of-cases (some (float b)) = inr (_, refl)
  grc_of-cases (some (object b)) = inr (_, refl)
  grc_of-cases (some (array b)) = inr (_, refl)

  texts_of-cases :
      (o : Option (Json D))
      → IsOptionalText o ⊎ (IsRefused (name_of o) × IsRefused (scheduler_id_of o))
  texts_of-cases none = inl tt
  texts_of-cases (some null) = inl tt
  texts_of-cases (some (string s)) = inl tt
  texts_of-cases (some binary) = inr ((_, refl), (_, refl))
  texts_of-cases (some (bool b)) = inr ((_, refl), (_, refl))
  texts_of-cases (some (number b)) = inr ((_, refl), (_, refl))
  texts_of-cases (some (float b)) = inr ((_, refl), (_, refl))
  texts_of-cases (some (object b)) = inr ((_, refl), (_, refl))
  texts_of-cases (some (array b)) = inr ((_, refl), (_, refl))

module _ {D : Type 0} (lib : Libraries D) (request : Request) where
  parse_json_body-value :
      (body : Json D) → lib.parse request.body ≡ value body → parse_json_body lib request ≡ ok body
  unfolding parse_json_body
  parse_json_body-value body p = rw (p, parse_json_body) refl

  parse_json_body-no_json :
      lib.parse request.body ≡ parse_error
      → parse_json_body lib request ≡ err (validation_error "request body must be valid JSON")
  unfolding parse_json_body
  parse_json_body-no_json p = rw (p, parse_json_body) refl

  read_new_session-described :
      (body : Json D)
      → lib.parse request.body ≡ value body
      → IsNewSession body
      → read_new_session lib request ≡ ok (described body)
  unfolding read_new_session get_required_grc get_optional_name get_optional_scheduler_id
  read_new_session-described body p h =
      rw
        (
          parse_json_body-value body p,
          (texts_of (find_member "name" body) h.name).0,
          (grc_of-content (find_member "grc" body) h.grc).0,
          (texts_of (find_member "scheduler_id" body) h.scheduler_id).1,
        )
        refl

  -- What a body that describes no session is refused with: a validation error, or what `Json::parse`
  -- throws if that is no `parse_error`.
  unfoldable pub IsRefusedWith : Parsed D → Exception → Type 0
  IsRefusedWith (value body) e = (m : String) × (e ≡ validation_error m)
  IsRefusedWith parse_error e = e ≡ validation_error "request body must be valid JSON"
  IsRefusedWith (failure thrown) e = e ≡ thrown

  abbrev pub IsMalformed : Parsed D → Type 0
  IsMalformed (value body) = IsNewSession body → ⊥
  IsMalformed parse_error = Unit {0}
  IsMalformed (failure thrown) = Unit {0}

  parse_json_body-failure :
      (e : Exception) → lib.parse request.body ≡ failure e → parse_json_body lib request ≡ err e
  unfolding parse_json_body
  parse_json_body-failure e p = rw (p, parse_json_body) refl

  read_new_session-malformed :
      (parsed : Parsed D)
      → lib.parse request.body ≡ parsed
      → IsMalformed parsed
      → (e : Exception) × IsRefusedWith parsed e × (read_new_session lib request ≡ err e)
  unfolding read_new_session get_required_grc get_optional_name get_optional_scheduler_id
      IsRefusedWith
  read_new_session-malformed parse_error p h = (_, refl, rw (parse_json_body-no_json p) refl)
  read_new_session-malformed (failure e) p h = (e, refl, rw (parse_json_body-failure e p) refl)
  read_new_session-malformed (value body) p h =
      let parsed = parse_json_body-value body p in
      elim (texts_of-cases (find_member "name" body)) [
        | inr ((m, q), _) ↦ (_, (m, refl), rw (parsed, q) refl)
        | inl name ↦
            let n = (texts_of (find_member "name" body) name).0 in
            elim (grc_of-cases (find_member "grc" body)) [
              | inr (m, q) ↦ (_, (m, refl), rw (parsed, n, q) refl)
              | inl grc ↦
                  let g = (grc_of-content (find_member "grc" body) grc).0 in
                  elim (texts_of-cases (find_member "scheduler_id" body)) [
                    | inr (_, (m, q)) ↦ (_, (m, refl), rw (parsed, n, g, q) refl)
                    | inl scheduler ↦
                        absurd (h (record { grc = grc; name = name; scheduler_id = scheduler }))
                  ]
            ]
      ]

module _ {PropertyMap D : Type 0} (rm : RuntimeManager PropertyMap) (lib : Libraries D)
    (dump : Json D → String) (dumps : (j : Json D) → lib.dump j ≡ ok (dump j)) (request : Request)
    (draws : List String) (now : ℕ) (w : World rm) where
  -- A `POST` of a session whose body describes none changes nothing, if JSON can be written. It is
  -- answered as a validation error, 400, if the body is parsed, or is refused by a `parse_error`; and
  -- as the exception that `Json::parse` throws, if that is another (such as one for a number that no
  -- double holds).
  pub post_sessions-malformed :
      (parsed : Parsed D)
      → lib.parse request.body ≡ parsed
      → IsMalformed lib request parsed
      → (e : Exception) × IsRefusedWith lib request parsed e
        × (post_sessions rm lib request draws now w ≡ some (ok (answer_error lib dump dumps e), w))
  unfolding post_sessions
  post_sessions-malformed parsed p h =
      let (e, refused, r) = read_new_session-malformed lib request parsed p h in
      (e, refused, rw (r, post_sessions, execute_of_err lib dump dumps (throw e) w w _ refl) refl)

  -- If a body describes a session, and more distinct ids are drawn than there are sessions, a session
  -- as described is stored under an id that was free, the answer is 201 with its JSON, and a `GET` of
  -- the id is then answered 200 with the same JSON.
  pub post_sessions-shown :
      (body : Json D)
      → lib.parse request.body ≡ value body
      → IsNewSession body
      → Distinct draws
      → length w.service.repository < length draws
      → let new = described body in
        (id : String) × (later : World rm) × (Storage.get id w.service.repository ≡ none)
        × (let shown =
              session_to_json lib.format_timestamp
                (new_session id new.name new.grc new.scheduler_id now)
                none in
            (post_sessions rm lib request draws now w
              ≡ some (ok (answer lib dump dumps shown 201), later))
            × (get_session rm lib id later ≡ (ok (answer lib dump dumps shown 200), later))
            × Puts id
                (new_session id new.name new.grc new.scheduler_id now)
                idle
                w.service
                later.service)
  unfolding post_sessions execute
  post_sessions-shown body p h distinct enough =
      let new = described body in
      let (id, service, free, created, put) =
        create_lem new.name new.grc new.scheduler_id draws now w.service
          (grc_of-content (find_member "grc" body) h.grc).1 distinct enough in
      let s = new_session id new.name new.grc new.scheduler_id now in
      let later : World rm = record w { service = service } in
      (
        id,
        later,
        free,
        (
          rw
              (
                read_new_session-described lib request body p h,
                created,
                set_json_response-answer lib dump dumps,
                post_sessions,
                execute,
              )
              refl,
          get_session-at_rest lib dump dumps rm id later s (ground (arith, put.session_at id)) refl
              refl,
          put,
        ),
      )
