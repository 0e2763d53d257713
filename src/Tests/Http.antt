-- ===== src/Tests/Http.antt =====
-- Requests over HTTP.
use gr4_control_plane.Prelude.{
  ℕ, String, ◌<>◌, ◌≡◌, refl, string_eq, ◌==◌, if◌then◌else◌, none, some, List, [], ◌∷◌, arith,
}
use gr4_control_plane.Prelude.Dict
use gr4_control_plane.Errors.{
  Exception, std_exception, runtime_error, not_found_error, Result, ok, err, M,
}
use gr4_control_plane.Json.{
  Json, null, binary, bool, number, float, string, object, array, Members, no_members, member,
  Elements, no_elements, element,
}
use gr4_control_plane.Domain.Catalog.{BlockDescriptor, SchedulerDescriptor}
use gr4_control_plane.Storage
use gr4_control_plane.Runtime.Manager.{RuntimeManager, staged}
use gr4_control_plane.App.SessionService.{InternalLifecyclePhase, runtime_message}
use gr4_control_plane.App.SessionService.Operations.{World, start_runtime, remove_runtime}
use gr4_control_plane.Api.Messages.{
  Libraries, Request, Response, value, parse_error, set_no_content_response, parse_json_body,
  parse_settings_mode,
}
use gr4_control_plane.Api.Sessions.{get_session, post_start, delete_session, post_sessions, decoded}
use gr4_control_plane.Api.Targets.{decode_percent_encoded}
use gr4_control_plane.Api.Render.{blocks_to_json, schedulers_to_json, session_to_json}
use gr4_control_plane.App.SessionService.Sections.{new_session}
use gr4_control_plane.App.SessionService.Stores.{Puts}
use gr4_control_plane.App.BlockCatalog
use gr4_control_plane.App.SchedulerCatalog
use gr4_control_plane.Prelude.Int.{pos}
use gr4_control_plane.Main.{main, main-serves}
use gr4_control_plane.Api.Server.{Services, serve, Route}
use gr4_control_plane.Api.Answers.{answer, answer_error}
use gr4_control_plane.Api.Answers.Lifecycle.{start_it, failure-shown, delete_session-gone}
use gr4_control_plane.Api.Answers.Created.{
  IsNewSession, IsRefusedWith, post_sessions-malformed, post_sessions-shown,
}
use gr4_control_plane.Api.Answers.Always.{serve-answers}
use gr4_control_plane.Api.Answers.Unknown.{serve-unknown}
use gr4_control_plane.Tests.Fixtures.{counting, world_with, service_with, stopped_a, running_a}
use gr4_control_plane.Tests.Values.{writer}
use gr4_control_plane.Tests.Settings.{nesting, one_block}
use text.Mathlib.TextEquality.{eq_iff}

mutual
  show : Json (Unit {0}) → String
  show null = "null"
  show binary = "binary"
  show (bool b) = if b then "true" else "false"
  show (number n) = "0"
  show (float d) = "0.0"
  show (string s) = s
  show (object items) = "{" <> show_members items
  show (array items) = "[" <> show_elements items

  show_members : Members (Unit {0}) → String
  show_members no_members = "}"
  show_members (member key item items) = key <> ":" <> show item <> "," <> show_members items

  show_elements : Elements (Unit {0}) → String
  show_elements no_elements = "]"
  show_elements (element item items) = show item <> "," <> show_elements items

abbrev new_body : Json (Unit {0})
new_body = object (member "grc" (string "g") (member "name" (string "n") no_members))

abbrev libraries : Libraries (Unit {0})
libraries = record {
  parse = λ s. if s == "{" then parse_error else value new_body;
  dump = λ j. ok (show j);
  text = λ _. "x";
  format_timestamp = λ _. "now";
}

abbrev request_of : String → Request
request_of body = record { body = body; get_param_value = λ _. ""; get_header_value = λ _. "" }

-- Nothing can be prepared.
abbrev failing : RuntimeManager (Unit {0})
failing = record counting { prepare = λ s n. (err (std_exception "no gpu"), n) }

abbrev failing_world : World failing
failing_world = record { service = service_with stopped_a InternalLifecyclePhase.idle; runtime = 0 }

failure-shown_example :
    (post_start failing libraries "a" 9 failing_world).0
    ≡ ok (
        answer_error libraries show
          (λ j. refl)
          (runtime_error (runtime_message "start" "a" (std_exception "no gpu"))))
unfolding string_eq Storage.get Dict.lookup start_runtime
failure-shown_example =
    (failure-shown failing libraries show (λ j. refl) "a" 9 failing_world stopped_a refl refl refl
      (std_exception "no gpu") 0 start_it refl refl).0

delete_session-gone_example :
    (delete_session counting libraries "a" 9
      (world_with running_a InternalLifecyclePhase.running)).0
    ≡ ok set_no_content_response
unfolding string_eq Storage.get Dict.lookup remove_runtime
delete_session-gone_example =
    (delete_session-gone counting libraries show (λ j. refl) "a" 9
      (world_with running_a InternalLifecyclePhase.running) running_a refl refl refl 2 refl).0

abbrev nothing_stored : World counting
nothing_stored = record { service = record { repository = []; phases = [] }; runtime = 0 }

post_sessions-malformed_example :
    (e : Exception) × IsRefusedWith libraries (request_of "{") parse_error e
    × (post_sessions counting libraries (request_of "{") [] 9 nothing_stored
        ≡ some (ok (answer_error libraries show (λ j. refl) e), nothing_stored))
unfolding string_eq
post_sessions-malformed_example =
    post_sessions-malformed counting libraries show (λ j. refl) (request_of "{") [] 9 nothing_stored
      parse_error refl tt

new_body-IsNewSession : IsNewSession new_body
unfolding string_eq Dict.lookup
new_body-IsNewSession = record { grc = ground (arith, eq_iff "g" ""); name = tt; scheduler_id = tt }

post_sessions-shown_example :
    (id : String) × (later : World counting) × (Storage.get id [] ≡ none)
    × (let shown =
          session_to_json libraries.format_timestamp (new_session id "n" "g" none 9) none in
        (post_sessions counting libraries (request_of "new") ("a" ∷ "b" ∷ []) 9 nothing_stored
          ≡ some (ok (answer libraries show (λ j. refl) shown 201), later))
        × (get_session counting libraries id later
            ≡ (ok (answer libraries show (λ j. refl) shown 200), later))
        × Puts id
            (new_session id "n" "g" none 9)
            InternalLifecyclePhase.idle
            nothing_stored.service
            later.service)
unfolding string_eq Dict.lookup
post_sessions-shown_example =
    post_sessions-shown counting libraries show (λ j. refl) (request_of "new") ("a" ∷ "b" ∷ []) 9
      nothing_stored new_body refl new_body-IsNewSession (refl, (refl, tt)) (omega arith)

abbrev provide_no_blocks : M ℕ (List (BlockDescriptor (Unit {0})))
provide_no_blocks n = (ok [], n)

abbrev provide_no_schedulers : M ℕ (List SchedulerDescriptor)
provide_no_schedulers n = (ok [], n)

abbrev services :
    Services one_block libraries writer nesting provide_no_blocks provide_no_schedulers
services = record {
  sessions = record { service = record { repository = []; phases = [] }; runtime = [] };
  blocks = record { cache = none; provider = 0 };
  schedulers = record { cache = none; provider = 0 };
}

serve-answers_example :
    (a : Result Response
      × Services one_block libraries writer nesting provide_no_blocks provide_no_schedulers)
    × (serve one_block libraries writer nesting provide_no_blocks provide_no_schedulers
          Route.get_sessions
          (request_of "")
          ("a" ∷ [])
          9
          services
        ≡ some a)
    × ((r : Response) × (a.0 ≡ ok r))
unfolding string_eq
serve-answers_example =
    serve-answers one_block libraries show (λ j. refl) writer nesting provide_no_blocks
      provide_no_schedulers Route.get_sessions (request_of "") ("a" ∷ []) 9 services (refl, tt)
      (omega arith)

serve-unknown_example :
    serve one_block libraries writer nesting provide_no_blocks provide_no_schedulers
      (Route.post_settings "a" [])
      (request_of "{}")
      []
      9
      services
    ≡ some (
      ok (answer_error libraries show (λ j. refl) (not_found_error "session not found: a")),
      services,
    )
unfolding string_eq Storage.get Dict.lookup decoded parse_json_body parse_settings_mode
    decode_percent_encoded
serve-unknown_example =
    serve-unknown one_block libraries show (λ j. refl) writer nesting provide_no_blocks
      provide_no_schedulers (Route.post_settings "a" []) (request_of "{}") [] 9 services
      (("x", refl), (new_body, refl), (staged, refl)) refl

-- The services once both catalogs, without entries, are loaded.
abbrev listening :
    Services one_block libraries writer nesting provide_no_blocks provide_no_schedulers
listening = record {
  sessions = record { service = record { repository = []; phases = [] }; runtime = [] };
  blocks = record { cache = some (BlockCatalog.catalog_of []); provider = 0 };
  schedulers = record { cache = some (SchedulerCatalog.catalog_of []); provider = 0 };
}

main-serves_example :
    (blocks : List (BlockDescriptor (Unit {0}))) × (schedulers : List SchedulerDescriptor) × (serve
        one_block libraries writer nesting provide_no_blocks provide_no_schedulers Route.get_blocks
        (request_of "")
        []
        9
        listening
      ≡ some (ok (answer libraries show (λ j. refl) (blocks_to_json blocks) 200), listening))
    × (serve one_block libraries writer nesting provide_no_blocks provide_no_schedulers
          Route.get_schedulers
          (request_of "")
          []
          9
          listening
        ≡ some
            (ok (answer libraries show (λ j. refl) (schedulers_to_json schedulers) 200), listening))
unfolding main BlockCatalog.list BlockCatalog.cached_catalog SchedulerCatalog.list
    SchedulerCatalog.cached_catalog
main-serves_example =
    main-serves one_block libraries writer nesting provide_no_blocks provide_no_schedulers show
      (λ j. refl) none [] 0 0 (pos 8080) listening (request_of "") [] 9 refl
