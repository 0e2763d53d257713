-- ===== src/Cli/Reports.antt =====
-- How a command of src/cli/cli.cpp goes on from its one request.
use gr4_control_plane.Prelude.{
  String, ◌<>◌, ◌≡◌, ◌≢◌, inl, inr, refl, sym, subst, string_eq, nat_eq, Bool-cases, true, false,
  Option, none, some, List, ◌∷◌, arith,
}
use gr4_control_plane.Errors.{Exception, std_exception, Result, ok, err, continue, then_ok}
use gr4_control_plane.Cli.Url.{ParsedUrl}
use gr4_control_plane.Cli.Requests.{
  Json, Parsed, value, parse_error, failure, Http, Response, required, is_success, json_of,
  no_content_of, thrown, find_error_message,
}
use gr4_control_plane.Cli.Commands.{shown}

-- The request that a command stands for: its method, path and payload.
pub data Asks : String → List String → String → String → String → Type 0 where
  asks_create :
      {command : String}
      → command ≡ "create"
      → (args : List String) (body : String) → Asks command args "POST" "/sessions" body
  asks_list :
      {command : String}
      → command ≡ "list"
      → (args : List String) → Asks command args "GET" "/sessions" ""
  asks_get :
      {command : String}
      → command ≡ "get"
      → (id : String) (args : List String) → Asks command (id ∷ args) "GET" ("/sessions/" <> id) ""
  asks_start :
      {command : String}
      → command ≡ "start"
      → (id : String) (args : List String)
      → Asks command (id ∷ args) "POST" ("/sessions/" <> id <> "/start") ""
  asks_stop :
      {command : String}
      → command ≡ "stop"
      → (id : String) (args : List String)
      → Asks command (id ∷ args) "POST" ("/sessions/" <> id <> "/stop") ""
  asks_restart :
      {command : String}
      → command ≡ "restart"
      → (id : String) (args : List String)
      → Asks command (id ∷ args) "POST" ("/sessions/" <> id <> "/restart") ""
  asks_delete :
      {command : String}
      → command ≡ "delete"
      → (id : String) (args : List String)
      → Asks command (id ∷ args) "DELETE" ("/sessions/" <> id) ""

module _ (j : Json) where
  -- What the body of a success is read as.
  pub data Reads (response : Response) : Result j.Value → Type 0 where
    reads_null : response.body ≡ "" → Reads response (ok j.null)
    reads_value : (body : j.Value) → j.parse response.body ≡ value body → Reads response (ok body)
    reads_no_json :
        (m : String)
        → j.parse response.body ≡ parse_error m
        → Reads response (err (std_exception m))
    reads_failure : (e : Exception) → j.parse response.body ≡ failure e → Reads response (err e)

  -- How a command ends by the response to its request: with a text for `out`, or an exception, which
  -- has the error that the body of a failure names, or else its status.
  pub data Shows (command : String) : List String → Response → Result String → Type 0 where
    shows_body :
        (args : List String) (response : Response) (body : Result j.Value)
        → command ≢ "delete"
        → is_success response.status ≡ true
        → Reads response body
        → Shows command args response
            (then_ok body λ answer. then_ok (j.dump_indented answer) λ text. ok (text <> "\n"))
    shows_deleted :
        (id : String) (args : List String) (response : Response)
        → command ≡ "delete"
        → response.status ≡ 204
        → Shows command (id ∷ args) response (ok ("deleted " <> id <> "\n"))
    shows_failure :
        (args : List String) (response : Response)
        → command ≢ "delete"
        → is_success response.status ≡ false
        → Shows command args response (err (thrown j response (find_error_message j response)))
    shows_kept :
        (args : List String) (response : Response)
        → command ≡ "delete"
        → response.status ≢ 204
        → Shows command args response (err (thrown j response (find_error_message j response)))

  module _ (http : Http) where
    pub data Sends (server : ParsedUrl) (path body : String) (n : http.State)
        : String → Option Response × http.State → Type 0 where
      sends_get : Sends server path body n "GET" (http.get server path n)
      sends_delete : Sends server path body n "DELETE" (http.delete server path n)
      sends_post : Sends server path body n "POST" (http.post server path body n)

    -- Either an exception before any request, or one request, that of the command, and an end by its
    -- response.
    pub data IsReported (command : String) (args : List String) (n : http.State)
        : Result String × http.State → Type 0 where
      unsent : (e : Exception) → IsReported command args n (err e, n)
      unanswered :
          (server : ParsedUrl) (method path body : String) (s : http.State)
          → Asks command args method path body
          → Sends server path body n method (none, s)
          → IsReported command args n (err (std_exception "request failed"), s)
      answered :
          (server : ParsedUrl) (method path body : String) (response : Response) (s : http.State)
          (r : Result String)
          → Asks command args method path body
          → Sends server path body n method (some response, s)
          → Shows command args response r
          → IsReported command args n (r, s)

  module _ (http : Http) (files : String → Option String) where
    json_Reads :
        (response : Response) (s : http.State)
        → is_success response.status ≡ true
        → (body : Result j.Value) × Reads response body × (json_of j http response s ≡ (body, s))
    json_Reads response s h = elim (string_eq.dec response.body "") [
      | yes e ↦ (ok j.null, reads_null e, ground (arith, h, e))
      | no n ↦ of_parsed (j.parse response.body) refl n
    ]
      where
        of_parsed :
            (p : Parsed j.Value)
            → j.parse response.body ≡ p
            → response.body ≢ ""
            → (body : Result j.Value) × Reads response body
              × (json_of j http response s ≡ (body, s))
        of_parsed (value body) p n = (ok body, reads_value body p, ground (arith, h, p, n))
        of_parsed (parse_error m) p n =
            (err (std_exception m), reads_no_json m p, ground (arith, h, p, n))
        of_parsed (failure e) p n = (err e, reads_failure e p, ground (arith, h, p, n))

    after_body :
        (body : Result j.Value) (s : http.State)
        → continue {S = http.State} (body, s) (shown j http files)
          ≡ (then_ok body λ answer. then_ok (j.dump_indented answer) λ text. ok (text <> "\n"), s)
    after_body (err e) s = refl
    after_body (ok answer) s = of_text (j.dump_indented answer) refl
      where
        of_text :
            (text : Result String)
            → j.dump_indented answer ≡ text
            → continue {S = http.State} (ok answer, s) (shown j http files)
              ≡ (then_ok (j.dump_indented answer) (λ text. ok (text <> "\n")), s)
        of_text (ok text) e = rw e refl
        of_text (err x) e = rw e refl

    module _ (command : String) (args : List String) (n : http.State) (server : ParsedUrl)
        (method path body : String) where
      body_shown :
          (response : Response) (s : http.State)
          → Asks command args method path body
          → Sends http server path body n method (some response, s)
          → command ≢ "delete"
          → IsReported http command args n
              (continue (json_of j http response s) (shown j http files))
      body_shown response s asks sends kept = elim (Bool-cases (is_success response.status)) [
        | inl good ↦
            let (body', reads, read) = json_Reads response s good in
            subst (λ c. IsReported http command args n (continue c (shown j http files))) (sym read)
              (subst (IsReported http command args n) (sym (after_body body' s)) (
                answered server method path body response s _ asks sends
                  (shows_body args response body' kept good reads)))
        | inr bad ↦ rw bad (
            answered server method path body response s _ asks sends
              (shows_failure args response kept bad))
      ]

      pub json_IsReported :
          (answer : Option Response × http.State)
          → Asks command args method path body
          → Sends http server path body n method answer
          → command ≢ "delete"
          → IsReported http command args n
              (continue (continue (required j http answer) (json_of j http)) (shown j http files))
      json_IsReported (none, s) asks sends kept = unanswered server method path body s asks sends
      json_IsReported (some response, s) asks sends kept = body_shown response s asks sends kept

      deleted_shown :
          (id : String) (rest : List String) (response : Response) (s : http.State)
          → args ≡ id ∷ rest
          → Asks command args method path body
          → Sends http server path body n method (some response, s)
          → command ≡ "delete"
          → IsReported http command args n (
              continue
                (no_content_of j http response s)
                (λ _ s'. (ok ("deleted " <> id <> "\n"), s')))
      deleted_shown id rest response s named asks sends delete =
          elim (nat_eq.dec response.status 204) [
            | yes e ↦ subst (IsReported http command args n) (sym (gone e)) (
                answered server method path body response s _ asks sends (
                  subst (λ l. Shows command l response (ok ("deleted " <> id <> "\n"))) (sym named)
                    (shows_deleted id rest response delete e)))
            | no d ↦ subst (IsReported http command args n) (sym (kept d)) (
                answered server method path body response s _ asks sends
                  (shows_kept args response delete d))
          ]
        where
          after : Result (Unit {0}) × http.State → Result String × http.State
          after c = continue c (λ _ s'. (ok ("deleted " <> id <> "\n"), s'))

          gone :
              response.status ≡ 204
              → after (no_content_of j http response s) ≡ (ok ("deleted " <> id <> "\n"), s)
          gone e = ground (arith, e)

          kept :
              response.status ≢ 204
              → after (no_content_of j http response s)
                ≡ (err (thrown j response (find_error_message j response)), s)
          kept d = ground (arith, d)

      pub delete_IsReported :
          (id : String) (rest : List String) (answer : Option Response × http.State)
          → args ≡ id ∷ rest
          → Asks command args method path body
          → Sends http server path body n method answer
          → command ≡ "delete"
          → IsReported http command args n (
              continue
                (continue (required j http answer) (no_content_of j http))
                (λ _ s'. (ok ("deleted " <> id <> "\n"), s')))
      delete_IsReported id rest (none, s) named asks sends delete =
          unanswered server method path body s asks sends
      delete_IsReported id rest (some response, s) named asks sends delete =
          deleted_shown id rest response s named asks sends delete
