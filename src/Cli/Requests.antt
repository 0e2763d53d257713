-- ===== src/Cli/Requests.antt =====
-- The requests of src/cli/cli.cpp. cpp-httplib and nlohmann::json are parameters.
use gr4_control_plane.Prelude.{
  ℕ, String, ◌<>◌, ◌==◌, string_eq, nat_eq, if◌then◌else◌, ltb, Bool, not, ◌&&◌, Option, none, some,
  List,
}
use gr4_control_plane.Prelude.Decimal.{decimal}
use gr4_control_plane.Errors.{Exception, std_exception, Result, ok, err, M, ◌>>=◌, throw}
use gr4_control_plane.Cli.Url.{ParsedUrl}

-- What `Json::parse` does: it gives a value, or throws a `parse_error` with a message or another
-- exception.
pub data Parsed (V : Type 0) : Type 0 where
  value : V → Parsed V
  parse_error : String → Parsed V
  failure : Exception → Parsed V

-- What the client uses of `nlohmann::json`. `find` finds nothing in what is no object, and both dumps
-- throw on a string that is no UTF-8.
pub record Json : Type 1 where
  pub Value : Type 0
  pub parse : String → Parsed Value
  pub null : Value
  pub object : List (String × String) → Value
  pub find : String → Value → Option Value
  pub is_object : Value → Bool
  pub as_string : Value → Option String
  pub dump : Value → Result String
  pub dump_indented : Value → Result String

pub record Response : Type 0 where
  pub status : ℕ
  pub body : String

-- A method, a path and a payload, sent by a client for a server: `none` if no response comes.
pub record Http : Type 1 where
  pub State : Type 0
  pub get : ParsedUrl → String → State → Option Response × State
  pub delete : ParsedUrl → String → State → Option Response × State
  pub post : ParsedUrl → String → String → State → Option Response × State

abbrev pub is_success : ℕ → Bool
is_success status = not (ltb status 200) && ltb status 300

module _ (j : Json) where
  abbrev both : Option String → Option String → Option String
  both (some code) (some message) = some (code <> ": " <> message)
  both _ _ = none

  abbrev string_at : String → j.Value → Option String
  string_at key error = elim (j.find key error) [ none ↦ none | some found ↦ j.as_string found ]

  abbrev message_in : Option j.Value → Option String
  message_in none = none
  message_in (some error) =
      if j.is_object error then both (string_at "code" error) (string_at "message" error) else none

  -- The handler takes a `parse_error` alone.
  abbrev message_of : Parsed j.Value → Result (Option String)
  message_of (value body) = ok (message_in (j.find "error" body))
  message_of (parse_error m) = ok none
  message_of (failure e) = err e

  unfoldable pub find_error_message : Response → Result (Option String)
  find_error_message response =
      if response.body == "" then ok none else message_of (j.parse response.body)

  unfoldable pub server_error : Response → Option String → String
  server_error response none = "server returned HTTP " <> decimal response.status
  server_error response (some message) = message

  -- What is thrown at the end of both kinds of request.
  abbrev pub thrown : Response → Result (Option String) → Exception
  thrown response (err e) = e
  thrown response (ok message) = std_exception (server_error response message)

  abbrev fail : {S A : Type 0} → Response → M S A
  fail response = throw (thrown response (find_error_message response))

  abbrev value_of : Parsed j.Value → Result j.Value
  value_of (value body) = ok body
  value_of (parse_error m) = err (std_exception m)
  value_of (failure e) = err e

  module _ (http : Http) where
    abbrev payload : Option j.Value → Result String
    payload none = ok ""
    payload (some body) = j.dump body

    abbrev pub required : Option Response × http.State → Result Response × http.State
    required (none, n) = (err (std_exception "request failed"), n)
    required (some response, n) = (ok response, n)

    abbrev post : ParsedUrl → String → Result String → M http.State Response
    post server path (err e) n = (err e, n)
    post server path (ok text) n = required (http.post server path text n)

    -- `perform_request` and `require_response`.
    unfoldable pub perform_request :
        ParsedUrl → String → String → Option j.Value → M http.State Response
    perform_request server method path body n =
        if method == "GET"
        then required (http.get server path n)
        else if method == "DELETE"
        then required (http.delete server path n)
        else if method == "POST"
        then post server path (payload body) n
        else (err (std_exception "unsupported method"), n)

    abbrev pub json_of : Response → M http.State j.Value
    json_of response n =
        if is_success response.status
        then if response.body == "" then (ok j.null, n) else (value_of (j.parse response.body), n)
        else fail response n

    unfoldable pub request_json :
        ParsedUrl → String → String → Option j.Value → M http.State j.Value
    unfolding perform_request find_error_message server_error
    request_json server method path body = do
      response ← perform_request server method path body
      json_of response

    abbrev pub no_content_of : Response → M http.State (Unit {0})
    no_content_of response n = if response.status == 204 then (ok tt, n) else fail response n

    unfoldable pub request_no_content : ParsedUrl → String → String → M http.State (Unit {0})
    unfolding perform_request find_error_message server_error
    request_no_content server method path = do
      response ← perform_request server method path none
      no_content_of response
