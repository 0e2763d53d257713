-- ===== src/Api/Messages.antt =====
-- Requests and responses in src/api/http_server.cpp: what is read of a request, and the response by a
-- value or an exception. The types of cpp-httplib and the functions of nlohmann::json are parameters.
use gr4_control_plane.Prelude.{
  ℕ, String, ◌==◌, string_eq, if◌then◌else◌, Bool, true, false, ◌&&◌, ◌||◌, Option, none, some,
  List, [], ◌∷◌,
}
use gr4_control_plane.Prelude.Dict.{Dict, lookup}
use gr4_control_plane.Errors.{Exception, validation_error, Result, ok, err, then_ok, M, try_catch}
use gr4_control_plane.Json.{Json, null, string, object, to_dict}
use gr4_control_plane.Runtime.Manager.{HttpStreamResponse, BlockSettingsMode, staged, immediate}
use gr4_control_plane.Api.Errors.{current_error_details}
use gr4_control_plane.Api.Render.{object_of}
use text.Mathlib.Text.{find?}

-- What `Json::parse` does: it gives a value, or throws a `parse_error` or another exception.
pub data Parsed (D : Type 0) : Type 0 where
  value : Json D → Parsed D
  parse_error : Parsed D
  failure : Exception → Parsed D

-- What the handlers use of the libraries. `dump` throws on a string that is no UTF-8, and `text` is
-- the string of some bytes.
pub record Libraries (D : Type 0) : Type 0 where
  pub parse : String → Parsed D
  pub dump : Json D → Result String
  pub text : List ℕ → String
  pub format_timestamp : ℕ → String

-- `get_param_value` and `get_header_value` give an empty string for what is missing.
pub record Request : Type 0 where
  pub body : String
  pub get_param_value : String → String
  pub get_header_value : String → String

pub record Response : Type 0 where
  pub status : ℕ
  pub body : String
  pub content_type : Option String
  pub headers : Dict String String

-- A response with content; `set_content` sets the type with the body.
abbrev pub content : ℕ → String → String → Response
content status body content_type = record {
  status = status;
  body = body;
  content_type = some content_type;
  headers = [];
}

module _ {D : Type 0} (lib : Libraries D) where
  unfoldable pub set_json_response : Json D → ℕ → Result Response
  set_json_response body status =
      then_ok (lib.dump body) λ text. ok (content status text "application/json")

  abbrev pub error_body : String → String → Json D
  error_body code message =
      object_of
        (("error", object_of (("code", string code) ∷ ("message", string message) ∷ [])) ∷ [])

  unfoldable pub set_error_response : ℕ → String → String → Result Response
  set_error_response status code message = set_json_response (error_body code message) status

  unfoldable pub handle_exception : Exception → Result Response
  handle_exception e =
      let details = current_error_details e in
      set_error_response details.status details.code details.message

  abbrev pub respond : {S : Type 0} → Json D → ℕ → M S Response
  respond body status s = (set_json_response body status, s)

  -- What `handle_exception` throws leaves the handler.
  unfoldable pub execute : {S : Type 0} → M S Response → M S Response
  execute action = try_catch action λ e s. (handle_exception e, s)

  unfoldable pub parse_json_body : Request → Result (Json D)
  parse_json_body request = elim (lib.parse request.body) [
    | value body ↦ ok body
    | parse_error ↦ err (validation_error "request body must be valid JSON")
    | failure e ↦ err e
  ]

unfoldable pub set_no_content_response : Response
set_no_content_response = record { status = 204; body = ""; content_type = none; headers = [] }

unfoldable pub set_http_stream_response : HttpStreamResponse → Response
set_http_stream_response response = content response.status response.body response.content_type

abbrev contains_text : String → String → Bool
contains_text pattern s = elim (find? s pattern) [ none ↦ false | some _ ↦ true ]

unfoldable pub is_websocket_upgrade_request : Request → Bool
is_websocket_upgrade_request request =
    let connection = request.get_header_value "Connection" in
    request.get_header_value "Upgrade" == "websocket"
    && (contains_text "Upgrade" connection || contains_text "upgrade" connection)

unfoldable pub parse_settings_mode : Request → Result BlockSettingsMode
parse_settings_mode request =
    let mode = request.get_param_value "mode" in
    if mode == "" || mode == "staged"
    then ok staged
    else if mode == "immediate"
    then ok immediate
    else err (validation_error "mode must be 'staged' or 'immediate'")

module _ {D : Type 0} where
  -- `body.find(key)`, which finds nothing in what is no object.
  abbrev pub find_member : String → Json D → Option (Json D)
  find_member key (object items) = lookup key (to_dict items)
  find_member key _ = none

  abbrev pub grc_of : Option (Json D) → Result String
  grc_of (some (string s)) =
      if s == "" then err (validation_error "grc must be a non-empty string") else ok s
  grc_of _ = err (validation_error "grc must be a non-empty string")

  unfoldable pub get_required_grc : Json D → Result String
  get_required_grc body = grc_of (find_member "grc" body)

  abbrev pub name_of : Option (Json D) → Result String
  name_of none = ok ""
  name_of (some null) = ok ""
  name_of (some (string s)) = ok s
  name_of (some _) = err (validation_error "name must be a string")

  unfoldable pub get_optional_name : Json D → Result String
  get_optional_name body = name_of (find_member "name" body)

  abbrev pub scheduler_id_of : Option (Json D) → Result (Option String)
  scheduler_id_of none = ok none
  scheduler_id_of (some null) = ok none
  scheduler_id_of (some (string s)) = ok (if s == "" then none else some s)
  scheduler_id_of (some _) = err (validation_error "scheduler_id must be a string")

  unfoldable pub get_optional_scheduler_id : Json D → Result (Option String)
  get_optional_scheduler_id body = scheduler_id_of (find_member "scheduler_id" body)
