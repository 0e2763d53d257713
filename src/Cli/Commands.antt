-- ===== src/Cli/Commands.antt =====
-- `run_sessions` and `run` of src/cli/cli.cpp. The files that can be read are a parameter.
use gr4_control_plane.Prelude.{
  ℕ, String, ◌<>◌, ◌==◌, string_eq, nat_eq, if◌then◌else◌, Bool, ◌||◌, Option, none, some, List, [],
  ◌∷◌,
}
use gr4_control_plane.Errors.{std_exception, what, Result, ok, err, M, ◌>>=◌, ◌>>◌, pure, throw}
use gr4_control_plane.Cli.Url.{ParsedUrl, parse_url}
use gr4_control_plane.Cli.Options.{CreateOptions, defaults, parse_common_options, parse_create}
use gr4_control_plane.Cli.Requests.{Json, Http, request_json, request_no_content}

abbrev pub usage : String
usage =
    "usage:\n" <> "  gr4cp-cli sessions create --file <path> [--name <name>] [--url <url>]\n"
    <> "  gr4cp-cli sessions list [--url <url>]\n"
    <> "  gr4cp-cli sessions get <id> [--url <url>]\n"
    <> "  gr4cp-cli sessions start <id> [--url <url>]\n"
    <> "  gr4cp-cli sessions stop <id> [--url <url>]\n"
    <> "  gr4cp-cli sessions restart <id> [--url <url>]\n"
    <> "  gr4cp-cli sessions delete <id> [--url <url>]\n"

-- What a run leaves: its exit code, and what it wrote to `out` and `err`.
pub record Exit : Type 0 where
  pub code : ℕ
  pub out : String
  pub error : String

abbrev pub done : {S A : Type 0} → Result A → M S A
done r s = (r, s)

module _ (j : Json) (http : Http) (files : String → Option String) where
  unfoldable pub read_file : String → Result String
  read_file path = elim (files path) [
    | none ↦ err (std_exception ("failed to read file: " <> path))
    | some content ↦ ok content
  ]

  -- `out << pretty_json(…) << '\n'`
  abbrev pub shown : j.Value → M http.State String
  shown answer = do text ← done (j.dump_indented answer); pure (text <> "\n")

  abbrev printed : ParsedUrl → String → String → Option j.Value → M http.State String
  printed server method path body = do
    answer ← request_json j http server method path body
    shown answer

  abbrev send_create : CreateOptions → M http.State String
  send_create options = do
    server ← done (parse_url options.context.url)
    content ← done (read_file options.file_path)
    printed server "POST" "/sessions"
        (some (j.object (("name", options.name) ∷ ("grc", content) ∷ [])))

  abbrev check_file : CreateOptions → M http.State String
  check_file options n =
      if options.file_path == ""
      then (err (std_exception "create requires --file"), n)
      else send_create options n

  -- `sessions create`, on the arguments behind the command.
  unfoldable pub run_create : List String → M http.State String
  unfolding read_file
  run_create args = do options ← done (parse_create defaults args); check_file options

  unfoldable pub run_list : List String → M http.State String
  run_list args = do
    context ← done (parse_common_options args)
    server ← done (parse_url context.url)
    printed server "GET" "/sessions" none

  abbrev deleted : ParsedUrl → String → M http.State String
  deleted server id = do
    request_no_content j http server "DELETE" ("/sessions/" <> id)
    pure ("deleted " <> id <> "\n")

  unfoldable pub send : String → String → ParsedUrl → M http.State String
  send command id server n =
      if command == "get"
      then printed server "GET" ("/sessions/" <> id) none n
      else if command == "start"
      then printed server "POST" ("/sessions/" <> id <> "/start") none n
      else if command == "stop"
      then printed server "POST" ("/sessions/" <> id <> "/stop") none n
      else if command == "restart"
      then printed server "POST" ("/sessions/" <> id <> "/restart") none n
      else deleted server id n

  -- The commands on one session, on the arguments behind the command.
  unfoldable pub run_on_session : String → List String → M http.State String
  unfolding send
  run_on_session command [] = throw (std_exception (command <> " requires a session id"))
  run_on_session command (id ∷ args) = do
    context ← done (parse_common_options args)
    server ← done (parse_url context.url)
    send command id server

  abbrev pub is_on_session : String → Bool
  is_on_session command =
      command == "get"
      || command == "start"
      || command == "stop"
      || command == "restart"
      || command == "delete"

  -- The body of the `try` block: what is written to `out`.
  unfoldable pub run_command : String → List String → M http.State String
  unfolding run_create run_list run_on_session
  run_command command args n =
      if command == "create"
      then run_create args n
      else if command == "list"
      then run_list args n
      else if is_on_session command
      then run_on_session command args n
      else (err (std_exception ("unknown sessions command: " <> command)), n)

  -- Both handlers. What is no `std::exception` leaves `run`.
  abbrev pub exit_of : Result String → Result Exit
  exit_of (ok text) = ok (record { code = 0; out = text; error = "" })
  exit_of (err e) = elim (what e) [
    | some message ↦ ok (record { code = 1; out = ""; error = message <> "\n" })
    | none ↦ err e
  ]

  abbrev handled : Result String × http.State → Result Exit × http.State
  handled (r, n) = (exit_of r, n)

  abbrev refuse : M http.State Exit
  refuse n = (ok (record { code = 1; out = ""; error = usage }), n)

  unfoldable pub run_sessions : List String → M http.State Exit
  unfolding run_command
  run_sessions [] n = refuse n
  run_sessions (first ∷ []) n = refuse n
  run_sessions (first ∷ command ∷ args) n =
      if first == "sessions" then handled (run_command command args n) else refuse n

  unfoldable pub run : List String → M http.State Exit
  unfolding run_sessions
  run [] = refuse
  run (arg ∷ args) = run_sessions (arg ∷ args)
