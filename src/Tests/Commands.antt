-- ===== src/Tests/Commands.antt =====
-- The command-line client, with a server that answers every request.
use gr4_control_plane.Prelude.{
  ℕ, suc, String, ◌≡◌, ◌≢◌, refl, Option, none, some, List, [], ◌∷◌, false, string_eq, nat_eq,
}
use gr4_control_plane.Prelude.Int.{pos}
use gr4_control_plane.Prelude.Bytes.{strip_prefix, split_last}
use gr4_control_plane.Errors.{ok, continue}
use gr4_control_plane.Cli.Url.{ParsedUrl, parse_url, stoi, read_digits, skip_spaces}
use gr4_control_plane.Cli.Options.{CreateOption, file, name, spell, default_url}
use gr4_control_plane.Cli.Requests.{Json, value, Http, Response, required, json_of}
use gr4_control_plane.Cli.Commands.{run_create, shown}
use gr4_control_plane.Cli.Guarantees.{run-create}

abbrev texts : Json
texts = record {
  Value = String;
  parse = λ s. value s;
  null = "null";
  object = λ fields. "{}";
  find = λ key body. none;
  is_object = λ body. false;
  as_string = λ body. none;
  dump = λ body. ok body;
  dump_indented = λ body. ok body;
}

abbrev answer : ℕ → Option Response × ℕ
answer n = (some (record { status = 200; body = "{}" }), suc n)

abbrev server : Http
server = record {
  State = ℕ;
  get = λ url path n. answer n;
  delete = λ url path n. answer n;
  post = λ url path payload n. answer n;
}

abbrev files : String → Option String
files path = some "blocks: []"

abbrev create_options : List CreateOption
create_options = name "demo" ∷ file "demo.grc" ∷ []

abbrev local_server : ParsedUrl
local_server = record { scheme = "http"; host = "127.0.0.1"; port = pos 8080 }

default_url-parsed : parse_url default_url ≡ ok local_server
unfolding parse_url stoi strip_prefix split_last read_digits skip_spaces string_eq nat_eq
default_url-parsed = refl

differs_host : ◌≢◌ {A = String} "::1" ""
differs_host e = cc

differs_port : ◌≢◌ {A = String} "80" ""
differs_port e = cc

differs_file : ◌≢◌ {A = String} "demo.grc" ""
differs_file e = cc

run-create_example :
    run_create texts server files (spell create_options) 0
    ≡ continue
        (continue
          (required texts server (server.post local_server "/sessions" "{}" 0))
          (json_of texts server))
        (shown texts server files)
run-create_example =
    run-create texts server files create_options 0 local_server "blocks: []" "{}" differs_file
      default_url-parsed refl refl
