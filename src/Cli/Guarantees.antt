-- ===== src/Cli/Guarantees.antt =====
-- What `run` of src/cli/cli.cpp promises.
use gr4_control_plane.Prelude.{String, ◌≡◌, ◌≢◌, nat_eq, Option, some, List, [], ◌∷◌, arith}
use gr4_control_plane.Errors.{ok, continue}
use gr4_control_plane.Cli.Url.{ParsedUrl, parse_url}
use gr4_control_plane.Cli.Options.{
  CreateOptions, CreateOption, defaults, set_all, spell, parse_create-spell,
}
use gr4_control_plane.Cli.Requests.{Json, Http, required, json_of}
use gr4_control_plane.Cli.Exchanges.{request_json-post_body}
use gr4_control_plane.Cli.Commands.{run_create, shown, read_file}

module _ (j : Json) (http : Http) (files : String → Option String) where
  module _ (os : List CreateOption) (n : http.State) where
    abbrev options : CreateOptions
    options = set_all os defaults

    -- `sessions create` with its options in any order sends one POST of the name and the content of the
    -- file, and reads and prints the answer: if a file is named and can be read, the address is one,
    -- and the JSON of both can be dumped (which throws on what is no UTF-8).
    pub run-create :
        (server : ParsedUrl) (content payload : String)
        → options.file_path ≢ ""
        → parse_url options.context.url ≡ ok server
        → files options.file_path ≡ some content
        → j.dump (j.object (("name", options.name) ∷ ("grc", content) ∷ [])) ≡ ok payload
        → run_create j http files (spell os) n
          ≡ continue
              (continue (required j http (http.post server "/sessions" payload n)) (json_of j http))
              (shown j http files)
    unfolding run_create read_file
    run-create server content payload named address readable dumped =
        let sent = request_json-post_body j http server "/sessions" n _ payload dumped in
        ground (arith, parse_create-spell os defaults, sent)
