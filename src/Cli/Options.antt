-- ===== src/Cli/Options.antt =====
-- The options of src/cli/cli.cpp: `parse_common_options`, and the loop of `sessions create`.
use gr4_control_plane.Prelude.{
  String, ◌<>◌, ◌==◌, string_eq, if◌then◌else◌, List, [], ◌∷◌, ◌≡◌, refl,
}
use gr4_control_plane.Errors.{std_exception, Result, ok, err}

abbrev pub default_url : String
default_url = "http://127.0.0.1:8080"

pub record CommandContext : Type 0 where
  pub url : String

pub record CreateOptions : Type 0 where
  pub file_path : String
  pub name : String
  pub context : CommandContext

abbrev pub defaults : CreateOptions
defaults = record { file_path = ""; name = ""; context = record { url = default_url } }

-- The loop, on the arguments from `start_index` on.
unfoldable pub parse_common : CommandContext → List String → Result CommandContext
parse_common context [] = ok context
parse_common context (arg ∷ []) =
    if arg == "--url"
    then err (std_exception "--url requires a value")
    else err (std_exception ("unknown option: " <> arg))
parse_common context (arg ∷ value ∷ rest) =
    let parsed = parse_common (record { url = value }) rest in
    if arg == "--url" then parsed else err (std_exception ("unknown option: " <> arg))

unfoldable pub parse_common_options : List String → Result CommandContext
unfolding parse_common
parse_common_options args = parse_common (record { url = default_url }) args

unfoldable pub parse_create : CreateOptions → List String → Result CreateOptions
parse_create options [] = ok options
parse_create options (arg ∷ []) =
    if arg == "--file"
    then err (std_exception "--file requires a value")
    else if arg == "--name"
    then err (std_exception "--name requires a value")
    else if arg == "--url"
    then err (std_exception "--url requires a value")
    else err (std_exception ("unknown option: " <> arg))
parse_create options (arg ∷ value ∷ rest) =
    let with_file = parse_create (record options { file_path = value }) rest in
    let with_name = parse_create (record options { name = value }) rest in
    let with_url = parse_create (record options { context = record { url = value } }) rest in
    if arg == "--file"
    then with_file
    else if arg == "--name"
    then with_name
    else if arg == "--url"
    then with_url
    else err (std_exception ("unknown option: " <> arg))

-- The three options, what each sets, and how a command line spells them.
pub data CreateOption : Type 0 where
  file name url : String → CreateOption

abbrev pub set : CreateOption → CreateOptions → CreateOptions
set (file path) options = record options { file_path = path }
set (name text) options = record options { name = text }
set (url address) options = record options { context = record { url = address } }

abbrev pub set_all : List CreateOption → CreateOptions → CreateOptions
set_all [] options = options
set_all (o ∷ os) options = set_all os (set o options)

abbrev pub spell : List CreateOption → List String
spell [] = []
spell (file path ∷ os) = "--file" ∷ path ∷ spell os
spell (name text ∷ os) = "--name" ∷ text ∷ spell os
spell (url address ∷ os) = "--url" ∷ address ∷ spell os

-- Options in any order and number are read back: what is set last counts.
pub parse_create-spell :
    (os : List CreateOption) (options : CreateOptions)
    → parse_create options (spell os) ≡ ok (set_all os options)
unfolding parse_create string_eq
parse_create-spell [] options = refl
parse_create-spell (file path ∷ os) options = parse_create-spell os (set (file path) options)
parse_create-spell (name text ∷ os) options = parse_create-spell os (set (name text) options)
parse_create-spell (url address ∷ os) options = parse_create-spell os (set (url address) options)
