-- ===== src/Catalog/Libraries.antt =====
-- The plugin libraries of src/catalog/gr4_block_catalog_provider.cpp: how they are found and staged.
-- The file system is a parameter.
use gr4_control_plane.Prelude.{
  String, ◌<>◌, ◌==◌, string_eq, nat_eq, if◌then◌else◌, Bool, true, false, ◌&&◌, ◌||◌, Option, none,
  some, List, [], ◌∷◌, ◌++◌,
}
use gr4_control_plane.Prelude.Bytes.{starts_with, strip_prefix}
use gr4_control_plane.Errors.{Exception, Result, ok, err, M, ◌>>=◌, pure, throw}
use gr4_control_plane.Catalog.Reflection.Names.{contains_text}
use gr4_control_plane.Catalog.Reflection.Ports.{before_suffix}
use Prim.Native.Char.{Char, code}

-- `std::filesystem::path`, with what the library says of it; `text` is the absolute path.
pub record LibraryPath : Type 0 where
  pub text : String
  pub filename : String
  pub extension : String

pub record Entry : Type 0 where
  pub is_regular_file : Bool
  pub path : LibraryPath

-- `entries` is none for what is no directory. `symlink` and `copy` tell whether they succeed.
pub record FileSystem (S : Type 0) : Type 0 where
  pub entries : String → M S (Option (List Entry))
  pub create_stage_directory : M S String
  pub symlink : String → String → S → Bool × S
  pub copy : String → String → S → Bool × S
  pub unique_sorted : List LibraryPath → List LibraryPath

abbrev cut_token : String × List String → String × List String
cut_token (token, tokens) = ("", token ∷ tokens)

abbrev push_char : Char → String × List String → String × List String
push_char c (token, tokens) = (String.◌∷◌ c token, tokens)

unfoldable pub colon_tokens : String → String × List String
colon_tokens String.[] = ("", [])
colon_tokens (String.◌∷◌ c s) =
    let rest = colon_tokens s in if code c == 58 then cut_token rest else push_char c rest

abbrev non_empty : List String → List String
non_empty [] = []
non_empty (token ∷ tokens) = if token == "" then non_empty tokens else token ∷ non_empty tokens

unfoldable pub split_plugin_directories : String → List String
unfolding colon_tokens
split_plugin_directories paths =
    let (token, tokens) = colon_tokens paths in non_empty (token ∷ tokens)

-- On Linux.
unfoldable pub is_shared_library : LibraryPath → Bool
is_shared_library path = path.extension == ".so"

unfoldable pub is_likely_gr4_library : LibraryPath → Bool
unfolding is_shared_library
is_likely_gr4_library path =
    is_shared_library path
    && (if starts_with "libGr" path.filename
        then contains_text "Shared" path.filename || contains_text "Plugin" path.filename
        else starts_with "libGood" path.filename && contains_text "Plugin" path.filename)

unfoldable pub is_plugin_library : LibraryPath → Bool
unfolding is_shared_library
is_plugin_library path = is_shared_library path && contains_text "Plugin" path.filename

unfoldable pub is_shared_block_library : LibraryPath → Bool
unfolding is_shared_library
is_shared_block_library path = is_shared_library path && contains_text "Shared" path.filename

abbrev likely : List Entry → List LibraryPath
likely [] = []
likely (entry ∷ entries) =
    if entry.is_regular_file && is_likely_gr4_library entry.path
    then entry.path ∷ likely entries
    else likely entries

abbrev likely_in : Option (List Entry) → List LibraryPath
likely_in none = []
likely_in (some entries) = likely entries

module _ {S : Type 0} (fs : FileSystem S) where
  unfoldable pub likely_libraries : List String → M S (List LibraryPath)
  likely_libraries [] = pure []
  likely_libraries (directory ∷ directories) = do
    entries ← fs.entries directory
    rest ← likely_libraries directories
    pure (likely_in entries ++ rest)

pub record CandidateLibraries : Type 0 where
  pub likely_libraries : List LibraryPath
  pub staged_libraries : List String
  pub staged_plugin_libraries : List String
  pub staged_shared_libraries : List String
  pub plugin_staging_directory : String
  pub shared_staging_directory : String

abbrev add_plugin : Option String → CandidateLibraries → CandidateLibraries
add_plugin none candidates = candidates
add_plugin (some staged) candidates = record candidates {
  staged_libraries = candidates.staged_libraries ++ (staged ∷ []);
  staged_plugin_libraries = candidates.staged_plugin_libraries ++ (staged ∷ []);
}

abbrev add_shared : Option String → CandidateLibraries → CandidateLibraries
add_shared none candidates = candidates
add_shared (some staged) candidates = record candidates {
  staged_libraries = candidates.staged_libraries ++ (staged ∷ []);
  staged_shared_libraries = candidates.staged_shared_libraries ++ (staged ∷ []);
}

module _ {S : Type 0} (fs : FileSystem S) (load_error : String → Exception) where
  abbrev copied : String → String → Bool × S → Result String × S
  copied source destination (true, s) = (ok destination, s)
  copied source destination (false, s) =
      (err (load_error ("failed to stage GNU Radio 4 library: " <> source)), s)

  abbrev linked : String → String → Bool × S → Result String × S
  linked source destination (true, s) = (ok destination, s)
  linked source destination (false, s) = copied source destination (fs.copy source destination s)

  unfoldable pub stage_library : String → String → M S String
  stage_library source destination s = linked source destination (fs.symlink source destination s)

  abbrev pub stage_if : Bool → LibraryPath → String → M S (Option String)
  stage_if false library directory = pure none
  stage_if true library directory = do
    staged ← stage_library library.text (directory <> "/" <> library.filename)
    pure (some staged)

  unfoldable pub stage_all : List LibraryPath → CandidateLibraries → M S CandidateLibraries
  stage_all [] candidates = pure candidates
  stage_all (library ∷ libraries) candidates = do
    plugin ← stage_if (is_plugin_library library) library candidates.plugin_staging_directory
    shared ← stage_if (is_shared_block_library library) library candidates.shared_staging_directory
    stage_all libraries (add_shared shared (add_plugin plugin candidates))

  abbrev stage_found : List LibraryPath → M S CandidateLibraries
  stage_found [] = throw (
      load_error
        "no likely GNU Radio 4 plugin libraries were found in configured plugin directories")
  stage_found (library ∷ libraries) = do
    plugin_directory ← fs.create_stage_directory
    shared_directory ← fs.create_stage_directory
    stage_all (library ∷ libraries) (record {
      likely_libraries = library ∷ libraries;
      staged_libraries = [];
      staged_plugin_libraries = [];
      staged_shared_libraries = [];
      plugin_staging_directory = plugin_directory;
      shared_staging_directory = shared_directory;
    })

  unfoldable pub collect_candidate_libraries : List String → M S CandidateLibraries
  collect_candidate_libraries directories = do
    found ← likely_libraries fs directories
    stage_found (fs.unique_sorted found)

abbrev or_whole : String → Option String → String
or_whole s none = s
or_whole s (some rest) = rest

abbrev without_extension : String → Option String → Option String → String
without_extension s (some stem) _ = stem
without_extension s none (some stem) = stem
without_extension s none none = s

unfoldable pub module_name_from_library : LibraryPath → String
unfolding before_suffix
module_name_from_library path =
    let name = or_whole path.filename (strip_prefix "lib" path.filename) in
    let stem = without_extension name (before_suffix ".so" name) (before_suffix ".dylib" name) in
    or_whole stem (before_suffix "Shared" stem)

abbrev joined : String → String → String
joined value directory = (if value == "" then value else value <> ":") <> directory

abbrev joined_all : String → List String → String
joined_all value [] = value
joined_all value (directory ∷ directories) = joined_all (joined value directory) directories

-- The value that `setenv` is given, if any; `existing` is that of the environment, empty if there is none.
unfoldable pub library_search_path : List String → String → Option String
library_search_path directories existing =
    let value = joined_all "" directories in
    let whole = if existing == "" then value else joined value existing in
    if whole == "" then none else some whole
