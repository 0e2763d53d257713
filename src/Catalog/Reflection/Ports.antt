-- ===== src/Catalog/Reflection/Ports.antt =====
-- Ports and port collections: `to_ports` of src/catalog/gr4_block_catalog_provider.cpp and what it uses.
use gr4_control_plane.Prelude.{
  ℕ, suc, ◌-◌, String, ◌<>◌, ◌==◌, string_eq, nat_eq, if◌then◌else◌, Bool, not, ◌&&◌, ◌||◌,
  contains, Option, none, some, List, [], ◌∷◌, ◌++◌,
}
use gr4_control_plane.Prelude.Int.{ℤ, pos}
use gr4_control_plane.Domain.Catalog.{BlockParameterDefault, default_int, BlockParameterDescriptor}
use Prim.Native.Char.{Char, code}

abbrev is_counted : String → Bool
is_counted name = name == "n_inputs" || name == "n_outputs" || name == "n_ports"

unfoldable pub port_count_lower_bound : String → Option ℤ
port_count_lower_bound name = if is_counted name then some (pos 1) else none

unfoldable pub port_count_upper_bound : String → Option ℤ
port_count_upper_bound name = if is_counted name then some (pos 32) else none

abbrev behind : Char → Option String → Option String
behind c none = none
behind c (some s) = some (String.◌∷◌ c s)

-- What stands before a suffix, if the text ends with it.
unfoldable pub before_suffix : String → String → Option String
before_suffix suffix String.[] = if "" == suffix then some "" else none
before_suffix suffix (String.◌∷◌ c s) =
    let rest = before_suffix suffix s in if String.◌∷◌ c s == suffix then some "" else behind c rest

abbrev non_empty : Option String → Option String
non_empty none = none
non_empty (some s) = if s == "" then none else some s

unfoldable pub singular : String → String
unfolding before_suffix
singular base = elim (non_empty (before_suffix "ies" base)) [
  | some stem ↦ stem <> "y"
  | none ↦ elim (non_empty (before_suffix "s" base)) [ some stem ↦ stem | none ↦ base ]
]

unfoldable pub plural : String → String
unfolding before_suffix
plural base = elim (before_suffix "s" base) [
  | some _ ↦ base
  | none ↦ elim (non_empty (before_suffix "y" base)) [
    | some stem ↦ stem <> "ies"
    | none ↦ base <> "s"
  ]
]

abbrev patterns : String → List String
patterns alias =
    ("n_" <> alias) ∷ ("num_" <> alias) ∷ alias ∷ (alias <> "_count") ∷ ("count_" <> alias) ∷ []

unfoldable pub candidates : String → Bool → List String
unfolding singular plural
candidates base is_input =
    patterns base
    ++ ((if not (singular base == base) then patterns (singular base) else [])
        ++ ((if not (plural base == base) && not (plural base == singular base)
              then patterns (plural base)
              else [])
            ++ (patterns (if is_input then "in" else "out")
                ++ (patterns (if is_input then "input" else "output")
                    ++ patterns (if is_input then "inputs" else "outputs")))))

-- The loop that keeps what is not `seen`.
unfoldable pub unique_candidates : List String → List String → List String
unique_candidates seen [] = []
unique_candidates seen (candidate ∷ rest) =
    let present = contains seen candidate in
    let kept = unique_candidates (if present then seen else candidate ∷ seen) rest in
    if present then kept else candidate ∷ kept

module _ {D : Type 0} where
  -- `std::find_if` by the name.
  unfoldable pub find_parameter :
      String → List (BlockParameterDescriptor D) → Option (BlockParameterDescriptor D)
  find_parameter name [] = none
  find_parameter name (parameter ∷ parameters) =
      if parameter.name == name then some parameter else find_parameter name parameters

  unfoldable pub first_match : List String → List (BlockParameterDescriptor D) → Option String
  unfolding find_parameter
  first_match [] parameters = none
  first_match (candidate ∷ rest) parameters = elim (find_parameter candidate parameters) [
    | some _ ↦ some candidate
    | none ↦ first_match rest parameters
  ]

  unfoldable pub infer_collection_size_parameter :
      String → Bool → List (BlockParameterDescriptor D) → Option String
  unfolding candidates unique_candidates first_match
  infer_collection_size_parameter collection_name is_input parameters =
      first_match (unique_candidates [] (candidates collection_name is_input)) parameters

  abbrev pub int_of : BlockParameterDefault D → Option ℤ
  int_of (default_int n) = some n
  int_of _ = none

  unfoldable pub parameter_default_int : BlockParameterDescriptor D → Option ℤ
  parameter_default_int parameter = int_of parameter.default_value

abbrev is_blank : Char → Bool
is_blank c = code c == 32 || code c == 9 || code c == 10 || code c == 13

unfoldable pub trim_left : String → String
trim_left String.[] = ""
trim_left (String.◌∷◌ c s) = let rest = trim_left s in if is_blank c then rest else String.◌∷◌ c s

abbrev keep_left : Char → String → String
keep_left c rest = if rest == "" && is_blank c then "" else String.◌∷◌ c rest

unfoldable pub trim_right : String → String
trim_right String.[] = ""
trim_right (String.◌∷◌ c s) = keep_left c (trim_right s)

unfoldable pub trim_copy : String → String
unfolding trim_left trim_right
trim_copy value = trim_right (trim_left value)

-- What stands behind the first '<', and before the last '>'.
unfoldable pub after_open : String → Option String
after_open String.[] = none
after_open (String.◌∷◌ c s) = let rest = after_open s in if code c == 60 then some s else rest

unfoldable pub before_close : String → Option String
before_close String.[] = none
before_close (String.◌∷◌ c s) = elim (before_close s) [
  | some rest ↦ some (String.◌∷◌ c rest)
  | none ↦ if code c == 62 then some "" else none
]

abbrev depth_after : ℕ → ℕ → ℕ
depth_after c depth = if c == 60 then suc depth else if c == 62 then depth - 1 else depth

-- The loop to the first comma outside of nested arguments.
unfoldable pub first_argument : ℕ → String → String
first_argument depth String.[] = ""
first_argument depth (String.◌∷◌ c s) =
    let rest = first_argument (depth_after (code c) depth) s in
    if code c == 44 && depth == 0 then "" else String.◌∷◌ c rest

abbrev unless_empty : String → Option String
unless_empty s = if s == "" then none else some s

-- There are no arguments if the last '>' stands before the first '<', or right behind it.
unfoldable pub infer_collection_element_type : String → Option String
unfolding after_open before_close first_argument trim_copy
infer_collection_element_type block_id = elim (after_open block_id) [
  | none ↦ none
  | some rest ↦ elim (before_close rest) [
    | none ↦ none
    | some args ↦ if args == "" then none else unless_empty (trim_copy (first_argument 0 args))
  ]
]
