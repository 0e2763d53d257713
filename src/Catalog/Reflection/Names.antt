-- ===== src/Catalog/Reflection/Names.antt =====
-- Names and categories: the functions on texts of src/catalog/gr4_block_catalog_provider.cpp.
use gr4_control_plane.Prelude.{
  String, ◌<>◌, ◌==◌, string_eq, nat_eq, if◌then◌else◌, Bool, true, false, not, ◌&&◌, ◌||◌, Option,
  none, some, List, [], ◌∷◌,
}
use gr4_control_plane.Prelude.Chars.{toupper, tolower, isspace}
use Prim.Native.Char.{Char, code}
use text.Mathlib.Text.{find?}

abbrev pub contains_text : String → String → Bool
contains_text pattern s = elim (find? s pattern) [ none ↦ false | some _ ↦ true ]

abbrev is_separator : Char → Bool
is_separator c = code c == 95 || code c == 45 || code c == 46

abbrev recased : Bool → Char → Char
recased capitalize c = if capitalize then toupper c else tolower c

abbrev space : Char
space = Prim.Native.Char.char 32 tt

-- The loop, by its flag and what is left.
unfoldable pub title_case : Bool → String → String
unfolding toupper tolower
title_case capitalize String.[] = ""
title_case capitalize (String.◌∷◌ c s) = elim (is_separator c) [
  | true ↦ String.◌∷◌ space (title_case true s)
  | false ↦ let ch = recased capitalize c in String.◌∷◌ ch (title_case (isspace ch) s)
]

unfoldable pub to_title_case : String → String
unfolding title_case
to_title_case value = title_case true value

abbrev is_id_separator : Char → Bool
is_id_separator c = code c == 46 || code c == 47 || code c == 58

-- What stands behind `find_last_of("./:")`.
unfoldable pub after_last : String → Option String
after_last String.[] = none
after_last (String.◌∷◌ c s) = elim (after_last s) [
  | some rest ↦ some rest
  | none ↦ if is_id_separator c then some s else none
]

unfoldable pub derive_name_from_id : String → String
unfolding after_last to_title_case
derive_name_from_id id = elim (after_last id) [
  | none ↦ to_title_case id
  | some raw_name ↦ to_title_case raw_name
]

-- `block_name`, by `block.name()`.
unfoldable pub block_name : String → String → String
unfolding derive_name_from_id
block_name reflected_name id =
    if not (reflected_name == "")
      && not (reflected_name == id)
      && not (contains_text "::" reflected_name)
    then reflected_name
    else derive_name_from_id id

abbrev is_special : Char → Bool
is_special c = code c == 60 || code c == 62 || code c == 40 || code c == 41 || code c == 44

-- `find_first_of("<>(),") == npos`
unfoldable pub has_no_special : String → Bool
has_no_special String.[] = true
has_no_special (String.◌∷◌ c s) = not (is_special c) && has_no_special s

unfoldable pub is_sane_explicit_category : String → Bool
unfolding has_no_special
is_sane_explicit_category value = not (value == "") && has_no_special value

abbrev push : Char → String × List String → String × List String
push c (token, tokens) = (String.◌∷◌ c token, tokens)

abbrev cut : String × List String → String × List String
cut (token, tokens) = ("", token ∷ tokens)

-- The tokens between the places of "::".
unfoldable pub split_tokens : String → String × List String
split_tokens String.[] = ("", [])
split_tokens (String.◌∷◌ c String.[]) = (String.◌∷◌ c "", [])
split_tokens (String.◌∷◌ c (String.◌∷◌ d s)) = elim (code c == 58 && code d == 58) [
  | true ↦ cut (split_tokens s)
  | false ↦ push c (split_tokens (String.◌∷◌ d s))
]

-- `if (!token.empty()) segments.push_back(token)`
abbrev non_empty : List String → List String
non_empty [] = []
non_empty (token ∷ tokens) = if token == "" then non_empty tokens else token ∷ non_empty tokens

abbrev tokens_of : String × List String → List String
tokens_of (token, tokens) = token ∷ tokens

abbrev without_gr : List String → List String
without_gr [] = []
without_gr (segment ∷ segments) = if segment == "gr" then segments else segment ∷ segments

abbrev pop_back : List String → List String
pop_back [] = []
pop_back (segment ∷ []) = []
pop_back (segment ∷ next ∷ rest) = segment ∷ pop_back (next ∷ rest)

-- The loop that joins the segments by slashes.
unfoldable pub join : String → List String → String
join category [] = category
join category (segment ∷ segments) =
    join ((if category == "" then category else category <> "/") <> segment) segments

abbrev category_of : List String → String
category_of (first ∷ second ∷ rest) =
    let category = join "" (pop_back (first ∷ second ∷ rest)) in
    if category == "" then "Uncategorized" else category
category_of _ = "Uncategorized"

unfoldable pub derive_category_from_block_id : String → String
unfolding split_tokens join
derive_category_from_block_id id =
    category_of (without_gr (non_empty (tokens_of (split_tokens id))))
