-- ===== src/Catalog/Wire.antt =====
-- The JSON in which src/catalog/gr4_block_catalog_provider.cpp passes descriptors from the process that
-- reflects a block. An exception of nlohmann::json is one of the standard library.
pub mod Ports
pub mod Parameters
pub mod Blocks
pub mod Kept
pub mod RoundTrip
use gr4_control_plane.Prelude.{
  ℕ, ◌-◌, ◌%◌, ltb, String, string_eq, if◌then◌else◌, Bool, Option, none, some, List, [], ◌∷◌,
}
use gr4_control_plane.Prelude.Int.{ℤ, pos, negsuc}
use gr4_control_plane.Prelude.Dict.{Dict, lookup, values}
use gr4_control_plane.Errors.{std_exception, Result, ok, err, then_ok}
use gr4_control_plane.Json.{
  Json, null, bool, number, string, object, array, to_list, to_dict, of_list, of_dict,
}

abbrev signed : ℕ → ℤ
signed n = if ltb n 2147483648 then pos n else negsuc (4294967295 - n)

-- `it->get<int>()`
unfoldable pub to_int : ℤ → ℤ
to_int (pos n) = signed (n % 4294967296)
to_int (negsuc n) = signed (4294967295 - n % 4294967296)

-- `value.at(key)`, and `get` of a kind
abbrev pub found_or_throw : {A : Type 0} → Option A → Result A
found_or_throw none = err (std_exception "json")
found_or_throw (some a) = ok a

module _ {D : Type 0} where
  -- What `find` finds, if it is of the kind that is asked for.
  abbrev pub as_text : Option (Json D) → Option String
  as_text (some (string s)) = some s
  as_text _ = none

  abbrev pub as_integer : Option (Json D) → Option ℤ
  as_integer (some (number n)) = some (to_int n)
  as_integer _ = none

  abbrev pub as_bool : Option (Json D) → Option Bool
  as_bool (some (bool b)) = some b
  as_bool _ = none

  abbrev pub text_at : String → Dict String (Json D) → Result String
  text_at key value = found_or_throw (as_text (lookup key value))

  abbrev pub members_of : Json D → Result (Dict String (Json D))
  members_of (object items) = ok (to_dict items)
  members_of _ = err (std_exception "json")

  -- What a range-based `for` over a value runs through.
  abbrev pub elements_of : Json D → List (Json D)
  elements_of null = []
  elements_of (array items) = to_list items
  elements_of (object items) = values (to_dict items)
  elements_of item = item ∷ []

  abbrev pub elements_at : String → Dict String (Json D) → Result (List (Json D))
  elements_at key value = then_ok (found_or_throw (lookup key value)) λ item. ok (elements_of item)

  -- A loop that pushes back what a function that may throw returns.
  unfoldable pub each : {A : Type 0} → (Json D → Result A) → List (Json D) → Result (List A)
  each f [] = ok []
  each f (item ∷ items) = then_ok (f item) λ a. then_ok (each f items) λ rest. ok (a ∷ rest)
