-- ===== src/App/BlockSettings/Conversion.antt =====
-- The conversions of src/app/block_settings_service.cpp between JSON and GNU Radio's values.
use gr4_control_plane.Prelude.{
  ℕ, zero, suc, ◌-◌, ◌%◌, ◌<◌, String, string_eq, if◌then◌else◌, ltb, [], ◌∷◌, ◌≡◌,
}
use gr4_control_plane.Prelude.Int.{ℤ, pos, negsuc}
use gr4_control_plane.Prelude.Dict.{Dict, insert}
use gr4_control_plane.Json.{
  Json, null, binary, bool, number, float, string, object, array, Members, no_members, member,
  of_dict,
}
use gr4_control_plane.Errors.{validation_error, runtime_error, std_exception, Result, ok, err}
use gr4_control_plane.Pmt.{Pmt, PmtWriter, Shape, monostate, boolean, integer, floating, text, map}
use gr4_control_plane.Errors.{then_ok}

abbrev signed : ℕ → ℤ
signed n = if ltb n 9223372036854775808 then pos n else negsuc (18446744073709551615 - n)

-- `value.get<std::int64_t>()`
unfoldable pub to_int64 : ℤ → ℤ
to_int64 (pos n) = signed (n % 18446744073709551616)
to_int64 (negsuc n) = signed (18446744073709551615 - n % 18446744073709551616)

module _ {p : Pmt} (w : PmtWriter p) where
  -- `insert_members` is the loop of `json_to_property_map`.
  unfoldable mutual
    unfolding to_int64

    pub json_to_pmt_value : Json p.Double → Result p.Value
    json_to_pmt_value null = ok w.of_null
    json_to_pmt_value (bool b) = ok (w.of_boolean b)
    json_to_pmt_value (number n) = ok (w.of_integer (to_int64 n))
    json_to_pmt_value (float d) = ok (w.of_floating d)
    json_to_pmt_value (string s) = ok (w.of_text s)
    json_to_pmt_value (object items) =
        then_ok (insert_members [] items) λ property_map. ok (w.of_map property_map)
    json_to_pmt_value (array _) = err (validation_error "settings arrays are not supported")
    json_to_pmt_value binary = err (validation_error "unsupported JSON value in settings body")

    pub insert_members : Dict String p.Value → Members p.Double → Result (Dict String p.Value)
    insert_members result no_members = ok result
    insert_members result (member key item items) =
        then_ok (json_to_pmt_value item) λ value. insert_members (insert key value result) items

  unfoldable pub json_to_property_map : Json p.Double → Result (Dict String p.Value)
  unfolding json_to_pmt_value
  json_to_property_map (object items) = insert_members [] items
  json_to_property_map _ = err (validation_error "settings body must be a JSON object")

abbrev pub Below : {V : Type 0} → (V → ℕ) → ℕ → Dict String V → Type 0
Below depth n [] = Unit {0}
Below depth n ((_, v) ∷ m) = (depth v < n) × Below depth n m

-- A value is a finite tree: what a map holds is less deep than the map.
pub record Nesting (p : Pmt) : Type 0 where
  pub depth : p.Value → ℕ
  pub below : (v : p.Value) (m : Dict String p.Value) → p.visit v ≡ map m → Below depth (depth v) m

abbrev pub insert_all :
    {V D : Type 0}
    → (V → Result (Json D))
    → Dict String (Json D)
    → Dict String V
    → Result (Dict String (Json D))
insert_all convert result [] = ok result
insert_all convert result ((key, item) ∷ items) =
    then_ok (convert item) λ json. insert_all convert (insert key json result) items

-- The visitor, over what converts the values of a map.
unfoldable pub visit_json : {V D : Type 0} → (V → Result (Json D)) → Shape V D → Result (Json D)
visit_json convert monostate = ok null
visit_json convert (boolean b) = ok (bool b)
visit_json convert (integer n) = ok (number n)
visit_json convert (floating d) = ok (float d)
visit_json convert (text s) = ok (string s)
visit_json convert (map m) =
    then_ok (insert_all convert [] m) λ members. ok (object (of_dict members))
visit_json convert _ = err (runtime_error "runtime returned unsupported settings value")

module _ {p : Pmt} (nesting : Nesting p) where
  -- The recursion down to a depth that no value of a map has.
  unfoldable pub json_within : ℕ → p.Value → Result (Json p.Double)
  unfolding visit_json
  json_within zero v = err (std_exception "nested too deep")
  json_within (suc n) v = visit_json (json_within n) (p.visit v)

  unfoldable pub pmt_value_to_json : p.Value → Result (Json p.Double)
  unfolding json_within
  pmt_value_to_json v = json_within (suc (nesting.depth v)) v

  unfoldable pub property_map_to_json : Dict String p.Value → Result (Json p.Double)
  unfolding pmt_value_to_json
  property_map_to_json m =
      then_ok (insert_all pmt_value_to_json [] m) λ members. ok (object (of_dict members))
