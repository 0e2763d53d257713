-- ===== src/App/BlockSettings/Acceptance.antt =====
-- Which bodies `json_to_property_map` of src/app/block_settings_service.cpp takes.
use gr4_control_plane.Prelude.{
  String, Bool, true, false, ◌&&◌, [], ◌≡◌, refl, sym, subst, string_eq,
}
use gr4_control_plane.Prelude.Dict.{Dict, insert}
use gr4_control_plane.Errors.{validation_error, Result, ok, err}
use gr4_control_plane.Pmt.{Pmt, PmtWriter}
use gr4_control_plane.Errors.{then_ok}
use gr4_control_plane.Json.{
  Json, null, binary, bool, number, float, string, object, array, Members, no_members, member,
}
use gr4_control_plane.App.BlockSettings.Conversion.{
  json_to_pmt_value, insert_members, json_to_property_map,
}

-- Whether JSON can be kept as a setting: there is no array in it.
unfoldable mutual
  pub is_supported : {D : Type 0} → Json D → Bool
  is_supported (array _) = false
  is_supported binary = false
  is_supported (object items) = are_supported items
  is_supported _ = true

  pub are_supported : {D : Type 0} → Members D → Bool
  are_supported no_members = true
  are_supported (member _ item items) = is_supported item && are_supported items

-- A result that is there exactly if `b` says so, and otherwise a `ValidationError`.
abbrev pub Accepts : {A : Type 0} → Bool → Result A → Type 0
Accepts {A = A} true r = (a : A) × (r ≡ ok a)
Accepts false r = (message : String) × (r ≡ err (validation_error message))

then_ok-Accepts :
    {A B : Type 0} (b c : Bool) (r : Result A) (f : A → Result B)
    → Accepts b r
    → ((a : A) → Accepts c (f a))
    → Accepts (b && c) (then_ok r f)
then_ok-Accepts true c r f (a, e) h = subst (λ x. Accepts c (then_ok x f)) (sym e) (h a)
then_ok-Accepts false c r f (message, e) h = (message, rw e refl)

map-Accepts :
    {A B : Type 0} (b : Bool) (r : Result A) (f : A → B)
    → Accepts b r
    → Accepts b (then_ok r λ a. ok (f a))
map-Accepts true r f (a, e) = (f a, rw e refl)
map-Accepts false r f (message, e) = (message, rw e refl)

abbrev pub is_supported_body : {D : Type 0} → Json D → Bool
is_supported_body (object items) = are_supported items
is_supported_body _ = false

module _ {p : Pmt} (w : PmtWriter p) where
  mutual
    unfolding is_supported json_to_pmt_value

    value-Accepts : (j : Json p.Double) → Accepts (is_supported j) (json_to_pmt_value w j)
    value-Accepts null = (_, refl)
    value-Accepts (bool b) = (_, refl)
    value-Accepts (number n) = (_, refl)
    value-Accepts (float d) = (_, refl)
    value-Accepts (string s) = (_, refl)
    value-Accepts (object items) =
        map-Accepts (are_supported items) (insert_members w [] items) w.of_map
          (members-Accepts items [])
    value-Accepts (array _) = (_, refl)
    value-Accepts binary = (_, refl)

    members-Accepts :
        (items : Members p.Double) (result : Dict String p.Value)
        → Accepts (are_supported items) (insert_members w result items)
    members-Accepts no_members result = (_, refl)
    members-Accepts (member key item items) result =
        then_ok-Accepts (is_supported item) (are_supported items) (json_to_pmt_value w item) _
          (value-Accepts item) (λ value. members-Accepts items (insert key value result))

  -- The body of an update is taken exactly if it is an object in which no array stands, at any depth,
  -- and refused with a `ValidationError` otherwise.
  pub json_to_property_map-Accepts :
      (body : Json p.Double) → Accepts (is_supported_body body) (json_to_property_map w body)
  unfolding json_to_property_map
  json_to_property_map-Accepts (object items) = members-Accepts items []
  json_to_property_map-Accepts null = (_, refl)
  json_to_property_map-Accepts (bool _) = (_, refl)
  json_to_property_map-Accepts (number _) = (_, refl)
  json_to_property_map-Accepts (float _) = (_, refl)
  json_to_property_map-Accepts (string _) = (_, refl)
  json_to_property_map-Accepts (array _) = (_, refl)
  json_to_property_map-Accepts binary = (_, refl)
