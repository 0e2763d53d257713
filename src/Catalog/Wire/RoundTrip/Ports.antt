-- ===== src/Catalog/Wire/RoundTrip/Ports.antt =====
-- A port that is written as JSON is read back as it was.
use gr4_control_plane.Prelude.{
  String, ◌==◌, string_eq, if◌then◌else◌, Option, none, some, ◌≡◌, refl, ap, ◌∙◌,
}
use gr4_control_plane.Prelude.Int.{ℤ}
use gr4_control_plane.Prelude.Dict.{lookup}
use gr4_control_plane.Errors.{ok}
use gr4_control_plane.Domain.Catalog.{BlockPortCardinalityKind, fixed, dynamic, BlockPortDescriptor}
use gr4_control_plane.Json.{Json, number, string, over, at_key, lookup-put, to_dict-of_dict}
use gr4_control_plane.Catalog.Wire.{as_text, as_integer}
use gr4_control_plane.Catalog.Wire.Ports.{
  cardinality_kind_to_string, cardinality_kind_from_string, cardinality_or, port_members,
  port_to_json, parse_port_members, parse_port_descriptor,
}
use gr4_control_plane.Catalog.Wire.Kept.{IsInt, as_integer-over, as_text-over}

-- The counts are values of `int`.
pub record HasInts (port : BlockPortDescriptor) : Type 0 where
  pub current : IsInt port.current_port_count
  pub render : IsInt port.render_port_count
  pub min : IsInt port.min_port_count
  pub max : IsInt port.max_port_count

cardinality_kind-kept :
    (kind : BlockPortCardinalityKind)
    → cardinality_or fixed (some (cardinality_kind_to_string kind)) ≡ kind
unfolding cardinality_kind_from_string cardinality_kind_to_string string_eq
cardinality_kind-kept fixed = refl
cardinality_kind-kept dynamic = refl

module _ (D : Type 0) (port : BlockPortDescriptor) where
  abbrev port_at : String → Option (Json D)
  port_at j = at_key j "handle_name_template" string port.handle_name_template (
      at_key j "size_parameter" string port.size_parameter (
        at_key j "max_port_count" number port.max_port_count (
          at_key j "min_port_count" number port.min_port_count (
            at_key j "render_port_count" number port.render_port_count (
              at_key j "current_port_count" number port.current_port_count (
                if j == "name"
                then some (string port.name)
                else if j == "type"
                then some (string port.type)
                else if j == "cardinality_kind"
                then some (string (cardinality_kind_to_string port.cardinality_kind))
                else none))))))

  lookup-port_members : (j : String) → lookup j (port_members {D = D} port) ≡ port_at j
  unfolding port_members lookup
  lookup-port_members j =
      rw
        (
          lookup-put {D = D} j,
          lookup-put {D = D} j,
          lookup-put {D = D} j,
          lookup-put {D = D} j,
          lookup-put {D = D} j,
          lookup-put {D = D} j,
        )
        refl

  port_integer :
      (j : String) (o : Option ℤ)
      → port_at j ≡ over number o none
      → IsInt o
      → as_integer (lookup j (port_members {D = D} port)) ≡ o
  port_integer j o e h = ap as_integer (lookup-port_members j ∙ e) ∙ as_integer-over D o h

  port_text :
      (j : String) (o : Option String)
      → port_at j ≡ over string o none
      → as_text (lookup j (port_members {D = D} port)) ≡ o
  port_text j o e = ap as_text (lookup-port_members j ∙ e) ∙ as_text-over D o

  parse_port_members-port_members :
      HasInts port → parse_port_members (port_members {D = D} port) ≡ ok port
  unfolding parse_port_members string_eq
  parse_port_members-port_members h =
      rw
        (
          lookup-port_members "name",
          lookup-port_members "type",
          port_text "cardinality_kind" (some (cardinality_kind_to_string port.cardinality_kind))
              refl,
          port_integer "current_port_count" port.current_port_count refl h.current,
          port_integer "render_port_count" port.render_port_count refl h.render,
          port_integer "min_port_count" port.min_port_count refl h.min,
          port_integer "max_port_count" port.max_port_count refl h.max,
          port_text "size_parameter" port.size_parameter refl,
          port_text "handle_name_template" port.handle_name_template refl,
          cardinality_kind-kept port.cardinality_kind,
        )
        refl

  pub parse_port_descriptor-port_to_json :
      HasInts port → parse_port_descriptor (port_to_json {D = D} port) ≡ ok port
  unfolding parse_port_descriptor port_to_json
  parse_port_descriptor-port_to_json h =
      ap parse_port_members (to_dict-of_dict (port_members {D = D} port))
      ∙ parse_port_members-port_members h
