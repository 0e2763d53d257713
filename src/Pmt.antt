-- ===== src/Pmt.antt =====
-- What the control plane uses of GNU Radio's `gr::pmt::Value` and of its YAML reader, which are not
-- part of this repository: a value can be visited, and a text may deserialize to a property map.
use gr4_control_plane.Prelude.{String, Bool, Option, none, some, List}
use gr4_control_plane.Prelude.Dict.{Dict}
use gr4_control_plane.Prelude.Int.{ℤ}

-- What a visitor is given. `other` is every alternative that the control plane tells apart nowhere.
pub data Shape (Value Double : Type 0) : Type 0 where
  monostate other : Shape Value Double
  boolean : Bool → Shape Value Double
  integer : ℤ → Shape Value Double
  floating : Double → Shape Value Double
  text : String → Shape Value Double
  map : Dict String Value → Shape Value Double
  tensor : List Value → Shape Value Double

pub record Pmt : Type 1 where
  pub Value : Type 0
  pub Double : Type 0
  pub visit : Value → Shape Value Double
  -- `gr::pmt::yaml::deserialize`
  pub deserialize : String → Option (Dict String Value)

abbrev pub as_string : {V D : Type 0} → Shape V D → Option String
as_string (text s) = some s
as_string _ = none

abbrev pub as_map : {V D : Type 0} → Shape V D → Option (Dict String V)
as_map (map m) = some m
as_map _ = none

abbrev pub as_tensor : {V D : Type 0} → Shape V D → Option (List V)
as_tensor (tensor t) = some t
as_tensor _ = none

-- What else the control plane uses of these values: how they are made, compared and written as YAML.
pub record PmtWriter (p : Pmt) : Type 0 where
  pub of_null : p.Value
  pub of_boolean : Bool → p.Value
  pub of_floating : p.Double → p.Value
  pub of_text : String → p.Value
  pub of_integer : ℤ → p.Value
  pub of_map : Dict String p.Value → p.Value
  pub of_tensor : List p.Value → p.Value
  pub same : p.Value → p.Value → Bool
  pub same_map : Dict String p.Value → Dict String p.Value → Bool
  -- `gr::pmt::yaml::serialize`
  pub serialize : Dict String p.Value → String
