-- ===== src/Catalog/Reflection/Writable.antt =====
-- What is reflected of a block survives its way through JSON: its numbers are values of `int`.
use gr4_control_plane.Prelude.{
  ℕ, String, ◌==◌, string_eq, nat_eq, if◌then◌else◌, ltb, Bool, true, false, Bool-cases, Option,
  none, some, List, [], ◌∷◌, map, length, ◌≡◌, refl, arith, All, inl, inr,
}
use gr4_control_plane.Prelude.Int.{ℤ, pos, negsuc, ltb_ℤ}
use gr4_control_plane.Prelude.Dict.{Dict}
use gr4_control_plane.Prelude.Sorting.{All-sort}
use gr4_control_plane.Prelude.TextOrder.{str_ltb}
use gr4_control_plane.Pmt.{
  Pmt, Shape, monostate, other, boolean, integer, floating, text, map as map_shape, tensor,
}
use gr4_control_plane.Domain.Catalog.{
  BlockParameterDefault, default_null, default_bool, default_int, default_double, default_string,
  BlockParameterDescriptor,
}
use gr4_control_plane.Catalog.Wire.{to_int}
use gr4_control_plane.Catalog.Wire.Kept.{IsInt}
use gr4_control_plane.Catalog.Wire.Blocks.{unless_blank}
use gr4_control_plane.Catalog.Wire.RoundTrip.{IsWritable}
use gr4_control_plane.Catalog.Wire.RoundTrip.Ports.{HasInts}
use gr4_control_plane.Catalog.Wire.RoundTrip.Parameters.{HasInt}
use gr4_control_plane.Catalog.Reflection.Values.{
  Queries, fits_int, default_of, parameter_default_value,
}
use gr4_control_plane.Catalog.Reflection.Ports.{
  find_parameter, port_count_lower_bound, port_count_upper_bound, parameter_default_int, int_of,
  infer_collection_size_parameter,
}
use gr4_control_plane.Catalog.Reflection.Collections.{
  DynamicPortOrCollection, single, collection, clamped, other_count, counted, default_count,
  min_count, max_count, infer_collection_render_port_count, infer_collection_metadata,
  to_port_descriptor, to_ports,
}
use gr4_control_plane.Catalog.Reflection.Blocks.{BlockModel, to_parameter, to_parameters, describe}

to_int-fits : (n : ℤ) → fits_int n ≡ true → to_int n ≡ n
unfolding to_int
to_int-fits (pos n) h = ground arith
to_int-fits (negsuc n) h = ground arith

to_int-IsInt : (n : ℤ) → to_int (to_int n) ≡ to_int n
unfolding to_int
to_int-IsInt (pos n) = ground arith
to_int-IsInt (negsuc n) = ground arith

module _ (p : Pmt) (q : Queries p.Value) where
  default_value-HasInt : (value : p.Value) → HasInt (parameter_default_value p q value)
  unfolding parameter_default_value
  default_value-HasInt value = of_shape (p.visit value)
    where
      of_shape : (shape : Shape p.Value p.Double) → HasInt (default_of shape)
      of_shape (integer n) = elim (Bool-cases (fits_int n)) [
        | inl e ↦ rw e (to_int-fits n e)
        | inr e ↦ rw e tt
      ]
      of_shape monostate = tt
      of_shape other = tt
      of_shape (boolean b) = tt
      of_shape (floating d) = tt
      of_shape (text s) = tt
      of_shape (map_shape m) = tt
      of_shape (tensor t) = tt

  settings-HasInt :
      (meta settings : Dict String p.Value)
      → All (λ parameter. HasInt parameter.default_value) (map (to_parameter p q meta) settings)
  unfolding to_parameter
  settings-HasInt meta [] = tt
  settings-HasInt meta ((name, value) ∷ rest) =
      (default_value-HasInt value, settings-HasInt meta rest)

  to_parameters-HasInt :
      (block : BlockModel p.Value)
      → All (λ parameter. HasInt parameter.default_value) (to_parameters p q block)
  unfolding to_parameters
  to_parameters-HasInt block =
      All-sort (λ parameter. HasInt parameter.default_value)
        (λ left right. str_ltb left.name right.name)
        (map (to_parameter p q block.meta_information) block.settings)
        (settings-HasInt block.meta_information block.settings)

clamped-IsInt :
    (min max n : ℤ)
    → to_int min ≡ min
    → to_int max ≡ max
    → to_int n ≡ n
    → to_int (clamped (some min) (some max) n) ≡ clamped (some min) (some max) n
unfolding clamped
clamped-IsInt min max n a b c = ground arith

min_count-IsInt :
    (o : Option String) (current : ℕ) → to_int (min_count o current) ≡ min_count o current
unfolding min_count to_int port_count_lower_bound
min_count-IsInt none current = ground arith
min_count-IsInt (some name) current = ground arith

max_count-IsInt : (o : Option String) → to_int (max_count o) ≡ max_count o
unfolding max_count to_int port_count_upper_bound
max_count-IsInt none = refl
max_count-IsInt (some name) = ground arith

module _ {D : Type 0} where
  parameter_default_int-IsInt :
      (parameter : BlockParameterDescriptor D)
      → HasInt parameter.default_value
      → IsInt (parameter_default_int parameter)
  unfolding parameter_default_int
  parameter_default_int-IsInt parameter h = of_value parameter.default_value h
    where
      of_value : (value : BlockParameterDefault D) → HasInt value → IsInt (int_of value)
      of_value default_null h = tt
      of_value (default_bool b) h = tt
      of_value (default_int n) h = h
      of_value (default_double d) h = tt
      of_value (default_string s) h = tt

  default_count-IsInt :
      (parameters : List (BlockParameterDescriptor D)) (name : Option String)
      → All (λ parameter. HasInt parameter.default_value) parameters
      → IsInt (default_count parameters name)
  unfolding find_parameter
  default_count-IsInt parameters none h = tt
  default_count-IsInt [] (some name) h = tt
  default_count-IsInt (parameter ∷ rest) (some name) (h, k) =
      of_test (parameter.name == name) (default_count-IsInt rest (some name) k)
    where
      of_test :
          (b : Bool)
          → IsInt (counted (find_parameter name rest))
          → IsInt (counted (if b then some parameter else find_parameter name rest))
      of_test true later = parameter_default_int-IsInt parameter h
      of_test false later = later

one : to_int (pos 1) ≡ pos 1
unfolding to_int
one = refl

other_count-IsInt :
    (current : ℕ) (min : ℤ) → to_int min ≡ min → IsInt (other_count current (some min))
other_count-IsInt current min a = elim (Bool-cases (ltb 0 current)) [
  | inl e ↦ rw e (to_int-IsInt (pos current))
  | inr e ↦ rw e (elim (Bool-cases (ltb_ℤ (pos 0) min)) [ inl f ↦ rw f a | inr f ↦ rw f tt ])
]

module _ {D : Type 0} (block_id : String) (parameters : List (BlockParameterDescriptor D))
    (is_input : Bool) (h : All (λ parameter. HasInt parameter.default_value) parameters) where
  render-IsInt :
      (name : String) (current : ℕ) (min max : ℤ)
      → to_int min ≡ min
      → to_int max ≡ max
      → IsInt (
          infer_collection_render_port_count name is_input parameters current (some min) (some max))
  unfolding infer_collection_render_port_count
  render-IsInt name current min max a b =
      of_count (default_count parameters (infer_collection_size_parameter name is_input parameters))
        (default_count-IsInt parameters (infer_collection_size_parameter name is_input parameters)
          h)
    where
      of_count :
          (o : Option ℤ)
          → IsInt o
          → IsInt (elim o [
            | some count ↦ some (clamped (some min) (some max) count)
            | none ↦ other_count current (some min)
          ])
      of_count (some n) k = clamped-IsInt min max n a b k
      of_count none k = other_count-IsInt current min a

  to_port_descriptor-HasInts :
      (port : DynamicPortOrCollection)
      → HasInts (to_port_descriptor block_id parameters is_input port)
  unfolding to_port_descriptor infer_collection_metadata
  to_port_descriptor-HasInts (single name type) = record {
    current = one;
    render = one;
    min = one;
    max = one;
  }
  to_port_descriptor-HasInts (collection name types) =
      let o = infer_collection_size_parameter name is_input parameters in
      record {
        current = to_int-IsInt (pos (length types));
        render =
            render-IsInt name (length types) (min_count o (length types)) (max_count o)
              (min_count-IsInt o (length types)) (max_count-IsInt o);
        min = min_count-IsInt o (length types);
        max = max_count-IsInt o;
      }

  to_ports-HasInts :
      (ports : List DynamicPortOrCollection)
      → All HasInts (to_ports block_id parameters is_input ports)
  unfolding to_ports
  to_ports-HasInts [] = tt
  to_ports-HasInts (port ∷ ports) = (to_port_descriptor-HasInts port, to_ports-HasInts ports)

blank_twice :
    (s : String)
    → unless_blank (if s == "" then none else some s) ≡ (if s == "" then none else some s)
blank_twice s = ground arith

-- Every description of a block is written and read back as it is.
pub describe-IsWritable :
    (p : Pmt) (q : Queries p.Value) (id : String) (block : BlockModel p.Value)
    → IsWritable (describe p q id block)
unfolding describe
describe-IsWritable p q id block =
    let k = to_parameters-HasInt p q block in
    record {
      canonical = blank_twice block.type_name;
      inputs = to_ports-HasInts id (to_parameters p q block) true k block.dynamic_input_ports;
      outputs = to_ports-HasInts id (to_parameters p q block) false k block.dynamic_output_ports;
      parameters = k;
    }
