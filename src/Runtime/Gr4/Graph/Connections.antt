-- ===== src/Runtime/Gr4/Graph/Connections.antt =====
-- `normalize_connection` of src/runtime/gr4_runtime_manager.cpp.
use gr4_control_plane.Prelude.{
  ℕ, String, ◌==◌, string_eq, nat_eq, if◌then◌else◌, ltb, Bool, true, false, not, ◌&&◌, ◌||◌,
  Option, none, some, List, [], ◌∷◌,
}
use gr4_control_plane.Prelude.Int.{pos}
use gr4_control_plane.Prelude.Bytes.{size, starts_with, split_last, is_digit}
use Prim.Native.Char.{code}
use Prim.Native.Nat.{◌+◌, ◌*◌, ◌-◌}
use gr4_control_plane.Errors.{std_exception, Result, ok, err}
use gr4_control_plane.Pmt.{Pmt, PmtWriter, as_string, as_map, as_tensor}
use gr4_control_plane.Domain.Stream.Normalize.{parameter_string}
use gr4_control_plane.Errors.{then_ok}
use gr4_control_plane.Runtime.Gr4.Graph.Values.{Block}

abbrev all_digits : String → Bool
all_digits String.[] = true
all_digits (String.◌∷◌ c s) = is_digit c && all_digits s

abbrev is_number : String → Bool
is_number s = not (s == "") && all_digits s

unfoldable pub value_of_digits : ℕ → String → ℕ
value_of_digits n String.[] = n
value_of_digits n (String.◌∷◌ c s) = value_of_digits (10 * n + (code c - 48)) s

-- `std::stoll` on digits: it throws beyond the range of `long long`.
unfoldable pub stoll : String → Result ℕ
stoll s =
    let n = value_of_digits 0 s in
    if ltb n 9223372036854775808 then ok n else err (std_exception "stoll")

-- `token.substr(token.rfind('t') + 1)`, which is the whole token if it has no 't'.
abbrev after_last_t : String → String
after_last_t token = elim (split_last 116 token) [ none ↦ token | some (_, after) ↦ after ]

-- A port is a number, or the token as it stands.
pub data Port : Type 0 where
  numbered : ℕ → Port
  named : String → Port

abbrev numbered_if : Result ℕ → Result Port
numbered_if (err e) = err e
numbered_if (ok n) = ok (numbered n)

unfoldable pub normalize_port : String → Result Port
unfolding stoll
normalize_port token =
    if token == "in" || token == "out"
    then ok (numbered 0)
    else if is_number token
    then numbered_if (stoll token)
    else if ltb 2 (size token)
        && (starts_with "in" token || starts_with "out" token)
        && is_number (after_last_t token)
    then numbered_if (stoll (after_last_t token))
    else ok (named token)

module _ {p : Pmt} (w : PmtWriter p) where
  abbrev pub port_value : Port → p.Value
  port_value (numbered n) = w.of_integer (pos n)
  port_value (named s) = w.of_text s

  -- An element of the sequence that is a text becomes a port.
  abbrev pub normalize_element : Option String → p.Value → Result (Bool × p.Value)
  normalize_element none value = ok (false, value)
  normalize_element (some token) value =
      then_ok (normalize_port token)
        λ port. ok (not (w.same (port_value port) value), port_value port)

  -- Elements 1 and 3 of a sequence of four or more, which is made anew also if neither is a text.
  unfoldable pub normalize_sequence : List p.Value → p.Value → Result (Bool × p.Value)
  unfolding normalize_port
  normalize_sequence (a ∷ b ∷ c ∷ d ∷ rest) connection =
      then_ok (normalize_element (as_string (p.visit b)) b) λ b'.
        then_ok (normalize_element (as_string (p.visit d)) d)
          λ d'. ok (b'.0 || d'.0, w.of_tensor (a ∷ b'.1 ∷ c ∷ d'.1 ∷ rest))
  normalize_sequence _ connection = ok (false, connection)

  abbrev pub sequence_from :
      Option String
      → Option String
      → Option String
      → Option String
      → p.Value
      → Result (Bool × p.Value)
  sequence_from (some source) (some out) (some dest) (some in_token) connection =
      then_ok (normalize_port out) λ from. then_ok (normalize_port in_token) λ to. ok (
        true,
        w.of_tensor (w.of_text source ∷ port_value from ∷ w.of_text dest ∷ port_value to ∷ []),
      )
  sequence_from _ _ _ _ connection = ok (false, connection)

  abbrev pub normalize_map : Option (Block p) → p.Value → Result (Bool × p.Value)
  normalize_map none connection = ok (false, connection)
  normalize_map (some m) connection =
      sequence_from (parameter_string p m "source_block") (parameter_string p m "source_port_token")
        (parameter_string p m "dest_block") (parameter_string p m "dest_port_token") connection

  unfoldable pub normalize_connection : p.Value → Result (Bool × p.Value)
  unfolding normalize_sequence normalize_port parameter_string
  normalize_connection connection = elim (as_tensor (p.visit connection)) [
    | some sequence ↦ normalize_sequence sequence connection
    | none ↦ normalize_map (as_map (p.visit connection)) connection
  ]

  unfoldable pub normalize_connections : List p.Value → Result (Bool × List p.Value)
  unfolding normalize_connection
  normalize_connections [] = ok (false, [])
  normalize_connections (value ∷ values) = then_ok (normalize_connection value) λ first.
      then_ok (normalize_connections values) λ rest. ok (first.0 || rest.0, first.1 ∷ rest.1)
