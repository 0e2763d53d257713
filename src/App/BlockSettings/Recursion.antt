-- ===== src/App/BlockSettings/Recursion.antt =====
-- The recursion of `pmt_value_to_json` ends.
use gr4_control_plane.Prelude.{ℕ, zero, suc, ◌<◌, String, string_eq, [], ◌∷◌, ◌≡◌, refl, ap, arith}
use gr4_control_plane.Prelude.Dict.{Dict, insert}
use gr4_control_plane.Errors.{Result, ok, err}
use gr4_control_plane.Pmt.{
  Pmt, Shape, monostate, other, boolean, integer, floating, text, map, tensor,
}
use gr4_control_plane.Errors.{then_ok}
use gr4_control_plane.Json.{Json, object, of_dict}
use gr4_control_plane.App.BlockSettings.Conversion.{
  Nesting, Below, insert_all, visit_json, json_within, pmt_value_to_json,
}

then_ok-cong :
    {A B : Type 0} (r : Result A) (f g : A → Result B)
    → ((a : A) → f a ≡ g a)
    → then_ok r f ≡ then_ok r g
then_ok-cong (ok a) f g h = h a
then_ok-cong (err e) f g h = refl

insert_all-cong :
    {V D : Type 0} (depth : V → ℕ) (k : ℕ) (f g : V → Result (Json D))
    (result : Dict String (Json D)) (d : Dict String V)
    → Below depth k d
    → ((v : V) → depth v < k → f v ≡ g v)
    → insert_all f result d ≡ insert_all g result d
insert_all-cong depth k f g result [] h same = refl
insert_all-cong depth k f g result ((key, v) ∷ d) (l, h) same =
    rw (same v l)
      (then_ok-cong (g v) _ _ λ json. insert_all-cong depth k f g (insert key json result) d h same)

visit_json-cong :
    {V D : Type 0} (depth : V → ℕ) (k : ℕ) (f g : V → Result (Json D)) (shape : Shape V D)
    → ((m : Dict String V) → shape ≡ map m → Below depth k m)
    → ((v : V) → depth v < k → f v ≡ g v)
    → visit_json f shape ≡ visit_json g shape
unfolding visit_json
visit_json-cong depth k f g (map m) h same =
    ap (λ r. then_ok r λ members. ok (object (of_dict members)))
      (insert_all-cong depth k f g [] m (h m refl) same)
visit_json-cong depth k f g monostate h same = refl
visit_json-cong depth k f g other h same = refl
visit_json-cong depth k f g (boolean b) h same = refl
visit_json-cong depth k f g (integer n) h same = refl
visit_json-cong depth k f g (floating d) h same = refl
visit_json-cong depth k f g (text s) h same = refl
visit_json-cong depth k f g (tensor vs) h same = refl

module _ {p : Pmt} (nesting : Nesting p) where
  -- The depth given does not matter if it is enough.
  json_within-enough :
      (m n : ℕ) (v : p.Value)
      → nesting.depth v < m
      → nesting.depth v < n
      → json_within nesting m v ≡ json_within nesting n v
  unfolding json_within
  json_within-enough zero n v h k = absurd (omega arith)
  json_within-enough (suc m) zero v h k = absurd (omega arith)
  json_within-enough (suc m) (suc n) v h k =
      visit_json-cong nesting.depth (nesting.depth v) (json_within nesting m)
        (json_within nesting n) (p.visit v) (nesting.below v)
        (λ u l. json_within-enough m n u (omega arith) (omega arith))

  -- If what a map holds is less deep than the map, the recursion of the source ends: each value is
  -- converted as its visitor says, by the conversion of
  -- what it holds.
  pub pmt_value_to_json-visit :
      (v : p.Value)
      → pmt_value_to_json nesting v ≡ visit_json (pmt_value_to_json nesting) (p.visit v)
  unfolding json_within pmt_value_to_json
  pmt_value_to_json-visit v =
      visit_json-cong nesting.depth (nesting.depth v) (json_within nesting (nesting.depth v))
        (pmt_value_to_json nesting) (p.visit v) (nesting.below v)
        (λ u l. json_within-enough (nesting.depth v) (suc (nesting.depth u)) u l (omega arith))
