-- ===== src/Runtime/Gr4/Graph/Stable.antt =====
-- A connection that is normalised stays as it is.
use gr4_control_plane.Prelude.{
  String, string_eq, ◌≡◌, refl, sym, ◌∙◌, subst, Bool, true, false, Option, none, some, List, [],
  ◌∷◌, arith, Option-cases, inl, inr,
}
use gr4_control_plane.Prelude.Int.{ℤ, pos}
use gr4_control_plane.Errors.{ok}
use gr4_control_plane.Pmt.{Pmt, PmtWriter, text, integer, tensor, as_string, as_map, as_tensor}
use gr4_control_plane.Domain.Stream.Normalize.{parameter_string}
use gr4_control_plane.Errors.{then_ok-ok}
use gr4_control_plane.Runtime.Gr4.Graph.Values.{Block}
use gr4_control_plane.Runtime.Gr4.Graph.Connections.{
  Port, numbered, named, normalize_port, port_value, normalize_element, normalize_sequence,
  normalize_map, sequence_from, normalize_connection,
}

normalize_port-named : (token s : String) → normalize_port token ≡ ok (named s) → s ≡ token
unfolding normalize_port
normalize_port-named token s h = ground arith

-- What is read back from values that were made.
pub record ReadsBack {p : Pmt} (w : PmtWriter p) : Type 0 where
  pub of_text-visit : (s : String) → p.visit (w.of_text s) ≡ text s
  pub of_integer-visit : (n : ℤ) → p.visit (w.of_integer n) ≡ integer n
  pub of_tensor-visit : (vs : List p.Value) → p.visit (w.of_tensor vs) ≡ tensor vs
  pub of_text-same : (s : String) → w.same (w.of_text s) (w.of_text s) ≡ true

module _ {p : Pmt} (w : PmtWriter p) (laws : ReadsBack w) where
  abbrev IsStable : p.Value → Type 0
  IsStable v = normalize_element w (as_string (p.visit v)) v ≡ ok (false, v)

  port_value-IsStable :
      (token : String) (port : Port) → normalize_port token ≡ ok port → IsStable (port_value w port)
  port_value-IsStable token (numbered n) h = rw (laws.of_integer-visit (pos n)) refl
  port_value-IsStable token (named s) h =
      let again : normalize_port s ≡ ok (named s) =
        subst (λ t. normalize_port t ≡ ok (named s)) (sym (normalize_port-named token s h)) h in
      rw (laws.of_text-visit s, again, laws.of_text-same s) refl

  element-IsStable :
      (o : Option String) (v v' : p.Value) (b : Bool)
      → as_string (p.visit v) ≡ o
      → normalize_element w o v ≡ ok (b, v')
      → IsStable v'
  element-IsStable none v v' b e h =
      let same_value : v ≡ v' = cc in subst IsStable same_value (rw e refl)
  element-IsStable (some token) v v' b e h =
      let (port, made, result) = then_ok-ok (normalize_port token) _ (b, v') h in
      let same_value : port_value w port ≡ v' = cc in
      subst IsStable same_value (port_value-IsStable token port made)

  -- Two elements that are stable make a sequence that is.
  sequence-stable :
      (a b c d : p.Value) (rest : List p.Value)
      → IsStable b
      → IsStable d
      → normalize_connection w (w.of_tensor (a ∷ b ∷ c ∷ d ∷ rest))
        ≡ ok (false, w.of_tensor (a ∷ b ∷ c ∷ d ∷ rest))
  unfolding normalize_connection normalize_sequence
  sequence-stable a b c d rest h k =
      rw
        (
          laws.of_tensor-visit (a ∷ b ∷ c ∷ d ∷ rest),
          normalize_connection,
          normalize_sequence,
          h,
          k,
        )
        refl

  -- The connection after one pass.
  normalize_sequence-stable :
      (sequence : List p.Value) (v v' : p.Value) (changed : Bool)
      → as_tensor (p.visit v) ≡ some sequence
      → normalize_sequence w sequence v ≡ ok (changed, v')
      → normalize_connection w v' ≡ ok (false, v')
  unfolding normalize_sequence normalize_connection
  normalize_sequence-stable (a ∷ b ∷ c ∷ d ∷ rest) v v' changed e h =
      let (b', first, h') =
        then_ok-ok (normalize_element w (as_string (p.visit b)) b) _ (changed, v') h in
      let (d', second, result) =
        then_ok-ok (normalize_element w (as_string (p.visit d)) d) _ (changed, v') h' in
      let made : w.of_tensor (a ∷ b'.1 ∷ c ∷ d'.1 ∷ rest) ≡ v' = cc in
      subst (λ x. normalize_connection w x ≡ ok (false, x)) made
        (sequence-stable a b'.1 c d'.1 rest (element-IsStable _ b b'.1 b'.0 refl first)
          (element-IsStable _ d d'.1 d'.0 refl second))
  normalize_sequence-stable sequence v v' changed e h =
      let same_value : v ≡ v' = cc in
      subst (λ x. normalize_connection w x ≡ ok (false, x)) same_value
        (rw (normalize_connection, e) refl)

  sequence_from-stable :
      (a b c d : Option String) (v v' : p.Value) (changed : Bool)
      → normalize_connection w v ≡ sequence_from w a b c d v
      → sequence_from w a b c d v ≡ ok (changed, v')
      → normalize_connection w v' ≡ ok (false, v')
  sequence_from-stable (some a) (some b) (some c) (some d) v v' changed e h =
      let (from, first, h') = then_ok-ok (normalize_port b) _ (changed, v') h in
      let (to, second, result) = then_ok-ok (normalize_port d) _ (changed, v') h' in
      let made : w.of_tensor (w.of_text a ∷ port_value w from ∷ w.of_text c ∷ port_value w to ∷ [])
          ≡ v' =
        cc in
      subst (λ x. normalize_connection w x ≡ ok (false, x)) made
        (sequence-stable (w.of_text a) (port_value w from) (w.of_text c) (port_value w to) []
          (port_value-IsStable b from first) (port_value-IsStable d to second))
  sequence_from-stable a b c d v v' changed e h =
      let same_value : v ≡ v' = cc in
      subst (λ x. normalize_connection w x ≡ ok (false, x)) same_value e

  normalize_map-stable :
      (o : Option (Block p)) (v v' : p.Value) (changed : Bool)
      → normalize_connection w v ≡ normalize_map w o v
      → normalize_map w o v ≡ ok (changed, v')
      → normalize_connection w v' ≡ ok (false, v')
  unfolding parameter_string
  normalize_map-stable none v v' changed e h =
      let same_value : v ≡ v' = cc in
      subst (λ x. normalize_connection w x ≡ ok (false, x)) same_value e
  normalize_map-stable (some m) v v' changed e h = sequence_from-stable _ _ _ _ v v' changed e h

  -- A connection that was normalised is left as it is by another pass, if a value can be read back from
  -- what was made of it and a text equals itself.
  pub normalize_connection-stable :
      (v v' : p.Value) (changed : Bool)
      → normalize_connection w v ≡ ok (changed, v')
      → normalize_connection w v' ≡ ok (false, v')
  unfolding normalize_connection
  normalize_connection-stable v v' changed h = elim (Option-cases (as_tensor (p.visit v))) [
    | inl e ↦
        let at_map : normalize_connection w v ≡ normalize_map w (as_map (p.visit v)) v =
          rw (normalize_connection, e) refl in
        normalize_map-stable (as_map (p.visit v)) v v' changed at_map (sym at_map ∙ h)
    | inr (sequence, e) ↦
        let at_sequence : normalize_connection w v ≡ normalize_sequence w sequence v =
          rw (normalize_connection, e) refl in
        normalize_sequence-stable sequence v v' changed e (sym at_sequence ∙ h)
  ]
