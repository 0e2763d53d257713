-- ===== src/App/BlockSettings/RoundTrip.antt =====
-- Settings that are written as JSON and read back.
use gr4_control_plane.Prelude.{
  String, string_eq, Bool, false, List, [], ◌∷◌, ◌++◌, ◌≡◌, contains, refl, sym, ap, ◌∙◌, none,
  arith,
}
use mathlib.Core.List.{append-nil, append_assoc}
use gr4_control_plane.Prelude.Int.{ℤ}
use gr4_control_plane.Prelude.Dict.{Dict, insert, lookup, lookup-nil, lookup-insert}
use gr4_control_plane.Errors.{ok}
use gr4_control_plane.Pmt.{Pmt, PmtWriter, Shape, monostate, boolean, integer, floating, text, map}
use gr4_control_plane.Json.{
  of_dict-to_dict, Json, null, binary, bool, number, float, string, object, array, Members,
  no_members, member, to_dict,
}
use gr4_control_plane.App.BlockSettings.Conversion.{
  to_int64, json_to_pmt_value, insert_members, json_to_property_map, Nesting, insert_all,
  visit_json, pmt_value_to_json, property_map_to_json,
}
use gr4_control_plane.App.BlockSettings.Recursion.{pmt_value_to_json-visit}

-- JSON that the conversion takes over exactly: numbers of 64 bits with a sign, no array, and every key
-- of an object once.
unfoldable mutual
  pub IsPlain : {D : Type 0} → Json D → Type 0
  IsPlain (number n) = to_int64 n ≡ n
  IsPlain (object items) = ArePlain [] items
  IsPlain (array _) = ⊥
  IsPlain binary = ⊥
  IsPlain _ = Unit {0}

  pub ArePlain : {D : Type 0} → List String → Members D → Type 0
  ArePlain keys no_members = Unit {0}
  ArePlain keys (member key item items) =
      (contains keys key ≡ false) × IsPlain item × ArePlain (key ∷ keys) items

-- What can be read back from values that were made.
pub record Kept {p : Pmt} (w : PmtWriter p) : Type 0 where
  pub of_null-visit : p.visit w.of_null ≡ monostate
  pub of_boolean-visit : (b : Bool) → p.visit (w.of_boolean b) ≡ boolean b
  pub of_integer-visit : (n : ℤ) → p.visit (w.of_integer n) ≡ integer n
  pub of_floating-visit : (d : p.Double) → p.visit (w.of_floating d) ≡ floating d
  pub of_text-visit : (s : String) → p.visit (w.of_text s) ≡ text s
  pub of_map-visit : (m : Dict String p.Value) → p.visit (w.of_map m) ≡ map m

-- A new key is put at the end.
abbrev New : {V : Type 0} → List String → Dict String V → Type 0
New keys d = (key : String) → contains keys key ≡ false → lookup key d ≡ none

insert-absent :
    {V : Type 0} (key : String) (v : V) (d : Dict String V)
    → lookup key d ≡ none
    → insert key v d ≡ d ++ ((key, v) ∷ [])
unfolding insert lookup
insert-absent key v [] h = refl
insert-absent key v ((k, u) ∷ d) h = ground (arith, insert-absent key v d)

insert-New :
    {V : Type 0} (keys : List String) (key : String) (v : V) (d : Dict String V)
    → New keys d
    → New (key ∷ keys) (insert key v d)
insert-New keys key v d h j e = ground (arith, h j, lookup-insert j key v d)

module _ {p : Pmt} (w : PmtWriter p) (kept : Kept w) (nesting : Nesting p) where
  -- Values under the keys of an object that are converted to its items.
  abbrev Made : Dict String p.Value → Members p.Double → Type 0
  Made [] no_members = Unit {0}
  Made ((k, v) ∷ d) (member key item items) =
      (k ≡ key) × (pmt_value_to_json nesting v ≡ ok item) × Made d items
  Made _ _ = ⊥

  insert_all-Made :
      (keys : List String) (result : Dict String (Json p.Double)) (d : Dict String p.Value)
      (items : Members p.Double)
      → New keys result
      → ArePlain keys items
      → Made d items
      → insert_all (pmt_value_to_json nesting) result d ≡ ok (result ++ to_dict items)
  unfolding IsPlain
  insert_all-Made keys result [] no_members new h made = ap ok (sym (append-nil result))
  insert_all-Made keys result ((k, v) ∷ d) (member key item items) new (fresh, plain, h)
        (e, back, made) =
      rw
        (
          back,
          e,
          insert_all-Made (key ∷ keys) (insert key item result) d items
              (insert-New keys key item result new) h made,
          insert-absent key item result (new key fresh),
        )
        (ap ok (append_assoc result ((key, item) ∷ []) (to_dict items)))
  insert_all-Made keys result [] (member key item items) new h made = absurd made
  insert_all-Made keys result ((k, v) ∷ d) no_members new h made = absurd made

  abbrev Back : Json p.Double → p.Value → Type 0
  Back j v = (json_to_pmt_value w j ≡ ok v) × (pmt_value_to_json nesting v ≡ ok j)

  -- A value that is read back as it was made.
  back :
      (j : Json p.Double) (v : p.Value) (shape : Shape p.Value p.Double)
      → json_to_pmt_value w j ≡ ok v
      → p.visit v ≡ shape
      → visit_json (pmt_value_to_json nesting) shape ≡ ok j
      → Back j v
  back j v shape made read h = (made, pmt_value_to_json-visit nesting v ∙ (rw read h))

  mutual
    unfolding IsPlain json_to_pmt_value visit_json

    value-Back : (j : Json p.Double) → IsPlain j → (v : p.Value) × Back j v
    value-Back null h = (_, back null _ _ refl kept.of_null-visit refl)
    value-Back (bool b) h = (_, back (bool b) _ _ refl (kept.of_boolean-visit b) refl)
    value-Back (number n) h =
        (_, back (number n) _ _ refl (kept.of_integer-visit (to_int64 n)) (rw h refl))
    value-Back (float d) h = (_, back (float d) _ _ refl (kept.of_floating-visit d) refl)
    value-Back (string s) h = (_, back (string s) _ _ refl (kept.of_text-visit s) refl)
    value-Back (object items) h =
        let (d, inserted, made) = members-Made [] [] items (λ key e. lookup-nil key) h in
        (
          w.of_map d,
          back (object items) (w.of_map d) _ (rw inserted refl) (kept.of_map-visit d) (
              rw (insert_all-Made [] [] d items (λ key e. lookup-nil key) h made)
                (ap (λ z. ok (object z)) (of_dict-to_dict items))),
        )
    value-Back (array _) h = absurd h
    value-Back binary h = absurd h

    members-Made :
        (keys : List String) (result : Dict String p.Value) (items : Members p.Double)
        → New keys result
        → ArePlain keys items
        → (d : Dict String p.Value) × (insert_members w result items ≡ ok (result ++ d))
          × Made d items
    members-Made keys result no_members new h = ([], ap ok (sym (append-nil result)), tt)
    members-Made keys result (member key item items) new (fresh, plain, h) =
        let (v, (made, read)) = value-Back item plain in
        let (d, inserted, all_made) =
          members-Made (key ∷ keys) (insert key v result) items (insert-New keys key v result new)
            h in
        (
          (key, v) ∷ d,
          rw made (
              inserted
              ∙ rw (insert-absent key v result (new key fresh))
                  (ap ok (append_assoc result ((key, v) ∷ []) d))),
          (refl, read, all_made),
        )

  -- Settings of plain JSON are taken, and read back they are the same JSON.
  pub property_map_to_json-json_to_property_map :
      (items : Members p.Double)
      → IsPlain (object items)
      → (m : Dict String p.Value) × (json_to_property_map w (object items) ≡ ok m)
        × (property_map_to_json nesting m ≡ ok (object items))
  unfolding json_to_property_map property_map_to_json IsPlain
  property_map_to_json-json_to_property_map items h =
      let (d, inserted, made) = members-Made [] [] items (λ key e. lookup-nil key) h in
      (
        d,
        inserted,
        rw (insert_all-Made [] [] d items (λ key e. lookup-nil key) h made)
            (ap (λ z. ok (object z)) (of_dict-to_dict items)),
      )
