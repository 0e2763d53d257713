-- ===== src/Catalog/Wire/Kept.antt =====
-- What the parsers of src/catalog/gr4_block_catalog_provider.cpp read under a key that `put` has written.
use gr4_control_plane.Prelude.{
  String, Bool, Option, none, some, List, [], ◌∷◌, map, ◌≡◌, refl, ap, ◌∙◌, All,
}
use gr4_control_plane.Prelude.Int.{ℤ}
use gr4_control_plane.Prelude.Dict.{Dict}
use gr4_control_plane.Errors.{Result, ok, then_ok}
use gr4_control_plane.Json.{Json, bool, number, string, over, to_list-of_list, to_dict-of_dict}
use gr4_control_plane.Catalog.Wire.{to_int, as_text, as_integer, as_bool, each}
use gr4_control_plane.Catalog.Wire.Parameters.{
  unless_empty, strings_to_json, string_map_to_json, string_entry, read_choices, read_labels,
  string_map, string_or_throw,
}

-- A value of `int`.
abbrev pub IsInt : Option ℤ → Type 0
IsInt none = Unit {0}
IsInt (some n) = to_int n ≡ n

module _ (D : Type 0) where
  pub as_integer-over : (o : Option ℤ) → IsInt o → as_integer {D = D} (over number o none) ≡ o
  as_integer-over none h = refl
  as_integer-over (some n) h = ap some h

  pub as_text-over : (o : Option String) → as_text {D = D} (over string o none) ≡ o
  as_text-over none = refl
  as_text-over (some s) = refl

  pub as_bool-over : (o : Option Bool) → as_bool {D = D} (over bool o none) ≡ o
  as_bool-over none = refl
  as_bool-over (some b) = refl

  -- A loop over what another loop has written gives the items back.
  pub each-map :
      {A : Type 0} (read : Json D → Result A) (write : A → Json D) (P : A → Type 0) (items : List A)
      → ((a : A) → P a → read (write a) ≡ ok a)
      → All P items
      → each read (map write items) ≡ ok items
  unfolding each
  each-map read write P [] back h = refl
  each-map read write P (a ∷ items) back (h, hs) =
      rw (back a h, each-map read write P items back hs) refl

  Any : {A : Type 0} (items : List A) → All (λ a. Unit {0}) items
  Any [] = tt
  Any (a ∷ items) = (tt, Any items)

  pub read_choices-over :
      (o : Option (List String)) → read_choices {D = D} (over strings_to_json o none) ≡ ok o
  read_choices-over none = refl
  read_choices-over (some choices) =
      ap (λ r. then_ok r λ cs. ok (some cs))
        (ap (each string_or_throw) (to_list-of_list _)
          ∙ each-map string_or_throw string (λ s. Unit {0}) choices (λ s h. refl) (Any choices))

  string_map-entries :
      (labels : Dict String String) → string_map {D = D} (map string_entry labels) ≡ ok labels
  unfolding string_map
  string_map-entries [] = refl
  string_map-entries ((k, s) ∷ labels) = rw (string_map-entries labels) refl

  pub read_labels-over :
      (labels : Dict String String)
      → read_labels {D = D} (over string_map_to_json (unless_empty labels) none) ≡ ok labels
  read_labels-over [] = refl
  read_labels-over (entry ∷ labels) =
      ap string_map (to_dict-of_dict (map string_entry (entry ∷ labels)))
      ∙ string_map-entries (entry ∷ labels)
