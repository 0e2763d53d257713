-- ===== src/Catalog/Reflection/Bounds.antt =====
-- The bounds of the number of ports that is rendered.
use gr4_control_plane.Prelude.{
  ℕ, String, ◌||◌, ◌==◌, string_eq, nat_eq, if◌then◌else◌, Bool, true, false, Option, none, some,
  List, ◌≡◌, refl, arith, ◌⊎◌, inl, inr,
}
use gr4_control_plane.Prelude.Int.{ℤ, pos, negsuc, ◌≤ℤ◌}
use gr4_control_plane.Domain.Catalog.{BlockParameterDescriptor}
use gr4_control_plane.Catalog.Reflection.Ports.{
  port_count_lower_bound, port_count_upper_bound, infer_collection_size_parameter,
}
use gr4_control_plane.Catalog.Reflection.Collections.{
  CollectionMetadata, clamped, counted_or, default_count, min_count, max_count,
  infer_collection_metadata, infer_collection_render_port_count,
}

-- Within the minimum and the maximum, of which -1 is none.
abbrev pub IsWithin : ℤ → ℤ → ℤ → Type 0
IsWithin min max count = (min ≤ℤ count) × ((max ≡ negsuc 0) ⊎ (count ≤ℤ max))

-- There is a maximum of 32 with a minimum of 1, or none.
unfoldable IsBounds : ℤ → ℤ → Type 0
IsBounds min max = ((m : ℕ) × (min ≡ pos m) × (max ≡ negsuc 0)) ⊎ ((min ≡ pos 1) × (max ≡ pos 32))

min_count-IsBounds :
    (o : Option String) (current : ℕ) → IsBounds (min_count o current) (max_count o)
unfolding IsBounds min_count max_count port_count_lower_bound port_count_upper_bound
min_count-IsBounds none current = inl (if current == 0 then 0 else 1, ground arith, refl)
min_count-IsBounds (some name) current =
    by_test (name == "n_inputs" || name == "n_outputs" || name == "n_ports")
  where
    by_test :
        (b : Bool)
        → IsBounds
            (counted_or (if b then some (pos 1) else none) (if current == 0 then pos 0 else pos 1))
            (counted_or (if b then some (pos 32) else none) (negsuc 0))
    by_test true = inr (refl, refl)
    by_test false = inl (if current == 0 then 0 else 1, ground arith, refl)

clamped_free :
    (m : ℕ) (n : ℤ) → IsWithin (pos m) (negsuc 0) (clamped (some (pos m)) (some (negsuc 0)) n)
unfolding clamped
clamped_free m (pos n) = (ground arith, inl refl)
clamped_free m (negsuc n) = (ground arith, inl refl)

clamped_32 : (n : ℤ) → IsWithin (pos 1) (pos 32) (clamped (some (pos 1)) (some (pos 32)) n)
unfolding clamped
clamped_32 (pos n) = (ground arith, inr (ground arith))
clamped_32 (negsuc n) = (ground arith, inr (ground arith))

clamped-IsWithin :
    (min max n : ℤ) → IsBounds min max → IsWithin min max (clamped (some min) (some max) n)
unfolding IsBounds
clamped-IsWithin min max n (inl (m, e, f)) = rw (e, f) (clamped_free m n)
clamped-IsWithin min max n (inr (e, f)) = rw (e, f) (clamped_32 n)

module _ {D : Type 0} (name block_id : String) (is_input : Bool)
    (parameters : List (BlockParameterDescriptor D)) (current : ℕ) where
  abbrev metadata : CollectionMetadata
  metadata = infer_collection_metadata name block_id is_input parameters current

  render_port_count-clamped :
      (min max : Option ℤ) (n : ℤ)
      → default_count parameters (infer_collection_size_parameter name is_input parameters) ≡ some n
      → infer_collection_render_port_count name is_input parameters current min max
        ≡ some (clamped min max n)
  unfolding infer_collection_render_port_count
  render_port_count-clamped min max n h = rw (h, infer_collection_render_port_count) refl

  -- If the size parameter of a collection holds an integer, the number of ports to render is at least the
  -- minimum, and at most the maximum if there is one.
  pub render_port_count-IsWithin :
      (n : ℤ)
      → default_count parameters metadata.size_parameter ≡ some n
      → (min max count : ℤ) × (metadata.min_port_count ≡ some min)
        × (metadata.max_port_count ≡ some max)
        × (metadata.render_port_count ≡ some count)
        × IsWithin min max count
  unfolding infer_collection_metadata
  render_port_count-IsWithin n h =
      let o = infer_collection_size_parameter name is_input parameters in
      (
        min_count o current,
        max_count o,
        clamped (some (min_count o current)) (some (max_count o)) n,
        refl,
        refl,
        render_port_count-clamped (some (min_count o current)) (some (max_count o)) n h,
        clamped-IsWithin (min_count o current) (max_count o) n (min_count-IsBounds o current),
      )
