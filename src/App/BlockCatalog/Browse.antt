-- ===== src/App/BlockCatalog/Browse.antt =====
-- What `BlockCatalogService::list` shows of the blocks that the provider gives.
use gr4_control_plane.Prelude.{
  String, ◌==◌, string_eq, nat_eq, if◌then◌else◌, ltb, Bool, true, false, ◌||◌, List, [], ◌∷◌,
  contains, ◌≡◌, refl, arith, Option-cases, inl, inr,
}
use gr4_control_plane.Prelude.TextOrder.{str_ltb_asymm, str_ltb_trans, str_ltb_connex}
use gr4_control_plane.Prelude.Sorting.{
  sort, IsSorted, sort-IsSorted, count_if, count_if-append, count_if-sort,
}
use gr4_control_plane.Errors.{Result-cases, ok, M}
use gr4_control_plane.Domain.Catalog.{BlockDescriptor}
use gr4_control_plane.App.BlockCatalog.{
  canonical_catalog_key, is_before, CachedCatalog, BlockCatalogService, replace_if_better,
  add_block, add_blocks, catalog_of, cached_catalog, list,
}

module _ {Double : Type 0} where
  is_before_asymm : (x y : BlockDescriptor Double) → is_before x y ≡ true → is_before y x ≡ false
  unfolding is_before
  is_before_asymm x y h = ground (
    arith,
    str_ltb_asymm x.category y.category,
    str_ltb_asymm x.name y.name,
    str_ltb_asymm x.id y.id,
  )

  is_before_trans :
      (x y z : BlockDescriptor Double)
      → is_before y x ≡ false
      → is_before z y ≡ false
      → is_before z x ≡ false
  unfolding is_before
  is_before_trans x y z h k = ground (
    arith,
    str_ltb_trans x.category y.category z.category,
    str_ltb_connex x.category y.category,
    str_ltb_connex y.category z.category,
    str_ltb_trans x.name y.name z.name,
    str_ltb_connex x.name y.name,
    str_ltb_connex y.name z.name,
    str_ltb_trans x.id y.id z.id,
  )

  abbrev pub has_key : String → BlockDescriptor Double → Bool
  has_key key block = key == canonical_catalog_key block

  -- A better entry takes the place of one with its own key.
  replace-count_if :
      (key : String) (block : BlockDescriptor Double) (es : List (BlockDescriptor Double))
      → count_if (has_key key) (replace_if_better block es) ≡ count_if (has_key key) es
  unfolding replace_if_better
  replace-count_if key block [] = refl
  replace-count_if key block (e ∷ es) = ground (arith, replace-count_if key block es)

  -- The keys that are listed once.
  abbrev pub IsOnce : CachedCatalog Double × List String → Type 0
  IsOnce (catalog, keys) =
      (key : String)
      → count_if (has_key key) catalog.browse_blocks ≡ (if contains keys key then 1 else 0)

  pub add_block-IsOnce :
      (block : BlockDescriptor Double) (loop : CachedCatalog Double × List String)
      → IsOnce loop
      → IsOnce (add_block block loop)
  unfolding add_block
  add_block-IsOnce block (catalog, keys) once key = ground (
    arith,
    once key,
    replace-count_if key block catalog.browse_blocks,
    count_if-append (has_key key) catalog.browse_blocks (block ∷ []),
  )

  add_blocks-IsOnce :
      (blocks : List (BlockDescriptor Double)) (loop : CachedCatalog Double × List String)
      → IsOnce loop
      → IsOnce (add_blocks blocks loop)
  unfolding add_blocks
  add_blocks-IsOnce [] loop once = once
  add_blocks-IsOnce (block ∷ rest) loop once =
      add_blocks-IsOnce rest (add_block block loop) (add_block-IsOnce block loop once)

  add_block-keys :
      (block : BlockDescriptor Double) (loop : CachedCatalog Double × List String) (key : String)
      → contains (add_block block loop).1 key ≡ (has_key key block || contains loop.1 key)
  unfolding add_block
  add_block-keys block loop key = ground arith

  add_blocks-keys :
      (blocks : List (BlockDescriptor Double)) (loop : CachedCatalog Double × List String)
      (key : String)
      → contains (add_blocks blocks loop).1 key
        ≡ ltb 0 (count_if (has_key key) blocks) || contains loop.1 key
  unfolding add_blocks
  add_blocks-keys [] loop key = ground arith
  add_blocks-keys (block ∷ rest) loop key =
      ground (arith, add_blocks-keys rest (add_block block loop) key, add_block-keys block loop key)

  -- Each canonical key of a provided block stands in the browse list once, and no other key does.
  pub browse-once :
      (provided : List (BlockDescriptor Double)) (key : String)
      → count_if (has_key key) (catalog_of provided).browse_blocks
        ≡ (if ltb 0 (count_if (has_key key) provided) then 1 else 0)
  unfolding catalog_of
  browse-once provided key =
      let start : CachedCatalog Double × List String =
        (record { browse_blocks = []; exact_blocks = [] }, []) in
      let blocks = sort is_before provided in
      let loop = add_blocks blocks start in
      ground (
        arith,
        count_if-sort (has_key key) is_before loop.0.browse_blocks,
        add_blocks-IsOnce blocks start (λ _. refl) key,
        add_blocks-keys blocks start key,
        count_if-sort (has_key key) is_before provided,
      )

  -- The browse list is ordered by category, name and id.
  browse-IsSorted :
      (provided : List (BlockDescriptor Double))
      → IsSorted is_before (catalog_of provided).browse_blocks
  unfolding catalog_of
  browse-IsSorted provided = sort-IsSorted is_before is_before_asymm is_before_trans _

  -- Once `list` has returned blocks, each later `list` returns them, and the provider is left alone.
  list-again :
      {P : Type 0} (provide : M P (List (BlockDescriptor Double)))
      (service : BlockCatalogService Double P) (blocks : List (BlockDescriptor Double))
      → (list provide service).0 ≡ ok blocks
      → list provide (list provide service).1 ≡ (ok blocks, (list provide service).1)
  unfolding list cached_catalog
  list-again provide service blocks h = elim (Option-cases service.cache) [
    | inr (catalog, e) ↦ ground (arith, e)
    | inl e ↦ elim (Result-cases (provide service.provider).0) [
      | inl (provided, r) ↦ ground (arith, e, r)
      | inr (x, r) ↦ ground (arith, e, r)
    ]
  ]
