-- ===== src/App/BlockCatalog.antt =====
-- src/app/block_catalog_service.cpp. The provider is a parameter, as in `SchedulerCatalog`. Blocks that
-- agree in category, name and id are kept in the order in which the insertion leaves them, which
-- `std::sort` does not fix.
pub mod Browse
pub mod Best
use gr4_control_plane.Prelude.{
  ℕ, zero, suc, ◌+◌, String, ◌<>◌, ◌==◌, string_eq, nat_eq, if◌then◌else◌, ltb, Bool, true, false,
  not, ◌&&◌, Option, none, some, List, [], ◌∷◌, ◌++◌, contains,
}
use gr4_control_plane.Prelude.TextOrder.{str_ltb}
use gr4_control_plane.Prelude.Sorting.{sort}
use gr4_control_plane.Prelude.Bytes.{size}
use gr4_control_plane.Prelude.Dict
use gr4_control_plane.Prelude.Dict.{Dict}
use gr4_control_plane.Errors.{not_found_error, Result, ok, err, M, ◌>>=◌, pure}
use gr4_control_plane.Domain.Catalog.{BlockDescriptor}
use Prim.Native.Char.{code}

abbrev xor : Bool → Bool → Bool
xor true b = not b
xor false b = b

pub record CachedCatalog (Double : Type 0) : Type 0 where
  pub browse_blocks : List (BlockDescriptor Double)
  pub exact_blocks : Dict String (BlockDescriptor Double)

pub record BlockCatalogService (Double P : Type 0) : Type 0 where
  pub cache : Option (CachedCatalog Double)
  pub provider : P

module _ {Double : Type 0} where
  unfoldable pub canonical_catalog_key : BlockDescriptor Double → String
  canonical_catalog_key block = elim block.canonical_type [
    | none ↦ block.id
    | some type ↦ if type == "" then block.id else type
  ]

  unfoldable pub is_canonical_implementation_entry : BlockDescriptor Double → Bool
  is_canonical_implementation_entry block = elim block.canonical_type [
    | none ↦ false
    | some type ↦ not (type == "") && block.id == type
  ]

  -- The order of both sorts: by category, name and id.
  unfoldable pub is_before : BlockDescriptor Double → BlockDescriptor Double → Bool
  is_before left right =
      if not (left.category == right.category)
      then str_ltb left.category right.category
      else if not (left.name == right.name)
      then str_ltb left.name right.name
      else str_ltb left.id right.id

  unfoldable pub is_better_browse_entry : BlockDescriptor Double → BlockDescriptor Double → Bool
  is_better_browse_entry candidate current =
      let candidate_is_impl = is_canonical_implementation_entry candidate in
      let current_is_impl = is_canonical_implementation_entry current in
      if xor candidate_is_impl current_is_impl
      then not candidate_is_impl
      else if not (size candidate.id == size current.id)
      then ltb (size current.id) (size candidate.id)
      else if not (candidate.category == current.category)
      then str_ltb candidate.category current.category
      else if not (candidate.name == current.name)
      then str_ltb candidate.name current.name
      else str_ltb candidate.id current.id

  -- `find_if` and the assignment to what it finds.
  unfoldable pub replace_if_better :
      BlockDescriptor Double → List (BlockDescriptor Double) → List (BlockDescriptor Double)
  replace_if_better block [] = []
  replace_if_better block (existing ∷ rest) =
      let rest' = replace_if_better block rest in
      if canonical_catalog_key existing == canonical_catalog_key block
      then (if is_better_browse_entry block existing then block else existing) ∷ rest
      else existing ∷ rest'

  -- The body of the loop, which also carries `browse_keys`.
  unfoldable pub add_block :
      BlockDescriptor Double
      → CachedCatalog Double × List String
      → CachedCatalog Double × List String
  unfolding replace_if_better
  add_block block (catalog, browse_keys) =
      let key = canonical_catalog_key block in
      let exact = Dict.insert block.id block catalog.exact_blocks in
      if contains browse_keys key
      then (
        record {
          browse_blocks = replace_if_better block catalog.browse_blocks;
          exact_blocks = exact;
        },
        browse_keys,
      )
      else (
        record { browse_blocks = catalog.browse_blocks ++ (block ∷ []); exact_blocks = exact },
        key ∷ browse_keys,
      )

  unfoldable pub add_blocks :
      List (BlockDescriptor Double)
      → CachedCatalog Double × List String
      → CachedCatalog Double × List String
  add_blocks [] loop = loop
  add_blocks (block ∷ rest) loop = add_blocks rest (add_block block loop)

  unfoldable pub catalog_of : List (BlockDescriptor Double) → CachedCatalog Double
  catalog_of provided =
      let blocks = sort is_before provided in
      let (catalog, _) = add_blocks blocks (record { browse_blocks = []; exact_blocks = [] }, []) in
      record catalog { browse_blocks = sort is_before catalog.browse_blocks }

  module _ {P : Type 0} (provide : M P (List (BlockDescriptor Double))) where
    abbrev fill :
        Result (List (BlockDescriptor Double)) × P
        → Result (CachedCatalog Double) × BlockCatalogService Double P
    fill (ok provided, p) =
        (ok (catalog_of provided), record { cache = some (catalog_of provided); provider = p })
    fill (err e, p) = (err e, record { cache = none; provider = p })

    unfoldable pub cached_catalog : M (BlockCatalogService Double P) (CachedCatalog Double)
    cached_catalog service = elim service.cache [
      | some catalog ↦ (ok catalog, service)
      | none ↦ fill (provide service.provider)
    ]

    unfoldable pub list : M (BlockCatalogService Double P) (List (BlockDescriptor Double))
    unfolding cached_catalog
    list = do catalog ← cached_catalog; pure catalog.browse_blocks

    abbrev found : String → Option (BlockDescriptor Double) → Result (BlockDescriptor Double)
    found id none = err (not_found_error ("block not found: " <> id))
    found id (some block) = ok block

    unfoldable pub get : String → M (BlockCatalogService Double P) (BlockDescriptor Double)
    unfolding cached_catalog
    get id = do
      catalog ← cached_catalog
      λ service. (found id (Dict.lookup id catalog.exact_blocks), service)
