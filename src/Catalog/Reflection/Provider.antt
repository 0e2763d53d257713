-- ===== src/Catalog/Reflection/Provider.antt =====
-- `Gr4BlockCatalogProvider::list` of src/catalog/gr4_block_catalog_provider.cpp. The state is the pool of
-- retained loaders. `loaded` is what comes of the libraries and of the plugins that are loaded with
-- them, and `keys` are the registry's; both are read from the system and from GNU Radio.
use gr4_control_plane.Prelude.{String, ◌<>◌, Option, List, [], ◌∷◌, ◌++◌}
use gr4_control_plane.Prelude.Distinct.{sort_unique}
use gr4_control_plane.Errors.{catalog_load_error, Result, ok, err}
use gr4_control_plane.Prelude.Dict.{Dict}
use gr4_control_plane.Pmt.{Pmt}
use gr4_control_plane.Domain.Catalog.{BlockDescriptor}
use gr4_control_plane.Catalog.Reflection.Values.{Queries}
use gr4_control_plane.Catalog.Reflection.Blocks.{
  BlockModel, PluginLoader, Platform, available_blocks_from_retained_loaders, reflect_block,
  reflect_all,
}

module _ (p : Pmt) (q : Queries p.Value) (os : Platform p.Double)
    (registry : String → Option (BlockModel p.Value)) where
  abbrev pub Pool : Type 0
  Pool = List (PluginLoader p.Value)

  abbrev pub Listed : Type 0
  Listed = Result (List (BlockDescriptor p.Double))

  abbrev some_usable : Listed → Listed
  some_usable (ok []) =
      err (catalog_load_error "GNU Radio 4 catalog reflection produced no usable blocks")
  some_usable r = r

  abbrev pub list_ids : List String → Pool → Listed
  list_ids [] pool = err (catalog_load_error "GNU Radio 4 plugin loader found no registered blocks")
  list_ids (id ∷ ids) pool =
      some_usable (reflect_all os (reflect_block p q registry pool) (id ∷ ids))

  -- The ids of the registry and of all retained loaders.
  abbrev pub all_blocks : List String → Pool → List String
  all_blocks keys pool = sort_unique (keys ++ available_blocks_from_retained_loaders pool)

  abbrev pub list_loaded : List String → Pool → Listed × Pool
  list_loaded keys pool = (list_ids (all_blocks keys pool) pool, pool)

  -- By the plugins that failed to load, of which the first is reported.
  abbrev pub list_with :
      Dict String String → List String → PluginLoader p.Value → Pool → Listed × Pool
  list_with ((path, error) ∷ rest) keys loader pool = (
    err (
        catalog_load_error
          ("failed to load GNU Radio 4 plugin library (" <> path <> ": " <> error <> ")")),
    pool,
  )
  list_with [] keys loader pool = list_loaded keys (pool ++ (loader ∷ []))

  unfoldable pub list :
      List String → Result (PluginLoader p.Value) → List String → Pool → Listed × Pool
  unfolding available_blocks_from_retained_loaders
  list [] loaded keys pool =
      (err (catalog_load_error "GNU Radio 4 plugin directories are not configured"), pool)
  list (directory ∷ directories) (err e) keys pool = (err e, pool)
  list (directory ∷ directories) (ok loader) keys pool =
      list_with loader.failed_plugins keys loader pool
