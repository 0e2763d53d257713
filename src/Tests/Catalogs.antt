-- ===== src/Tests/Catalogs.antt =====
-- Both catalog services, on small catalogs.
use gr4_control_plane.Prelude.{ℕ, suc, String, ◌≡◌, refl, none, some, List, [], ◌∷◌, string_eq}
use gr4_control_plane.Prelude.Sorting.{count_if, sort, insert_sorted}
use gr4_control_plane.Prelude.TextOrder.{str_ltb}
use gr4_control_plane.Errors.{M, ok}
use gr4_control_plane.Domain.Catalog.{BlockDescriptor, SchedulerDescriptor}
use gr4_control_plane.App.SchedulerCatalog.{SchedulerCatalogService}
use gr4_control_plane.App.BlockCatalog
use gr4_control_plane.App.BlockCatalog.{BlockCatalogService}
use gr4_control_plane.App.BlockCatalog.Browse.{has_key, browse-once}
use gr4_control_plane.App.BlockCatalog.Best.{Covers, browse-best}
use gr4_control_plane.Prelude.{All}
use gr4_control_plane.Catalog.StaticProvider.{static_blocks}

abbrev schedulers : List SchedulerDescriptor
schedulers = record { id = "simple" } ∷ record { id = "graph" } ∷ []

abbrev provide_schedulers : M ℕ (List SchedulerDescriptor)
provide_schedulers n = (ok schedulers, suc n)

abbrev fresh_schedulers : SchedulerCatalogService provide_schedulers
fresh_schedulers = record { cache = none; provider = 0 }

abbrev block : String → String → BlockDescriptor (Unit {0})
block id name = record {
  id = id;
  canonical_type = some "gr::Adder";
  name = name;
  category = "math";
  summary = "";
  inputs = [];
  outputs = [];
  parameters = [];
}

abbrev adders : List (BlockDescriptor (Unit {0}))
adders = block "gr::Adder" "Adder" ∷ block "gr::Adder<float>" "Adder" ∷ []

browse-once_example :
    count_if (has_key "gr::Adder") (BlockCatalog.catalog_of adders).browse_blocks ≡ 1
unfolding string_eq BlockCatalog.canonical_catalog_key
browse-once_example = browse-once adders "gr::Adder"

browse-best_example :
    All (λ b. All (Covers b) (BlockCatalog.catalog_of adders).browse_blocks) adders
browse-best_example = browse-best adders

abbrev provide_adders : M ℕ (List (BlockDescriptor (Unit {0})))
provide_adders n = (ok adders, suc n)

abbrev fresh_adders : BlockCatalogService (Unit {0}) ℕ
fresh_adders = record { cache = none; provider = 0 }

-- The static catalog is browsed as it stands.
static_browse :
    {Double : Type 0} (double_of : ℕ → Double)
    → (BlockCatalog.catalog_of (static_blocks double_of)).browse_blocks ≡ static_blocks double_of
unfolding static_blocks BlockCatalog.catalog_of BlockCatalog.add_blocks BlockCatalog.add_block
    BlockCatalog.replace_if_better BlockCatalog.is_before BlockCatalog.canonical_catalog_key sort
    insert_sorted str_ltb string_eq
static_browse double_of = refl
