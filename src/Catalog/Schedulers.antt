-- ===== src/Catalog/Schedulers.antt =====
-- `Gr4SchedulerCatalogProvider::list` of src/catalog/gr4_scheduler_catalog_provider.cpp. `loaded` is what
-- comes of the libraries and of the loader, which are read from the system and from GNU Radio.
use gr4_control_plane.Prelude.{
  String, ◌<>◌, string_eq, if◌then◌else◌, Bool, true, false, not, ◌&&◌, contains, List, [], ◌∷◌,
  map, ◌≡◌, ap, ◌∙◌, arith, All,
}
use gr4_control_plane.Prelude.Dict.{Dict}
use gr4_control_plane.Prelude.Distinct.{
  sort_unique, Increasing, sort_unique-Increasing, contains-sort_unique,
}
use gr4_control_plane.Prelude.TextOrder.{str_ltb}
use gr4_control_plane.Errors.{scheduler_catalog_load_error, Result, ok, err}
use gr4_control_plane.Domain.Catalog.{SchedulerDescriptor}
use gr4_control_plane.Catalog.Reflection.Names.{contains_text}

-- `gr::PluginLoader`
pub record SchedulerLoader : Type 0 where
  pub available_schedulers : List String
  pub failed_plugins : Dict String String

unfoldable pub is_alias_scheduler_id : String → Bool
is_alias_scheduler_id id = not (contains_text "<" id)

-- `erase` of what `std::remove_if` leaves over.
unfoldable pub aliases : List String → List String
aliases [] = []
aliases (id ∷ ids) = if is_alias_scheduler_id id then id ∷ aliases ids else aliases ids

abbrev pub descriptor : String → SchedulerDescriptor
descriptor id = record { id = id }

abbrev pub Listed : Type 0
Listed = Result (List SchedulerDescriptor)

abbrev pub described : List String → Listed
described [] =
    err (scheduler_catalog_load_error "GNU Radio 4 plugin loader found no registered schedulers")
described (id ∷ ids) = ok (map descriptor (id ∷ ids))

abbrev list_with : Dict String String → List String → Listed
list_with ((path, error) ∷ rest) ids = err (
    scheduler_catalog_load_error
      ("failed to load GNU Radio 4 plugin library (" <> path <> ": " <> error <> ")"))
list_with [] ids = described (aliases (sort_unique ids))

unfoldable pub list : List String → Result SchedulerLoader → Listed
list [] loaded =
    err (scheduler_catalog_load_error "GNU Radio 4 plugin directories are not configured")
list (directory ∷ directories) (err e) = err e
list (directory ∷ directories) (ok loader) =
    list_with loader.failed_plugins loader.available_schedulers

aliases-All : (P : String → Type 0) (ids : List String) → All P ids → All P (aliases ids)
unfolding aliases
aliases-All P [] h = tt
aliases-All P (id ∷ ids) (p, h) = by_test (is_alias_scheduler_id id) (aliases-All P ids h)
  where
    by_test : (b : Bool) → All P (aliases ids) → All P (if b then id ∷ aliases ids else aliases ids)
    by_test true k = (p, k)
    by_test false k = k

aliases-Increasing : (ids : List String) → Increasing ids → Increasing (aliases ids)
unfolding aliases
aliases-Increasing [] h = tt
aliases-Increasing (id ∷ ids) (p, h) = by_test (is_alias_scheduler_id id) (aliases-Increasing ids h)
  where
    by_test :
        (b : Bool)
        → Increasing (aliases ids)
        → Increasing (if b then id ∷ aliases ids else aliases ids)
    by_test true k = (aliases-All (λ y. str_ltb id y ≡ true) ids p, k)
    by_test false k = k

contains-aliases :
    (j : String) (ids : List String)
    → contains (aliases ids) j ≡ (is_alias_scheduler_id j && contains ids j)
unfolding aliases
contains-aliases j [] = ground arith
contains-aliases j (id ∷ ids) = ground (arith, contains-aliases j ids)

-- What `list` answers from the ids that the loader has: each id without '<' once, in increasing order;
-- and it throws if there is none.
pub list-Increasing :
    (directory : String) (directories : List String) (loader : SchedulerLoader)
    → loader.failed_plugins ≡ []
    → (ids : List String) × Increasing ids
      × ((j : String)
          → contains ids j ≡ (is_alias_scheduler_id j && contains loader.available_schedulers j))
      × (list (directory ∷ directories) (ok loader) ≡ described ids)
unfolding list
list-Increasing directory directories loader loads =
    let sorted = sort_unique loader.available_schedulers in
    (
      aliases sorted,
      aliases-Increasing sorted (sort_unique-Increasing loader.available_schedulers),
      λ j.
          contains-aliases j sorted
          ∙ ap (λ b. is_alias_scheduler_id j && b)
              (contains-sort_unique j loader.available_schedulers),
      ap (λ failed. list_with failed loader.available_schedulers) loads,
    )
