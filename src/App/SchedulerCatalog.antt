-- ===== src/App/SchedulerCatalog.antt =====
-- src/app/scheduler_catalog_service.cpp. The provider is a parameter: what its `list` answers, and
-- the state that it goes on with.
use gr4_control_plane.Prelude.{
  String, ◌<>◌, ◌≡◌, string_eq, if◌then◌else◌, Bool, true, false, Option, none, some, List, [], ◌∷◌,
  ◌++◌, map, contains, refl, sym, subst, ◌∙◌, arith,
}
use gr4_control_plane.Prelude.TextOrder.{str_ltb, str_ltb_asymm, str_ltb_trans}
use gr4_control_plane.Prelude.Sorting.{sort, IsSorted, sort-perm, sort-IsSorted}
use gr4_control_plane.Prelude.Dict
use gr4_control_plane.Prelude.Dict.{Dict, lookup-nil, lookup-insert}
use gr4_control_plane.Errors.{not_found_error, Result, ok, err, M, ◌>>=◌, pure}
use gr4_control_plane.Domain.Catalog.{SchedulerDescriptor}
use mathlib.Core.List.{Perm, append-nil, append_assoc}

pub record CachedCatalog : Type 0 where
  pub schedulers : List SchedulerDescriptor
  pub exact_schedulers : Dict String SchedulerDescriptor

unfoldable pub is_before : SchedulerDescriptor → SchedulerDescriptor → Bool
is_before left right = str_ltb left.id right.id

unfoldable pub add_schedulers : List SchedulerDescriptor → CachedCatalog → CachedCatalog
add_schedulers [] catalog = catalog
add_schedulers (scheduler ∷ rest) catalog = add_schedulers rest (record {
  schedulers = catalog.schedulers ++ (scheduler ∷ []);
  exact_schedulers = Dict.insert scheduler.id scheduler catalog.exact_schedulers;
})

unfoldable pub catalog_of : List SchedulerDescriptor → CachedCatalog
catalog_of provided =
    add_schedulers (sort is_before provided) (record { schedulers = []; exact_schedulers = [] })

module _ {P : Type 0} (provide : M P (List SchedulerDescriptor)) where
  pub record SchedulerCatalogService : Type 0 where
    pub cache : Option CachedCatalog
    pub provider : P

  abbrev fill :
      Result (List SchedulerDescriptor) × P → Result CachedCatalog × SchedulerCatalogService
  fill (ok provided, p) =
      (ok (catalog_of provided), record { cache = some (catalog_of provided); provider = p })
  fill (err e, p) = (err e, record { cache = none; provider = p })

  unfoldable pub cached_catalog : M SchedulerCatalogService CachedCatalog
  cached_catalog service = elim service.cache [
    | some catalog ↦ (ok catalog, service)
    | none ↦ fill (provide service.provider)
  ]

  unfoldable pub list : M SchedulerCatalogService (List SchedulerDescriptor)
  unfolding cached_catalog
  list = do catalog ← cached_catalog; pure catalog.schedulers

  abbrev found : String → Option SchedulerDescriptor → Result SchedulerDescriptor
  found id none = err (not_found_error ("scheduler not found: " <> id))
  found id (some scheduler) = ok scheduler

  unfoldable pub get : String → M SchedulerCatalogService SchedulerDescriptor
  unfolding cached_catalog
  get id = do
    catalog ← cached_catalog
    λ service. (found id (Dict.lookup id catalog.exact_schedulers), service)

is_before_asymm : (x y : SchedulerDescriptor) → is_before x y ≡ true → is_before y x ≡ false
unfolding is_before
is_before_asymm x y h = str_ltb_asymm x.id y.id h

is_before_trans :
    (x y z : SchedulerDescriptor)
    → is_before y x ≡ false
    → is_before z y ≡ false
    → is_before z x ≡ false
unfolding is_before
is_before_trans x y z h k = str_ltb_trans x.id y.id z.id h k

add_schedulers-all :
    (xs : List SchedulerDescriptor) (c : CachedCatalog)
    → (add_schedulers xs c).schedulers ≡ c.schedulers ++ xs
unfolding add_schedulers
add_schedulers-all [] c = sym (append-nil c.schedulers)
add_schedulers-all (x ∷ xs) c = add_schedulers-all xs _ ∙ append_assoc c.schedulers (x ∷ []) xs

add_schedulers-lookup :
    (j : String) (xs : List SchedulerDescriptor) (c : CachedCatalog)
    → Dict.lookup j (add_schedulers xs c).exact_schedulers ≡ (
        if contains (map (λ x. x.id) xs) j
        then some (record { id = j })
        else Dict.lookup j c.exact_schedulers)
unfolding add_schedulers
add_schedulers-lookup j [] c = ground arith
add_schedulers-lookup j (x ∷ xs) c = ground (
  arith,
  add_schedulers-lookup j xs (record {
    schedulers = c.schedulers ++ (x ∷ []);
    exact_schedulers = Dict.insert x.id x c.exact_schedulers;
  }),
  lookup-insert j x.id x c.exact_schedulers,
)

module _ {P : Type 0} (provide : M P (List SchedulerDescriptor))
    (service : SchedulerCatalogService provide) (provided : List SchedulerDescriptor) (p : P)
    (fresh : service.cache ≡ none) (answer : provide service.provider ≡ (ok provided, p)) where
  abbrev filled : SchedulerCatalogService provide
  filled = record { cache = some (catalog_of provided); provider = p }

  by_id :
      (xs : List SchedulerDescriptor)
      → sort is_before provided ≡ xs
      → IsSorted is_before xs × Perm xs provided
  by_id xs e =
      subst (λ xs. IsSorted is_before xs × Perm xs provided) e
        (
          sort-IsSorted is_before is_before_asymm is_before_trans provided,
          sort-perm is_before provided,
        )

  -- If nothing is cached and the provider answers, `list` gives the provided schedulers, each as
  -- often as it is provided, ordered by id, and keeps them.
  list-IsSorted :
      (list provide service ≡ (ok (catalog_of provided).schedulers, filled))
      × (IsSorted is_before (catalog_of provided).schedulers
          × Perm (catalog_of provided).schedulers provided)
  unfolding list cached_catalog catalog_of
  list-IsSorted = (
    rw (fresh, answer, catalog_of) refl,
    by_id _ (sym (add_schedulers-all (sort is_before provided) _)),
  )

  -- If nothing is cached and the provider answers, `get` finds the descriptor with the id if there is
  -- one among the schedulers that `list` gives, and throws a `NotFoundError` otherwise.
  get-found :
      (id : String)
      → get provide id service ≡ (
        if contains (map (λ x. x.id) (catalog_of provided).schedulers) id
            then ok (record { id = id })
            else err (not_found_error ("scheduler not found: " <> id)),
        filled,
      )
  unfolding get cached_catalog catalog_of
  get-found id =
      let start : CachedCatalog = record { schedulers = []; exact_schedulers = [] } in
      let sorted = sort is_before provided in
      ground (
        arith,
        fresh,
        answer,
        add_schedulers-all sorted start,
        add_schedulers-lookup id sorted start,
        lookup-nil {V = SchedulerDescriptor} id,
      )
