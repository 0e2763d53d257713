-- ===== src/Main.antt =====
-- `main` of src/main.cpp: the services are made, both catalogs are loaded, and the server listens.
use gr4_control_plane.Prelude.{
  ℕ, String, ◌<>◌, Option, none, some, List, [], ◌≡◌, refl, subst, arith,
}
use gr4_control_plane.Prelude.Int.{ℤ, pos}
use gr4_control_plane.Prelude.Dict.{Dict}
use gr4_control_plane.Errors.{
  Exception, validation_error, not_found_error, invalid_state_error, runtime_error, timeout_error,
  block_not_found_error, reply_timeout_error, catalog_load_error, scheduler_catalog_load_error,
  std_exception, unknown_exception, Result, ok, err, M,
}
use gr4_control_plane.Json.{Json}
use gr4_control_plane.Domain.Catalog.{BlockDescriptor, SchedulerDescriptor}
use gr4_control_plane.Pmt.{Pmt, PmtWriter}
use gr4_control_plane.Runtime.Manager.{RuntimeManager}
use gr4_control_plane.App.BlockCatalog
use gr4_control_plane.App.BlockCatalog.{BlockCatalogService}
use gr4_control_plane.App.SchedulerCatalog
use gr4_control_plane.App.SchedulerCatalog.{SchedulerCatalogService}
use gr4_control_plane.App.BlockSettings.Conversion.{Nesting}
use gr4_control_plane.Api.Messages.{Libraries, Request, execute}
use gr4_control_plane.Api.Render.{blocks_to_json, schedulers_to_json}
use gr4_control_plane.Api.Catalogs
use gr4_control_plane.Api.Server.{Route, get_blocks, get_schedulers, Services, serve}
use gr4_control_plane.Api.Answers.{answer, set_json_response-answer}
use gr4_control_plane.Cli.Url.{stoi}

-- How a run goes on: it exits with a code and a line on `std::cerr`, is terminated by an exception that
-- nothing catches, or listens at a port.
pub data Run (S : Type 0) : Type 0 where
  exits : ℕ → String → Run S
  terminates : Exception → Run S
  listens : ℤ → S → Run S

-- The handlers around the loading.
unfoldable pub initialization_failed : {S : Type 0} → Exception → Run S
initialization_failed (catalog_load_error message) =
    exits 1 ("GNU Radio 4 catalog initialization failed: " <> message)
initialization_failed (scheduler_catalog_load_error message) =
    exits 1 ("GNU Radio 4 scheduler catalog initialization failed: " <> message)
initialization_failed e = terminates e

module _ {p : Pmt} (rm : RuntimeManager (Dict String p.Value)) (lib : Libraries p.Double)
    (w : PmtWriter p) (nesting : Nesting p) {PB PS : Type 0}
    (provide_blocks : M PB (List (BlockDescriptor p.Double)))
    (provide_schedulers : M PS (List SchedulerDescriptor)) where
  abbrev pub AllServices : Type 0
  AllServices = Services rm lib w nesting provide_blocks provide_schedulers

  abbrev listen_at : AllServices → Option ℤ → Run AllServices
  listen_at st none = terminates (std_exception "stoi")
  listen_at st (some port) = listens port st

  -- `GR4CP_PORT`, or 8080.
  abbrev listen_with : Option String → AllServices → Run AllServices
  listen_with none st = listens (pos 8080) st
  listen_with (some port_env) st = listen_at st (stoi port_env)

  abbrev services_of :
      rm.State
      → BlockCatalogService p.Double PB
      → SchedulerCatalogService provide_schedulers
      → AllServices
  services_of runtime blocks schedulers = record {
    sessions = record { service = record { repository = []; phases = [] }; runtime = runtime };
    blocks = blocks;
    schedulers = schedulers;
  }

  abbrev after_schedulers :
      Option String
      → rm.State
      → BlockCatalogService p.Double PB
      → Result (List SchedulerDescriptor) × SchedulerCatalogService provide_schedulers
      → Run AllServices
  after_schedulers port_env runtime blocks (err e, schedulers) = initialization_failed e
  after_schedulers port_env runtime blocks (ok _, schedulers) =
      listen_with port_env (services_of runtime blocks schedulers)

  abbrev after_blocks :
      Option String
      → rm.State
      → PS
      → Result (List (BlockDescriptor p.Double)) × BlockCatalogService p.Double PB
      → Run AllServices
  after_blocks port_env runtime schedulers (err e, blocks) = initialization_failed e
  after_blocks port_env runtime schedulers (ok _, blocks) =
      after_schedulers port_env runtime blocks
        (SchedulerCatalog.list provide_schedulers (record { cache = none; provider = schedulers }))

  unfoldable pub main : Option String → rm.State → PB → PS → Run AllServices
  main port_env runtime blocks schedulers =
      after_blocks port_env runtime schedulers
        (BlockCatalog.list provide_blocks (record { cache = none; provider = blocks }))

  -- A catalog that was listed is listed again as it is, and the provider is not asked.
  blocks_again :
      (service later : BlockCatalogService p.Double PB) (blocks : List (BlockDescriptor p.Double))
      → BlockCatalog.list provide_blocks service ≡ (ok blocks, later)
      → BlockCatalog.list provide_blocks later ≡ (ok blocks, later)
  unfolding BlockCatalog.list BlockCatalog.cached_catalog
  blocks_again service later blocks h = ground (arith, h)

  schedulers_again :
      (service later : SchedulerCatalogService provide_schedulers)
      (schedulers : List SchedulerDescriptor)
      → SchedulerCatalog.list provide_schedulers service ≡ (ok schedulers, later)
      → SchedulerCatalog.list provide_schedulers later ≡ (ok schedulers, later)
  unfolding SchedulerCatalog.list SchedulerCatalog.cached_catalog
  schedulers_again service later schedulers h = ground (arith, h)

  failed_no_listen :
      (e : Exception) (port : ℤ) (st : AllServices) → initialization_failed e ≡ listens port st → ⊥
  unfolding initialization_failed
  failed_no_listen (catalog_load_error _) port st h = cc
  failed_no_listen (scheduler_catalog_load_error _) port st h = cc
  failed_no_listen (validation_error _) port st h = cc
  failed_no_listen (not_found_error _) port st h = cc
  failed_no_listen (invalid_state_error _) port st h = cc
  failed_no_listen (runtime_error _) port st h = cc
  failed_no_listen (timeout_error _) port st h = cc
  failed_no_listen (block_not_found_error _) port st h = cc
  failed_no_listen (reply_timeout_error _) port st h = cc
  failed_no_listen (std_exception _) port st h = cc
  failed_no_listen unknown_exception port st h = cc

  listen_with-services :
      (port_env : Option String) (made st : AllServices) (port : ℤ)
      → listen_with port_env made ≡ listens port st
      → made ≡ st
  listen_with-services none made st port h = cc
  listen_with-services (some text) made st port h = at_port (stoi text) h
    where
      at_port : (o : Option ℤ) → listen_at made o ≡ listens port st → made ≡ st
      at_port none k = cc
      at_port (some n) k = cc

  -- Both catalogs are loaded.
  unfoldable IsLoaded : AllServices → Type 0
  IsLoaded st =
      (blocks : List (BlockDescriptor p.Double)) × (schedulers : List SchedulerDescriptor)
      × (BlockCatalog.list provide_blocks st.blocks ≡ (ok blocks, st.blocks))
      × (SchedulerCatalog.list provide_schedulers st.schedulers ≡ (ok schedulers, st.schedulers))

  main-IsLoaded :
      (port_env : Option String) (runtime : rm.State) (pb : PB) (ps : PS) (port : ℤ)
      (st : AllServices)
      → main port_env runtime pb ps ≡ listens port st
      → IsLoaded st
  unfolding main IsLoaded
  main-IsLoaded port_env runtime pb ps port st = of_blocks _ (λ blocks later e. e)
    where
      of_schedulers :
          (c : Result (List SchedulerDescriptor) × SchedulerCatalogService provide_schedulers)
          (blocks : List (BlockDescriptor p.Double)) (service : BlockCatalogService p.Double PB)
          → BlockCatalog.list provide_blocks service ≡ (ok blocks, service)
          → ((schedulers : List SchedulerDescriptor)
                (later : SchedulerCatalogService provide_schedulers)
              → c ≡ (ok schedulers, later)
              → SchedulerCatalog.list provide_schedulers (record { cache = none; provider = ps })
                ≡ (ok schedulers, later))
          → after_schedulers port_env runtime service c ≡ listens port st
          → IsLoaded st
      of_schedulers (err e, later) blocks service b q h = absurd (failed_no_listen e port st h)
      of_schedulers (ok schedulers, later) blocks service b q h =
          subst IsLoaded
            (listen_with-services port_env (services_of runtime service later) st port h)
            (blocks, schedulers, b, schedulers_again _ later schedulers (q schedulers later refl))

      of_blocks :
          (c : Result (List (BlockDescriptor p.Double)) × BlockCatalogService p.Double PB)
          → ((blocks : List (BlockDescriptor p.Double)) (later : BlockCatalogService p.Double PB)
              → c ≡ (ok blocks, later)
              → BlockCatalog.list provide_blocks (record { cache = none; provider = pb })
                ≡ (ok blocks, later))
          → after_blocks port_env runtime ps c ≡ listens port st
          → IsLoaded st
      of_blocks (err e, later) q h = absurd (failed_no_listen e port st h)
      of_blocks (ok blocks, later) q h =
          of_schedulers
            (SchedulerCatalog.list provide_schedulers (record { cache = none; provider = ps }))
            blocks later (blocks_again _ later blocks (q blocks later refl)) (λ ss l e. e) h

  -- Once the server listens, the requests for the blocks and for the schedulers are answered with 200
  -- and change nothing: no provider is asked again.
  pub main-serves :
      (dump : Json p.Double → String) (dumps : (j : Json p.Double) → lib.dump j ≡ ok (dump j))
      (port_env : Option String) (runtime : rm.State) (pb : PB) (ps : PS) (port : ℤ)
      (st : AllServices) (request : Request) (draws : List String) (now : ℕ)
      → main port_env runtime pb ps ≡ listens port st
      → let answer_to = λ (route : Route).
        serve rm lib w nesting provide_blocks provide_schedulers route request draws now st in
        (blocks : List (BlockDescriptor p.Double)) × (schedulers : List SchedulerDescriptor)
        × (answer_to get_blocks ≡ some (ok (answer lib dump dumps (blocks_to_json blocks) 200), st))
        × (answer_to get_schedulers
            ≡ some (ok (answer lib dump dumps (schedulers_to_json schedulers) 200), st))
  unfolding serve Catalogs.get_blocks Catalogs.get_schedulers execute IsLoaded
  main-serves dump dumps port_env runtime pb ps port st request draws now h =
      let (blocks, schedulers, b, s) = main-IsLoaded port_env runtime pb ps port st h in
      (
        blocks,
        schedulers,
        rw (b, set_json_response-answer lib dump dumps, serve) refl,
        rw (s, set_json_response-answer lib dump dumps, serve) refl,
      )
