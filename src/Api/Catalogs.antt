-- ===== src/Api/Catalogs.antt =====
-- The handlers of `/healthz` and of the catalogs' routes in src/api/http_server.cpp.
use gr4_control_plane.Prelude.{ℕ, true, List, [], ◌∷◌}
use gr4_control_plane.Errors.{M, ◌>>=◌, of_result}
use gr4_control_plane.Domain.Catalog.{BlockDescriptor, SchedulerDescriptor}
use gr4_control_plane.Json.{bool}
use gr4_control_plane.App.BlockCatalog
use gr4_control_plane.App.BlockCatalog.{BlockCatalogService}
use gr4_control_plane.App.SchedulerCatalog
use gr4_control_plane.App.SchedulerCatalog.{SchedulerCatalogService}
use gr4_control_plane.Api.Render.{
  object_of, block_to_json, blocks_to_json, scheduler_to_json, schedulers_to_json,
}
use gr4_control_plane.Api.Messages.{Libraries, Response, respond, execute}
use gr4_control_plane.Api.Sessions.{decoded}

module _ {D : Type 0} (lib : Libraries D) where
  -- The one handler that is not run by `execute`.
  unfoldable pub get_healthz : {S : Type 0} → M S Response
  get_healthz = respond lib (object_of (("ok", bool true) ∷ [])) 200

  module _ {P : Type 0} (provide : M P (List (BlockDescriptor D))) where
    unfoldable pub get_blocks : M (BlockCatalogService D P) Response
    get_blocks =
        execute lib (do blocks ← BlockCatalog.list provide; respond lib (blocks_to_json blocks) 200)

    unfoldable pub get_block : List ℕ → M (BlockCatalogService D P) Response
    get_block encoded = execute lib (do
      id ← of_result (decoded lib encoded)
      block ← BlockCatalog.get provide id
      respond lib (block_to_json block) 200)

  module _ {P : Type 0} (provide : M P (List SchedulerDescriptor)) where
    unfoldable pub get_schedulers : M (SchedulerCatalogService provide) Response
    get_schedulers = execute lib (do
      schedulers ← SchedulerCatalog.list provide
      respond lib (schedulers_to_json schedulers) 200)

    unfoldable pub get_scheduler : List ℕ → M (SchedulerCatalogService provide) Response
    get_scheduler encoded = execute lib (do
      id ← of_result (decoded lib encoded)
      scheduler ← SchedulerCatalog.get provide id
      respond lib (scheduler_to_json scheduler) 200)
