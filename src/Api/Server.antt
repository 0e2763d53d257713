-- ===== src/Api/Server.antt =====
-- `register_routes` of src/api/http_server.cpp: the services behind the server, and which handler
-- answers a request. The library matches a request with the routes' patterns; a `Route` is the
-- pattern that fits and what its groups have matched, not yet decoded.
use gr4_control_plane.Prelude.{ℕ, String, Option, none, some, List}
use gr4_control_plane.Prelude.Dict.{Dict}
use gr4_control_plane.Errors.{Result, M}
use gr4_control_plane.Domain.Catalog.{BlockDescriptor, SchedulerDescriptor}
use gr4_control_plane.Pmt.{Pmt, PmtWriter}
use gr4_control_plane.Runtime.Manager.{RuntimeManager}
use gr4_control_plane.App.BlockCatalog.{BlockCatalogService}
use gr4_control_plane.App.SchedulerCatalog.{SchedulerCatalogService}
use gr4_control_plane.App.BlockSettings
use gr4_control_plane.App.BlockSettings.Conversion.{Nesting}
use gr4_control_plane.App.SessionService.Operations.{World}
use gr4_control_plane.Api.Messages.{Libraries, Request, Response}
use gr4_control_plane.Api.Sessions
use gr4_control_plane.Api.Catalogs
use gr4_control_plane.Api.Settings

pub data Route : Type 0 where
  get_healthz get_blocks get_schedulers post_sessions get_sessions : Route
  get_block get_scheduler : List ℕ → Route
  get_stream get_websocket get_settings post_settings : String → List ℕ → Route
  get_session delete_session post_start post_stop post_restart : String → Route

module _ {p : Pmt} (rm : RuntimeManager (Dict String p.Value)) (lib : Libraries p.Double)
    (w : PmtWriter p) (nesting : Nesting p) {PB PS : Type 0}
    (provide_blocks : M PB (List (BlockDescriptor p.Double)))
    (provide_schedulers : M PS (List SchedulerDescriptor)) where
  -- The settings service shares the session service's repository and runtime manager.
  pub record Services : Type 0 where
    pub sessions : World rm
    pub blocks : BlockCatalogService p.Double PB
    pub schedulers : SchedulerCatalogService provide_schedulers

  abbrev on_sessions : {A : Type 0} → A × World rm → Services → A × Services
  on_sessions (a, sessions) st = (a, record st { sessions = sessions })

  abbrev on_settings : M (BlockSettings.World rm) Response → M Services Response
  on_settings m st =
      let (r, settings) =
        m (record { repository = st.sessions.service.repository; runtime = st.sessions.runtime }) in
      (
        r,
        record st {
          sessions = record {
            service = record st.sessions.service { repository = settings.repository };
            runtime = settings.runtime;
          };
        },
      )

  abbrev sessions_of : M (World rm) Response → M Services Response
  sessions_of m st = on_sessions (m st.sessions) st

  abbrev blocks_of : M (BlockCatalogService p.Double PB) Response → M Services Response
  blocks_of m st = let (r, blocks) = m st.blocks in (r, record st { blocks = blocks })

  abbrev schedulers_of :
      M (SchedulerCatalogService provide_schedulers) Response → M Services Response
  schedulers_of m st =
      let (r, schedulers) = m st.schedulers in (r, record st { schedulers = schedulers })

  abbrev created :
      Services → Option (Result Response × World rm) → Option (Result Response × Services)
  created st none = none
  created st (some c) = some (on_sessions c st)

  -- The answer to a request, with the services after it: `none` while the loop for a free id still runs.
  unfoldable pub serve :
      Route → Request → List String → ℕ → Services → Option (Result Response × Services)
  serve get_healthz request draws now st = some (Catalogs.get_healthz lib st)
  serve get_blocks request draws now st =
      some (blocks_of (Catalogs.get_blocks lib provide_blocks) st)
  serve (get_block id) request draws now st =
      some (blocks_of (Catalogs.get_block lib provide_blocks id) st)
  serve get_schedulers request draws now st =
      some (schedulers_of (Catalogs.get_schedulers lib provide_schedulers) st)
  serve (get_scheduler id) request draws now st =
      some (schedulers_of (Catalogs.get_scheduler lib provide_schedulers id) st)
  serve post_sessions request draws now st =
      created st (Sessions.post_sessions rm lib request draws now st.sessions)
  serve get_sessions request draws now st = some (sessions_of (Sessions.get_sessions rm lib) st)
  serve (get_stream id stream_id) request draws now st =
      some (sessions_of (Sessions.get_stream rm lib id stream_id) st)
  serve (get_websocket id stream_id) request draws now st =
      some (sessions_of (Sessions.get_websocket rm lib request id stream_id) st)
  serve (get_session id) request draws now st =
      some (sessions_of (Sessions.get_session rm lib id) st)
  serve (delete_session id) request draws now st =
      some (sessions_of (Sessions.delete_session rm lib id now) st)
  serve (post_start id) request draws now st =
      some (sessions_of (Sessions.post_start rm lib id now) st)
  serve (post_stop id) request draws now st =
      some (sessions_of (Sessions.post_stop rm lib id now) st)
  serve (post_restart id) request draws now st =
      some (sessions_of (Sessions.post_restart rm lib id now) st)
  serve (post_settings id block) request draws now st =
      some (on_settings (Settings.post_settings rm lib w request id block) st)
  serve (get_settings id block) request draws now st =
      some (on_settings (Settings.get_settings rm lib nesting id block) st)
