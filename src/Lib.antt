-- ===== src/Lib.antt =====
-- A verification library for the GNU Radio 4 control plane, a service that stores sessions (a flow
-- graph in GRC text each), runs them through a runtime manager and shows the streams they serve.
--
-- Parts, and the files that model them:
-- * Domain.Session (src/domain/session.cpp): session states and sessions. Times are numbers.
-- * Domain.Stream (src/domain/session_stream.cpp): Normalize reads blocks and their stream parameters
--   (`normalize_stream_block`), Contract has `validate_stream_runtime_contract` and
--   `derive_stream_runtime_plan`, and Plans what holds of both. Pmt has what they use of GNU Radio's
--   values and of its YAML reader, as a record that the definitions take.
-- * Domain.Catalog (include/gr4cp/domain/block_catalog.hpp, scheduler_catalog.hpp): descriptors.
-- * Storage (src/storage/in_memory_session_repository.cpp): a map from ids to sessions. Each method
--   holds the mutex throughout, so it is one function; Storage.Laws sets it beside a finite map.
-- * App.SessionService (src/app/session_service.cpp): a state of repository and phases. Sections has
--   the parts of `start`, `stop`, `restart` and `remove` that hold the mutex, Operations the methods
--   from call to return, and Interleaving the steps by which requests of several threads interleave:
--   one section each, with the runtime's answers left open in between. Invariant and Guarantees are
--   about what is reachable there, Outcomes, Fetch, Listing and Creation about one request alone.
-- * App.SchedulerCatalog and App.BlockCatalog (src/app/scheduler_catalog_service.cpp,
--   src/app/block_catalog_service.cpp): the cached catalogs.
-- * Catalog.StaticProvider (src/catalog/static_block_catalog_provider.cpp): the built-in blocks.
-- * Catalog.Reflection (src/catalog/gr4_block_catalog_provider.cpp): the blocks of GNU Radio. Names has
--   names and categories, Values what is read of settings and meta information, Ports and Collections
--   the ports and their counts, Blocks `reflect_block` and `reflect_block_in_subprocess`, and Provider
--   `list`. Bounds, Writable and Faithful are about them. Catalog.Wire is the JSON in which the
--   process that reflects a block answers, with RoundTrip about it, and Catalog.Libraries has how plugin
--   libraries are found and staged. Catalog.Schedulers (src/catalog/gr4_scheduler_catalog_provider.cpp)
--   lists the schedulers.
-- * App.BlockSettings (src/app/block_settings_service.cpp): the settings of a running session's blocks.
--   Conversion has both conversions between JSON and GNU Radio's values; Acceptance, Recursion and
--   RoundTrip are about them, and Answers about the methods.
-- * Runtime.Manager (include/gr4cp/runtime/runtime_manager.hpp): the interface, as a record.
--   Runtime.Allocator (src/runtime/stream_binding_allocator.cpp) gives out ports, and Runtime.Stub
--   (src/runtime/stub_runtime_manager.cpp) holds them for the streams of prepared sessions.
-- * Runtime.Gr4 (src/runtime/gr4_runtime_manager.cpp): the resources of each session, and GNU Radio as
--   a record of what is called of it. Graph rewrites the authored graph (`normalize_graph_content`),
--   Preparation has `prepare_locked`, Running the locked sections of `start`, `stop` and `destroy`,
--   Lifecycle the methods around them, Streams the plan, the fetch and the route, and Settings the
--   requests to a block. Bound, Preparing, Started and Ports follow the ports and the streams through
--   these, Stopped is about what `stop` leaves, and Guarantees and Graph.Stable have the rest.
--   Runtime.Held counts ports that are held.
-- * Api (src/api/http_server.cpp): Targets decodes paths and finds the stream that a websocket target
--   names (`parse_websocket_stream_target`), Routing holds the paths of derived streams against it, and
--   Errors has the answer to each exception (`current_error_details`). Messages has what is read of a
--   request and how a response is made, Render the JSON of the answers, and Sessions, Catalogs and
--   Settings one function for each handler of `register_routes`; Server joins them (`serve`). Answers
--   says what is answered. Json has the values of nlohmann::json.
-- * Cli (src/cli/cli.cpp): Url, Options, Requests and Commands, for the address, the options, what is
--   sent and the exit of a run. Exchanges and Reports relate a command, its
--   request and its end.
-- * Main (src/main.cpp) makes the services, loads the catalogs and listens.
-- * Errors has the exceptions, and code that may throw as a function from a state to an outcome and
--   a state. Prelude has the shared helpers: strings and their order, dictionaries, sorting.
--
-- Bounds. The fetch of a stream makes at most 20 attempts, and an allocation at most 64
-- reservations; both are the source's numbers, and the loops are recursions on them. The loop of
-- `SessionService::create` for a free id runs over a list of draws, of which it needs one more than
-- there are sessions if no id is drawn twice. `decimal n` has the fuel n + 1, and a number has no more
-- digits than that. Every other loop is a recursion on its list or its text.
--
-- `pmt_value_to_json` goes down by the depth of its value, which a value held in a map does not reach.
--
-- Parameters: the runtime manager, GNU Radio's values, reader and writer, its plugin loader, blocks,
-- schedulers and messages, the answers of the socket calls, the catalog providers, the file system, the
-- end of a forked process, the HTTP client and the matching of routes, the parser and the printer of
-- JSON, the files that can be read, the clock and the ids that are drawn.
--
-- Each method of the runtime manager over GNU Radio is one step, since the session service lets one
-- lifecycle call at a time work on a session; what another thread does between the lookup of a
-- session's resources and their lock is left out.
--
-- C++ leaves open in which order the arguments of a call are computed. The handlers that read a body
-- read its parts from left to right, which decides only what is thrown first.
--
-- Not modelled: of src/runtime/gr4_runtime_manager.cpp the loading of GNU Radio's libraries, the wait
-- for the reply to a message, the log and the reading of the environment; of src/api/http_server.cpp the
-- proxy and the bridge between websockets, which only move bytes between sockets; of the providers that read
-- plugins the calls of the dynamic linker and of `fork` and `pipe`; and the rendering of times, which is the C library's.
pub mod Prelude
pub mod Errors
pub mod Json
pub mod Pmt
pub mod Domain
pub mod Storage
pub mod Runtime
pub mod Api
pub mod App
pub mod Catalog
pub mod Cli
pub mod Main
pub mod Tests
