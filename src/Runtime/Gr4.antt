-- ===== src/Runtime/Gr4.antt =====
-- src/runtime/gr4_runtime_manager.cpp: the state that `Gr4RuntimeManager` keeps for each session.
-- GNU Radio, its plugin loader and the sockets are a parameter. A method is one function: the session
-- service lets one call of the lifecycle at a time work on a session.
pub mod Graph
pub mod Steps
pub mod Preparation
pub mod Running
pub mod Lifecycle
pub mod Streams
pub mod Settings
pub mod Bound
pub mod Preparing
pub mod Ports
pub mod Started
pub mod Guarantees
pub mod Stopped
use gr4_control_plane.Prelude.{ℕ, String, Bool, Option, none, some, true, false, List, []}
use gr4_control_plane.Prelude.Dict.{Dict}
use gr4_control_plane.Errors.{M}
use gr4_control_plane.Pmt.{Pmt}
use gr4_control_plane.Domain.Stream.{RuntimeStreamBinding}
use gr4_control_plane.Runtime.Allocator.{Allocator}

pub data LifecyclePhase : Type 0 where
  idle starting running stopping failed : LifecyclePhase

abbrev pub is_running : LifecyclePhase → Bool
is_running running = true
is_running _ = false

abbrev pub is_stopping : LifecyclePhase → Bool
is_stopping stopping = true
is_stopping _ = false

-- What is read of a block of a running graph.
pub record BlockModel (p : Pmt) : Type 0 where
  pub name : String
  pub unique_name : String
  pub type_name : String
  pub settings : Dict String p.Value

-- The answer of a `get` to a stream's server.
pub record StreamAnswer : Type 0 where
  pub status : ℕ
  pub body : String
  pub content_type : String

-- What the reply to a request for settings holds, or the message of its error.
pub data Reply (p : Pmt) : Type 0 where
  replied : Dict String p.Value → Reply p
  refused : String → Reply p

pub data SettingsCommand : Type 0 where
  set get : SettingsCommand

pub record GnuRadio (p : Pmt) : Type 1 where
  pub State : Type 0
  pub Scheduler : Type 0
  pub Graph : Type 0
  -- What `ensure_runtime_environment` does once: search paths, support libraries, block libraries.
  pub bootstrap : List String → M State (Unit {0})
  pub register_default_schedulers : State → State
  pub available_schedulers : State → List String
  pub load_grc : String → M State Graph
  pub instantiate_scheduler : String → M State (Option Scheduler)
  pub set_graph : Scheduler → Graph → M State (Unit {0})
  pub start : Scheduler → M State (Unit {0})
  pub stop : Scheduler → M State (Unit {0})
  -- `httplib::Client(host, port).Get(path)`; `none` if no response comes.
  pub http_get : String → ℕ → String → State → Option StreamAnswer × State
  -- The blocks of the scheduler's graph; `none` if it is no block model.
  pub runtime_blocks : Scheduler → State → Option (List (BlockModel p))
  -- `gr::block::property::kSetting` and `kStagedSetting`.
  pub setting_endpoint : String
  pub staged_setting_endpoint : String
  -- A request to a block, and the wait for its reply.
  pub request :
      Scheduler → SettingsCommand → String → String → Dict String p.Value → M State (Reply p)

module _ {p : Pmt} (g : GnuRadio p) where
  pub record Execution : Type 0 where
    pub scheduler : g.Scheduler
    pub running : Bool

  pub record SessionRuntimeResources : Type 0 where
    pub session_id : String
    pub generation : ℕ
    pub lifecycle_phase : LifecyclePhase
    pub teardown_complete : Bool
    pub teardown_error : Option String
    pub async_error : Option String
    pub execution : Option Execution
    pub stream_bindings : List RuntimeStreamBinding

  -- The state of the process that the sessions share: `stream_allocator_`, GNU Radio, and the flag
  -- and the error of `ensure_runtime_environment`.
  pub record Shared : Type 0 where
    pub stream_allocator : Allocator
    pub gnuradio : g.State
    pub bootstrapped : Bool
    pub bootstrap_error : Option String

  pub record Gr4RuntimeManager : Type 0 where
    pub shared : Shared
    pub resources : Dict String SessionRuntimeResources

  -- What a section that holds the mutex of a session's resources works on.
  pub record Locked : Type 0 where
    pub mine : SessionRuntimeResources
    pub shared : Shared

  unfoldable pub new_resources : String → SessionRuntimeResources
  new_resources id = record {
    session_id = id;
    generation = 0;
    lifecycle_phase = idle;
    teardown_complete = true;
    teardown_error = none;
    async_error = none;
    execution = none;
    stream_bindings = [];
  }
