-- ===== src/Domain/Stream.antt =====
-- The stream types of include/gr4cp/domain/session_stream.hpp.
pub mod Normalize
pub mod Contract
pub mod Plans
use gr4_control_plane.Prelude.{ℕ, String, Bool, List}

pub record BrowserStreamDescriptor : Type 0 where
  pub id : String
  pub block_instance_name : String
  pub transport : String
  pub payload_format : String
  pub path : String
  pub ready : Bool

pub record RuntimeStreamBindingPlan : Type 0 where
  pub stream_id : String
  pub block_instance_name : String
  pub transport : String
  pub payload_format : String
  pub path : String
  pub ready : Bool

pub record StreamRuntimePlan : Type 0 where
  pub streams : List RuntimeStreamBindingPlan

pub record InternalStreamBinding : Type 0 where
  pub protocol : String
  pub host : String
  pub port : ℕ
  pub path : String
  pub endpoint : String

pub record RuntimeStreamBinding : Type 0 where
  pub plan : RuntimeStreamBindingPlan
  pub internal : InternalStreamBinding
  pub browser : BrowserStreamDescriptor

unfoldable pub to_browser_stream_descriptor : RuntimeStreamBindingPlan → BrowserStreamDescriptor
to_browser_stream_descriptor plan = record {
  id = plan.stream_id;
  block_instance_name = plan.block_instance_name;
  transport = plan.transport;
  payload_format = plan.payload_format;
  path = plan.path;
  ready = plan.ready;
}
