-- ===== src/Agent.antt =====
-- internal/server/agent/handler.go and the messages of proto/v2/agentV2.proto that it reads and
-- writes.
pub mod Diff
pub mod Converge
pub mod Inline
pub mod Onetime
pub mod Delivery
pub mod Commands
pub mod FullState
pub mod Heartbeat
pub mod Restart
pub mod Response
mod Tests
use config_server.Prelude.{ℕ, Bytes, List, ℤ, negsuc, Option}

pub record ConfigInfo : Type 0 where
  pub name : Bytes
  pub version : ℤ
  pub status : ℤ
  pub message : Bytes

-- The Extra field is never set by the server.
pub record ConfigDetail : Type 0 where
  pub name : Bytes
  pub version : ℤ
  pub detail : Bytes

pub record CommandDetail : Type 0 where
  pub name : Bytes
  pub detail : Bytes
  pub expire_time : ℤ

pub record AgentAttributes : Type 0 where
  pub version : Bytes
  pub ip : Bytes
  pub hostname : Bytes
  pub hostid : Bytes

pub record ProtoTag : Type 0 where
  pub name : Bytes
  pub value : Bytes

pub record HeartbeatRequest : Type 0 where
  pub request_id : Bytes
  pub sequence_num : ℕ
  pub capabilities : ℕ
  pub instance_id : Bytes
  pub agent_type : Bytes
  pub attributes : Option AgentAttributes
  pub tags : List ProtoTag
  pub running_status : Bytes
  pub startup_time : ℤ
  pub flags : ℕ
  pub continuous_pipeline_configs : List ConfigInfo
  pub instance_configs : List ConfigInfo
  pub onetime_pipeline_configs : List ConfigInfo

pub record HeartbeatResponse : Type 0 where
  pub request_id : Bytes
  pub status : ℤ
  pub error_message : Bytes
  pub capabilities : ℕ
  pub flags : ℕ
  pub continuous_pipeline_config_updates : List ConfigDetail
  pub instance_config_updates : List ConfigDetail
  pub onetime_pipeline_config_updates : List CommandDetail

-- The version and the expire time that tell the agent to remove a config: -1.
abbrev pub removal : ℤ
removal = negsuc 0
