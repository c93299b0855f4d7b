-- ===== src/Model.antt =====
-- internal/model/model.go and the parts of canary.go that are data: the records that the store
-- keeps and that the handlers pass on. A time is a number of nanoseconds since 1970.
use config_server.Prelude.{ℕ, Bool, Bytes, ℤ, List, codes}

pub data ConfigType : Type 0 where
  pipeline instance_config onetime : ConfigType

abbrev pub default_group_name : Bytes
default_group_name = codes "default"

-- The result of a read of one row: gorm.ErrRecordNotFound is not_found, any other error failed.
pub data Fetched (A : Type 0) : Type 0 where
  found : A → Fetched A
  not_found : Fetched A
  failed : Fetched A

pub record AgentGroupTag : Type 0 where
  pub group_name : Bytes
  pub tag_name : Bytes
  pub tag_value : Bytes

pub record AgentGroup : Type 0 where
  pub name : Bytes
  pub description : Bytes
  pub ip_selector_json : Bytes
  pub version_constraint : Bytes

pub record AgentMatchContext : Type 0 where
  pub instance_id : Bytes
  pub ip : Bytes
  pub hostid : Bytes
  pub hostname : Bytes
  pub version : Bytes
  pub tags : List AgentGroupTag

-- PipelineConfig and InstanceConfig have the same fields.
pub record Config : Type 0 where
  pub name : Bytes
  pub version : ℤ
  pub detail : Bytes

abbrev PipelineConfig : Type 0
PipelineConfig = Config

abbrev InstanceConfig : Type 0
InstanceConfig = Config

pub record OnetimeCommand : Type 0 where
  pub name : Bytes
  pub version : ℤ
  pub detail : Bytes
  pub expire_time : ℤ
  pub created_at : ℤ

pub record GroupConfigMapping : Type 0 where
  pub group_name : Bytes
  pub config_name : Bytes
  pub config_type : ConfigType

pub record Agent : Type 0 where
  pub instance_id : Bytes
  pub agent_type : Bytes
  pub ip : Bytes
  pub hostname : Bytes
  pub hostid : Bytes
  pub version : Bytes
  pub tags_json : Bytes
  pub running_status : Bytes
  pub startup_time : ℤ
  pub sequence_num : ℕ
  pub capabilities : ℕ
  pub last_heartbeat : ℕ

pub record AgentConfigStatus : Type 0 where
  pub instance_id : Bytes
  pub config_name : Bytes
  pub config_type : ConfigType
  pub status : ℤ
  pub message : Bytes
  pub updated_at : ℕ

pub record CanaryTag : Type 0 where
  pub name : Bytes
  pub value : Bytes

pub data CanaryStatus : Type 0 where
  rolling paused promoted aborted : CanaryStatus

pub record CanaryRelease : Type 0 where
  pub config_name : Bytes
  pub config_type : ConfigType
  pub canary_detail : Bytes
  pub canary_version : ℤ
  pub rollout_percent : ℕ
  pub version_constraint : Bytes
  pub ip_selector_json : Bytes
  pub tag_selector_json : Bytes
  pub status : CanaryStatus
  pub created_by : Bytes

pub record User : Type 0 where
  pub username : Bytes
  pub password_hash : Bytes
  pub is_admin : Bool
  pub role_name : Bytes
  pub email : Bytes
  pub totp_secret : Bytes
  pub totp_enabled : Bool

pub record Role : Type 0 where
  pub name : Bytes
  pub description : Bytes

-- The resources of role permissions.
pub data Resource : Type 0 where
  pipeline_configs instance_configs onetime_commands agent_groups agents : Resource

pub record RolePermission : Type 0 where
  pub role_name : Bytes
  pub resource : Resource
  pub can_create : Bool
  pub can_read : Bool
  pub can_update : Bool
  pub can_delete : Bool
