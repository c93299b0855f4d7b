-- ===== src/ConfigAdmin.antt =====
-- The handlers of internal/server/admin/handler.go for pipeline and instance configs and onetime
-- commands, with the history that they keep. They run on the tables of the store, which the cached
-- reads answer from. Which calls of the manager fail, the user and the clock are arguments, and so
-- are the YAML parser and encoding/json. Of the detail of an audit log
-- only the text from the request or the entry is kept, without the method, the address, the fixed
-- words and quotes, and the id of a rollback.
pub mod Configs
pub mod Onetime
pub mod Groups
pub mod Rollback
pub mod History
pub mod Restore
pub mod GroupRows
pub mod Undo
pub mod Regroup
mod Tests
use config_server.Prelude.{
  ℕ, suc, Bool, true, false, not, ◌&&◌, ◌||◌, Option, none, some, List, [], ◌∷◌, ◌++◌, Bytes, codes,
  bytes_eq, is_empty, any, map, ℤ, pos, int_eq, if◌then◌else◌,
}
use config_server.Model.{
  ConfigType, pipeline, instance_config, onetime, AgentGroupTag, Config, OnetimeCommand,
  GroupConfigMapping, Fetched, found, not_found, failed,
}
use config_server.Store.{Store}
use config_server.Store.Rows.{delete_config}

pub record ConfigHistory : Type 0 where
  pub id : ℕ
  pub resource_type : Bytes
  pub resource_name : Bytes
  pub version : ℤ
  pub action : Bytes
  pub detail : Bytes
  pub changed_by : Bytes

pub record AuditLog : Type 0 where
  pub username : Bytes
  pub status : ℕ
  pub action : Bytes
  pub resource_type : Bytes
  pub resource_name : Bytes
  pub detail : Bytes

-- The newest entry is the first; the id of the next one is counted.
pub record Admin : Type 0 where
  pub store : Store
  pub history : List ConfigHistory
  pub next_id : ℕ
  pub audits : List AuditLog

-- Which calls of the manager succeed. What another request has created in between is what the
-- second read of a create handler gives.
pub record Calls : Type 0 where
  pub get_config : Bool
  pub create_config : Bool
  pub update_config : Bool
  pub delete_config : Bool
  pub read_config_again : Fetched Config
  pub read_onetime_again : Fetched OnetimeCommand
  pub get_group : Bool
  pub create_group : Bool
  pub update_group : Bool
  pub delete_group : Bool
  pub get_group_tags : Bool
  pub set_group_tags : Bool
  pub get_group_configs : Bool
  pub add_group_config : Bool
  pub remove_group_config : Bool
  pub get_history : Bool
  pub save_history : Bool
  pub create_audit : Bool

-- A request: its calls, its user, and the clock, in milliseconds.
pub record Env : Type 0 where
  pub calls : Calls
  pub username : Bytes
  pub now : ℤ
  pub created_at : ℤ

pub data Reply : Type 0 where
  bad_request missing conflict internal_error done : Reply
  shown created : Config → Reply
  command_shown command_created : OnetimeCommand → Reply

-- The two tables of configs, whose handlers are alike.
pub data Kind : Type 0 where
  pipelines instances : Kind

abbrev pub kind_type : Kind → ConfigType
kind_type pipelines = pipeline
kind_type instances = instance_config

abbrev pub kind_text : Kind → Bytes
kind_text pipelines = codes "pipeline"
kind_text instances = codes "instance"

abbrev pub rows : Kind → Store → List Config
rows pipelines s = s.pipelines
rows instances s = s.instances

abbrev pub set_rows : Kind → List Config → Store → Store
set_rows pipelines xs s = record s { pipelines = xs }
set_rows instances xs s = record s { instances = xs }

pub find_config : Bytes → List Config → Option Config
find_config name [] = none
find_config name (c ∷ cs) = if bytes_eq c.name name then some c else find_config name cs

-- none is the violation of the primary key.
pub create_row : Config → List Config → Option (List Config)
create_row c cs = elim (find_config c.name cs) [ some old ↦ none | none ↦ some (cs ++ c ∷ []) ]

abbrev with_content : Config → Config → Config
with_content c d =
    if bytes_eq d.name c.name then record d { version = c.version; detail = c.detail } else d

-- The SQL update of the rows with the name.
abbrev pub update_row : Config → List Config → List Config
update_row c cs = map (with_content c) cs

unfoldable pub find_onetime : Bytes → List OnetimeCommand → Option OnetimeCommand
find_onetime name [] = none
find_onetime name (c ∷ cs) = if bytes_eq c.name name then some c else find_onetime name cs

-- yaml.Unmarshal: none for an error, else whether the value is not nil.
pub record Yaml : Type 0 where
  pub unmarshal : Bytes → Option Bool

pub validate_yaml : Yaml → Bytes → Bool
validate_yaml yaml content =
    not (is_empty content) && elim (yaml.unmarshal content) [ none ↦ false | some value ↦ value ]

-- groupSnapshot.
pub record GroupSnapshot : Type 0 where
  pub description : Bytes
  pub ip_selector_json : Bytes
  pub version_constraint : Bytes
  pub tags : List AgentGroupTag
  pub configs : List GroupConfigMapping

-- encoding/json on what the histories hold: the content and the expiry of a command, the tags and
-- the snapshot of a group.
pub record Snapshots : Type 0 where
  pub marshal_onetime : Bytes → ℤ → Bytes
  pub unmarshal_onetime : Bytes → Option (Bytes × ℤ)
  pub marshal_tags : List AgentGroupTag → Bytes
  pub unmarshal_tags : Bytes → Option (List AgentGroupTag)
  pub marshal_group : GroupSnapshot → Bytes
  pub unmarshal_group : Bytes → Option GroupSnapshot

pub record ConfigBody : Type 0 where
  pub name : Bytes
  pub detail : Bytes

pub record OnetimeBody : Type 0 where
  pub name : Bytes
  pub detail : Bytes
  pub expire_time : ℤ

module _ (env : Env) where
  abbrev pub new_entry : ℕ → Bytes → Bytes → Bytes → ℤ → Bytes → ConfigHistory
  new_entry id type name action version detail = record {
    id = id;
    resource_type = type;
    resource_name = name;
    version = version;
    action = action;
    detail = detail;
    changed_by = env.username;
  }

  unfoldable pub save_history : Bytes → Bytes → Bytes → ℤ → Bytes → Admin → Admin
  save_history type name action version detail a =
      let entry = new_entry a.next_id type name action version detail in
      if env.calls.save_history
      then record a { history = entry ∷ a.history; next_id = suc a.next_id }
      else a

  unfoldable pub log_audit : ℕ → Bytes → Bytes → Bytes → Bytes → Admin → Admin
  log_audit status action type name detail a =
      let entry : AuditLog = record {
        username = env.username;
        status = status;
        action = action;
        resource_type = type;
        resource_name = name;
        detail = detail;
      } in
      if env.calls.create_audit then record a { audits = entry ∷ a.audits } else a

  -- GetPipelineConfig and GetInstanceConfig of the manager.
  abbrev pub read_config : Kind → Bytes → Admin → Fetched Config
  read_config k name a =
      if not env.calls.get_config
      then failed
      else elim (find_config name (rows k a.store)) [ none ↦ not_found | some c ↦ found c ]

  abbrev pub read_onetime : Bytes → Admin → Fetched OnetimeCommand
  read_onetime name a =
      if not env.calls.get_config
      then failed
      else elim (find_onetime name a.store.onetimes) [ none ↦ not_found | some c ↦ found c ]
