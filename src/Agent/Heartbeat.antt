-- ===== src/Agent/Heartbeat.antt =====
-- The three handlers. The body is decoded already, and `now` is the server's clock in nanoseconds.
-- The manager's resolution of configs is a parameter; its registry of agents is the state.
use config_server.Prelude.{
  ℕ, ◌+◌, ◌/◌, ◌%◌, Bool, false, ◌&&◌, Option, none, some, List, [], ◌∷◌, Bytes, codes, ℤ, pos,
  int_eq, is_empty, map, ltb, ◌==◌, if◌then◌else◌,
}
use config_server.Model.{
  Fetched, found, not_found, failed, ConfigType, pipeline, instance_config, onetime,
  AgentMatchContext, AgentGroupTag, Config, OnetimeCommand, Agent, AgentConfigStatus,
}
use config_server.Registry.{Registry, get_agent, upsert_agent, upsert_agent_config_status}
use config_server.Agent.{
  ConfigInfo, ConfigDetail, CommandDetail, AgentAttributes, ProtoTag, HeartbeatRequest,
  HeartbeatResponse,
}
use config_server.Agent.Diff.{index_config_infos, config_diff, removal_of, detail_of}
use config_server.Agent.Inline.{over_limit, strip_inline}
use config_server.Agent.Onetime.{
  JsonObjects, is_expired, onetime_updates, onetime_detail_with_generation,
}

-- The limits of the manager's maps.
pub record Limits : Type 0 where
  pub max_agents : ℕ
  pub max_statuses : ℕ

-- What the manager resolves for an agent.
pub record Assigned : Type 0 where
  pub pipelines : List Config
  pub instances : List Config
  pub onetimes : List OnetimeCommand

-- The manager's operations that the handlers call, and json.Marshal of the tags.
pub record Manager : Type 0 where
  pub get_configs_for_agent : AgentMatchContext → Option Assigned
  pub get_pipeline_config : Bytes → Fetched Config
  pub get_instance_config : Bytes → Fetched Config
  pub get_onetime_command : Bytes → Fetched OnetimeCommand
  pub marshal_tags : List ProtoTag → Option Bytes

abbrev no_attributes : AgentAttributes
no_attributes = record { version = []; ip = []; hostname = []; hostid = [] }

abbrev attributes_of : Option AgentAttributes → AgentAttributes
attributes_of none = no_attributes
attributes_of (some a) = a

abbrev or_blank : Option Bytes → Bytes
or_blank none = []
or_blank (some s) = s

unfoldable pub build_agent : Manager → ℕ → HeartbeatRequest → Agent
build_agent mgr now req =
    let attributes = attributes_of req.attributes in
    record {
      instance_id = req.instance_id;
      agent_type = req.agent_type;
      ip = attributes.ip;
      hostname = attributes.hostname;
      hostid = attributes.hostid;
      version = attributes.version;
      tags_json = or_blank (mgr.marshal_tags req.tags);
      running_status = req.running_status;
      startup_time = req.startup_time;
      sequence_num = req.sequence_num;
      capabilities = req.capabilities;
      last_heartbeat = now;
    }

unfoldable pub proto_tags_to_model : List ProtoTag → List AgentGroupTag
proto_tags_to_model ts =
    map (λ (t : ProtoTag). record { group_name = []; tag_name = t.name; tag_value = t.value }) ts

abbrev pub status_of : Bytes → ConfigType → ConfigInfo → AgentConfigStatus
status_of instance_id config_type ci = record {
  instance_id = instance_id;
  config_name = ci.name;
  config_type = config_type;
  status = ci.status;
  message = ci.message;
  updated_at = 0;
}

-- saveStatusList, and the closure `save` of saveConfigStatuses.
unfoldable pub save_status_list :
    Limits → ℕ → Bytes → ConfigType → Registry → List ConfigInfo → Registry
save_status_list limits now instance_id config_type r [] = r
save_status_list limits now instance_id config_type r (ci ∷ cis) =
    save_status_list limits now instance_id config_type
      (upsert_agent_config_status limits.max_statuses now r (status_of instance_id config_type ci))
      cis

-- The three calls of saveConfigStatuses and of ReportStatus.
unfoldable pub save_config_statuses :
    Limits → ℕ → Bytes → List ConfigInfo → List ConfigInfo → List ConfigInfo → Registry → Registry
save_config_statuses limits now instance_id pipelines instances onetimes r =
    let r1 = save_status_list limits now instance_id pipeline r pipelines in
    let r2 = save_status_list limits now instance_id instance_config r1 instances in
    save_status_list limits now instance_id onetime r2 onetimes

unfoldable pub report_status :
    Limits → ℕ → Bytes → List ConfigInfo → List ConfigInfo → List ConfigInfo → Registry → Registry
report_status = save_config_statuses

-- The stored sequence number is 0 and the agent's is above 1.
unfoldable pub need_full_state : Option Agent → ℕ → Bool
need_full_state none sequence_num = false
need_full_state (some existing) sequence_num = existing.sequence_num == 0 && ltb 1 sequence_num

unfoldable pub build_err_hb_resp : Bytes → ℤ → Bytes → HeartbeatResponse
build_err_hb_resp request_id status msg = record {
  request_id = request_id;
  status = status;
  error_message = msg;
  capabilities = 0;
  flags = 0;
  continuous_pipeline_config_updates = [];
  instance_config_updates = [];
  onetime_pipeline_config_updates = [];
}

-- The lowest bit of the request's flags.
abbrev pub full_state : HeartbeatRequest → Bool
full_state req = req.flags % 2 == 1

-- The bits ReportFullState, FetchContinuousPipelineConfigDetail and FetchInstanceConfigDetail.
abbrev pub response_flags : Bool → Bool → Bool → ℕ
response_flags full pipelines instances =
    (if full then 1 else 0) + (if pipelines then 2 else 0) + (if instances then 4 else 0)

-- The four bits of the server's capabilities.
abbrev server_capabilities : ℕ
server_capabilities = 15

abbrev pub match_context : Agent → List ProtoTag → AgentMatchContext
match_context agent tags = record {
  instance_id = agent.instance_id;
  ip = agent.ip;
  hostid = agent.hostid;
  hostname = agent.hostname;
  version = agent.version;
  tags = proto_tags_to_model tags;
}

-- The response, from what the manager resolves.
unfoldable pub respond : JsonObjects → ℤ → Bool → HeartbeatRequest → Assigned → HeartbeatResponse
respond json seconds need_full req assigned =
    let full = full_state req in
    let pipelines =
      config_diff full (index_config_infos req.continuous_pipeline_configs) assigned.pipelines in
    let instances = config_diff full (index_config_infos req.instance_configs) assigned.instances in
    record {
      request_id = req.request_id;
      status = pos 0;
      error_message = [];
      capabilities = server_capabilities;
      flags = response_flags need_full (over_limit pipelines) (over_limit instances);
      continuous_pipeline_config_updates = strip_inline pipelines;
      instance_config_updates = strip_inline instances;
      onetime_pipeline_config_updates =
          onetime_updates json seconds full (index_config_infos req.onetime_pipeline_configs)
            assigned.onetimes;
    }

-- The registry after the agent and the statuses of its configs are stored.
unfoldable pub store_heartbeat : Limits → Manager → ℕ → HeartbeatRequest → Registry → Registry
store_heartbeat limits mgr now req r =
    save_config_statuses limits now req.instance_id req.continuous_pipeline_configs
      req.instance_configs req.onetime_pipeline_configs
      (upsert_agent limits.max_agents r (build_agent mgr now req))

unfoldable pub heartbeat :
    Limits → JsonObjects → Manager → ℕ → HeartbeatRequest → Registry → Registry × HeartbeatResponse
heartbeat limits json mgr now req r =
    let need_full = need_full_state (get_agent r req.instance_id) req.sequence_num in
    let stored = store_heartbeat limits mgr now req r in
    let context = match_context (build_agent mgr now req) req.tags in
    elim (mgr.get_configs_for_agent context) [
      | none ↦ (stored, build_err_hb_resp req.request_id (pos 1) (codes "internal error"))
      | some assigned ↦ (stored, respond json (pos (now / 1_000_000_000)) need_full req assigned)
    ]

-- The loop of FetchConfig over the pipeline configs, and that over the instance configs.
unfoldable pub fetch_configs : (Bytes → Fetched Config) → List ConfigInfo → List ConfigDetail
fetch_configs get [] = []
fetch_configs get (ci ∷ cis) =
    let rest = fetch_configs get cis in
    elim (get ci.name) [
      | not_found ↦ removal_of ci.name ∷ rest
      | failed ↦ rest
      | found c ↦
          if is_empty c.detail
          then rest
          else if int_eq c.version ci.version
          then rest
          else detail_of c ∷ rest
    ]

unfoldable pub fetch_commands :
    JsonObjects → ℤ → (Bytes → Fetched OnetimeCommand) → List ConfigInfo → List CommandDetail
fetch_commands json seconds get [] = []
fetch_commands json seconds get (ci ∷ cis) =
    let rest = fetch_commands json seconds get cis in
    elim (get ci.name) [
      | not_found ↦ rest
      | failed ↦ rest
      | found oc ↦
          if is_expired seconds oc
          then rest
          else record {
            name = oc.name;
            detail = onetime_detail_with_generation json oc;
            expire_time = oc.expire_time;
          }
            ∷ rest
    ]
