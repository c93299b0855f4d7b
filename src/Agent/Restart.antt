-- ===== src/Agent/Restart.antt =====
-- What a heartbeat of internal/server/agent/handler.go leaves in the registry.
use config_server.Prelude.{
  ℕ, ◌-◌, ◌<◌, ltb, ◌≡◌, refl, ap, ◌∙◌, Option, none, some, List, [], ◌∷◌, Bytes, bytes_eq_refl,
  arith, if◌then◌else◌, Option-cases, inl, inr,
}
use config_server.Prelude.Dict.{lookup}
use config_server.Model.{ConfigType, Agent, AgentConfigStatus}
use config_server.Registry.{
  Registry, get_agent, upsert_agent, upsert_agent_config_status, evict_stale_agents,
}
use config_server.Registry.Stale.{evict_stale_agents_lem}
use config_server.Registry.Consistent.{
  IsConsistent, upsert_agent-IsConsistent, get_agent-upsert_agent,
}
use config_server.Agent.{AgentAttributes, ConfigInfo, HeartbeatRequest}
use config_server.Agent.Onetime.{JsonObjects}
use config_server.Agent.Heartbeat.{
  Limits, Manager, build_agent, save_status_list, save_config_statuses, store_heartbeat, heartbeat,
  match_context, status_of,
}

-- The two registries differ in the statuses at most.
abbrev SameAgents : Registry → Registry → Type 0
SameAgents r s = (s.agents ≡ r.agents) × (s.lru ≡ r.lru)

SameAgents-IsConsistent :
    (n : ℕ) (r s : Registry) → SameAgents r s → IsConsistent n r → IsConsistent n s
SameAgents-IsConsistent n r s e h = record {
  same = λ id. rw (e.0, e.1) (h.same id);
  unique = rw e.1 h.unique;
  unique_keys = rw e.0 h.unique_keys;
  same_size = rw (e.0, e.1) h.same_size;
  capped = rw e.0 h.capped;
}

SameAgents-upsert_status :
    (max now : ℕ) (r : Registry) (s : AgentConfigStatus)
    → SameAgents r (upsert_agent_config_status max now r s)
unfolding upsert_agent_config_status
SameAgents-upsert_status max now r s = ground arith

SameAgents-save_status_list :
    (limits : Limits) (now : ℕ) (id : Bytes) (t : ConfigType) (r : Registry) (cis : List ConfigInfo)
    → SameAgents r (save_status_list limits now id t r cis)
unfolding save_status_list
SameAgents-save_status_list limits now id t r [] = (refl, refl)
SameAgents-save_status_list limits now id t r (ci ∷ cis) =
    let status = status_of id t ci in
    let once = SameAgents-upsert_status limits.max_statuses now r status in
    let rest =
      SameAgents-save_status_list limits now id t
        (upsert_agent_config_status limits.max_statuses now r status) cis in
    (rest.0 ∙ once.0, rest.1 ∙ once.1)

SameAgents-save_config_statuses :
    (limits : Limits) (now : ℕ) (id : Bytes) (ps is' os : List ConfigInfo) (r : Registry)
    → SameAgents r (save_config_statuses limits now id ps is' os r)
unfolding save_config_statuses
SameAgents-save_config_statuses limits now id ps is' os r =
    let e1 = SameAgents-save_status_list limits now id ConfigType.pipeline r ps in
    let r1 = save_status_list limits now id ConfigType.pipeline r ps in
    let e2 = SameAgents-save_status_list limits now id ConfigType.instance_config r1 is' in
    let r2 = save_status_list limits now id ConfigType.instance_config r1 is' in
    let e3 = SameAgents-save_status_list limits now id ConfigType.onetime r2 os in
    (e3.0 ∙ e2.0 ∙ e1.0, e3.1 ∙ e2.1 ∙ e1.1)

stored-by-heartbeat :
    (limits : Limits) (json : JsonObjects) (mgr : Manager) (now : ℕ) (req : HeartbeatRequest)
    (r : Registry)
    → (heartbeat limits json mgr now req r).0 ≡ store_heartbeat limits mgr now req r
unfolding heartbeat
stored-by-heartbeat limits json mgr now req r =
    elim (Option-cases
      (mgr.get_configs_for_agent (match_context (build_agent mgr now req) req.tags))) [
        | inl e ↦ rw (e, heartbeat)
        | inr (a, e) ↦ rw (e, heartbeat)
      ]

SameAgents-store_heartbeat :
    (limits : Limits) (mgr : Manager) (now : ℕ) (req : HeartbeatRequest) (r : Registry)
    → SameAgents
        (upsert_agent limits.max_agents r (build_agent mgr now req))
        (store_heartbeat limits mgr now req r)
unfolding store_heartbeat
SameAgents-store_heartbeat limits mgr now req r =
    SameAgents-save_config_statuses limits now req.instance_id req.continuous_pipeline_configs
      req.instance_configs req.onetime_pipeline_configs
      (upsert_agent limits.max_agents r (build_agent mgr now req))

get_agent-same : (r s : Registry) (id : Bytes) → SameAgents r s → get_agent s id ≡ get_agent r id
unfolding get_agent
get_agent-same r s id e = ap (lookup id) e.0

-- What a heartbeat leaves under an id is what the upsert leaves.
pub get_agent-heartbeat :
    (limits : Limits) (json : JsonObjects) (mgr : Manager) (now : ℕ) (req : HeartbeatRequest)
    (r : Registry) (id : Bytes)
    → get_agent (heartbeat limits json mgr now req r).0 id
      ≡ get_agent (upsert_agent limits.max_agents r (build_agent mgr now req)) id
get_agent-heartbeat limits json mgr now req r id =
    rw (stored-by-heartbeat limits json mgr now req r) (
      get_agent-same (upsert_agent limits.max_agents r (build_agent mgr now req))
        (store_heartbeat limits mgr now req r) id (SameAgents-store_heartbeat limits mgr now req r))

instance_id-build_agent :
    (mgr : Manager) (now : ℕ) (req : HeartbeatRequest)
    → (build_agent mgr now req).instance_id ≡ req.instance_id
unfolding build_agent
instance_id-build_agent mgr now req = refl

-- The agent has the attributes of the request, and blank ones where it has none.
abbrev pub HasAttributes : Option AgentAttributes → Agent → Type 0
HasAttributes none a = (a.ip ≡ []) × (a.hostname ≡ []) × (a.hostid ≡ []) × (a.version ≡ [])
HasAttributes (some at) a =
    (a.ip ≡ at.ip) × (a.hostname ≡ at.hostname) × (a.hostid ≡ at.hostid) × (a.version ≡ at.version)

abbrev pub HasTags : Option Bytes → Agent → Type 0
HasTags none a = a.tags_json ≡ []
HasTags (some json) a = a.tags_json ≡ json

-- The agent is the one that sent the request at the time.
pub record IsSender (mgr : Manager) (now : ℕ) (req : HeartbeatRequest) (a : Agent) : Type 0 where
  pub id : a.instance_id ≡ req.instance_id
  pub type : a.agent_type ≡ req.agent_type
  pub running : a.running_status ≡ req.running_status
  pub started : a.startup_time ≡ req.startup_time
  pub number : a.sequence_num ≡ req.sequence_num
  pub can : a.capabilities ≡ req.capabilities
  pub seen : a.last_heartbeat ≡ now
  pub attributes : HasAttributes req.attributes a
  pub tags : HasTags (mgr.marshal_tags req.tags) a

build_agent-IsSender :
    (mgr : Manager) (now : ℕ) (req : HeartbeatRequest)
    → IsSender mgr now req (build_agent mgr now req)
unfolding build_agent
build_agent-IsSender mgr now req = record {
  id = refl;
  type = refl;
  running = refl;
  started = refl;
  number = refl;
  can = refl;
  seen = refl;
  attributes = elim (Option-cases req.attributes) [
    | inl e ↦ rw e (refl, refl, refl, refl)
    | inr (a, e) ↦ rw e (refl, refl, refl, refl)
  ];
  tags = elim (Option-cases (mgr.marshal_tags req.tags)) [
    | inl e ↦ rw e refl
    | inr (t, e) ↦ rw e refl
  ];
}

pub heartbeat-get_agent :
    (limits : Limits) (json : JsonObjects) (mgr : Manager) (now : ℕ) (req : HeartbeatRequest)
    (r : Registry)
    → 0 < limits.max_agents
    → IsConsistent limits.max_agents r
    → (get_agent (heartbeat limits json mgr now req r).0 req.instance_id
        ≡ some (build_agent mgr now req))
      × IsConsistent limits.max_agents (heartbeat limits json mgr now req r).0
heartbeat-get_agent limits json mgr now req r pos h =
    let agent = build_agent mgr now req in
    let id = req.instance_id in
    let up = upsert_agent limits.max_agents r agent in
    let stored = store_heartbeat limits mgr now req r in
    let e = SameAgents-store_heartbeat limits mgr now req r in
    rw (stored-by-heartbeat limits json mgr now req r) (
      get_agent-same up stored id e
          ∙ ground (
            arith,
            get_agent-upsert_agent limits.max_agents r agent id h,
            instance_id-build_agent mgr now req,
            bytes_eq_refl id,
          ),
      SameAgents-IsConsistent limits.max_agents up stored e
          (upsert_agent-IsConsistent limits.max_agents r agent pos h),
    )

-- A heartbeat keeps its agent alive: whether or not the configs could be resolved, GetAgent then
-- gives an agent with the request's id, type, attributes, tags, status, start time, sequence number
-- and capabilities that was last seen at the time of the heartbeat. A sweep that follows drops it if
-- more than the time to live has passed since then, and leaves it unchanged if not. The registry's
-- structures agree and stay within the capacity after both, if they do so before and the capacity
-- is not 0.
pub heartbeat-stores :
    (limits : Limits) (json : JsonObjects) (mgr : Manager) (now : ℕ) (req : HeartbeatRequest)
    (r : Registry) (ttl later : ℕ)
    → 0 < limits.max_agents
    → IsConsistent limits.max_agents r
    → let stored = (heartbeat limits json mgr now req r).0 in
      let swept = evict_stale_agents ttl later stored in
      IsConsistent limits.max_agents stored
      × IsConsistent limits.max_agents swept
      × (a : Agent) × IsSender mgr now req a
      × (get_agent stored req.instance_id ≡ some a)
      × (get_agent swept req.instance_id ≡ (if ltb now (later - ttl) then none else some a))
heartbeat-stores limits json mgr now req r ttl later pos h =
    let stored = (heartbeat limits json mgr now req r).0 in
    let (is_stored, consistent) = heartbeat-get_agent limits json mgr now req r pos h in
    let (swept, alive) = evict_stale_agents_lem limits.max_agents ttl later stored consistent in
    let sender = build_agent-IsSender mgr now req in
    (
      consistent,
      swept,
      build_agent mgr now req,
      sender,
      is_stored,
      ground (arith, alive req.instance_id, is_stored, sender.seen),
    )
