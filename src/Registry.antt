-- ===== src/Registry.antt =====
-- internal/cache/manager.go, "In-memory agent storage": the agents that the server has seen, in
-- order of their last heartbeat, and the statuses of their configs, without Redis (all-in-one
-- mode). agentsLRU holds each instance id once, and agentsLRUIdx finds an id's element there: the
-- model looks for the id in the list. The constants maxAgents and maxStatuses are parameters.
pub mod Laws
pub mod Consistent
pub mod Stale
pub mod Statuses
mod Tests
use mathlib.Core.List.{reverse}
use config_server.Prelude.{
  ℕ, ◌+◌, ◌-◌, Bool, true, false, not, ◌||◌, Option, none, some, List, [], ◌∷◌, ◌++◌, Bytes,
  bytes_eq, codes, length, keep, ltb, leb, if◌then◌else◌,
}
use config_server.Prelude.Dict
use config_server.Prelude.Dict.{Dict, lookup, insert, erase, has_key}
use config_server.Strings.{has_prefix}
use config_server.Model.{ConfigType, pipeline, instance_config, onetime, Agent, AgentConfigStatus}

pub record Registry : Type 0 where
  pub agents : Dict Agent
  pub lru : List Bytes
  pub statuses : Dict AgentConfigStatus

abbrev pub empty : Registry
empty = record { agents = []; lru = []; statuses = [] }

abbrev pub config_type_text : ConfigType → Bytes
config_type_text pipeline = codes "pipeline"
config_type_text instance_config = codes "instance"
config_type_text onetime = codes "onetime"

pub agent_status_key : Bytes → Bytes → ConfigType → Bytes
agent_status_key instance_id config_name config_type =
    instance_id ++ (b':' ∷ (config_name ++ (b':' ∷ config_type_text config_type)))

unfoldable pub member : Bytes → List Bytes → Bool
member id [] = false
member id (x ∷ xs) = if bytes_eq x id then true else member id xs

pub remove : Bytes → List Bytes → List Bytes
remove id [] = []
remove id (x ∷ xs) = if bytes_eq x id then xs else x ∷ remove id xs

-- The back of the list.
pub back : List Bytes → Option Bytes
back [] = none
back (x ∷ []) = some x
back (x ∷ y ∷ xs) = back (y ∷ xs)

-- The loop that deletes the entries whose key starts with the prefix.
pub drop_prefixed {ℓ} : {V : Type ℓ} → Bytes → Dict V → Dict V
drop_prefixed prefix [] = []
drop_prefixed prefix ((k, v) ∷ m) =
    let rest = drop_prefixed prefix m in if has_prefix prefix k then rest else (k, v) ∷ rest

-- evictOldestAgentLocked.
pub evict_oldest : Registry → Registry
evict_oldest r = elim (back r.lru) [
  | none ↦ r
  | some id ↦
      let unlisted = record r { lru = remove id r.lru } in
      elim (lookup id r.agents) [
        | none ↦ unlisted
        | some _ ↦ record unlisted {
          agents = erase id r.agents;
          statuses = drop_prefixed (id ++ 0 ∷ []) r.statuses;
        }
      ]
]

unfoldable pub upsert_agent : ℕ → Registry → Agent → Registry
upsert_agent max_agents r agent =
    let id = agent.instance_id in
    if member id r.lru
    then record r { agents = insert id agent r.agents; lru = id ∷ remove id r.lru }
    else let kept = if leb max_agents (length r.agents) then evict_oldest r else r in
      record kept { agents = insert id agent kept.agents; lru = id ∷ kept.lru }

unfoldable pub get_agent : Registry → Bytes → Option Agent
get_agent r id = lookup id r.agents

-- The ids of the agents whose last heartbeat is before the cutoff.
pub stale_ids : ℕ → Dict Agent → List Bytes
stale_ids cutoff [] = []
stale_ids cutoff ((id, a) ∷ m) =
    let rest = stale_ids cutoff m in if ltb a.last_heartbeat cutoff then id ∷ rest else rest

-- The first loop of evictStaleAgents, on one stale id.
pub forget_agent : Registry → Bytes → Registry
forget_agent r id = record r { agents = erase id r.agents; lru = remove id r.lru }

pub forget_agents : Registry → List Bytes → Registry
forget_agents r [] = r
forget_agents r (id ∷ ids) = forget_agents (forget_agent r id) ids

-- The second loop: the statuses of the stale agents.
pub forget_statuses {ℓ} : {V : Type ℓ} → List Bytes → Dict V → Dict V
forget_statuses [] m = m
forget_statuses (id ∷ ids) m = forget_statuses ids (drop_prefixed (id ++ b':' ∷ []) m)

-- evictStaleAgents at the time `now`, with the time to live of an agent.
pub evict_stale_agents : ℕ → ℕ → Registry → Registry
evict_stale_agents ttl now r =
    let stale = stale_ids (now - ttl) r.agents in
    let kept = forget_agents r stale in
    record kept { statuses = forget_statuses stale kept.statuses }

unfoldable pub upsert_agent_config_status : ℕ → ℕ → Registry → AgentConfigStatus → Registry
upsert_agent_config_status max_statuses now r s =
    let status = record s { updated_at = now } in
    let key = agent_status_key status.instance_id status.config_name status.config_type in
    if has_key key r.statuses || ltb (length r.statuses) max_statuses
    then record r { statuses = insert key status r.statuses }
    else r

-- The loop of GetAgentConfigStatuses.
unfoldable pub prefixed {ℓ} : {V : Type ℓ} → Bytes → Dict V → List V
prefixed prefix [] = []
prefixed prefix ((k, v) ∷ m) =
    let rest = prefixed prefix m in if has_prefix prefix k then v ∷ rest else rest

unfoldable pub get_agent_config_statuses : Registry → Bytes → List AgentConfigStatus
get_agent_config_statuses r instance_id = prefixed (instance_id ++ b':' ∷ []) r.statuses
