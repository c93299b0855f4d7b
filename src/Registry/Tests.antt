-- ===== src/Registry/Tests.antt =====
-- The theorems on internal/cache/manager.go's agents, on two agents in a registry for two.
use config_server.Prelude.{
  ℕ, ◌-◌, ◌≤◌, ◌≡◌, refl, none, some, [], ◌∷◌, ◌++◌, Bytes, bytes_eq, codes, pos, length, arith,
}
use config_server.Prelude.Dict.{lookup, insert}
use config_server.Model.{pipeline, Agent, AgentConfigStatus}
use config_server.Registry.{
  Registry, empty, member, agent_status_key, back, get_agent, upsert_agent, evict_oldest,
  evict_stale_agents,
}
use config_server.Registry.Consistent.{IsConsistent, IsConsistent-empty, upsert_agent-IsConsistent}
use config_server.Registry.Stale.{evict_stale_agents_lem, evict_stale_agents-statuses, unless_stale}
use config_server.Registry.Statuses.{evict_oldest-statuses}

abbrev agent_at : Bytes → ℕ → Agent
agent_at id seen = record {
  instance_id = id;
  agent_type = [];
  ip = codes "10.0.0.1";
  hostname = [];
  hostid = [];
  version = codes "1.2.0";
  tags_json = [];
  running_status = [];
  startup_time = pos 1;
  sequence_num = 1;
  capabilities = 0;
  last_heartbeat = seen;
}

abbrev first_agent : Agent
first_agent = agent_at (codes "a") 10

abbrev second_agent : Agent
second_agent = agent_at (codes "b") 90

abbrev one_agent : Registry
one_agent = upsert_agent 2 empty first_agent

abbrev two_agents : Registry
two_agents = upsert_agent 2 one_agent second_agent

abbrev running : AgentConfigStatus
running = record {
  instance_id = codes "a";
  config_name = codes "nginx";
  config_type = pipeline;
  status = pos 2;
  message = [];
  updated_at = 0;
}

one_agent-IsConsistent : IsConsistent 2 one_agent
one_agent-IsConsistent =
    upsert_agent-IsConsistent 2 empty first_agent (omega arith) (IsConsistent-empty 2)

two_agents-IsConsistent : IsConsistent 2 two_agents
two_agents-IsConsistent =
    upsert_agent-IsConsistent 2 one_agent second_agent (omega arith) one_agent-IsConsistent

first_agent-stored : get_agent one_agent (codes "a") ≡ some first_agent
unfolding get_agent upsert_agent member lookup insert bytes_eq
first_agent-stored = refl

one_agent-statuses : length one_agent.statuses ≤ 5
unfolding upsert_agent member
one_agent-statuses = omega arith

one_agent-back : back one_agent.lru ≡ some (codes "a")
unfolding upsert_agent member back
one_agent-back = refl

evict_stale_agents_example :
    IsConsistent 2 (evict_stale_agents 30 100 two_agents)
    × ((id : Bytes)
        → get_agent (evict_stale_agents 30 100 two_agents) id
          ≡ unless_stale (100 - 30) (get_agent two_agents id))
evict_stale_agents_example = evict_stale_agents_lem 2 30 100 two_agents two_agents-IsConsistent

evict_stale_agents-statuses_example :
    lookup
      (codes "a" ++ b':' ∷ codes "nginx:pipeline")
      (evict_stale_agents 30 100 one_agent).statuses
    ≡ none
evict_stale_agents-statuses_example =
    evict_stale_agents-statuses 2 30 100 one_agent (codes "a") (codes "nginx:pipeline")
      one_agent-IsConsistent first_agent-stored (omega arith)

evict_oldest-statuses_example :
    (lookup (codes "a") (evict_oldest one_agent).agents ≡ none)
    × (lookup
          (agent_status_key (codes "a") (codes "nginx") pipeline)
          (evict_oldest one_agent).statuses
        ≡ lookup (agent_status_key (codes "a") (codes "nginx") pipeline) one_agent.statuses)
evict_oldest-statuses_example =
    evict_oldest-statuses 2 one_agent (codes "a") (codes "nginx") pipeline one_agent-IsConsistent
      one_agent-back
