-- ===== src/Agent/Tests.antt =====
-- The theorems on internal/server/agent/handler.go, for one agent that reports an old pipeline
-- config and a config that it should not have.
use config_server.Prelude.{
  int_eq, int_lt, ltb, ◌-◌, if◌then◌else◌, ℕ, ◌%◌, ◌≤◌, ◌<◌, ◌≡◌, ◌⊎◌, refl, true, false, none,
  some, List, [], ◌∷◌, Bytes, bytes_eq, codes, pos, ℤ, arith, length,
}
use config_server.Prelude.Dict.{Dict, lookup, insert, has_key}
use config_server.Model.{failed, Config, OnetimeCommand, Agent}
use config_server.Registry.{Registry, empty, get_agent, upsert_agent, member, evict_stale_agents}
use config_server.Registry.Consistent.{IsConsistent, IsConsistent-empty}
use config_server.Agent.{ConfigInfo, ConfigDetail, HeartbeatRequest, removal}
use config_server.Agent.Diff.{
  index_from, index_config_infos, to_send, config_updates, is_served, removals, config_diff,
}
use config_server.Agent.Converge.{
  apply_updates, served_version, IsTable, config_diff-converges, config_diff-settles,
}
use config_server.Agent.Inline.{
  inline_bytes, contents, strip_inline, over_limit, heads, strip_inline-bounded,
}
use config_server.Agent.Onetime.{
  JsonObjects, onetime_content_hash, onetime_detail_with_generation, onetime_updates, has_command,
}
use config_server.Agent.Commands.{apply_command, apply_commands, AreCommands, onetime_updates_once}
use config_server.Agent.FullState.{Event, beat, sweep, run_events, heartbeat-run_events}
use config_server.Agent.Heartbeat.{
  Limits, Manager, Assigned, build_agent, respond, need_full_state, heartbeat,
}
use config_server.Agent.Restart.{IsSender, heartbeat-stores}
use config_server.Agent.Response.{heartbeat-converges}

abbrev config : Bytes → ℕ → Config
config name version = record { name = name; version = pos version; detail = codes "content" }

abbrev served : List Config
served = config (codes "nginx") 2 ∷ config (codes "audit") 1 ∷ []

served-IsTable : IsTable served
unfolding config_server.Agent.Converge.has_name bytes_eq
served-IsTable = (refl, (λ e. ground arith), (refl, (λ e. ground arith), tt))

abbrev reported : Dict ℤ
reported = (codes "nginx", pos 1) ∷ (codes "gone", pos 4) ∷ []

config_diff-settles_example :
    config_diff false (apply_updates reported (config_diff false reported served)) served ≡ []
config_diff-settles_example = config_diff-settles false reported served served-IsTable

abbrev nginx_update : ConfigDetail
nginx_update = record { name = codes "nginx"; version = pos 2; detail = codes "content" }

strip_inline-bounded_example :
    (length (contents (strip_inline (nginx_update ∷ []))) ≤ 262144)
    × (heads (strip_inline (nginx_update ∷ [])) ≡ heads (nginx_update ∷ []))
    × (((262144 < length (contents (nginx_update ∷ [])))
          × (contents (strip_inline (nginx_update ∷ [])) ≡ []))
        ⊎ ((length (contents (nginx_update ∷ [])) ≤ 262144)
            × (strip_inline (nginx_update ∷ []) ≡ nginx_update ∷ [])))
strip_inline-bounded_example = strip_inline-bounded (nginx_update ∷ [])

-- A codec that decodes nothing: contents that are no JSON objects.
abbrev plain_json : JsonObjects
plain_json = record {
  Value = ℕ;
  decode_object = λ _. none;
  encode_object = λ _. none;
  as_object = λ _. none;
  of_object = λ _. 0;
  number = λ _. 0;
}

abbrev command : OnetimeCommand
command = record {
  name = codes "restart";
  version = pos 7;
  detail = codes "run";
  expire_time = pos 500;
  created_at = pos 7;
}

command-AreCommands : AreCommands (command ∷ [])
unfolding has_command
command-AreCommands = (refl, (λ e. ground arith), tt)

-- The agent reports a command that is assigned no more.
onetime_updates_once_example :
    onetime_updates plain_json
      (pos 200)
      false
      (apply_commands
        ((codes "stop", pos 5) ∷ [])
        (onetime_updates plain_json (pos 100) false ((codes "stop", pos 5) ∷ []) (command ∷ [])))
      (command ∷ [])
    ≡ []
unfolding int_lt
onetime_updates_once_example =
    onetime_updates_once plain_json (pos 100) (pos 200) false ((codes "stop", pos 5) ∷ [])
      (command ∷ []) refl command-AreCommands

-- The heartbeat cancels the one and delivers the other.
commands_applied :
    apply_commands
      ((codes "stop", pos 5) ∷ [])
      (onetime_updates plain_json (pos 100) false ((codes "stop", pos 5) ∷ []) (command ∷ []))
    ≡ (codes "restart", onetime_content_hash (onetime_detail_with_generation plain_json command))
      ∷ []
unfolding onetime_updates apply_commands config_server.Agent.Onetime.cancellations has_command
    bytes_eq config_server.Agent.Onetime.deliveries config_server.Agent.Onetime.to_deliver int_lt
    lookup apply_command int_eq insert config_server.Prelude.Dict.erase
commands_applied = refl

abbrev limits : Limits
limits = record { max_agents = 3; max_statuses = 5 }

abbrev assigned : Assigned
assigned = record { pipelines = served; instances = []; onetimes = command ∷ [] }

abbrev manager : Manager
manager = record {
  get_configs_for_agent = λ _. some assigned;
  get_pipeline_config = λ _. failed;
  get_instance_config = λ _. failed;
  get_onetime_command = λ _. failed;
  marshal_tags = λ _. none;
}

abbrev request_of : ℕ → HeartbeatRequest
request_of sequence_num = record {
  request_id = codes "r";
  sequence_num = sequence_num;
  capabilities = 0;
  instance_id = codes "i-1";
  agent_type = codes "LoongCollector";
  attributes = none;
  tags = [];
  running_status = [];
  startup_time = pos 1;
  flags = 0;
  continuous_pipeline_configs =
      record { name = codes "nginx"; version = pos 1; status = pos 2; message = [] } ∷ [];
  instance_configs = [];
  onetime_pipeline_configs = [];
}

heartbeat-converges_example :
    (lookup (codes "nginx") (
        apply_updates
          (index_config_infos (request_of 4).continuous_pipeline_configs)
          (heartbeat limits plain_json manager 9000000000
            (request_of 4)
            empty).1.continuous_pipeline_config_updates)
      ≡ served_version (codes "nginx") assigned.pipelines)
    × (lookup (codes "nginx") (
          apply_updates
            (index_config_infos (request_of 4).instance_configs)
            (heartbeat limits plain_json manager 9000000000
              (request_of 4)
              empty).1.instance_config_updates)
        ≡ served_version (codes "nginx") assigned.instances)
heartbeat-converges_example =
    heartbeat-converges limits plain_json manager 9000000000 (request_of 4) empty (codes "nginx")
      refl served-IsTable tt

heartbeat-stores_example :
    let stored = (heartbeat limits plain_json manager 9000000000 (request_of 4) empty).0 in
    let swept = evict_stale_agents 5000000000 12000000000 stored in
    IsConsistent limits.max_agents stored
    × IsConsistent limits.max_agents swept
    × (a : Agent) × IsSender manager 9000000000 (request_of 4) a
    × (get_agent stored (request_of 4).instance_id ≡ some a)
    × (get_agent swept (request_of 4).instance_id
        ≡ (if ltb 9000000000 (12000000000 - 5000000000) then none else some a))
heartbeat-stores_example =
    heartbeat-stores limits plain_json manager 9000000000 (request_of 4) empty 5000000000
      12000000000 (omega arith) (IsConsistent-empty 3)

-- The agent numbers its heartbeats from 1, a sweep follows, and it counts on.
abbrev events : List Event
events =
    beat manager 8000000000 (request_of 1)
    ∷ beat manager 9000000000 (request_of 2)
    ∷ sweep 10000000000
    ∷ []

heartbeat-run_events_example :
    (heartbeat limits plain_json manager 11000000000
        (request_of 3)
        (run_events limits plain_json 5000000000 events empty)).1.flags
      % 2
    ≡ 0
unfolding bytes_eq
heartbeat-run_events_example =
    heartbeat-run_events limits plain_json 5000000000 manager 11000000000 (request_of 3) events
      (omega arith) refl

-- The agent has sent the number 0, and then counts on.
abbrev reset_registry : Registry
reset_registry = upsert_agent 3 empty (build_agent manager 8000000000 (request_of 0))

full_state_asked :
    (heartbeat limits plain_json manager 9000000000 (request_of 4) reset_registry).1.flags % 2 ≡ 1
unfolding heartbeat respond need_full_state get_agent lookup upsert_agent member insert bytes_eq
    build_agent over_limit inline_bytes config_diff config_updates to_send index_config_infos
    index_from is_served removals int_eq
full_state_asked = refl
