-- ===== src/Resolve/Tests.antt =====
-- The theorems on the cached resolution of internal/cache/manager.go, for one group, one config and
-- one agent.
use Prim.Native.Nat.{Ordering}
use config_server.Prelude.{
  ℕ, ◌≡◌, refl, false, none, some, List, [], ◌∷◌, Bytes, codes, map, pos, bytes_eq, bytes_eq_iff,
  arith,
}
use config_server.Prelude.Dict.{Dict, lookup, insert, erase, lookup-insert, lookup-erase}
use config_server.Model.{pipeline, default_group_name, AgentMatchContext, Config, found, not_found}
use config_server.IpSelector.{Netip, Json}
use config_server.Cache.{KeyValue, IsKeyValue}
use config_server.Store.{Store, Resolved, get_configs_for_agent}
use config_server.Resolve.{
  AgentConfigSet, Getters, ResolveCodec, manager_configs_for_agent, invalidate_resolve_cache,
}
use config_server.Resolve.Hydrate.{Reads}
use config_server.Resolve.Calls.{Call, look_up, run_calls}
use config_server.Resolve.Epoch.{run_calls-manager_configs_for_agent}

abbrev no_net : Netip
no_net = record {
  Addr = ℕ;
  Prefix = ℕ;
  parse_addr = λ _. none;
  parse_prefix = λ _. none;
  addr_eq = λ _ _. false;
  compare = λ _ _. Ordering.eq;
  prefix_contains = λ _ _. false;
  is4 = λ _. false;
  as4 = λ _. (0, 0, 0, 0);
  addr_from4 = λ _. 0;
}

abbrev no_json : Json
no_json = record {
  unmarshal_selector = λ _. none;
  marshal_selector = λ _. [];
  unmarshal_tags = λ _. none;
}

abbrev dict_store : KeyValue
dict_store = record { State = Dict Bytes; get = lookup; set = insert; del = erase; clear = λ _. [] }

dict_store-IsKeyValue : IsKeyValue dict_store
unfolding lookup
dict_store-IsKeyValue = record {
  get_set = λ j k raw v s e. ground (arith, lookup-insert k j v s, bytes_eq_iff k j);
  get_del = λ j k raw s e. ground (arith, lookup-erase k j s);
  get_clear = λ j s. refl;
}

abbrev nginx : Config
nginx = record { name = codes "n"; version = pos 1; detail = codes "content" }

abbrev rows : Store
rows = record {
  groups =
      record {
        name = default_group_name;
        description = [];
        ip_selector_json = [];
        version_constraint = [];
      }
      ∷ [];
  tags = [];
  mappings =
      record { group_name = default_group_name; config_name = codes "n"; config_type = pipeline }
      ∷ [];
  pipelines = nginx ∷ [];
  instances = [];
  onetimes = [];
  canaries = [];
  users = [];
  roles = [];
  permissions = [];
}

abbrev agent : AgentMatchContext
agent = record {
  instance_id = codes "i-1";
  ip = [];
  hostid = [];
  hostname = [];
  version = codes "1.2";
  tags = [];
}

abbrev resolution : Resolved
resolution = record { pipelines = nginx ∷ []; instances = []; onetimes = [] }

abbrev nothing : Resolved
nothing = record { pipelines = []; instances = []; onetimes = [] }

abbrev getters : Getters
getters = record {
  pipeline = λ _. found nginx;
  instance = λ _. not_found;
  onetime = λ _. not_found;
}

abbrev first_letters : List Bytes → Bytes
first_letters [] = []
first_letters ([] ∷ ss) = first_letters ss
first_letters ((b ∷ s) ∷ ss) = b ∷ first_letters ss

-- Sets of pipelines with names of one letter; lists of canaries are not cached.
abbrev letters : ResolveCodec
letters = record {
  marshal_set = λ (s : AgentConfigSet). some (first_letters s.pipelines);
  unmarshal_set = λ (raw : Bytes).
      some (record { pipelines = map (λ b. b ∷ []) raw; instances = []; onetimes = [] });
  marshal_canaries = λ _. none;
  unmarshal_canaries = λ _. none;
}

rows-resolution : get_configs_for_agent no_net no_json rows agent ≡ some resolution
unfolding get_configs_for_agent config_server.Store.matched_groups config_server.Store.ip_names
    config_server.Store.overlay config_server.Store.in_set config_server.Store.mapped_names
    config_server.Store.exclude_versions bytes_eq config_server.Store.add_names
    config_server.Store.version_groups config_server.Store.tag_groups config_server.Store.add_name
    config_server.Store.overlay_config config_server.Store.find_canary
rows-resolution = refl

getters_read : Reads getters rows
getters_read = record { pipelines = (refl, tt); instances = tt; onetimes = tt }

-- The agent is looked up when nothing is mapped to it, and the answer is cached.
abbrev stale_calls : List (Call dict_store)
stale_calls = look_up getters (some []) (some nothing) agent ∷ []

run_calls-manager_configs_for_agent_example :
    (manager_configs_for_agent no_net no_json dict_store letters getters
      (some [])
      (get_configs_for_agent no_net no_json rows agent)
      agent
      (invalidate_resolve_cache no_net no_json dict_store letters (
        run_calls no_net no_json dict_store letters stale_calls
          (record { epoch = 0; entries = [] })))).0
    ≡ some resolution
run_calls-manager_configs_for_agent_example =
    run_calls-manager_configs_for_agent no_net no_json dict_store letters dict_store-IsKeyValue
      getters rows agent resolution stale_calls [] getters_read rows-resolution (omega arith)
