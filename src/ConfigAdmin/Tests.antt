-- ===== src/ConfigAdmin/Tests.antt =====
-- The theorems on the config and group handlers, for one config and one group.
use Prim.Native.Nat.{Ordering}
use config_server.Prelude.{
  ◌≡◌, refl, ℕ, true, false, none, some, [], ◌∷◌, codes, bytes_eq, any, pos, if◌then◌else◌,
}
use config_server.Model.{pipeline, AgentGroup, Config, GroupConfigMapping, not_found}
use config_server.IpSelector.{Netip, Json}
use config_server.Store.Rows.{get_group_tags, same_mapping, add_group_config}
use config_server.ConfigAdmin.{
  Admin, Calls, Env, Reply, bad_request, conflict, done, shown, created, pipelines, kind_text, rows,
  find_config, Yaml, validate_yaml, Snapshots, ConfigBody,
}
use config_server.ConfigAdmin.Configs.{create_config, update_config, remove_config}
use config_server.ConfigAdmin.Groups.{
  get_group_configs, remove_group, find_group, set_group_version_constraint, add_config,
}
use config_server.ConfigAdmin.Rollback.{rollback_config}
use config_server.ConfigAdmin.Restore as Restore
use config_server.ConfigAdmin.Restore.{remove_config-rollback_config, create_config_again}
use config_server.ConfigAdmin.Regroup.{remove_group-rollback_config}
use config_server.ConfigAdmin.Undo as Undo
use config_server.ConfigAdmin.Undo.{
  first_constraint-rollback_config, repeated_add_config-rollback_config,
}

abbrev no_net : Netip
no_net = record {
  Addr = ℕ;
  Prefix = ℕ;
  parse_addr = λ _. none;
  parse_prefix = λ _. none;
  addr_eq = λ _ _. false;
  compare = λ _ _. Ordering.eq;
  prefix_contains = λ _ _. false;
  is4 = λ _. false;
  as4 = λ _. (0, 0, 0, 0);
  addr_from4 = λ _. 0;
}

abbrev no_json : Json
no_json = record {
  unmarshal_selector = λ _. none;
  marshal_selector = λ _. [];
  unmarshal_tags = λ _. none;
}

abbrev no_snapshots : Snapshots
no_snapshots = record {
  marshal_onetime = λ _ _. [];
  unmarshal_onetime = λ _. none;
  marshal_tags = λ _. [];
  unmarshal_tags = λ _. none;
  marshal_group = λ _. [];
  unmarshal_group = λ _. none;
}

abbrev any_yaml : Yaml
any_yaml = record { unmarshal = λ _. some true }

abbrev working : Calls
working = record {
  get_config = true;
  create_config = true;
  update_config = true;
  delete_config = true;
  read_config_again = not_found;
  read_onetime_again = not_found;
  get_group = true;
  create_group = true;
  update_group = true;
  delete_group = true;
  get_group_tags = true;
  set_group_tags = true;
  get_group_configs = true;
  add_group_config = true;
  remove_group_config = true;
  get_history = true;
  save_history = true;
  create_audit = true;
}

abbrev at_time : ℕ → Env
at_time t = record { calls = working; username = codes "bob"; now = pos t; created_at = pos t }

at_time-IsReliable : (t : ℕ) → Restore.IsReliable (at_time t)
at_time-IsReliable t = record {
  reads = refl;
  creates = refl;
  updates = refl;
  deletes = refl;
  finds = refl;
  saves = refl;
}

at_time-IsReliable_groups : (t : ℕ) → Undo.IsReliable (at_time t)
at_time-IsReliable_groups t = record {
  reads = refl;
  updates = refl;
  adds = refl;
  removes = refl;
  finds = refl;
  saves = refl;
  creates = refl;
  deletes = refl;
  reads_tags = refl;
  sets_tags = refl;
  reads_configs = refl;
}

abbrev nginx : Config
nginx = record { name = codes "nginx"; version = pos 1; detail = codes "old" }

abbrev web : AgentGroup
web = record {
  name = codes "web";
  description = [];
  ip_selector_json = [];
  version_constraint = [];
}

abbrev web_nginx : GroupConfigMapping
web_nginx = record { group_name = codes "web"; config_name = codes "nginx"; config_type = pipeline }

abbrev tables : Admin
tables = record {
  store = record {
    groups = web ∷ [];
    tags = [];
    mappings = web_nginx ∷ [];
    pipelines = nginx ∷ [];
    instances = [];
    onetimes = [];
    canaries = [];
    users = [];
    roles = [];
    permissions = [];
  };
  history = [];
  next_id = 7;
  audits = [];
}

remove_config-rollback_config_example :
    let removed = (remove_config (at_time 5) pipelines (codes "nginx") tables).1 in
    let r =
      rollback_config
        (at_time 9)
        no_net
        no_json
        no_snapshots
        (codes "pipeline")
        (codes "nginx")
        (some 7)
        removed in
    (find_config (codes "nginx") (rows pipelines removed.store) ≡ none)
    × (r.0 ≡ done)
    × (find_config (codes "nginx") (rows pipelines r.1.store)
        ≡ some (record { name = codes "nginx"; version = pos 9; detail = codes "old" }))
unfolding find_config bytes_eq
remove_config-rollback_config_example =
    remove_config-rollback_config (at_time 5) (at_time 9) no_net no_json no_snapshots pipelines
      (codes "nginx") nginx tables (at_time-IsReliable 5) (at_time-IsReliable 9) refl refl

abbrev body : ConfigBody
body = record { name = codes "app"; detail = codes "x" }

abbrev app : Config
app = record { name = codes "app"; version = pos 5; detail = codes "x" }

create_config_again_example :
    let after = (create_config (at_time 5) any_yaml pipelines (some body) tables).1 in
    create_config
      (at_time 6)
      any_yaml
      pipelines
      (some (record { name = codes "app"; detail = codes "y" }))
      after
    ≡ (if bytes_eq (codes "x") (codes "y") then shown app else conflict, after)
unfolding validate_yaml create_config find_config bytes_eq
    config_server.ConfigAdmin.Configs.create_new config_server.ConfigAdmin.create_row
create_config_again_example =
    create_config_again (at_time 5) (at_time 6) any_yaml pipelines body (codes "y") app tables refl
      refl refl

first_constraint-rollback_config_example :
    let changed = (set_group_version_constraint (at_time 5) (codes "web") (some []) tables).1 in
    rollback_config
      (at_time 9)
      no_net
      no_json
      no_snapshots
      (codes "group")
      (codes "web")
      (some 7)
      changed
    ≡ (bad_request, changed)
unfolding find_group bytes_eq config_server.Version.validate_version_constraint
    config_server.Strings.trim_space
first_constraint-rollback_config_example =
    first_constraint-rollback_config (at_time 5) (at_time 9) no_net no_json no_snapshots
      (codes "web") [] web tables (at_time-IsReliable_groups 5) (at_time-IsReliable_groups 9) refl
      refl refl

repeated_add_config-rollback_config_example :
    let r =
      rollback_config
        (at_time 9)
        no_net
        no_json
        no_snapshots
        (codes "group")
        (codes "web")
        (some 7)
        (add_config (at_time 5) (codes "web") (codes "pipeline") (codes "nginx") tables).1 in
    (add_group_config web_nginx tables.store ≡ tables.store)
    × (any (same_mapping web_nginx) r.1.store.mappings ≡ false)
unfolding bytes_eq
repeated_add_config-rollback_config_example =
    repeated_add_config-rollback_config (at_time 5) (at_time 9) no_net no_json no_snapshots
      (codes "web") (codes "nginx") pipeline tables (at_time-IsReliable_groups 5)
      (at_time-IsReliable_groups 9) refl

-- One snapshot is written, and read back.
abbrev web_snapshots : Snapshots
web_snapshots = record no_snapshots {
  marshal_group = λ _. codes "{}";
  unmarshal_group = λ _. some (record {
    description = [];
    ip_selector_json = [];
    version_constraint = [];
    tags = [];
    configs = web_nginx ∷ [];
  });
}

remove_group-rollback_config_example :
    let removed = (remove_group (at_time 5) web_snapshots (codes "web") tables).1 in
    let r =
      rollback_config
        (at_time 9)
        no_net
        no_json
        web_snapshots
        (codes "group")
        (codes "web")
        (some 7)
        removed in
    (r.0 ≡ done)
    × (find_group (codes "web") r.1.store.groups ≡ some web)
    × (get_group_tags (codes "web") r.1.store ≡ get_group_tags (codes "web") tables.store)
    × (any (same_mapping web_nginx) r.1.store.mappings ≡ true)
unfolding bytes_eq find_group get_group_configs get_group_tags
remove_group-rollback_config_example =
    remove_group-rollback_config (at_time 5) (at_time 9) no_net no_json web_snapshots (codes "web")
      web web_nginx tables (at_time-IsReliable_groups 5) (at_time-IsReliable_groups 9) refl refl
      refl refl refl
