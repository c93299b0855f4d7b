-- ===== src/Store/Tests.antt =====
-- The theorems on internal/store/gormdb/gormdb.go, for two groups and two configs.
use Prim.Native.Nat.{Ordering}
use config_server.Prelude.{
  ℕ, ◌≡◌, refl, true, false, not, ◌&&◌, none, some, List, [], ◌∷◌, Bytes, bytes_eq, codes, any,
  keep, pos, is_empty,
}
use config_server.Model.{
  pipeline, instance_config, onetime, default_group_name, AgentGroup, AgentGroupTag,
  AgentMatchContext, Config, OnetimeCommand,
}
use config_server.IpSelector.{
  Netip, Json, ip_selector_matches, parse_ip_selector_json, normalize_ip_selector, normalize_from,
  matches_from, parse_item, item_matches, seen,
}
use config_server.Strings.{trim_space, contains, strip_prefix, split, split_pair, atoi}
use config_server.Version.{
  match_version_constraint, match_groups, match_and_group, match_clauses, match_clause,
  parse_clause, compare_versions, compare_segments, version_segments, parse_segments, cut_label,
}
use config_server.Store.{
  Store, in_set, add_name, add_names, delete_name, tag_groups, version_groups, exclude_versions,
  find_canary, mapped_names, ip_groups, ip_names, matched_groups, overlay_config, overlay, Resolved,
  get_configs_for_agent,
}
use config_server.Store.Groups.{joins, keeps_out, matched_groups_lem, matched_groups-constraint}
use config_server.Store.Configs.{names, assigns, get_configs_for_agent-names}
use config_server.Store.Rows.{delete_group, delete_config, delete_config-mapped_names}

abbrev no_net : Netip
no_net = record {
  Addr = ℕ;
  Prefix = ℕ;
  parse_addr = λ _. none;
  parse_prefix = λ _. none;
  addr_eq = λ _ _. false;
  compare = λ _ _. Ordering.eq;
  prefix_contains = λ _ _. false;
  is4 = λ _. false;
  as4 = λ _. (0, 0, 0, 0);
  addr_from4 = λ _. 0;
}

abbrev no_json : Json
no_json = record {
  unmarshal_selector = λ _. none;
  marshal_selector = λ _. [];
  unmarshal_tags = λ _. none;
}

abbrev web_tag : AgentGroupTag
web_tag = record { group_name = codes "web"; tag_name = codes "env"; tag_value = codes "prod" }

abbrev rows : Store
rows = record {
  groups =
      record {
        name = default_group_name;
        description = [];
        ip_selector_json = [];
        version_constraint = [];
      }
      ∷ record {
        name = codes "web";
        description = [];
        ip_selector_json = [];
        version_constraint = codes ">= 1.0";
      }
      ∷ [];
  tags = web_tag ∷ [];
  mappings =
      record { group_name = codes "web"; config_name = codes "nginx"; config_type = pipeline } ∷ [];
  pipelines = record { name = codes "nginx"; version = pos 1; detail = codes "content" } ∷ [];
  instances = [];
  onetimes = [];
  canaries = [];
  users =
      record {
        username = codes "bob";
        password_hash = [];
        is_admin = false;
        role_name = codes "ops";
        email = [];
        totp_secret = [];
        totp_enabled = false;
      }
      ∷ [];
  roles = [];
  permissions = [];
}

-- An agent without tags.
abbrev untagged : AgentMatchContext
untagged = record {
  instance_id = codes "i-1";
  ip = [];
  hostid = [];
  hostname = [];
  version = codes "1.2";
  tags = [];
}

abbrev matched : List Bytes
matched = codes "web" ∷ default_group_name ∷ []

rows-matched : matched_groups no_net no_json rows untagged ≡ some matched
unfolding matched_groups ip_names ip_groups exclude_versions bytes_eq in_set add_names add_name
    version_groups tag_groups delete_name match_version_constraint match_groups match_and_group
    match_clauses match_clause parse_clause compare_versions compare_segments version_segments
    parse_segments cut_label trim_space strip_prefix split split_pair atoi
rows-matched = refl

-- Addresses are texts, and a selector is the address that it selects.
abbrev text_net : Netip
text_net = record {
  Addr = Bytes;
  Prefix = ℕ;
  parse_addr = λ s. some s;
  parse_prefix = λ _. none;
  addr_eq = bytes_eq;
  compare = λ _ _. Ordering.eq;
  prefix_contains = λ _ _. false;
  is4 = λ _. false;
  as4 = λ _. (0, 0, 0, 0);
  addr_from4 = λ _. [];
}

abbrev text_json : Json
text_json = record {
  unmarshal_selector = λ s. some (s ∷ []);
  marshal_selector = λ _. [];
  unmarshal_tags = λ _. none;
}

abbrev group_at : Bytes → Bytes → AgentGroup
group_at name ip = record {
  name = name;
  description = [];
  ip_selector_json = ip;
  version_constraint = [];
}

-- An agent at the address of the group edge and not at that of the group core.
abbrev sites : Store
sites = record rows {
  groups =
      group_at (codes "core") (codes "10.0.0.1") ∷ group_at (codes "edge") (codes "10.0.0.2") ∷ [];
}

abbrev at_edge : AgentMatchContext
at_edge = record untagged { ip = codes "10.0.0.2" }

abbrev edge_groups : List Bytes
edge_groups = codes "edge" ∷ default_group_name ∷ []

sites-matched : matched_groups text_net text_json sites at_edge ≡ some edge_groups
unfolding matched_groups ip_names ip_groups exclude_versions bytes_eq in_set add_names add_name
    version_groups tag_groups delete_name trim_space ip_selector_matches parse_ip_selector_json
    normalize_ip_selector normalize_from matches_from parse_item item_matches seen contains
sites-matched = refl

matched_groups_example : in_set (codes "edge") edge_groups ≡ (
    joins text_net text_json sites at_edge (codes "edge")
    && not (any (keeps_out at_edge.version (codes "edge")) sites.groups))
matched_groups_example =
    matched_groups_lem text_net text_json sites at_edge edge_groups (codes "edge") sites-matched

web_constraint :
    any
      (λ (g : AgentGroup). bytes_eq g.name (codes "web") && not (is_empty g.version_constraint))
      rows.groups
    ≡ true
unfolding bytes_eq
web_constraint = refl

web_kept : any (keeps_out untagged.version (codes "web")) rows.groups ≡ false
unfolding bytes_eq match_version_constraint match_groups match_and_group match_clauses match_clause
    parse_clause compare_versions compare_segments version_segments parse_segments cut_label
    trim_space strip_prefix split split_pair atoi
web_kept = refl

matched_groups-constraint_example : in_set (codes "web") matched ≡ true
matched_groups-constraint_example =
    matched_groups-constraint no_net no_json rows untagged matched (codes "web") rows-matched
      web_constraint web_kept

abbrev resolved : Resolved
resolved = record { pipelines = rows.pipelines; instances = []; onetimes = [] }

rows-resolved : get_configs_for_agent no_net no_json rows untagged ≡ some resolved
unfolding get_configs_for_agent overlay overlay_config find_canary mapped_names matched_groups
    ip_names ip_groups exclude_versions bytes_eq in_set add_names add_name version_groups tag_groups
    delete_name match_version_constraint match_groups match_and_group match_clauses match_clause
    parse_clause compare_versions compare_segments version_segments parse_segments cut_label
    trim_space strip_prefix split split_pair atoi
rows-resolved = refl

get_configs_for_agent-names_example :
    (names resolved.pipelines
      ≡ names (
          keep
            (λ (c : Config).
              any (assigns no_net no_json rows untagged pipeline c.name) rows.mappings)
            rows.pipelines))
    × (names resolved.instances
        ≡ names (
            keep
              (λ (c : Config).
                any (assigns no_net no_json rows untagged instance_config c.name) rows.mappings)
              rows.instances))
    × (resolved.onetimes
        ≡ keep
            (λ (c : OnetimeCommand).
              any (assigns no_net no_json rows untagged onetime c.name) rows.mappings)
            rows.onetimes)
get_configs_for_agent-names_example =
    get_configs_for_agent-names no_net no_json rows untagged resolved rows-resolved

delete_config-mapped_names_example :
    in_set
      (codes "nginx")
      (mapped_names pipeline matched (delete_config pipeline (codes "nginx") rows).mappings)
    ≡ false
delete_config-mapped_names_example =
    delete_config-mapped_names pipeline (codes "nginx") matched rows

abbrev without_web : Store
without_web = record rows {
  groups =
      record {
        name = default_group_name;
        description = [];
        ip_selector_json = [];
        version_constraint = [];
      }
      ∷ [];
  tags = [];
  mappings = [];
}

web_deleted : delete_group (codes "web") rows ≡ some without_web
unfolding delete_group bytes_eq
web_deleted = refl
