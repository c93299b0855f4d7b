-- ===== src/Store.antt =====
-- internal/store/gormdb/gormdb.go: the tables, and the resolution of configs for an agent. A query
-- is a function on the rows; an error of the database itself is not modelled.
pub mod Groups
pub mod Configs
pub mod Rows
mod Tests
use config_server.Prelude.{
  ℕ, Bool, true, false, not, ◌&&◌, ◌||◌, Option, none, some, List, [], ◌∷◌, ◌++◌, Bytes, bytes_eq,
  is_empty, any, keep, map, if◌then◌else◌,
}
use config_server.Model.{
  ConfigType, pipeline, instance_config, onetime, default_group_name, AgentGroup, AgentGroupTag,
  AgentMatchContext, Config, OnetimeCommand, GroupConfigMapping, CanaryStatus, rolling,
  CanaryRelease, User, Role, RolePermission,
}
use config_server.Version.{match_version_constraint}
use config_server.IpSelector.{Netip, Json, ip_selector_matches}
use config_server.Canary.{canary_eligible}

pub record Store : Type 0 where
  pub groups : List AgentGroup
  pub tags : List AgentGroupTag
  pub mappings : List GroupConfigMapping
  pub pipelines : List Config
  pub instances : List Config
  pub onetimes : List OnetimeCommand
  pub canaries : List CanaryRelease
  pub users : List User
  pub roles : List Role
  pub permissions : List RolePermission

-- Membership and insertion in a set of names, a Go map without values.
unfoldable pub in_set : Bytes → List Bytes → Bool
in_set name [] = false
in_set name (x ∷ xs) = if bytes_eq x name then true else in_set name xs

unfoldable pub add_name : Bytes → List Bytes → List Bytes
add_name name xs = if in_set name xs then xs else name ∷ xs

pub delete_name : Bytes → List Bytes → List Bytes
delete_name name [] = []
delete_name name (x ∷ xs) =
    let rest = delete_name name xs in if bytes_eq x name then rest else x ∷ rest

unfoldable pub add_names : List Bytes → List Bytes → List Bytes
add_names [] set = set
add_names (n ∷ ns) set = add_names ns (add_name n set)

abbrev pub config_type_eq : ConfigType → ConfigType → Bool
config_type_eq pipeline pipeline = true
config_type_eq instance_config instance_config = true
config_type_eq onetime onetime = true
config_type_eq _ _ = false

abbrev pub is_rolling : CanaryStatus → Bool
is_rolling rolling = true
is_rolling _ = false

-- The condition of the SQL query: the row has the name and the value of one of the agent's tags.
unfoldable pub tag_row_matches : List AgentGroupTag → AgentGroupTag → Bool
tag_row_matches tags row =
    any
      (λ (t : AgentGroupTag).
        bytes_eq row.tag_name t.tag_name && bytes_eq row.tag_value t.tag_value)
      tags

-- Some tag row of the group matches.
unfoldable pub group_tag_matches : Store → List AgentGroupTag → AgentGroup → Bool
group_tag_matches s tags g =
    any (λ (row : AgentGroupTag). bytes_eq row.group_name g.name && tag_row_matches tags row) s.tags

abbrev pub group_names : List AgentGroup → List Bytes
group_names = map (λ (g : AgentGroup). g.name)

-- The query on tags, which is not made for an agent without tags.
unfoldable pub tag_groups : Store → List AgentGroupTag → List Bytes
tag_groups s tags =
    if is_empty tags then [] else group_names (keep (λ g. group_tag_matches s tags g) s.groups)

-- Groups with a version constraint.
unfoldable pub version_groups : Store → List Bytes
version_groups s =
    group_names (keep (λ (g : AgentGroup). not (is_empty g.version_constraint)) s.groups)

abbrev pub version_excludes : Bytes → AgentGroup → Bool
version_excludes version g =
    not (is_empty g.version_constraint)
    && not (match_version_constraint g.version_constraint version)

-- The loop over the rows of the groups other than the default one: those that the agent's version
-- does not satisfy are deleted from the set.
unfoldable pub exclude_versions : Bytes → List AgentGroup → List Bytes → List Bytes
exclude_versions version [] set = set
exclude_versions version (g ∷ gs) set =
    let next =
      if not (bytes_eq g.name default_group_name) && in_set g.name set && version_excludes version g
      then delete_name g.name set
      else set in
    exclude_versions version gs next

unfoldable pub find_canary : Bytes → ConfigType → List CanaryRelease → Option CanaryRelease
find_canary name type [] = none
find_canary name type (cr ∷ crs) = elim (find_canary name type crs) [
  | some later ↦ some later
  | none ↦
      if bytes_eq cr.config_name name && config_type_eq cr.config_type type then some cr else none
]

-- The names of the configs of the type that the mappings of the matched groups give.
unfoldable pub mapped_names : ConfigType → List Bytes → List GroupConfigMapping → List Bytes
mapped_names type groups [] = []
mapped_names type groups (m ∷ ms) =
    let rest = mapped_names type groups ms in
    if in_set m.group_name groups && config_type_eq m.config_type type
    then add_name m.config_name rest
    else rest

pub record Resolved : Type 0 where
  pub pipelines : List Config
  pub instances : List Config
  pub onetimes : List OnetimeCommand

module _ (net : Netip) (json : Json) where
  -- The loop over the groups with an IP selector.
  pub ip_groups : List AgentGroup → Bytes → Option (List Bytes)
  ip_groups [] ip = some []
  ip_groups (g ∷ gs) ip =
      let rest = ip_groups gs ip in
      if is_empty g.ip_selector_json
      then rest
      else elim (ip_selector_matches net json g.ip_selector_json ip) [
        | none ↦ none
        | some matched ↦ elim rest [
          | none ↦ none
          | some names ↦ some (if matched then g.name ∷ names else names)
        ]
      ]

  -- The IP selectors are not looked at for an agent without an address.
  unfoldable pub ip_names : Store → AgentMatchContext → Option (List Bytes)
  ip_names s m = if is_empty m.ip then some [] else ip_groups s.groups m.ip

  -- groupNameSet when the mappings are fetched.
  unfoldable pub matched_groups : Store → AgentMatchContext → Option (List Bytes)
  matched_groups s m = elim (ip_names s m) [
    | none ↦ none
    | some by_ip ↦
        let by_tag = add_names (tag_groups s m.tags) (default_group_name ∷ []) in
        let all_names = add_names (version_groups s) (add_names by_ip by_tag) in
        some (exclude_versions m.version s.groups all_names)
  ]

  -- The overlay on one config.
  unfoldable pub overlay_config :
      List CanaryRelease → ConfigType → AgentMatchContext → Config → Option Config
  overlay_config crs type m cfg = elim (find_canary cfg.name type crs) [
    | none ↦ some cfg
    | some cr ↦ elim (canary_eligible net json cr m cfg.name) [
      | none ↦ none
      | some eligible ↦ some (
          if eligible
          then record cfg { detail = cr.canary_detail; version = cr.canary_version }
          else cfg)
    ]
  ]

  unfoldable pub overlay :
      List CanaryRelease → ConfigType → AgentMatchContext → List Config → Option (List Config)
  overlay crs type m [] = some []
  overlay crs type m (cfg ∷ cfgs) =
      let rest = overlay crs type m cfgs in
      elim (overlay_config crs type m cfg) [
        | none ↦ none
        | some c ↦ elim rest [ none ↦ none | some cs ↦ some (c ∷ cs) ]
      ]

  unfoldable pub get_configs_for_agent : Store → AgentMatchContext → Option Resolved
  get_configs_for_agent s m = elim (matched_groups s m) [
    | none ↦ none
    | some groups ↦
        let canaries = keep (λ (cr : CanaryRelease). is_rolling cr.status) s.canaries in
        let pipeline_set = mapped_names pipeline groups s.mappings in
        let instance_set = mapped_names instance_config groups s.mappings in
        let onetime_set = mapped_names onetime groups s.mappings in
        let instances = keep (λ (c : Config). in_set c.name instance_set) s.instances in
        let onetimes = keep (λ (c : OnetimeCommand). in_set c.name onetime_set) s.onetimes in
        elim (overlay canaries pipeline m
          (keep (λ (c : Config). in_set c.name pipeline_set) s.pipelines)) [
            | none ↦ none
            | some ps ↦ elim (overlay canaries instance_config m instances) [
              | none ↦ none
              | some is' ↦ some (record { pipelines = ps; instances = is'; onetimes = onetimes })
            ]
          ]
  ]
