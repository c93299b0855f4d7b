-- ===== src/ConfigAdmin/Groups.antt =====
-- The handlers of agent groups in internal/server/admin/handler.go: the rows of groups, their tags
-- and their configs, with the history that they keep. A mapping whose type is none of the three
-- is not represented: no query on mappings gives it.
use config_server.Prelude.{
  Bool, true, false, not, ◌||◌, Option, none, some, List, [], ◌∷◌, ◌++◌, Bytes, codes, bytes_eq,
  is_empty, any, keep, map, pos, if◌then◌else◌,
}
use config_server.Strings.{join}
use config_server.Model.{
  ConfigType, pipeline, instance_config, onetime, default_group_name, AgentGroup, AgentGroupTag,
  Config, OnetimeCommand, GroupConfigMapping, Fetched, found, not_found, failed,
}
use config_server.Version.{validate_version_constraint}
use config_server.IpSelector.{Netip, Json, parse_ip_selector_json, marshal_ip_selector}
use config_server.Store.{Store}
use config_server.Store.Rows.{
  delete_group, set_group_tags, get_group_tags, add_group_config, remove_group_config,
}
use config_server.Resolve.{tag_text}
use config_server.ConfigAdmin.{
  Admin, Env, Reply, bad_request, missing, internal_error, done, GroupSnapshot, Snapshots,
  save_history, log_audit,
}

unfoldable pub find_group : Bytes → List AgentGroup → Option AgentGroup
find_group name [] = none
find_group name (g ∷ gs) = if bytes_eq g.name name then some g else find_group name gs

-- gorm's Save: it writes the row of the name, and creates it if there is none.
unfoldable pub update_group_row : AgentGroup → List AgentGroup → List AgentGroup
update_group_row g [] = g ∷ []
update_group_row g (h ∷ hs) =
    let rest = update_group_row g hs in if bytes_eq h.name g.name then g ∷ hs else h ∷ rest

-- none is the violation of the primary key.
unfoldable pub create_group_row : AgentGroup → List AgentGroup → Option (List AgentGroup)
create_group_row g gs = elim (find_group g.name gs) [ some old ↦ none | none ↦ some (gs ++ g ∷ []) ]

abbrev pub config_exists : Store → GroupConfigMapping → Bool
config_exists s m = elim m.config_type [
  | pipeline ↦ any (λ (c : Config). bytes_eq c.name m.config_name) s.pipelines
  | instance_config ↦ any (λ (c : Config). bytes_eq c.name m.config_name) s.instances
  | onetime ↦ any (λ (c : OnetimeCommand). bytes_eq c.name m.config_name) s.onetimes
]

-- GetGroupConfigs of the store: the mappings of the group whose config is still there.
unfoldable pub get_group_configs : Bytes → Store → List GroupConfigMapping
get_group_configs name s =
    keep (λ m. config_exists s m)
      (keep (λ (m : GroupConfigMapping). bytes_eq m.group_name name) s.mappings)

abbrev pub type_text : ConfigType → Bytes
type_text pipeline = codes "pipeline"
type_text instance_config = codes "instance"
type_text onetime = codes "onetime"

unfoldable pub type_of_text : Bytes → Option ConfigType
type_of_text text =
    if bytes_eq text (codes "pipeline")
    then some pipeline
    else if bytes_eq text (codes "instance")
    then some instance_config
    else if bytes_eq text (codes "onetime")
    then some onetime
    else none

abbrev pub or_empty : {A : Type 0} → Bool → List A → List A
or_empty true xs = xs
or_empty false xs = []

-- The summary in the audit log.
abbrev or_cleared : Bytes → Bytes
or_cleared text = if is_empty text then codes "(cleared)" else text

abbrev pub mapping_text : Bytes → Bytes → Bytes
mapping_text type config = type ++ (b'/' ∷ config)

-- A type that is none of the three deletes no row.
abbrev pub without_mapping : Bytes → Bytes → Bytes → Store → Store
without_mapping group type config s = elim (type_of_text type) [
  | none ↦ s
  | some t ↦
      remove_group_config (record { group_name = group; config_name = config; config_type = t }) s
]

module _ (env : Env) where
  abbrev pub read_group : Bytes → Admin → Fetched AgentGroup
  read_group name a =
      if not env.calls.get_group
      then failed
      else elim (find_group name a.store.groups) [ none ↦ not_found | some g ↦ found g ]

  -- Group writes are recorded with a history entry and an audit log.
  abbrev pub recorded : Bytes → Bytes → Bytes → Bytes → Admin → Admin
  recorded name action detail summary a =
      log_audit env 200 action (codes "group") name summary
        (save_history env (codes "group") name action (pos 0) detail a)

  -- UpdateGroup of the manager on a row that was read, with the history and the audit after it.
  abbrev write_group : AgentGroup → Bytes → Bytes → Bytes → Admin → Reply × Admin
  write_group g action old summary a = if not env.calls.update_group then (internal_error, a) else (
    done,
    recorded g.name action old summary
        (record a { store = record (a.store) { groups = update_group_row g a.store.groups } }),
  )

  abbrev change_group : Bytes → (AgentGroup → Reply × Admin) → Admin → Reply × Admin
  change_group name write a = elim (read_group name a) [
    | not_found ↦ (missing, a)
    | failed ↦ (internal_error, a)
    | found g ↦ write g
  ]

  -- The body is the description.
  unfoldable pub update_group : Bytes → Option Bytes → Admin → Reply × Admin
  update_group name none a = (bad_request, a)
  update_group name (some text) a =
      change_group name
        (λ (g : AgentGroup).
          write_group (record g { description = text }) (codes "update") [] text a)
        a

  unfoldable pub set_group_version_constraint : Bytes → Option Bytes → Admin → Reply × Admin
  set_group_version_constraint name none a = (bad_request, a)
  set_group_version_constraint name (some constraint) a =
      if not (validate_version_constraint constraint)
      then (bad_request, a)
      else change_group name
          (λ (g : AgentGroup).
            write_group (record g { version_constraint = constraint })
              (codes "set_version_constraint") g.version_constraint constraint a)
          a

  unfoldable pub delete_group_ip_selector : Bytes → Admin → Reply × Admin
  delete_group_ip_selector name a =
      change_group name
        (λ (g : AgentGroup).
          write_group (record g { ip_selector_json = [] }) (codes "set_ip_selector")
            g.ip_selector_json (codes "(cleared)") a)
        a

  module _ (net : Netip) (json : Json) where
    -- The body is the list of IPs.
    unfoldable pub set_group_ip_selector : Bytes → Option (List Bytes) → Admin → Reply × Admin
    set_group_ip_selector name none a = (bad_request, a)
    set_group_ip_selector name (some ips) a = elim (marshal_ip_selector net json ips) [
      | none ↦ (bad_request, a)
      | some text ↦
          change_group name
            (λ (g : AgentGroup).
              write_group (record g { ip_selector_json = text }) (codes "set_ip_selector")
                g.ip_selector_json (or_cleared text) a)
            a
    ]

    -- The selector of a new group, normalized; none where it does not parse.
    abbrev new_selector : Bytes → Option Bytes
    new_selector raw =
        if is_empty raw then some [] else elim (parse_ip_selector_json net json raw) [
          | none ↦ none
          | some ips ↦ elim (marshal_ip_selector net json ips) [
            | none ↦ some []
            | some text ↦ some text
          ]
        ]

    unfoldable pub insert_group : AgentGroup → Admin → Reply × Admin
    insert_group g a =
        if not env.calls.create_group
        then (internal_error, a)
        else elim (create_group_row g a.store.groups) [
          | none ↦ (internal_error, a)
          | some groups ↦ (
            done,
            log_audit env 201 (codes "create") (codes "group") g.name g.description (
                save_history env (codes "group") g.name (codes "create") (pos 0) []
                  (record a { store = record (a.store) { groups = groups } })),
          )
        ]

    unfoldable pub create_group : Option AgentGroup → Admin → Reply × Admin
    create_group none a = (bad_request, a)
    create_group (some g) a =
        if is_empty g.name || bytes_eq g.name default_group_name
        then (bad_request, a)
        else elim (new_selector g.ip_selector_json) [
          | none ↦ (bad_request, a)
          | some text ↦
              if not (validate_version_constraint g.version_constraint)
              then (bad_request, a)
              else insert_group (record g { ip_selector_json = text }) a
        ]

  module _ (json : Snapshots) where
    -- What DeleteGroup keeps of a group; the errors of its reads are ignored.
    abbrev pub snapshot : Bytes → Admin → GroupSnapshot
    snapshot name a =
        let tags = or_empty env.calls.get_group_tags (get_group_tags name a.store) in
        let configs = or_empty env.calls.get_group_configs (get_group_configs name a.store) in
        elim (read_group name a) [
          | found g ↦ record {
            description = g.description;
            ip_selector_json = g.ip_selector_json;
            version_constraint = g.version_constraint;
            tags = tags;
            configs = configs;
          }
          | not_found ↦ record {
            description = [];
            ip_selector_json = [];
            version_constraint = [];
            tags = tags;
            configs = configs;
          }
          | failed ↦ record {
            description = [];
            ip_selector_json = [];
            version_constraint = [];
            tags = tags;
            configs = configs;
          }
        ]

    unfoldable pub remove_group : Bytes → Admin → Reply × Admin
    remove_group name a =
        if bytes_eq name default_group_name
        then (bad_request, a)
        else if not env.calls.delete_group
        then (internal_error, a)
        else elim (delete_group name a.store) [
          | none ↦ (internal_error, a)
          | some s ↦ (
            done,
            recorded name (codes "delete") (json.marshal_group (snapshot name a)) []
                (record a { store = s }),
          )
        ]

    unfoldable pub replace_group_tags : Bytes → Option (List AgentGroupTag) → Admin → Reply × Admin
    replace_group_tags name none a = (bad_request, a)
    replace_group_tags name (some tags) a =
        if not env.calls.set_group_tags then (internal_error, a) else (
          done,
          recorded name (codes "set_tags")
              (json.marshal_tags (or_empty env.calls.get_group_tags (get_group_tags name a.store)))
              (or_cleared (join (codes ", ") (map tag_text tags)))
              (record a { store = set_group_tags name tags a.store }),
        )

  -- The type in the path is a text.
  unfoldable pub add_config : Bytes → Bytes → Bytes → Admin → Reply × Admin
  add_config group type config a = elim (type_of_text type) [
    | none ↦ (bad_request, a)
    | some t ↦
        if not env.calls.add_group_config
        then (internal_error, a)
        else let m : GroupConfigMapping = record {
          group_name = group;
          config_name = config;
          config_type = t;
        } in
          (
            done,
            recorded group (codes "add_config") (mapping_text type config)
                (mapping_text type config) (record a { store = add_group_config m a.store }),
          )
  ]

  unfoldable pub drop_config : Bytes → Bytes → Bytes → Admin → Reply × Admin
  drop_config group type config a =
      if not env.calls.remove_group_config then (internal_error, a) else (
        done,
        recorded group (codes "remove_config") (mapping_text type config) (mapping_text type config)
            (record a { store = without_mapping group type config a.store }),
      )
