-- ===== src/ConfigAdmin/Rollback.antt =====
-- RollbackConfig of internal/server/admin/handler.go: a change that the history holds is undone. An
-- id that the history does not hold is an error of the store, as gorm gives it.
use config_server.Prelude.{
  ℕ, not, ◌||◌, Option, none, some, List, [], ◌∷◌, Bytes, codes, bytes_eq, is_empty, ◌==◌,
  if◌then◌else◌,
}
use config_server.Strings.{cut_slash}
use config_server.Model.{onetime, AgentGroup, Config, GroupConfigMapping, found, not_found, failed}
use config_server.IpSelector.{Netip, Json, parse_ip_selector_json}
use config_server.Store.{Store}
use config_server.Store.Rows.{
  delete_config, set_group_tags, get_group_tags, add_group_config, remove_group_config,
}
use config_server.ConfigAdmin.{
  ConfigHistory, Admin, Env, Reply, bad_request, missing, internal_error, done, Kind, pipelines,
  instances, rows, set_rows, update_row, GroupSnapshot, Snapshots, save_history, log_audit,
  read_config, read_onetime,
}
use config_server.ConfigAdmin.Configs.{insert_config}
use config_server.ConfigAdmin.Onetime.{insert_onetime}
use config_server.ConfigAdmin.Groups.{
  update_group_row, create_group_row, get_group_configs, type_of_text, or_empty, read_group,
  without_mapping,
}

unfoldable pub find_entry : ℕ → List ConfigHistory → Option ConfigHistory
find_entry id [] = none
find_entry id (h ∷ hs) = if h.id == id then some h else find_entry id hs

-- What a rollback does to the tables: the reply of a refusal, or the content before it, which the
-- history keeps, and the tables after it.
pub data Outcome : Type 0 where
  stopped : Reply → Admin → Outcome
  restored : Bytes → Admin → Outcome

-- The request's end, with the history and the audit of a rollback that was made.
abbrev pub with_groups : List AgentGroup → Admin → Admin
with_groups groups a = record a { store = record (a.store) { groups = groups } }

abbrev pub with_store : Store → Admin → Admin
with_store s a = record a { store = s }

module _ (env : Env) (net : Netip) (json : Json) (snapshots : Snapshots) where
  -- A config that is gone is created again.
  unfoldable pub restore_config : Kind → Bytes → ConfigHistory → Admin → Outcome
  restore_config k name h a = elim (read_config env k name a) [
    | failed ↦ stopped internal_error a
    | not_found ↦
        elim (insert_config env k (record { name = name; version = env.now; detail = h.detail })
          a) [ none ↦ stopped internal_error a | some b ↦ restored [] b ]
    | found c ↦
        if not env.calls.update_config
        then stopped internal_error a
        else let d : Config = record c { detail = h.detail; version = env.now } in
          restored c.detail (with_store (set_rows k (update_row d (rows k a.store)) a.store) a)
  ]

  -- The writes of a group's row.
  abbrev save_group : Bytes → AgentGroup → Admin → Outcome
  save_group old g a =
      if not env.calls.update_group
      then stopped internal_error a
      else restored old (with_groups (update_group_row g a.store.groups) a)

  abbrev change_row : Bytes → (AgentGroup → Outcome) → Admin → Outcome
  change_row name write a = elim (read_group env name a) [
    | not_found ↦ stopped missing a
    | failed ↦ stopped internal_error a
    | found g ↦ write g
  ]

  abbrev restore_ip_selector : ConfigHistory → AgentGroup → Admin → Outcome
  restore_ip_selector h g a = elim (parse_ip_selector_json net json h.detail) [
    | none ↦ stopped bad_request a
    | some ips ↦ save_group g.ip_selector_json (record g { ip_selector_json = h.detail }) a
  ]

  abbrev restore_tags : Bytes → ConfigHistory → Admin → Outcome
  restore_tags name h a = elim (snapshots.unmarshal_tags h.detail) [
    | none ↦ stopped bad_request a
    | some tags ↦
        if not env.calls.set_group_tags
        then stopped internal_error a
        else let old = or_empty env.calls.get_group_tags (get_group_tags name a.store) in
          restored (snapshots.marshal_tags old) (with_store (set_group_tags name tags a.store) a)
  ]

  -- The config that was added is taken away.
  abbrev undo_add : Bytes → ConfigHistory → Admin → Outcome
  undo_add name h a = elim (cut_slash h.detail) [
    | none ↦ stopped bad_request a
    | some (type, config) ↦
        if not env.calls.remove_group_config
        then stopped internal_error a
        else restored h.detail (with_store (without_mapping name type config a.store) a)
  ]

  -- The config that was taken away is added.
  abbrev with_mapping : Bytes → Bytes → Bytes → Store → Store
  with_mapping name type config s = elim (type_of_text type) [
    | none ↦ s
    | some t ↦
        add_group_config (record { group_name = name; config_name = config; config_type = t }) s
  ]

  abbrev undo_remove : Bytes → ConfigHistory → Admin → Outcome
  undo_remove name h a = elim (cut_slash h.detail) [
    | none ↦ stopped bad_request a
    | some (type, config) ↦
        if not env.calls.add_group_config
        then stopped internal_error a
        else restored h.detail (with_store (with_mapping name type config a.store) a)
  ]

  -- The loops of the rollback of a deletion. Their errors are ignored.
  unfoldable pub remove_all : List GroupConfigMapping → Store → Store
  remove_all [] s = s
  remove_all (m ∷ ms) s =
      remove_all ms (if env.calls.remove_group_config then remove_group_config m s else s)

  unfoldable pub add_all : Bytes → List GroupConfigMapping → Store → Store
  add_all name [] s = s
  add_all name (m ∷ ms) s = add_all name ms (
      if env.calls.add_group_config then add_group_config (record m { group_name = name }) s else s)

  -- The group's row and the mappings that it has: a row that is there is overridden.
  abbrev restore_row : Bytes → GroupSnapshot → Admin → Option Store
  restore_row name snap a =
      let fresh : AgentGroup = record {
        name = name;
        description = snap.description;
        ip_selector_json = snap.ip_selector_json;
        version_constraint = snap.version_constraint;
      } in
      let over = with_groups (update_group_row fresh a.store.groups) a in
      elim (read_group env name a) [
        | failed ↦ none
        | found g ↦
            if not env.calls.update_group
            then none
            else some (
                remove_all
                  (or_empty env.calls.get_group_configs (get_group_configs name over.store))
                  over.store)
        | not_found ↦
            if not env.calls.create_group
            then none
            else elim (create_group_row fresh a.store.groups) [
              | none ↦ none
              | some groups ↦ some ((with_groups groups a).store)
            ]
      ]

  -- Tags are set only if the snapshot has some. What was written before an error stays.
  abbrev restore_group : Bytes → ConfigHistory → Admin → Outcome
  restore_group name h a = elim (snapshots.unmarshal_group h.detail) [
    | none ↦ stopped bad_request a
    | some snap ↦ elim (restore_row name snap a) [
      | none ↦ stopped internal_error a
      | some s ↦
          if is_empty snap.tags
          then restored h.detail (with_store (add_all name snap.configs s) a)
          else if not env.calls.set_group_tags
          then stopped internal_error (with_store s a)
          else restored h.detail
              (with_store (add_all name snap.configs (set_group_tags name snap.tags s)) a)
    ]
  ]

  unfoldable pub rollback_group : Bytes → ConfigHistory → Admin → Outcome
  rollback_group name h a =
      if bytes_eq h.action (codes "set_version_constraint")
      then change_row name
          (λ (g : AgentGroup).
            save_group g.version_constraint (record g { version_constraint = h.detail }) a)
          a
      else if bytes_eq h.action (codes "set_ip_selector")
      then change_row name (λ (g : AgentGroup). restore_ip_selector h g a) a
      else if bytes_eq h.action (codes "set_tags")
      then restore_tags name h a
      else if bytes_eq h.action (codes "add_config")
      then undo_add name h a
      else if bytes_eq h.action (codes "remove_config")
      then undo_remove name h a
      else if bytes_eq h.action (codes "delete")
      then restore_group name h a
      else stopped bad_request a

  -- A command of the name is deleted first.
  abbrev cleared : Bytes → Admin → Option Admin
  cleared name a = elim (read_onetime env name a) [
    | found c ↦
        if env.calls.delete_config
        then some (with_store (delete_config onetime name a.store) a)
        else none
    | not_found ↦ some a
    | failed ↦ some a
  ]

  unfoldable pub rollback_onetime : Bytes → ConfigHistory → Admin → Outcome
  rollback_onetime name h a =
      if not (bytes_eq h.action (codes "delete"))
      then stopped bad_request a
      else elim (snapshots.unmarshal_onetime h.detail) [
        | none ↦ stopped bad_request a
        | some (detail, expire) ↦ elim (cleared name a) [
          | none ↦ stopped internal_error a
          | some b ↦
              elim (insert_onetime env
                (record {
                  name = name;
                  version = env.now;
                  detail = detail;
                  expire_time = expire;
                  created_at = env.created_at;
                })
                b) [ none ↦ stopped internal_error b | some c ↦ restored [] c ]
        ]
      ]

  -- The switch over the type of the resource.
  unfoldable pub rollback_entry : Bytes → Bytes → ConfigHistory → Admin → Outcome
  rollback_entry type name h a =
      if bytes_eq type (codes "pipeline")
      then restore_config pipelines name h a
      else if bytes_eq type (codes "instance")
      then restore_config instances name h a
      else if bytes_eq type (codes "group")
      then rollback_group name h a
      else if bytes_eq type (codes "onetime")
      then rollback_onetime name h a
      else stopped bad_request a

  abbrev pub finish : Bytes → Bytes → ConfigHistory → Outcome → Reply × Admin
  finish type name h (stopped reply a) = (reply, a)
  finish type name h (restored old a) = (
    done,
    log_audit env 200 (codes "rollback") type name h.detail
        (save_history env type name (codes "rollback") env.now old a),
  )

  -- The id in the path is a number, or none.
  unfoldable pub rollback_config : Bytes → Bytes → Option ℕ → Admin → Reply × Admin
  rollback_config type name none a = (bad_request, a)
  rollback_config type name (some id) a =
      if not env.calls.get_history then (internal_error, a) else elim (find_entry id a.history) [
        | none ↦ (internal_error, a)
        | some h ↦
            if not (bytes_eq h.resource_type type) || not (bytes_eq h.resource_name name)
            then (missing, a)
            else if is_empty h.detail
            then (bad_request, a)
            else finish type name h (rollback_entry type name h a)
      ]
