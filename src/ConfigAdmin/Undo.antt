-- ===== src/ConfigAdmin/Undo.antt =====
-- Rollbacks of the changes of a group.
use config_server.Prelude.{
  ◌≡◌, refl, sym, ap, ◌∙◌, ℕ, true, false, some, [], Bytes, codes, bytes_eq, bytes_eq_iff,
  bytes_eq_refl, is_empty, any, pos, arith,
}
use config_server.Strings.{cut_slash}
use config_server.Model.{
  ConfigType, pipeline, instance_config, onetime, AgentGroup, GroupConfigMapping,
}
use config_server.Version.{validate_version_constraint}
use config_server.IpSelector.{Netip, Json}
use config_server.Store.{Store}
use config_server.Store.Rows.{any-keep-not, same_mapping, add_group_config, remove_group_config}
use config_server.ConfigAdmin.{
  ConfigHistory, Admin, Env, bad_request, done, Snapshots, new_entry, save_history,
}
use config_server.ConfigAdmin.Groups.{
  find_group, update_group_row, type_text, type_of_text, recorded, set_group_version_constraint,
  mapping_text, add_config,
}
use config_server.ConfigAdmin.Rollback.{
  find_entry, restored, with_groups, with_store, rollback_group, rollback_entry, finish,
  rollback_config,
}
use config_server.ConfigAdmin.History.{store-save_history, store-log_audit}
use config_server.ConfigAdmin.GroupRows.{
  find_group_name, update_group_row_back, find_group-update_group_row, type_of_text_type,
  text_nonempty, same_mapping_refl, keep-append_absent, store-recorded, find_entry-recorded,
}

pub record IsReliable (env : Env) : Type 0 where
  pub reads : env.calls.get_group ≡ true
  pub updates : env.calls.update_group ≡ true
  pub adds : env.calls.add_group_config ≡ true
  pub removes : env.calls.remove_group_config ≡ true
  pub finds : env.calls.get_history ≡ true
  pub saves : env.calls.save_history ≡ true
  pub creates : env.calls.create_group ≡ true
  pub deletes : env.calls.delete_group ≡ true
  pub reads_tags : env.calls.get_group_tags ≡ true
  pub sets_tags : env.calls.set_group_tags ≡ true
  pub reads_configs : env.calls.get_group_configs ≡ true

module _ (env : Env) (net : Netip) (json : Json) (snapshots : Snapshots) where
  rollback_entry-group :
      (name : Bytes) (h : ConfigHistory) (a : Admin)
      → rollback_entry env net json snapshots (codes "group") name h a
        ≡ rollback_group env net json snapshots name h a
  unfolding rollback_entry rollback_group bytes_eq
  rollback_entry-group name h a = refl

  -- The rollback of a change of a group, from what it does to the tables.
  pub rollback_config-group :
      (id : ℕ) (old : Bytes) (h : ConfigHistory) (a b : Admin)
      → env.calls.get_history ≡ true
      → find_entry id a.history ≡ some h
      → h.resource_type ≡ codes "group"
      → is_empty h.detail ≡ false
      → rollback_group env net json snapshots h.resource_name h a ≡ restored old b
      → let r =
          rollback_config env net json snapshots (codes "group") h.resource_name (some id) a in
        (r.0 ≡ done) × (r.1.store ≡ b.store)
  unfolding rollback_config
  rollback_config-group id old h a b finds e t n o =
      let name = h.resource_name in
      let went : rollback_config env net json snapshots (codes "group") name (some id) a
          ≡ finish env net json snapshots (codes "group") name h (restored old b) =
        ground (
          arith,
          finds,
          bytes_eq_iff h.resource_type (codes "group"),
          bytes_eq_refl name,
          rollback_entry-group name h a,
          o,
        ) in
      let saved = save_history env (codes "group") name (codes "rollback") env.now old b in
      rw (went, finish)
        (
          refl,
          store-log_audit env 200 (codes "rollback") (codes "group") name h.detail saved
              ∙ store-save_history env (codes "group") name (codes "rollback") old env.now b,
        )

  rollback_group_version :
      (name : Bytes) (g : AgentGroup) (h : ConfigHistory) (a : Admin)
      → IsReliable env
      → find_group name a.store.groups ≡ some g
      → h.action ≡ codes "set_version_constraint"
      → rollback_group env net json snapshots name h a
        ≡ restored g.version_constraint (
            with_groups
              (update_group_row (record g { version_constraint = h.detail }) a.store.groups)
              a)
  unfolding rollback_group
  rollback_group_version name g h a ok e k =
      ground (arith, ok.reads, ok.updates, bytes_eq_iff h.action (codes "set_version_constraint"))

  rollback_group_add :
      (name config : Bytes) (t : ConfigType) (h : ConfigHistory) (a : Admin)
      → IsReliable env
      → h.action ≡ codes "add_config"
      → h.detail ≡ mapping_text (type_text t) config
      → rollback_group env net json snapshots name h a
        ≡ restored h.detail (
            with_store
              (remove_group_config
                (record { group_name = name; config_name = config; config_type = t })
                a.store)
              a)
  unfolding rollback_group bytes_eq cut_slash type_of_text
  rollback_group_add name config pipeline h a ok k d = rw (k, d) (ground (arith, ok.removes))
  rollback_group_add name config instance_config h a ok k d = rw (k, d) (ground (arith, ok.removes))
  rollback_group_add name config onetime h a ok k d = rw (k, d) (ground (arith, ok.removes))

module _ (first second : Env) (net : Netip) (json : Json) (snapshots : Snapshots) where
  -- A new version constraint for a group, and then the rollback to the entry that it wrote: the
  -- table of groups is the one before. All calls of the manager succeed, and the group had a
  -- constraint before.
  set_group_version_constraint-rollback_config :
      (name constraint : Bytes) (g : AgentGroup) (a : Admin)
      → IsReliable first
      → IsReliable second
      → find_group name a.store.groups ≡ some g
      → validate_version_constraint constraint ≡ true
      → is_empty g.version_constraint ≡ false
      → let changed = (set_group_version_constraint first name (some constraint) a).1 in
        let r =
          rollback_config second net json snapshots (codes "group") name (some a.next_id) changed in
        (r.0 ≡ done) × (r.1.store.groups ≡ a.store.groups)
  unfolding set_group_version_constraint
  set_group_version_constraint-rollback_config name constraint g a ok ok' e valid n =
      let action = codes "set_version_constraint" in
      let w : AgentGroup = record g { version_constraint = constraint } in
      let written = with_groups (update_group_row w a.store.groups) a in
      let after = recorded first g.name action g.version_constraint constraint written in
      let went : (set_group_version_constraint first name (some constraint) a).1 ≡ after =
        ground (arith, ok.reads, ok.updates) in
      let same : after.store ≡ written.store =
        store-recorded first g.name action g.version_constraint constraint written in
      let there : find_group g.name after.store.groups ≡ some w =
        rw same (find_group-update_group_row w a.store.groups) in
      let h =
        new_entry first a.next_id (codes "group") g.name action (pos 0) g.version_constraint in
      let back =
        rollback_config-group second net json snapshots a.next_id constraint h after _ ok'.finds
          (find_entry-recorded first g.name action g.version_constraint constraint written ok.saves)
          refl n
          (rollback_group_version second net json snapshots g.name w h after ok' there refl) in
      let rows : update_group_row g after.store.groups ≡ a.store.groups =
        rw same (update_group_row_back name g w a.store.groups e refl) in
      rw (went, sym (find_group_name name a.store.groups g e))
        (back.0, ap (λ (s : Store). s.groups) back.1 ∙ rows)

  -- The first version constraint of a group cannot be undone: the entry that it writes holds the
  -- old constraint, which is empty, and the rollback to it is refused and writes nothing.
  pub first_constraint-rollback_config :
      (name constraint : Bytes) (g : AgentGroup) (a : Admin)
      → IsReliable first
      → IsReliable second
      → find_group name a.store.groups ≡ some g
      → validate_version_constraint constraint ≡ true
      → g.version_constraint ≡ []
      → let changed = (set_group_version_constraint first name (some constraint) a).1 in
        rollback_config second net json snapshots (codes "group") name (some a.next_id) changed
        ≡ (bad_request, changed)
  unfolding set_group_version_constraint rollback_config
  first_constraint-rollback_config name constraint g a ok ok' e valid n =
      let action = codes "set_version_constraint" in
      let w : AgentGroup = record g { version_constraint = constraint } in
      let written = with_groups (update_group_row w a.store.groups) a in
      let after = recorded first g.name action g.version_constraint constraint written in
      let went : (set_group_version_constraint first name (some constraint) a).1 ≡ after =
        ground (arith, ok.reads, ok.updates) in
      let entry =
        find_entry-recorded first g.name action g.version_constraint constraint written ok.saves in
      rw went (
        ground (
          arith,
          ok'.finds,
          entry,
          n,
          bytes_eq_refl (codes "group"),
          bytes_eq_iff g.name name,
          find_group_name name a.store.groups g e,
        ))

  add_config_undone :
      (name config : Bytes) (t : ConfigType) (a : Admin)
      → IsReliable first
      → IsReliable second
      → let m : GroupConfigMapping = record {
        group_name = name;
        config_name = config;
        config_type = t;
      } in
        let r =
          rollback_config second net json snapshots
            (codes "group")
            name
            (some a.next_id)
            (add_config first name (type_text t) config a).1 in
        (r.0 ≡ done) × (r.1.store ≡ remove_group_config m (add_group_config m a.store))
  unfolding add_config
  add_config_undone name config t a ok ok' =
      let action = codes "add_config" in
      let text = mapping_text (type_text t) config in
      let m : GroupConfigMapping = record {
        group_name = name;
        config_name = config;
        config_type = t;
      } in
      let written = with_store (add_group_config m a.store) a in
      let after = recorded first name action text text written in
      let went : (add_config first name (type_text t) config a).1 ≡ after =
        ground (arith, ok.adds, type_of_text_type t) in
      let same : after.store ≡ add_group_config m a.store =
        store-recorded first name action text text written in
      let h = new_entry first a.next_id (codes "group") name action (pos 0) text in
      let back =
        rollback_config-group second net json snapshots a.next_id text h after _ ok'.finds
          (find_entry-recorded first name action text text written ok.saves) refl
          (text_nonempty t config)
          (rollback_group_add second net json snapshots name config t h after ok' refl refl) in
      rw went (back.0, back.1 ∙ ap (remove_group_config m) same)

  -- A config that is added to a group, and then the rollback to the entry that it wrote: the table
  -- of mappings is the one before. All calls of the manager succeed, and the group did not have the
  -- config before.
  add_config-rollback_config :
      (name config : Bytes) (t : ConfigType) (a : Admin)
      → IsReliable first
      → IsReliable second
      → any
          (same_mapping (record { group_name = name; config_name = config; config_type = t }))
          a.store.mappings
        ≡ false
      → let r =
          rollback_config second net json snapshots
            (codes "group")
            name
            (some a.next_id)
            (add_config first name (type_text t) config a).1 in
        (r.0 ≡ done) × (r.1.store.mappings ≡ a.store.mappings)
  unfolding add_group_config remove_group_config
  add_config-rollback_config name config t a ok ok' absent =
      let m : GroupConfigMapping = record {
        group_name = name;
        config_name = config;
        config_type = t;
      } in
      let back = add_config_undone name config t a ok ok' in
      let rows : (remove_group_config m (add_group_config m a.store)).mappings ≡ a.store.mappings =
        ground (arith, keep-append_absent m a.store.mappings absent (same_mapping_refl m)) in
      (back.0, ap (λ (s : Store). s.mappings) back.1 ∙ rows)

  -- If the group had the config before, the addition changes no table, and yet the rollback to the
  -- entry that it wrote takes the config away from the group. All calls of the manager succeed.
  pub repeated_add_config-rollback_config :
      (name config : Bytes) (t : ConfigType) (a : Admin)
      → IsReliable first
      → IsReliable second
      → any
          (same_mapping (record { group_name = name; config_name = config; config_type = t }))
          a.store.mappings
        ≡ true
      → let m : GroupConfigMapping = record {
        group_name = name;
        config_name = config;
        config_type = t;
      } in
        let r =
          rollback_config second net json snapshots
            (codes "group")
            name
            (some a.next_id)
            (add_config first name (type_text t) config a).1 in
        (add_group_config m a.store ≡ a.store) × (any (same_mapping m) r.1.store.mappings ≡ false)
  unfolding add_group_config remove_group_config
  repeated_add_config-rollback_config name config t a ok ok' there =
      let m : GroupConfigMapping = record {
        group_name = name;
        config_name = config;
        config_type = t;
      } in
      let back = add_config_undone name config t a ok ok' in
      let unchanged : add_group_config m a.store ≡ a.store = ground (arith, there) in
      (unchanged, rw (back.1, unchanged) (any-keep-not (same_mapping m) a.store.mappings))
