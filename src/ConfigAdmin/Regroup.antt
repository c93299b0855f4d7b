-- ===== src/ConfigAdmin/Regroup.antt =====
-- A rollback of the deletion of a group.
use config_server.Prelude.{
  ◌≡◌, refl, sym, ap, ◌∙◌, true, false, not, none, some, List, [], ◌∷◌, ◌++◌, Bytes, codes,
  bytes_eq, bytes_eq_iff, bytes_eq_refl, is_empty, any, keep, map, pos, arith, if◌then◌else◌,
  Bool-cases, inl, inr,
}
use config_server.Model.{
  ConfigType, pipeline, instance_config, onetime, default_group_name, AgentGroup, AgentGroupTag,
  GroupConfigMapping,
}
use config_server.IpSelector.{Netip, Json}
use config_server.Store.{Store, config_type_eq}
use config_server.Store.Rows.{
  delete_group, of_group, set_group_tags, get_group_tags, same_mapping, add_group_config,
  get_group_tags-set_group_tags, delete_group_lem,
}
use config_server.ConfigAdmin.{ConfigHistory, Admin, Env, done, GroupSnapshot, Snapshots, new_entry}
use config_server.ConfigAdmin.Groups.{
  find_group, create_group_row, config_exists, get_group_configs, recorded, snapshot, remove_group,
}
use config_server.ConfigAdmin.Rollback.{
  restored, with_store, add_all, rollback_group, rollback_config,
}
use config_server.ConfigAdmin.GroupRows.{find_group_name, store-recorded, find_entry-recorded}
use config_server.ConfigAdmin.Undo.{IsReliable, rollback_config-group}

of_group_same : (n : Bytes) (t : AgentGroupTag) → t.group_name ≡ n → of_group n t ≡ t
of_group_same n t e = rw (sym e) refl

map-of_group :
    (n : Bytes) (ts : List AgentGroupTag)
    → map (of_group n) (keep (λ (t : AgentGroupTag). bytes_eq t.group_name n) ts)
      ≡ keep (λ (t : AgentGroupTag). bytes_eq t.group_name n) ts
map-of_group n [] = refl
map-of_group n (t ∷ ts) =
    ground (arith, map-of_group n ts, of_group_same n t, bytes_eq_iff t.group_name n)

find_group-without :
    (name : Bytes) (gs : List AgentGroup)
    → find_group name (keep (λ (g : AgentGroup). not (bytes_eq g.name name)) gs) ≡ none
unfolding find_group
find_group-without name [] = refl
find_group-without name (g ∷ gs) = ground (arith, find_group-without name gs)

find_group-append :
    (g : AgentGroup) (gs : List AgentGroup)
    → find_group g.name gs ≡ none
    → find_group g.name (gs ++ g ∷ []) ≡ some g
unfolding find_group
find_group-append g [] e = ground (arith, bytes_eq_refl g.name)
find_group-append g (h ∷ hs) e = ground (arith, find_group-append g hs)

abbrev in_group : Bytes → GroupConfigMapping → GroupConfigMapping
in_group name m = record m { group_name = name }

in_group_same : (n : Bytes) (m : GroupConfigMapping) → m.group_name ≡ n → in_group n m ≡ m
in_group_same n m e = rw (sym e) refl

any-append_true :
    (m n : GroupConfigMapping) (ms : List GroupConfigMapping)
    → any (same_mapping m) ms ≡ true
    → any (same_mapping m) (ms ++ n ∷ []) ≡ true
any-append_true m n [] e = ground arith
any-append_true m n (x ∷ xs) e = ground (arith, any-append_true m n xs)

any-append_last :
    (m n : GroupConfigMapping) (ms : List GroupConfigMapping)
    → same_mapping m n ≡ true
    → any (same_mapping m) (ms ++ n ∷ []) ≡ true
any-append_last m n [] e = ground arith
any-append_last m n (x ∷ xs) e = ground (arith, any-append_last m n xs)

config_type_eq_trans :
    (t u v : ConfigType)
    → config_type_eq t u ≡ true
    → config_type_eq u v ≡ true
    → config_type_eq t v ≡ true
config_type_eq_trans pipeline pipeline v e h = h
config_type_eq_trans instance_config instance_config v e h = h
config_type_eq_trans onetime onetime v e h = h
config_type_eq_trans pipeline instance_config v e h = ground arith
config_type_eq_trans pipeline onetime v e h = ground arith
config_type_eq_trans instance_config pipeline v e h = ground arith
config_type_eq_trans instance_config onetime v e h = ground arith
config_type_eq_trans onetime pipeline v e h = ground arith
config_type_eq_trans onetime instance_config v e h = ground arith

-- The same mapping is found for a mapping that is the same.
same_mapping_trans :
    (m n x : GroupConfigMapping)
    → same_mapping m n ≡ true
    → same_mapping n x ≡ true
    → same_mapping m x ≡ true
same_mapping_trans m n x e h = ground (
  arith,
  bytes_eq_iff m.group_name n.group_name,
  bytes_eq_iff n.group_name x.group_name,
  bytes_eq_iff m.group_name x.group_name,
  bytes_eq_iff m.config_name n.config_name,
  bytes_eq_iff n.config_name x.config_name,
  bytes_eq_iff m.config_name x.config_name,
  config_type_eq_trans m.config_type n.config_type x.config_type,
)

any-same_mapping :
    (m n : GroupConfigMapping) (ms : List GroupConfigMapping)
    → same_mapping m n ≡ true
    → any (same_mapping n) ms ≡ true
    → any (same_mapping m) ms ≡ true
any-same_mapping m n [] e h = ground arith
any-same_mapping m n (x ∷ xs) e h =
    ground (arith, any-same_mapping m n xs, same_mapping_trans m n x)

any-add_group_config :
    (m n : GroupConfigMapping) (s : Store)
    → any (same_mapping m) s.mappings ≡ true
    → any (same_mapping m) (add_group_config n s).mappings ≡ true
unfolding add_group_config
any-add_group_config m n s e = ground (arith, any-append_true m n s.mappings)

any-add_group_config_new :
    (m n : GroupConfigMapping) (s : Store)
    → same_mapping m n ≡ true
    → any (same_mapping m) (add_group_config n s).mappings ≡ true
unfolding add_group_config
any-add_group_config_new m n s e =
    ground (arith, any-append_last m n s.mappings, any-same_mapping m n s.mappings e)

get_group_configs-in_group :
    (name : Bytes) (s : Store) (ms : List GroupConfigMapping)
    → map (in_group name) (
        keep
          (λ m. config_exists s m)
          (keep (λ (m : GroupConfigMapping). bytes_eq m.group_name name) ms))
      ≡ keep
          (λ m. config_exists s m)
          (keep (λ (m : GroupConfigMapping). bytes_eq m.group_name name) ms)
get_group_configs-in_group name s [] = refl
get_group_configs-in_group name s (m ∷ ms) = ground (
  arith,
  get_group_configs-in_group name s ms,
  in_group_same name m,
  bytes_eq_iff m.group_name name,
)

module _ (env : Env) (net : Netip) (json : Json) (snapshots : Snapshots) where
  add_all_others :
      (name : Bytes) (ms : List GroupConfigMapping) (s : Store)
      → ((add_all env net json snapshots name ms s).groups ≡ s.groups)
        × ((add_all env net json snapshots name ms s).tags ≡ s.tags)
  unfolding add_all add_group_config
  add_all_others name [] s = (refl, refl)
  add_all_others name (m ∷ ms) s =
      let next = if env.calls.add_group_config then add_group_config (in_group name m) s else s in
      let rest = add_all_others name ms next in (rest.0 ∙ ground arith, rest.1 ∙ ground arith)

  any-add_all_kept :
      (m : GroupConfigMapping) (name : Bytes) (ms : List GroupConfigMapping) (s : Store)
      → any (same_mapping m) s.mappings ≡ true
      → any (same_mapping m) (add_all env net json snapshots name ms s).mappings ≡ true
  unfolding add_all
  any-add_all_kept m name [] s e = e
  any-add_all_kept m name (n ∷ ns) s e =
      any-add_all_kept m name ns
        (if env.calls.add_group_config then add_group_config (in_group name n) s else s)
        (ground (arith, any-add_group_config m (in_group name n) s e))

  -- Every mapping of the list is there afterwards.
  any-add_all :
      (m : GroupConfigMapping) (name : Bytes) (ms : List GroupConfigMapping) (s : Store)
      → env.calls.add_group_config ≡ true
      → any (same_mapping m) (map (in_group name) ms) ≡ true
      → any (same_mapping m) (add_all env net json snapshots name ms s).mappings ≡ true
  unfolding add_all
  any-add_all m name [] s ok e = ground arith
  any-add_all m name (n ∷ ns) s ok e =
      let next = if env.calls.add_group_config then add_group_config (in_group name n) s else s in
      elim (Bool-cases (same_mapping m (in_group name n))) [
        | inl k ↦
            any-add_all_kept m name ns next
              (ground (arith, ok, any-add_group_config_new m (in_group name n) s k))
        | inr k ↦ any-add_all m name ns next ok (ground arith)
      ]

  -- The group of a snapshot, and the tables with it and its tags.
  abbrev of_snapshot : Bytes → GroupSnapshot → AgentGroup
  of_snapshot name snap = record {
    name = name;
    description = snap.description;
    ip_selector_json = snap.ip_selector_json;
    version_constraint = snap.version_constraint;
  }

  abbrev with_group : Bytes → GroupSnapshot → Store → Store
  with_group name snap s = record s { groups = s.groups ++ of_snapshot name snap ∷ [] }

  abbrev with_tags : Bytes → GroupSnapshot → Store → Store
  with_tags name snap s = if is_empty snap.tags then s else set_group_tags name snap.tags s

  rollback_group_delete :
      (name : Bytes) (snap : GroupSnapshot) (h : ConfigHistory) (a : Admin)
      → IsReliable env
      → h.action ≡ codes "delete"
      → snapshots.unmarshal_group h.detail ≡ some snap
      → find_group name a.store.groups ≡ none
      → rollback_group env net json snapshots name h a
        ≡ restored h.detail (
            with_store
              (add_all env net json snapshots name snap.configs
                (with_tags name snap (with_group name snap a.store)))
              a)
  unfolding rollback_group bytes_eq create_group_row
  rollback_group_delete name snap h a ok k u e =
      rw k (ground (arith, u, e, ok.reads, ok.creates, ok.sets_tags))

  get_group_tags-with_tags :
      (name : Bytes) (snap : GroupSnapshot) (s : Store)
      → get_group_tags name s ≡ []
      → get_group_tags name (with_tags name snap s) ≡ map (of_group name) snap.tags
  get_group_tags-with_tags name snap s e =
      ground (arith, get_group_tags-set_group_tags name name snap.tags s, bytes_eq_refl name)

  -- The tables after the rollback.
  abbrev regrouped : Bytes → GroupSnapshot → Store → Store
  regrouped name snap s =
      add_all env net json snapshots name snap.configs
        (with_tags name snap (with_group name snap s))

  find_group-regrouped :
      (name : Bytes) (snap : GroupSnapshot) (s : Store)
      → find_group name s.groups ≡ none
      → find_group name (regrouped name snap s).groups ≡ some (of_snapshot name snap)
  unfolding set_group_tags
  find_group-regrouped name snap s e =
      let kept : (with_tags name snap (with_group name snap s)).groups
          ≡ (with_group name snap s).groups =
        ground arith in
      rw ((add_all_others name snap.configs (with_tags name snap (with_group name snap s))).0, kept)
        (find_group-append (of_snapshot name snap) s.groups e)

  get_group_tags_same :
      (name : Bytes) (s t : Store) → s.tags ≡ t.tags → get_group_tags name s ≡ get_group_tags name t
  unfolding get_group_tags
  get_group_tags_same name s t e = rw e refl

  get_group_tags-regrouped :
      (name : Bytes) (snap : GroupSnapshot) (s : Store)
      → get_group_tags name s ≡ []
      → get_group_tags name (regrouped name snap s) ≡ map (of_group name) snap.tags
  get_group_tags-regrouped name snap s e =
      let tagged = with_tags name snap (with_group name snap s) in
      get_group_tags_same name (regrouped name snap s) tagged
        (add_all_others name snap.configs tagged).1
      ∙ get_group_tags-with_tags name snap (with_group name snap s)
          (get_group_tags_same name (with_group name snap s) s refl ∙ e)

-- What DeleteGroup keeps of a group that is there.
snapshot_found :
    (env : Env) (snapshots : Snapshots) (name : Bytes) (g : AgentGroup) (a : Admin)
    → IsReliable env
    → find_group name a.store.groups ≡ some g
    → snapshot env snapshots name a ≡ record {
      description = g.description;
      ip_selector_json = g.ip_selector_json;
      version_constraint = g.version_constraint;
      tags = get_group_tags name a.store;
      configs = get_group_configs name a.store;
    }
snapshot_found env snapshots name g a ok e =
    ground (arith, ok.reads_tags, ok.reads_configs, ok.reads, e)

map-get_group_tags :
    (name : Bytes) (s : Store) → map (of_group name) (get_group_tags name s) ≡ get_group_tags name s
unfolding get_group_tags
map-get_group_tags name s = map-of_group name s.tags

map-get_group_configs :
    (name : Bytes) (s : Store)
    → map (in_group name) (get_group_configs name s) ≡ get_group_configs name s
unfolding get_group_configs
map-get_group_configs name s = get_group_configs-in_group name s s.mappings

delete_group_rows :
    (name : Bytes) (s : Store)
    → bytes_eq name default_group_name ≡ false
    → (t : Store) × (delete_group name s ≡ some t)
      × (find_group name t.groups ≡ none)
      × (get_group_tags name t ≡ [])
unfolding delete_group
delete_group_rows name s e =
    let t : Store = record s {
      groups = keep (λ (g : AgentGroup). not (bytes_eq g.name name)) s.groups;
      tags = keep (λ (t : AgentGroupTag). not (bytes_eq t.group_name name)) s.tags;
      mappings = keep (λ (m : GroupConfigMapping). not (bytes_eq m.group_name name)) s.mappings;
    } in
    let d : delete_group name s ≡ some t = rw (e, delete_group) refl in
    (
      t,
      d,
      find_group-without name s.groups,
      (delete_group_lem name name s t d).3 ∙ rw (bytes_eq_refl name) refl,
    )

module _ (first second : Env) (net : Netip) (json : Json) (snapshots : Snapshots) where
  -- A deletion of a group, and then the rollback to the entry that it wrote: the group is there
  -- again as it was, with the tags that it had, and with each mapping that it had to a config that
  -- was there. All calls of the manager succeed, the group is not the default one, and the snapshot
  -- is read back as it was written, which is not empty.
  pub remove_group-rollback_config :
      (name : Bytes) (g : AgentGroup) (m : GroupConfigMapping) (a : Admin)
      → IsReliable first
      → IsReliable second
      → bytes_eq name default_group_name ≡ false
      → find_group name a.store.groups ≡ some g
      → any (same_mapping m) (get_group_configs name a.store) ≡ true
      → snapshots.unmarshal_group (snapshots.marshal_group (snapshot first snapshots name a))
        ≡ some (snapshot first snapshots name a)
      → is_empty (snapshots.marshal_group (snapshot first snapshots name a)) ≡ false
      → let removed = (remove_group first snapshots name a).1 in
        let r =
          rollback_config second net json snapshots (codes "group") name (some a.next_id) removed in
        (r.0 ≡ done)
        × (find_group name r.1.store.groups ≡ some g)
        × (get_group_tags name r.1.store ≡ get_group_tags name a.store)
        × (any (same_mapping m) r.1.store.mappings ≡ true)
  unfolding remove_group
  remove_group-rollback_config name g m a ok ok' other e mapped reads n =
      let (s, d, gone, untagged) = delete_group_rows name a.store other in
      let snap = snapshot first snapshots name a in
      let text = snapshots.marshal_group snap in
      let written = with_store s a in
      let after = recorded first name (codes "delete") text [] written in
      let went : (remove_group first snapshots name a).1 ≡ after = ground (arith, ok.deletes, d) in
      let same : after.store ≡ s = store-recorded first name (codes "delete") text [] written in
      let entry = new_entry first a.next_id (codes "group") name (codes "delete") (pos 0) text in
      let back =
        rollback_config-group second net json snapshots a.next_id text entry after
          (with_store (regrouped second net json snapshots name snap after.store) after) ok'.finds
          (find_entry-recorded first name (codes "delete") text [] written ok.saves) refl n
          (rollback_group_delete second net json snapshots name snap entry after ok' refl reads
            (rw same gone)) in
      let final = back.1 ∙ ap (regrouped second net json snapshots name snap) same in
      let kept = snapshot_found first snapshots name g a ok e in
      let tags : map (of_group name) snap.tags ≡ get_group_tags name a.store =
        ap (λ (x : GroupSnapshot). map (of_group name) x.tags) kept
        ∙ map-get_group_tags name a.store in
      let configs : map (in_group name) snap.configs ≡ get_group_configs name a.store =
        ap (λ (x : GroupSnapshot). map (in_group name) x.configs) kept
        ∙ map-get_group_configs name a.store in
      let row : of_snapshot second net json snapshots name snap ≡ g =
        ap (of_snapshot second net json snapshots name) kept
        ∙ rw (sym (find_group_name name a.store.groups g e)) refl in
      rw went (
        back.0,
        rw final (find_group-regrouped second net json snapshots name snap s gone ∙ ap some row),
        rw final (get_group_tags-regrouped second net json snapshots name snap s untagged ∙ tags),
        rw final (
            any-add_all second net json snapshots m name snap.configs _ ok'.adds
              (rw configs mapped)),
      )
