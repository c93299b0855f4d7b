-- ===== src/ConfigAdmin/Restore.antt =====
-- A rollback of an update or a deletion of a config, and a repeated creation.
use config_server.Prelude.{
  ◌≡◌, refl, ◌∙◌, ℕ, true, false, not, none, some, List, [], ◌∷◌, ◌++◌, Bytes, codes, bytes_eq,
  bytes_eq_iff, bytes_eq_refl, is_empty, keep, pos, if◌then◌else◌, arith, Option-cases, inl, inr,
}
use config_server.Model.{Config}
use config_server.IpSelector.{Netip, Json}
use config_server.Store.{Store}
use config_server.Store.Rows.{delete_config}
use config_server.ConfigAdmin.{
  ConfigHistory, Admin, Env, conflict, done, shown, created, Kind, pipelines, instances, kind_text,
  kind_type, rows, set_rows, find_config, create_row, update_row, Yaml, validate_yaml, Snapshots,
  ConfigBody, new_entry, save_history, log_audit,
}
use config_server.ConfigAdmin.Configs.{create_new, create_config, update_config, remove_config}
use config_server.ConfigAdmin.Rollback.{
  find_entry, Outcome, restored, restore_config, rollback_entry, finish, rollback_config,
}
use config_server.ConfigAdmin.History.{
  store-save_history, store-log_audit, history-log_audit, find_entry-save_history,
}

-- A request in which the manager's calls for configs and their history succeed.
pub record IsReliable (env : Env) : Type 0 where
  pub reads : env.calls.get_config ≡ true
  pub creates : env.calls.create_config ≡ true
  pub updates : env.calls.update_config ≡ true
  pub deletes : env.calls.delete_config ≡ true
  pub finds : env.calls.get_history ≡ true
  pub saves : env.calls.save_history ≡ true

find_config_name :
    (name : Bytes) (cs : List Config) (c : Config) → find_config name cs ≡ some c → c.name ≡ name
unfolding find_config
find_config_name name [] c e = ground arith
find_config_name name (d ∷ ds) c e =
    ground (arith, bytes_eq_iff d.name name, find_config_name name ds c)

find_config-update_row :
    (name : Bytes) (c d : Config) (cs : List Config)
    → find_config name cs ≡ some c
    → d.name ≡ name
    → find_config name (update_row d cs)
      ≡ some (record c { version = d.version; detail = d.detail })
unfolding find_config
find_config-update_row name c d [] e n = ground arith
find_config-update_row name c d (x ∷ xs) e n = ground (
  arith,
  find_config-update_row name c d xs,
  bytes_eq_iff x.name name,
  bytes_eq_iff x.name d.name,
)

find_config-append :
    (name : Bytes) (c : Config) (cs : List Config)
    → find_config name cs ≡ none
    → c.name ≡ name
    → find_config name (cs ++ c ∷ []) ≡ some c
unfolding find_config
find_config-append name c [] e n = ground (arith, bytes_eq_iff c.name name)
find_config-append name c (x ∷ xs) e n =
    ground (arith, find_config-append name c xs, bytes_eq_iff x.name name)

find_config-without :
    (name : Bytes) (cs : List Config)
    → find_config name (keep (λ (c : Config). not (bytes_eq c.name name)) cs) ≡ none
unfolding find_config
find_config-without name [] = refl
find_config-without name (x ∷ xs) = ground (arith, find_config-without name xs)

rows-set_rows : (k : Kind) (cs : List Config) (s : Store) → rows k (set_rows k cs s) ≡ cs
rows-set_rows pipelines cs s = refl
rows-set_rows instances cs s = refl

rows-delete_config :
    (k : Kind) (name : Bytes) (s : Store)
    → rows k (delete_config (kind_type k) name s)
      ≡ keep (λ (c : Config). not (bytes_eq c.name name)) (rows k s)
unfolding delete_config
rows-delete_config pipelines name s = refl
rows-delete_config instances name s = refl

module _ (env : Env) (net : Netip) (json : Json) (snapshots : Snapshots) where
  -- The config that a rollback of the entry leaves.
  abbrev rolled_back : Bytes → ConfigHistory → Config
  rolled_back name h = record { name = name; version = env.now; detail = h.detail }

  -- The outcome for a config, whether it is there or not.
  abbrev IsRestored : Kind → Bytes → ConfigHistory → Outcome → Type 0
  IsRestored k name h o =
      (old : Bytes) × (b : Admin) × (o ≡ restored old b)
      × (find_config name (rows k b.store) ≡ some (rolled_back name h))

  restore_config-IsRestored :
      (k : Kind) (name : Bytes) (h : ConfigHistory) (a : Admin)
      → IsReliable env
      → IsRestored k name h (restore_config env net json snapshots k name h a)
  unfolding restore_config create_row
  restore_config-IsRestored k name h a ok =
      elim (Option-cases (find_config name (rows k a.store))) [
        | inl e ↦ (
          [],
          record a { store = set_rows k (rows k a.store ++ rolled_back name h ∷ []) a.store },
          ground (arith, ok.reads, ok.creates),
          rw (rows-set_rows k (rows k a.store ++ rolled_back name h ∷ []) a.store)
              (find_config-append name (rolled_back name h) (rows k a.store) e refl),
        )
        | inr (c, e) ↦
            let d : Config = record c { detail = h.detail; version = env.now } in
            (
              c.detail,
              record a { store = set_rows k (update_row d (rows k a.store)) a.store },
              ground (arith, ok.reads, ok.updates),
              rw (rows-set_rows k (update_row d (rows k a.store)) a.store) (
                  ground (
                    arith,
                    find_config-update_row name c d (rows k a.store) e,
                    find_config_name name (rows k a.store) c e,
                  )),
            )
      ]

  rollback_entry-kind :
      (k : Kind) (name : Bytes) (h : ConfigHistory) (a : Admin)
      → rollback_entry env net json snapshots (kind_text k) name h a
        ≡ restore_config env net json snapshots k name h a
  unfolding rollback_entry restore_config bytes_eq
  rollback_entry-kind pipelines name h a = refl
  rollback_entry-kind instances name h a = refl

  -- A rollback to an entry of the history that has content leaves the config with that content,
  -- under a new version, whether the config was changed or deleted since: the request is answered,
  -- if the calls of the manager succeed in it, and a read of the name gives the config.
  rollback_config-find_config :
      (k : Kind) (id : ℕ) (h : ConfigHistory) (a : Admin)
      → IsReliable env
      → find_entry id a.history ≡ some h
      → h.resource_type ≡ kind_text k
      → is_empty h.detail ≡ false
      → let r = rollback_config env net json snapshots (kind_text k) h.resource_name (some id) a in
        (r.0 ≡ done)
        × (find_config h.resource_name (rows k r.1.store) ≡ some (rolled_back h.resource_name h))
  unfolding rollback_config
  rollback_config-find_config k id h a ok e t n =
      let name = h.resource_name in
      let (old, b, o, f) = restore_config-IsRestored k name h a ok in
      let went : rollback_config env net json snapshots (kind_text k) name (some id) a
          ≡ finish env net json snapshots (kind_text k) name h (restored old b) =
        ground (
          arith,
          ok.finds,
          bytes_eq_iff h.resource_type (kind_text k),
          bytes_eq_refl name,
          rollback_entry-kind k name h a,
          o,
        ) in
      let saved = save_history env (kind_text k) name (codes "rollback") env.now old b in
      let same : (finish env net json snapshots (kind_text k) name h (restored old b)).1.store
          ≡ b.store =
        store-log_audit env 200 (codes "rollback") (kind_text k) name h.detail saved
        ∙ store-save_history env (kind_text k) name (codes "rollback") old env.now b in
      rw (went, finish) (refl, rw same f)

module _ (first second : Env) (net : Netip) (json : Json) (snapshots : Snapshots) where
  -- A deletion of a config, and then the rollback to the entry that it wrote: the config is there
  -- again with its content. All calls of the manager succeed, and the content is not empty.
  pub remove_config-rollback_config :
      (k : Kind) (name : Bytes) (c : Config) (a : Admin)
      → IsReliable first
      → IsReliable second
      → find_config name (rows k a.store) ≡ some c
      → is_empty c.detail ≡ false
      → let removed = (remove_config first k name a).1 in
        let r =
          rollback_config second net json snapshots (kind_text k) name (some a.next_id) removed in
        (find_config name (rows k removed.store) ≡ none)
        × (r.0 ≡ done)
        × (find_config name (rows k r.1.store)
            ≡ some (record { name = name; version = second.now; detail = c.detail }))
  unfolding remove_config
  remove_config-rollback_config k name c a ok ok' e n =
      let written : Admin = record a { store = delete_config (kind_type k) name a.store } in
      let saved = save_history first (kind_text k) name (codes "delete") (pos 0) c.detail written in
      let logged = log_audit first 200 (codes "delete") (kind_text k) name [] saved in
      let went : (remove_config first k name a).1 ≡ logged = ground (arith, ok.reads, ok.deletes) in
      let entry =
        find_entry-save_history first (kind_text k) name (codes "delete") c.detail (pos 0) written
          ok.saves in
      let kept = history-log_audit first 200 (codes "delete") (kind_text k) name [] saved in
      let same : logged.store ≡ written.store =
        store-log_audit first 200 (codes "delete") (kind_text k) name [] saved
        ∙ store-save_history first (kind_text k) name (codes "delete") c.detail (pos 0) written in
      let again =
        rollback_config-find_config second net json snapshots k a.next_id
          (new_entry first a.next_id (kind_text k) name (codes "delete") (pos 0) c.detail) logged
          ok' (rw kept entry) refl n in
      rw went (
        rw (same, rows-delete_config k name a.store) (find_config-without name (rows k a.store)),
        again.0,
        again.1,
      )

-- A creation that is sent again: after a reply that the config was created, the same body is
-- answered with that config and writes nothing, and another content for the name is a conflict and
-- writes nothing. The body of the second request is valid, and its read succeeds.
pub create_config_again :
    (first second : Env) (yaml : Yaml) (k : Kind) (b : ConfigBody) (detail : Bytes) (c : Config)
    (a : Admin)
    → second.calls.get_config ≡ true
    → validate_yaml yaml detail ≡ true
    → (create_config first yaml k (some b) a).0 ≡ created c
    → let after = (create_config first yaml k (some b) a).1 in
      create_config second yaml k (some (record { name = b.name; detail = detail })) after
      ≡ (if bytes_eq b.detail detail then shown c else conflict, after)
unfolding create_config create_new create_row
create_config_again first second yaml k b detail c a ok valid e =
    let new : Config = record { name = b.name; version = first.now; detail = b.detail } in
    let written : Admin = record a { store = set_rows k (rows k a.store ++ new ∷ []) a.store } in
    let saved =
      save_history first (kind_text k) b.name (codes "create") first.now b.detail written in
    elim (Option-cases (find_config b.name (rows k a.store))) [
      | inr (old, n) ↦ ground arith
      | inl n ↦
          let logged = log_audit first 201 (codes "create") (kind_text k) b.name b.detail saved in
          let same : logged.store ≡ written.store =
            store-log_audit first 201 (codes "create") (kind_text k) b.name b.detail saved
            ∙ store-save_history first (kind_text k) b.name (codes "create") b.detail first.now
                written in
          let there : find_config b.name (rows k logged.store) ≡ some new =
            rw (same, rows-set_rows k (rows k a.store ++ new ∷ []) a.store)
              (find_config-append b.name new (rows k a.store) n refl) in
          ground (arith, there)
    ]
