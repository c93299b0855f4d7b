-- ===== src/ConfigAdmin/Configs.antt =====
-- The handlers of pipeline and instance configs in internal/server/admin/handler.go.
use config_server.Prelude.{
  not, ◌||◌, Option, none, some, [], Bytes, codes, bytes_eq, is_empty, pos, if◌then◌else◌,
}
use config_server.Model.{Config, found, not_found, failed}
use config_server.Store.Rows.{delete_config}
use config_server.ConfigAdmin.{
  Admin, Env, Reply, bad_request, missing, conflict, internal_error, done, shown, created, Kind,
  kind_type, kind_text, rows, set_rows, create_row, update_row, Yaml, validate_yaml, ConfigBody,
  save_history, log_audit, read_config,
}

module _ (env : Env) where
  -- The reply to a config that is there already.
  abbrev pub answer_existing : Config → Bytes → Reply
  answer_existing existing detail =
      if bytes_eq existing.detail detail then shown existing else conflict

  -- The write of a new row, which other rows or the database may refuse.
  abbrev pub insert_config : Kind → Config → Admin → Option Admin
  insert_config k c a =
      if not env.calls.create_config then none else elim (create_row c (rows k a.store)) [
        | none ↦ none
        | some cs ↦ some (record a { store = set_rows k cs a.store })
      ]

  -- The end of CreatePipelineConfig.
  unfoldable pub create_new : Kind → Config → Admin → Reply × Admin
  create_new k c a = elim (insert_config k c a) [
    | some b ↦ (
      created c,
      log_audit env 201 (codes "create") (kind_text k) c.name c.detail
          (save_history env (kind_text k) c.name (codes "create") c.version c.detail b),
    )
    | none ↦ elim env.calls.read_config_again [
      | found existing ↦ (answer_existing existing c.detail, a)
      | not_found ↦ (internal_error, a)
      | failed ↦ (internal_error, a)
    ]
  ]

  unfoldable pub create_config : Yaml → Kind → Option ConfigBody → Admin → Reply × Admin
  create_config yaml k none a = (bad_request, a)
  create_config yaml k (some b) a =
      if is_empty b.name || not (validate_yaml yaml b.detail)
      then (bad_request, a)
      else elim (read_config env k b.name a) [
        | found existing ↦ (answer_existing existing b.detail, a)
        | failed ↦ (internal_error, a)
        | not_found ↦
            create_new k (record { name = b.name; version = env.now; detail = b.detail }) a
      ]

  -- UpdatePipelineConfig of the manager with the history and the audit after it.
  unfoldable pub write_config : Kind → Bytes → Config → Bytes → Admin → Reply × Admin
  write_config k action c old a = if not env.calls.update_config then (internal_error, a) else (
    shown c,
    log_audit env 200 action (kind_text k) c.name c.detail (
        save_history env (kind_text k) c.name action c.version old
          (record a { store = set_rows k (update_row c (rows k a.store)) a.store })),
  )

  -- The body is the new content.
  unfoldable pub update_config : Yaml → Kind → Bytes → Option Bytes → Admin → Reply × Admin
  update_config yaml k name none a = (bad_request, a)
  update_config yaml k name (some detail) a =
      if not (validate_yaml yaml detail)
      then (bad_request, a)
      else elim (read_config env k name a) [
        | not_found ↦ (missing, a)
        | failed ↦ (internal_error, a)
        | found c ↦
            if bytes_eq c.detail detail
            then (shown c, a)
            else write_config k (codes "update") (record c { detail = detail; version = env.now })
                c.detail a
      ]

  unfoldable pub remove_config : Kind → Bytes → Admin → Reply × Admin
  remove_config k name a = elim (read_config env k name a) [
    | not_found ↦ (done, a)
    | failed ↦ (internal_error, a)
    | found c ↦ if not env.calls.delete_config then (internal_error, a) else (
      done,
      log_audit env 200 (codes "delete") (kind_text k) name [] (
          save_history env (kind_text k) name (codes "delete") (pos 0) c.detail
            (record a { store = delete_config (kind_type k) name a.store })),
    )
  ]
