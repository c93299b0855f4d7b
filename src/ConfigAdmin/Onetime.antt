-- ===== src/ConfigAdmin/Onetime.antt =====
-- The handlers of onetime commands in internal/server/admin/handler.go.
use config_server.Prelude.{
  not, ◌&&◌, Option, none, some, [], ◌∷◌, ◌++◌, Bytes, codes, bytes_eq, is_empty, pos, int_eq,
  if◌then◌else◌,
}
use config_server.Model.{onetime, OnetimeCommand, found, not_found, failed}
use config_server.Store.Rows.{delete_config}
use config_server.ConfigAdmin.{
  Admin, Env, Reply, bad_request, conflict, internal_error, done, command_shown, command_created,
  find_onetime, Snapshots, OnetimeBody, save_history, log_audit, read_onetime,
}

module _ (env : Env) where
  -- The test of CreateOnetimeCommand on a command that is there already.
  abbrev answer_command : OnetimeCommand → OnetimeBody → Reply
  answer_command existing b =
      if bytes_eq existing.detail b.detail && int_eq existing.expire_time b.expire_time
      then command_shown existing
      else conflict

  abbrev pub insert_onetime : OnetimeCommand → Admin → Option Admin
  insert_onetime c a =
      if not env.calls.create_config then none else elim (find_onetime c.name a.store.onetimes) [
        | some old ↦ none
        | none ↦
            some (record a { store = record (a.store) { onetimes = a.store.onetimes ++ c ∷ [] } })
      ]

  unfoldable pub create_command : OnetimeBody → OnetimeCommand → Admin → Reply × Admin
  create_command b c a = elim (insert_onetime c a) [
    | some d ↦ (
      command_created c,
      log_audit env 201 (codes "create") (codes "onetime") c.name c.detail
          (save_history env (codes "onetime") c.name (codes "create") (pos 0) c.detail d),
    )
    | none ↦ elim env.calls.read_onetime_again [
      | found existing ↦ (answer_command existing b, a)
      | not_found ↦ (internal_error, a)
      | failed ↦ (internal_error, a)
    ]
  ]

  unfoldable pub create_onetime : Option OnetimeBody → Admin → Reply × Admin
  create_onetime none a = (bad_request, a)
  create_onetime (some b) a =
      if is_empty b.name then (bad_request, a) else elim (read_onetime env b.name a) [
        | found existing ↦ (answer_command existing b, a)
        | failed ↦ (internal_error, a)
        | not_found ↦
            create_command b
              (record {
                name = b.name;
                version = env.now;
                detail = b.detail;
                expire_time = b.expire_time;
                created_at = env.created_at;
              })
              a
      ]

  unfoldable pub remove_onetime : Snapshots → Bytes → Admin → Reply × Admin
  remove_onetime json name a = elim (read_onetime env name a) [
    | not_found ↦ (done, a)
    | failed ↦ (internal_error, a)
    | found c ↦ if not env.calls.delete_config then (internal_error, a) else (
      done,
      log_audit env 200 (codes "delete") (codes "onetime") name [] (
          save_history env (codes "onetime") name (codes "delete") (pos 0)
            (json.marshal_onetime c.detail c.expire_time)
            (record a { store = delete_config onetime name a.store })),
    )
  ]
