-- ===== src/ConfigAdmin/History.antt =====
-- What the history and the audit log of a request leave as it is, and the entry that it adds.
use config_server.Prelude.{◌≡◌, ℕ, true, some, Bytes, ℤ, arith}
use config_server.ConfigAdmin.{Admin, Env, new_entry, save_history, log_audit}
use config_server.ConfigAdmin.Rollback.{find_entry}

-- The tables are not touched by the two records of a request.
pub store-save_history :
    (env : Env) (type name action detail : Bytes) (version : ℤ) (a : Admin)
    → (save_history env type name action version detail a).store ≡ a.store
unfolding save_history
store-save_history env type name action detail version a = ground arith

pub store-log_audit :
    (env : Env) (status : ℕ) (action type name detail : Bytes) (a : Admin)
    → (log_audit env status action type name detail a).store ≡ a.store
unfolding log_audit
store-log_audit env status action type name detail a = ground arith

pub history-log_audit :
    (env : Env) (status : ℕ) (action type name detail : Bytes) (a : Admin)
    → (log_audit env status action type name detail a).history ≡ a.history
unfolding log_audit
history-log_audit env status action type name detail a = ground arith

-- The entry that a request has just written.
pub find_entry-save_history :
    (env : Env) (type name action detail : Bytes) (version : ℤ) (a : Admin)
    → env.calls.save_history ≡ true
    → find_entry a.next_id (save_history env type name action version detail a).history
      ≡ some (new_entry env a.next_id type name action version detail)
unfolding save_history find_entry
find_entry-save_history env type name action detail version a e = ground arith
