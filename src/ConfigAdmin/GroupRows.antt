-- ===== src/ConfigAdmin/GroupRows.antt =====
-- The rows of groups and of mappings under the handlers of groups.
use config_server.Prelude.{
  ◌≡◌, refl, ◌∙◌, true, false, not, some, List, [], ◌∷◌, ◌++◌, Bytes, codes, bytes_eq, bytes_eq_iff,
  bytes_eq_refl, is_empty, any, keep, pos, arith,
}
use config_server.Strings.{cut_slash}
use config_server.Model.{
  ConfigType, pipeline, instance_config, onetime, AgentGroup, GroupConfigMapping,
}
use config_server.Store.{config_type_eq}
use config_server.Store.Rows.{same_mapping}
use config_server.ConfigAdmin.{Admin, Env, new_entry, save_history}
use config_server.ConfigAdmin.Groups.{
  find_group, update_group_row, type_text, type_of_text, recorded, mapping_text,
}
use config_server.ConfigAdmin.Rollback.{find_entry}
use config_server.ConfigAdmin.History.{
  store-save_history, store-log_audit, history-log_audit, find_entry-save_history,
}

-- A request in which the manager's calls for groups and their history succeed.

pub find_group_name :
    (name : Bytes) (gs : List AgentGroup) (g : AgentGroup)
    → find_group name gs ≡ some g
    → g.name ≡ name
unfolding find_group
find_group_name name [] g e = ground arith
find_group_name name (h ∷ hs) g e =
    ground (arith, bytes_eq_iff h.name name, find_group_name name hs g)

-- Writing a row back over the one that took its place gives the table that there was.
pub update_group_row_back :
    (name : Bytes) (g h : AgentGroup) (gs : List AgentGroup)
    → find_group name gs ≡ some g
    → h.name ≡ g.name
    → update_group_row g (update_group_row h gs) ≡ gs
unfolding find_group update_group_row
update_group_row_back name g h [] e n = ground arith
update_group_row_back name g h (x ∷ xs) e n = ground (
  arith,
  update_group_row_back name g h xs,
  find_group_name name xs g,
  bytes_eq_iff x.name name,
  bytes_eq_iff x.name h.name,
  bytes_eq_iff x.name g.name,
  bytes_eq_iff h.name g.name,
)

pub find_group-update_group_row :
    (g : AgentGroup) (gs : List AgentGroup) → find_group g.name (update_group_row g gs) ≡ some g
unfolding find_group update_group_row
find_group-update_group_row g [] = ground (arith, bytes_eq_refl g.name)
find_group-update_group_row g (x ∷ xs) =
    ground
      (arith, find_group-update_group_row g xs, bytes_eq_iff x.name g.name, bytes_eq_refl g.name)

cut_slash_type :
    (t : ConfigType) (config : Bytes)
    → cut_slash (mapping_text (type_text t) config) ≡ some (type_text t, config)
unfolding cut_slash
cut_slash_type pipeline config = refl
cut_slash_type instance_config config = refl
cut_slash_type onetime config = refl

pub type_of_text_type : (t : ConfigType) → type_of_text (type_text t) ≡ some t
unfolding type_of_text bytes_eq
type_of_text_type pipeline = refl
type_of_text_type instance_config = refl
type_of_text_type onetime = refl

config_type_eq_refl : (t : ConfigType) → config_type_eq t t ≡ true
config_type_eq_refl pipeline = refl
config_type_eq_refl instance_config = refl
config_type_eq_refl onetime = refl

pub text_nonempty :
    (t : ConfigType) (config : Bytes) → is_empty (mapping_text (type_text t) config) ≡ false
text_nonempty pipeline config = refl
text_nonempty instance_config config = refl
text_nonempty onetime config = refl

pub same_mapping_refl : (m : GroupConfigMapping) → same_mapping m m ≡ true
same_mapping_refl m = ground (
  arith,
  bytes_eq_refl m.group_name,
  bytes_eq_refl m.config_name,
  config_type_eq_refl m.config_type,
)

pub keep-append_absent :
    (m : GroupConfigMapping) (ms : List GroupConfigMapping)
    → any (same_mapping m) ms ≡ false
    → same_mapping m m ≡ true
    → keep (λ (n : GroupConfigMapping). not (same_mapping m n)) (ms ++ m ∷ []) ≡ ms
keep-append_absent m [] e s = ground arith
keep-append_absent m (x ∷ xs) e s = ground (arith, keep-append_absent m xs)

pub store-recorded :
    (env : Env) (name action detail summary : Bytes) (a : Admin)
    → (recorded env name action detail summary a).store ≡ a.store
store-recorded env name action detail summary a =
    store-log_audit env 200 action (codes "group") name summary
      (save_history env (codes "group") name action (pos 0) detail a)
    ∙ store-save_history env (codes "group") name action detail (pos 0) a

pub find_entry-recorded :
    (env : Env) (name action detail summary : Bytes) (a : Admin)
    → env.calls.save_history ≡ true
    → find_entry a.next_id (recorded env name action detail summary a).history
      ≡ some (new_entry env a.next_id (codes "group") name action (pos 0) detail)
find_entry-recorded env name action detail summary a e =
    rw
      (history-log_audit env 200 action (codes "group") name summary
        (save_history env (codes "group") name action (pos 0) detail a))
      (find_entry-save_history env (codes "group") name action detail (pos 0) a e)
