-- ===== src/Agent/Diff.antt =====
-- The part of Heartbeat that compares what the agent reports with what it is assigned, for the
-- pipeline and the instance configs: the source has the same code twice. Go ranges over the
-- agent's map in no fixed order; the model takes the order of the list.
use config_server.Prelude.{
  Bool, true, false, not, ◌&&◌, Option, none, some, List, [], ◌∷◌, ◌++◌, Bytes, bytes_eq, ℤ, int_eq,
  is_empty, if◌then◌else◌,
}
use config_server.Prelude.Dict.{Dict, lookup, insert}
use config_server.Model.{Config}
use config_server.Agent.{ConfigInfo, ConfigDetail, removal}

-- indexConfigInfos: of infos with one name the last counts.
unfoldable pub index_from : Dict ℤ → List ConfigInfo → Dict ℤ
index_from m [] = m
index_from m (c ∷ cs) = index_from (insert c.name c.version m) cs

unfoldable pub index_config_infos : List ConfigInfo → Dict ℤ
index_config_infos cs = index_from [] cs

abbrev pub same_version : Option ℤ → ℤ → Bool
same_version none v = false
same_version (some w) v = int_eq w v

-- The config has content, and the agent does not have this version of it already.
unfoldable pub to_send : Bool → Dict ℤ → Config → Bool
to_send full_state agent_configs c =
    not (is_empty c.detail)
    && not (not full_state && same_version (lookup c.name agent_configs) c.version)

abbrev pub detail_of : Config → ConfigDetail
detail_of c = record { name = c.name; version = c.version; detail = c.detail }

-- The loop over the configs of the server.
unfoldable pub config_updates : Bool → Dict ℤ → List Config → List ConfigDetail
config_updates full_state agent_configs [] = []
config_updates full_state agent_configs (c ∷ cs) =
    let rest = config_updates full_state agent_configs cs in
    if to_send full_state agent_configs c then detail_of c ∷ rest else rest

-- serverPipelineNames: the name of a config with content.
unfoldable pub is_served : Bytes → List Config → Bool
is_served name [] = false
is_served name (c ∷ cs) =
    if bytes_eq c.name name && not (is_empty c.detail) then true else is_served name cs

abbrev pub removal_of : Bytes → ConfigDetail
removal_of name = record { name = name; version = removal; detail = [] }

-- The loop over the names that the agent has.
unfoldable pub removals : Dict ℤ → List Config → List ConfigDetail
removals [] cs = []
removals ((name, v) ∷ m) cs =
    let rest = removals m cs in if is_served name cs then rest else removal_of name ∷ rest

unfoldable pub config_diff : Bool → Dict ℤ → List Config → List ConfigDetail
config_diff full_state agent_configs cs =
    config_updates full_state agent_configs cs ++ removals agent_configs cs
