-- ===== src/Registry/Statuses.antt =====
-- Config statuses: what an upsert stores, and what the eviction of an agent leaves behind.
use config_server.Prelude.{
  ℕ, ◌≡◌, refl, false, ◌&&◌, ◌||◌, none, some, [], ◌∷◌, ◌++◌, Bytes, bytes_eq, bytes_eq_refl,
  length, arith, ltb, if◌then◌else◌, ◌∙◌, ◌≤◌,
}
use config_server.Prelude.Dict.{lookup, has_key, lookup-insert, lookup-erase, length-insert}
use config_server.Strings.{has_prefix, strip_prefix}
use config_server.Model.{ConfigType, AgentConfigStatus}
use config_server.Registry.{
  Registry, back, evict_oldest, agent_status_key, config_type_text, upsert_agent_config_status,
}
use config_server.Registry.Laws.{lookup-drop_prefixed, member-back}
use config_server.Registry.Consistent.{IsConsistent, evict_oldest_lem}

-- The key of the entry that a status is stored under.
abbrev key_of : AgentConfigStatus → Bytes
key_of s = agent_status_key s.instance_id s.config_name s.config_type

-- UpsertAgentConfigStatus: the map stays within its capacity. Where the key is there or the map is
-- below its capacity, the entry is the status stamped with the time; else nothing changes. Entries
-- under other keys stay.
upsert_agent_config_status_lem :
    (max_statuses now : ℕ) (r : Registry) (s : AgentConfigStatus) (k : Bytes)
    → length r.statuses ≤ max_statuses
    → (length (upsert_agent_config_status max_statuses now r s).statuses ≤ max_statuses)
      × (lookup k (upsert_agent_config_status max_statuses now r s).statuses ≡ (
          if bytes_eq (key_of s) k
            && (has_key (key_of s) r.statuses || ltb (length r.statuses) max_statuses)
          then some (record s { updated_at = now })
          else lookup k r.statuses))
unfolding upsert_agent_config_status
upsert_agent_config_status_lem max_statuses now r s k h =
    let status = record s { updated_at = now } in
    (
      ground (arith, length-insert (key_of s) status r.statuses),
      ground (arith, lookup-insert (key_of s) k status r.statuses),
    )

other_prefix : (id s : Bytes) → has_prefix (id ++ 0 ∷ []) (id ++ b':' ∷ s) ≡ false
unfolding has_prefix strip_prefix
other_prefix [] s = refl
other_prefix (c ∷ id) s = ground (arith, other_prefix id s)

-- evictOldestAgentLocked: the agent at the back is gone, but every status entry of that agent stays
-- as it was. The deletion looks for the id and a NUL byte, and the keys have a colon there.
pub evict_oldest-statuses :
    (max_agents : ℕ) (r : Registry) (id config_name : Bytes) (config_type : ConfigType)
    → IsConsistent max_agents r
    → back r.lru ≡ some id
    → (lookup id (evict_oldest r).agents ≡ none)
      × (lookup (agent_status_key id config_name config_type) (evict_oldest r).statuses
          ≡ lookup (agent_status_key id config_name config_type) r.statuses)
unfolding agent_status_key
evict_oldest-statuses max_agents r id config_name config_type h b =
    rw (evict_oldest_lem r id b (h.same id ∙ member-back r.lru b)) (
      ground (arith, lookup-erase id id r.agents, bytes_eq_refl id),
      ground (
        arith,
        lookup-drop_prefixed (id ++ 0 ∷ []) (agent_status_key id config_name config_type)
            r.statuses,
        other_prefix id (config_name ++ (b':' ∷ config_type_text config_type)),
      ),
    )
