-- ===== src/Registry/Stale.antt =====
-- evictStaleAgents: which agents it forgets, and what becomes of the statuses.
use config_server.Prelude.{
  ℕ, ◌-◌, ◌<◌, ◌≡◌, refl, ◌∙◌, Bool, true, false, Option, none, some, List, [], ◌∷◌, ◌++◌, Bytes,
  bytes_eq_iff, any, arith, ltb, if◌then◌else◌, Bool-cases, inl, inr,
}
use mathlib.Core.List.{append_assoc}
use config_server.Prelude.Dict.{
  Dict, lookup, has_key-lookup, lookup-erase, UniqueKeys, erase_absent,
}
use config_server.Strings.{has_prefix, strip_prefix}
use config_server.Model.{Agent}
use config_server.Registry.{
  Registry, member, remove, drop_prefixed, stale_ids, forget_agent, forget_agents, forget_statuses,
  evict_stale_agents, get_agent,
}
use config_server.Registry.Laws.{lookup-drop_prefixed}
use config_server.Registry.Consistent.{IsConsistent, forget-IsConsistent}

abbrev is_stale : ℕ → Option Agent → Bool
is_stale cutoff none = false
is_stale cutoff (some a) = ltb a.last_heartbeat cutoff

member-stale_ids :
    (cutoff : ℕ) (j : Bytes) (m : Dict Agent)
    → UniqueKeys m
    → member j (stale_ids cutoff m) ≡ is_stale cutoff (lookup j m)
unfolding member stale_ids lookup
member-stale_ids cutoff j [] h = refl
member-stale_ids cutoff j ((id, a) ∷ m) h =
    ground (arith, bytes_eq_iff id j, h.0, has_key-lookup id m, member-stale_ids cutoff j m h.1)

lookup-forget_agents :
    (j : Bytes) (ids : List Bytes) (r : Registry)
    → lookup j (forget_agents r ids).agents ≡ (if member j ids then none else lookup j r.agents)
unfolding member forget_agents forget_agent
lookup-forget_agents j [] r = refl
lookup-forget_agents j (id ∷ ids) r = ground (
  arith,
  bytes_eq_iff id j,
  lookup-erase id j r.agents,
  lookup-forget_agents j ids (forget_agent r id),
)

remove_absent : (id : Bytes) (xs : List Bytes) → member id xs ≡ false → remove id xs ≡ xs
unfolding member remove
remove_absent id [] h = refl
remove_absent id (x ∷ xs) h = ground (arith, remove_absent id xs)

forget_agent-IsConsistent :
    (max_agents : ℕ) (r : Registry) (id : Bytes)
    → IsConsistent max_agents r
    → IsConsistent max_agents (forget_agent r id)
unfolding forget_agent
forget_agent-IsConsistent max_agents r id h = elim (Bool-cases (member id r.lru)) [
  | inl m ↦ (forget-IsConsistent max_agents r h id (forget_agent r id) m refl refl).0
  | inr m ↦
      rw (erase_absent id r.agents (h.same id ∙ m), remove_absent id r.lru m)
        (record {
          same = h.same;
          unique = h.unique;
          unique_keys = h.unique_keys;
          same_size = h.same_size;
          capped = h.capped;
        })
]

forget_agents-IsConsistent :
    (max_agents : ℕ) (ids : List Bytes) (r : Registry)
    → IsConsistent max_agents r
    → IsConsistent max_agents (forget_agents r ids)
unfolding forget_agents
forget_agents-IsConsistent max_agents [] r h = h
forget_agents-IsConsistent max_agents (id ∷ ids) r h =
    forget_agents-IsConsistent max_agents ids (forget_agent r id)
      (forget_agent-IsConsistent max_agents r id h)

-- What an agent becomes by the collection at time `now`.
abbrev pub unless_stale : ℕ → Option Agent → Option Agent
unless_stale cutoff none = none
unless_stale cutoff (some a) = if ltb a.last_heartbeat cutoff then none else some a

-- evictStaleAgents at the time `now`: an agent whose last heartbeat is more than the time to live
-- before `now` is gone, every other agent is as it was, and the two structures, which agree before,
-- agree again.
pub evict_stale_agents_lem :
    (max_agents ttl now : ℕ) (r : Registry)
    → IsConsistent max_agents r
    → IsConsistent max_agents (evict_stale_agents ttl now r)
      × ((id : Bytes)
          → get_agent (evict_stale_agents ttl now r) id ≡ unless_stale (now - ttl) (get_agent r id))
unfolding evict_stale_agents get_agent
evict_stale_agents_lem max_agents ttl now r h =
    let stale = stale_ids (now - ttl) r.agents in
    let kept = forget_agents-IsConsistent max_agents stale r h in
    (
      record {
        same = kept.same;
        unique = kept.unique;
        unique_keys = kept.unique_keys;
        same_size = kept.same_size;
        capped = kept.capped;
      },
      λ id. ground (
        arith,
        lookup-forget_agents id stale r,
        member-stale_ids (now - ttl) id r.agents h.unique_keys,
      ),
    )

has_prefix-append : (p s : Bytes) → has_prefix p (p ++ s) ≡ true
unfolding has_prefix strip_prefix
has_prefix-append [] s = refl
has_prefix-append (c ∷ p) s = ground (arith, has_prefix-append p s)

-- Some id of the list, with a colon, starts the key.
abbrev any_prefix : List Bytes → Bytes → Bool
any_prefix ids k = any (λ id. has_prefix (id ++ b':' ∷ []) k) ids

lookup-forget_statuses {ℓ} :
    {V : Type ℓ} (k : Bytes) (ids : List Bytes) (m : Dict V)
    → lookup k (forget_statuses ids m) ≡ (if any_prefix ids k then none else lookup k m)
unfolding forget_statuses
lookup-forget_statuses k [] m = refl
lookup-forget_statuses k (id ∷ ids) m =
    let prefix = id ++ b':' ∷ [] in
    ground (
      arith,
      lookup-drop_prefixed prefix k m,
      lookup-forget_statuses k ids (drop_prefixed prefix m),
    )

any_prefix-member :
    (id s : Bytes) (ids : List Bytes)
    → member id ids ≡ true
    → any_prefix ids (id ++ b':' ∷ s) ≡ true
unfolding member
any_prefix-member id s [] h = cc
any_prefix-member id s (x ∷ ids) h = ground (
  arith,
  bytes_eq_iff x id,
  append_assoc id (b':' ∷ []) s,
  has_prefix-append (id ++ b':' ∷ []) s,
  any_prefix-member id s ids,
)

statuses-forget_agents :
    (r : Registry) (ids : List Bytes) → (forget_agents r ids).statuses ≡ r.statuses
unfolding forget_agents forget_agent
statuses-forget_agents r [] = refl
statuses-forget_agents r (id ∷ ids) = statuses-forget_agents (forget_agent r id) ids

-- evictStaleAgents at the time `now`: where an agent is stale, every status entry whose key starts
-- with its id and a colon is gone. These are the agent's own entries, and also those of any other
-- agent, stale or not, whose id starts with that id and a colon.
pub evict_stale_agents-statuses :
    (max_agents ttl now : ℕ) (r : Registry) (id s : Bytes) {a : Agent}
    → IsConsistent max_agents r
    → get_agent r id ≡ some a
    → a.last_heartbeat < now - ttl
    → lookup (id ++ b':' ∷ s) (evict_stale_agents ttl now r).statuses ≡ none
unfolding get_agent evict_stale_agents
evict_stale_agents-statuses max_agents ttl now r id s h found old =
    let stale = stale_ids (now - ttl) r.agents in
    let listed : member id stale ≡ true =
      ground (arith, member-stale_ids (now - ttl) id r.agents h.unique_keys) in
    ground (
      arith,
      lookup-forget_statuses (id ++ b':' ∷ s) stale (forget_agents r stale).statuses,
      any_prefix-member id s stale listed,
    )
