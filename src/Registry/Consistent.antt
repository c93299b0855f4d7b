-- ===== src/Registry/Consistent.antt =====
-- The agents and their order: the two structures agree, the registry stays within its capacity,
-- and what an upsert changes.
use config_server.Prelude.{
  ℕ, suc, ◌≤◌, ◌<◌, ◌≡◌, refl, ap, ◌∙◌, ◌++◌, bytes_eq_refl, Bool, true, false, Option, none, some,
  List, [], ◌∷◌, Bytes, bytes_eq, length, arith, leb, if◌then◌else◌, Bool-cases, Option-cases, inl,
  inr,
}
use config_server.Prelude.Dict.{
  insert, erase, has_key, has_key-insert, has_key-erase, length-insert, length-erase_present,
  UniqueKeys, UniqueKeys-insert, UniqueKeys-erase, lookup-insert, lookup-erase, has_key-lookup,
}
use config_server.Model.{Agent}
use config_server.Registry.{
  Registry, empty, member, remove, back, drop_prefixed, evict_oldest, upsert_agent, get_agent,
}
use config_server.Registry.Laws.{
  IsUnique, member-remove, IsUnique-remove, length-remove, member-back,
}

-- agentsMap and agentsLRU hold the same ids, each once, at most `max_agents` of them.
pub record IsConsistent (max_agents : ℕ) (r : Registry) : Type 0 where
  pub same : (id : Bytes) → has_key id r.agents ≡ member id r.lru
  pub unique : IsUnique r.lru
  pub unique_keys : UniqueKeys r.agents
  pub same_size : length r.agents ≡ length r.lru
  pub capped : length r.agents ≤ max_agents

pub IsConsistent-empty : (max_agents : ℕ) → IsConsistent max_agents empty
IsConsistent-empty max_agents = record {
  same = λ id. unfold has_key member in refl;
  unique = tt;
  unique_keys = tt;
  same_size = refl;
  capped = omega arith;
}

back-some : (xs : List Bytes) → 0 < length xs → (x : Bytes) × (back xs ≡ some x)
unfolding back
back-some [] h = absurd (omega arith)
back-some (x ∷ []) h = (x, refl)
back-some (x ∷ y ∷ xs) h = back-some (y ∷ xs) (omega arith)

-- Evicting the agent at the back of the list, which is in the map.
pub evict_oldest_lem :
    (r : Registry) (id : Bytes)
    → back r.lru ≡ some id
    → has_key id r.agents ≡ true
    → evict_oldest r ≡ record {
      agents = erase id r.agents;
      lru = remove id r.lru;
      statuses = drop_prefixed (id ++ 0 ∷ []) r.statuses;
    }
unfolding evict_oldest
evict_oldest_lem r id b k = ground (arith, has_key-lookup id r.agents)

module _ (max_agents : ℕ) (r : Registry) (h : IsConsistent max_agents r) where
  -- Taking an id out of both structures.
  pub forget-IsConsistent :
      (id : Bytes) (s : Registry)
      → member id r.lru ≡ true
      → s.agents ≡ erase id r.agents
      → s.lru ≡ remove id r.lru
      → IsConsistent max_agents s × (suc (length s.agents) ≡ length r.agents)
  forget-IsConsistent id s m ea el =
      let shorter = length-erase_present id r.agents h.unique_keys (ground (arith, h.same id)) in
      (
        record {
          same = λ j.
              rw (ea, el)
                (ground (
                  arith,
                  has_key-erase id j r.agents,
                  member-remove id j r.lru h.unique,
                  h.same j,
                ));
          unique = rw el (IsUnique-remove id r.lru h.unique);
          unique_keys = rw ea (UniqueKeys-erase id r.agents h.unique_keys);
          same_size = rw (ea, el) (omega (arith, shorter, length-remove id r.lru m, h.same_size));
          capped = rw ea (omega (arith, shorter, h.capped));
        },
        rw ea shorter,
      )

  -- Where the registry is not empty, an eviction makes room for one agent.
  evict_oldest-IsConsistent :
      0 < length r.agents
      → IsConsistent max_agents (evict_oldest r)
        × (suc (length (evict_oldest r).agents) ≡ length r.agents)
  evict_oldest-IsConsistent some_agent =
      let (id, b) = back-some r.lru (omega (arith, h.same_size)) in
      let m = member-back r.lru b in
      let e = evict_oldest_lem r id b (h.same id ∙ m) in
      forget-IsConsistent id (evict_oldest r) m (ap (λ (s : Registry). s.agents) e)
        (ap (λ (s : Registry). s.lru) e)

  -- An id that is known moves to the front.
  refresh-IsConsistent :
      (id : Bytes) (a : Agent) (s : Registry)
      → member id r.lru ≡ true
      → s.agents ≡ insert id a r.agents
      → s.lru ≡ id ∷ remove id r.lru
      → IsConsistent max_agents s
  refresh-IsConsistent id a s m ea el =
      let known : has_key id r.agents ≡ true = h.same id ∙ m in
      let size : length (insert id a r.agents) ≡ length r.agents =
        ground (arith, length-insert id a r.agents) in
      record {
        same = λ j.
            rw (ea, el)
              (unfold member in
                ground (
                  arith,
                  has_key-insert id j a r.agents,
                  member-remove id j r.lru h.unique,
                  h.same j,
                ));
        unique = rw el (
          ground (arith, member-remove id id r.lru h.unique, bytes_eq_refl id),
          IsUnique-remove id r.lru h.unique,
        );
        unique_keys = rw ea (UniqueKeys-insert id a r.agents h.unique_keys);
        same_size = rw (ea, el) (omega (arith, size, length-remove id r.lru m, h.same_size));
        capped = rw ea (omega (arith, size, h.capped));
      }

  -- A new id is put at the front, where there is room.
  admit-IsConsistent :
      (id : Bytes) (a : Agent) (s : Registry)
      → member id r.lru ≡ false
      → length r.agents < max_agents
      → s.agents ≡ insert id a r.agents
      → s.lru ≡ id ∷ r.lru
      → IsConsistent max_agents s
  admit-IsConsistent id a s m room ea el =
      let unknown : has_key id r.agents ≡ false = h.same id ∙ m in
      let size : length (insert id a r.agents) ≡ suc (length r.agents) =
        ground (arith, length-insert id a r.agents) in
      record {
        same = λ j.
            rw (ea, el) (unfold member in ground (arith, has_key-insert id j a r.agents, h.same j));
        unique = rw el (m, h.unique);
        unique_keys = rw ea (UniqueKeys-insert id a r.agents h.unique_keys);
        same_size = rw (ea, el) (omega (arith, size, h.same_size));
        capped = rw ea (omega (arith, size, room));
      }

upsert_known :
    (max_agents : ℕ) (r : Registry) (a : Agent)
    → member a.instance_id r.lru ≡ true
    → upsert_agent max_agents r a ≡ record r {
      agents = insert a.instance_id a r.agents;
      lru = a.instance_id ∷ remove a.instance_id r.lru;
    }
unfolding upsert_agent
upsert_known max_agents r a m = rw m

upsert_new :
    (max_agents : ℕ) (r kept : Registry) (a : Agent)
    → member a.instance_id r.lru ≡ false
    → (if leb max_agents (length r.agents) then evict_oldest r else r) ≡ kept
    → upsert_agent max_agents r a
      ≡ record kept { agents = insert a.instance_id a kept.agents; lru = a.instance_id ∷ kept.lru }
unfolding upsert_agent
upsert_new max_agents r kept a m e = rw m (rw e)

-- UpsertAgent keeps the two structures in agreement and the registry within its capacity, where
-- the capacity is not 0.
pub upsert_agent-IsConsistent :
    (max_agents : ℕ) (r : Registry) (a : Agent)
    → 0 < max_agents
    → IsConsistent max_agents r
    → IsConsistent max_agents (upsert_agent max_agents r a)
upsert_agent-IsConsistent max_agents r a pos h =
    let id = a.instance_id in
    let new = upsert_agent max_agents r a in
    elim (Bool-cases (member id r.lru)) [
      | inl m ↦
          let e = upsert_known max_agents r a m in
          refresh-IsConsistent max_agents r h id a new m (ap (λ (s : Registry). s.agents) e)
            (ap (λ (s : Registry). s.lru) e)
      | inr m ↦ elim (Bool-cases (leb max_agents (length r.agents))) [
        | inl full ↦
            let some_agent : 0 < length r.agents = ground arith in
            let (b, is_back) = back-some r.lru (omega (arith, some_agent, h.same_size)) in
            let k = evict_oldest r in
            let (kept, shorter) = evict_oldest-IsConsistent max_agents r h some_agent in
            let e = upsert_new max_agents r k a m (rw full) in
            let gone : member id k.lru ≡ false =
              rw (evict_oldest_lem r b is_back (h.same b ∙ member-back r.lru is_back))
                (ground (arith, member-remove b id r.lru h.unique)) in
            admit-IsConsistent max_agents k kept id a new gone (omega (arith, shorter, h.capped))
              (ap (λ (s : Registry). s.agents) e) (ap (λ (s : Registry). s.lru) e)
        | inr room ↦
            let e = upsert_new max_agents r r a m (rw room) in
            admit-IsConsistent max_agents r h id a new m (ground arith)
              (ap (λ (s : Registry). s.agents) e) (ap (λ (s : Registry). s.lru) e)
      ]
    ]

-- The agent that an upsert evicts: the one at the back, if the id is new and the map is full.
abbrev pub victim : ℕ → Registry → Bytes → Option Bytes
victim max_agents r id =
    if member id r.lru then none else if leb max_agents (length r.agents) then back r.lru else none

abbrev pub is_victim : Option Bytes → Bytes → Bool
is_victim none j = false
is_victim (some id) j = bytes_eq id j

pub get_agent-upsert_agent :
    (max_agents : ℕ) (r : Registry) (a : Agent) (j : Bytes)
    → IsConsistent max_agents r
    → get_agent (upsert_agent max_agents r a) j ≡ (
        if bytes_eq a.instance_id j
        then some a
        else if is_victim (victim max_agents r a.instance_id) j
        then none
        else get_agent r j)
unfolding get_agent
get_agent-upsert_agent max_agents r a j h =
    let id = a.instance_id in
    elim (Bool-cases (member id r.lru)) [
      | inl m ↦ rw (upsert_known max_agents r a m) (rw m (lookup-insert id j a r.agents))
      | inr m ↦ elim (Bool-cases (leb max_agents (length r.agents))) [
        | inl full ↦ elim (Option-cases (back r.lru)) [
          | inl none_back ↦
              rw
                (upsert_new max_agents r r a m
                  (rw full (unfold evict_oldest in rw (none_back, evict_oldest))))
                (rw (m, full, none_back) (lookup-insert id j a r.agents))
          | inr (b, is_back) ↦ rw (upsert_new max_agents r (evict_oldest r) a m (rw full)) (
              rw (evict_oldest_lem r b is_back (h.same b ∙ member-back r.lru is_back)) (
                rw (m, full, is_back)
                  (ground
                    (arith, lookup-insert id j a (erase b r.agents), lookup-erase b j r.agents))))
        ]
        | inr room ↦
            rw (upsert_new max_agents r r a m (rw room))
              (rw (m, room) (lookup-insert id j a r.agents))
      ]
    ]
