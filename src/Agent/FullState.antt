-- ===== src/Agent/FullState.antt =====
-- When Heartbeat of internal/server/agent/handler.go asks an agent for its full state.
use config_server.Prelude.{
  ℕ, ◌%◌, ◌<◌, ◌≡◌, refl, Bool, false, ◌&&◌, none, some, List, [], ◌∷◌, Bytes, bytes_eq, any, ◌==◌,
  arith, if◌then◌else◌, Option-cases, inl, inr,
}
use config_server.Prelude.Dict.{lookup}
use config_server.Model.{Agent}
use config_server.Registry.{Registry, empty, get_agent, evict_stale_agents}
use config_server.Registry.Consistent.{IsConsistent, IsConsistent-empty, get_agent-upsert_agent}
use config_server.Registry.Stale.{evict_stale_agents_lem}
use config_server.Agent.{HeartbeatRequest}
use config_server.Agent.Onetime.{JsonObjects}
use config_server.Agent.Heartbeat.{
  Limits, Manager, Assigned, build_agent, need_full_state, respond, heartbeat, build_err_hb_resp,
  match_context, response_flags,
}
use config_server.Agent.Restart.{heartbeat-get_agent, get_agent-heartbeat}

-- A heartbeat or a sweep of stale agents, with its time.
pub data Event : Type 0 where
  beat : Manager → ℕ → HeartbeatRequest → Event
  sweep : ℕ → Event

-- A heartbeat of the id with the sequence number 0.
abbrev pub numbers_zero : Bytes → Event → Bool
numbers_zero id (beat mgr now req) = bytes_eq req.instance_id id && (req.sequence_num == 0)
numbers_zero id (sweep now) = false

lowest_bit : (a b c : Bool) → response_flags a b c % 2 ≡ (if a then 1 else 0)
lowest_bit a b c = ground arith

module _ (limits : Limits) (json : JsonObjects) (ttl : ℕ) where
  pub run_event : Event → Registry → Registry
  run_event (beat mgr now req) r = (heartbeat limits json mgr now req r).0
  run_event (sweep now) r = evict_stale_agents ttl now r

  unfoldable pub run_events : List Event → Registry → Registry
  run_events [] r = r
  run_events (e ∷ es) r = run_events es (run_event e r)

  -- The registry holds no agent of the id with the number 0.
  record NoneZero (id : Bytes) (r : Registry) : Type 0 where
    consistent : IsConsistent limits.max_agents r
    counted : (a : Agent) → get_agent r id ≡ some a → (a.sequence_num == 0) ≡ false

  run_event-NoneZero :
      (id : Bytes) (e : Event) (r : Registry)
      → 0 < limits.max_agents
      → numbers_zero id e ≡ false
      → NoneZero id r
      → NoneZero id (run_event e r)
  unfolding run_event build_agent
  run_event-NoneZero id (beat mgr now req) r pos z h = record {
    consistent = (heartbeat-get_agent limits json mgr now req r pos h.consistent).1;
    counted = λ a e. ground (
      arith,
      get_agent-heartbeat limits json mgr now req r id,
      get_agent-upsert_agent limits.max_agents r (build_agent mgr now req) id h.consistent,
      h.counted a,
    );
  }
  run_event-NoneZero id (sweep now) r pos z h =
      let (kept, left) = evict_stale_agents_lem limits.max_agents ttl now r h.consistent in
      record {
        consistent = kept;
        counted = λ a e. elim (Option-cases (get_agent r id)) [
          | inl n ↦ ground (arith, left id)
          | inr (b, n) ↦ ground (arith, left id, h.counted b n)
        ];
      }

  run_events-NoneZero :
      (id : Bytes) (es : List Event) (r : Registry)
      → 0 < limits.max_agents
      → any (numbers_zero id) es ≡ false
      → NoneZero id r
      → NoneZero id (run_events es r)
  unfolding run_events
  run_events-NoneZero id [] r pos z h = h
  run_events-NoneZero id (e ∷ es) r pos z h =
      run_events-NoneZero id es (run_event e r) pos (ground arith)
        (run_event-NoneZero id e r pos (ground arith) h)

  empty-NoneZero : (id : Bytes) → NoneZero id empty
  unfolding get_agent lookup
  empty-NoneZero id = record {
    consistent = IsConsistent-empty limits.max_agents;
    counted = λ a e. ground arith;
  }

  flags-failed :
      (mgr : Manager) (now : ℕ) (req : HeartbeatRequest) (r : Registry)
      → mgr.get_configs_for_agent (match_context (build_agent mgr now req) req.tags) ≡ none
      → (heartbeat limits json mgr now req r).1.flags % 2 ≡ 0
  unfolding heartbeat build_err_hb_resp
  flags-failed mgr now req r e = rw (e, heartbeat)

  flags-resolved :
      (mgr : Manager) (now : ℕ) (req : HeartbeatRequest) (r : Registry) (assigned : Assigned)
      → mgr.get_configs_for_agent (match_context (build_agent mgr now req) req.tags) ≡ some assigned
      → (heartbeat limits json mgr now req r).1.flags % 2
        ≡ (if need_full_state (get_agent r req.instance_id) req.sequence_num then 1 else 0)
  unfolding heartbeat respond
  flags-resolved mgr now req r assigned e = rw (e, heartbeat) (lowest_bit _ _ _)

  not_needed :
      (id : Bytes) (r : Registry) (n : ℕ)
      → NoneZero id r
      → need_full_state (get_agent r id) n ≡ false
  unfolding need_full_state
  not_needed id r n h = elim (Option-cases (get_agent r id)) [
    | inl e ↦ rw e refl
    | inr (a, e) ↦ rw e (ground (arith, h.counted a e))
  ]

  -- A server that starts with an empty registry in memory, and no Redis, never asks an agent that
  -- numbers its heartbeats from 1 or more for its full state: after any heartbeats and sweeps, in
  -- which no heartbeat of the id has the number 0, the response to a heartbeat of the id is without
  -- the flag ReportFullState, whatever number the agent has counted to. The capacity is not 0.
  pub heartbeat-run_events :
      (mgr : Manager) (now : ℕ) (req : HeartbeatRequest) (es : List Event)
      → 0 < limits.max_agents
      → any (numbers_zero req.instance_id) es ≡ false
      → (heartbeat limits json mgr now req (run_events es empty)).1.flags % 2 ≡ 0
  heartbeat-run_events mgr now req es pos z =
      let id = req.instance_id in
      let r = run_events es empty in
      let h = run_events-NoneZero id es empty pos z (empty-NoneZero id) in
      elim (Option-cases
        (mgr.get_configs_for_agent (match_context (build_agent mgr now req) req.tags))) [
          | inl e ↦ flags-failed mgr now req r e
          | inr (assigned, e) ↦
              ground
                (arith, flags-resolved mgr now req r assigned e, not_needed id r req.sequence_num h)
        ]
