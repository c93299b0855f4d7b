-- ===== src/Agent/Response.antt =====
-- The response to a heartbeat, from the agent's side.
use config_server.Prelude.{
  ℕ, ◌≡◌, refl, ap, ◌∙◌, some, List, [], ◌∷◌, Bytes, ℤ, map, Bool-cases, inl, inr,
}
use config_server.Prelude.Dict.{Dict, lookup}
use config_server.Registry.{Registry}
use config_server.Agent.{ConfigDetail, HeartbeatRequest}
use config_server.Agent.Diff.{index_config_infos, config_diff}
use config_server.Agent.Converge.{
  apply_update, apply_updates, served_version, IsTable, config_diff-converges,
}
use config_server.Agent.Inline.{over_limit, strip_inline, without_detail}
use config_server.Agent.Onetime.{JsonObjects}
use config_server.Agent.Heartbeat.{
  Limits, Manager, Assigned, build_agent, full_state, match_context, respond, heartbeat,
}

-- What the agent has does not depend on the content.
apply_updates-stripped :
    (m : Dict ℤ) (ds : List ConfigDetail)
    → apply_updates m (map without_detail ds) ≡ apply_updates m ds
unfolding apply_updates apply_update
apply_updates-stripped m [] = refl
apply_updates-stripped m (d ∷ ds) = apply_updates-stripped (apply_update m d) ds

apply_updates-strip_inline :
    (m : Dict ℤ) (ds : List ConfigDetail) → apply_updates m (strip_inline ds) ≡ apply_updates m ds
unfolding strip_inline
apply_updates-strip_inline m ds = elim (Bool-cases (over_limit ds)) [
  | inl e ↦ rw e (apply_updates-stripped m ds)
  | inr e ↦ rw e
]

-- A heartbeat for which the manager resolves the configs: an agent that applies the updates of the
-- response to what it reported has, under every name, exactly the version of the pipeline config
-- with content that the manager assigns, and the same for instance configs; content that is left
-- out for its size makes no difference. The assigned configs have different names and no version
-- -1.
pub heartbeat-converges :
    (limits : Limits) (json : JsonObjects) (mgr : Manager) (now : ℕ) (req : HeartbeatRequest)
    (r : Registry) (name : Bytes) {assigned : Assigned}
    → mgr.get_configs_for_agent (match_context (build_agent mgr now req) req.tags) ≡ some assigned
    → IsTable assigned.pipelines
    → IsTable assigned.instances
    → (lookup name (
          apply_updates
            (index_config_infos req.continuous_pipeline_configs)
            (heartbeat limits json mgr now req r).1.continuous_pipeline_config_updates)
        ≡ served_version name assigned.pipelines)
      × (lookup name (
            apply_updates
              (index_config_infos req.instance_configs)
              (heartbeat limits json mgr now req r).1.instance_config_updates)
          ≡ served_version name assigned.instances)
unfolding heartbeat respond
heartbeat-converges limits json mgr now req r name {assigned} e hp hi =
    let full = full_state req in
    let ps = index_config_infos req.continuous_pipeline_configs in
    let is' = index_config_infos req.instance_configs in
    rw (e, heartbeat)
      (
        ap (lookup name) (apply_updates-strip_inline ps (config_diff full ps assigned.pipelines))
            ∙ config_diff-converges full ps assigned.pipelines name hp,
        ap (lookup name) (apply_updates-strip_inline is' (config_diff full is' assigned.instances))
            ∙ config_diff-converges full is' assigned.instances name hi,
      )
