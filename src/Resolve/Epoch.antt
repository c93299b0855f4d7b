-- ===== src/Resolve/Epoch.antt =====
-- The epoch of the resolve cache of internal/cache/manager.go, which every key of an agent holds, and
-- the lookups after an invalidation.
use config_server.Prelude.{
  ◌≡◌, refl, sym, ℕ, suc, ◌+◌, ◌%◌, ◌^◌, ◌<◌, Option, none, some, List, Bytes, keep, length, ◌∙◌,
  arith,
}
use config_server.Model.{AgentMatchContext, CanaryRelease}
use config_server.IpSelector.{Netip, Json}
use config_server.Cache.{KeyValue, IsKeyValue}
use config_server.Store.{Store, is_rolling, Resolved, get_configs_for_agent}
use config_server.Resolve.{
  resolve_agent_key, key_resolve_canaries, AgentConfigSet, Getters, set_of, ResolveCodec, hydrate,
  ResolveCache, set_entry, invalidate_resolve_cache, get_active_canaries, hydrate_agent_config_set,
  resolve_miss, manager_configs_for_agent,
}
use config_server.Resolve.Hydrate.{Reads, hydrate-get_configs_for_agent}
use config_server.Resolve.Calls.{
  Call, IsEpoched, run_calls, get-set_other, get-del_none, get-del_same, canaries_key,
  run_calls-IsEpoched,
}

module _ (net : Netip) (json : Json) (kv : KeyValue) (codec : ResolveCodec)
    (laws : IsKeyValue kv) where
  active : Store → List CanaryRelease
  active s = keep (λ (cr : CanaryRelease). is_rolling cr.status) s.canaries

  -- Without a cached list the canaries are those of the store.
  get_active_canaries_miss :
      (s : Store) (c : ResolveCache net json kv codec)
      → kv.get key_resolve_canaries c.entries ≡ none
      → (get_active_canaries net json kv codec (some s.canaries) c).0 ≡ some (active s)
  unfolding get_active_canaries active
  get_active_canaries_miss s c e = rw (e, get_active_canaries) refl

  get-set_entry :
      (e : ℕ) (m : AgentMatchContext) (raw : Option Bytes) (c : ResolveCache net json kv codec)
      → kv.get key_resolve_canaries c.entries ≡ none
      → kv.get key_resolve_canaries
          (set_entry net json kv codec (resolve_agent_key e m) raw c).entries
        ≡ none
  get-set_entry e m none c h = h
  get-set_entry e m (some raw) c h =
      get-set_other net json kv codec laws key_resolve_canaries (resolve_agent_key e m) raw
        c.entries (λ k. canaries_key net json kv codec laws e m (sym k)) h

  hydrate_agent_config_set-hydrate :
      (g : Getters) (listed : Option (List CanaryRelease)) (crs : List CanaryRelease)
      (m : AgentMatchContext) (aset : AgentConfigSet) (c : ResolveCache net json kv codec)
      → (get_active_canaries net json kv codec listed c).0 ≡ some crs
      → (hydrate_agent_config_set net json kv codec g listed m aset c).0
        ≡ hydrate net json g crs m aset
  unfolding hydrate_agent_config_set
  hydrate_agent_config_set-hydrate g listed crs m aset c e = rw (e, hydrate_agent_config_set) refl

  -- The path of a miss gives the store's resolution.
  resolve_miss-get_configs_for_agent :
      (g : Getters) (s : Store) (m : AgentMatchContext) (r : Resolved)
      (c : ResolveCache net json kv codec)
      → Reads g s
      → get_configs_for_agent net json s m ≡ some r
      → kv.get key_resolve_canaries c.entries ≡ none
      → (resolve_miss net json kv codec g (some s.canaries) (some r) m c).0 ≡ some r
  unfolding resolve_miss active
  resolve_miss-get_configs_for_agent g s m r c reads e h =
      let raw = codec.marshal_set (set_of r) in
      let filled = set_entry net json kv codec (resolve_agent_key c.epoch m) raw c in
      hydrate_agent_config_set-hydrate g (some s.canaries) (active s) m (set_of r) filled
        (get_active_canaries_miss s filled (get-set_entry c.epoch m raw c h))
      ∙ hydrate-get_configs_for_agent net json g s m r reads e

  invalidate_resolve_cache_misses :
      (m : AgentMatchContext) (c : ResolveCache net json kv codec)
      → suc c.epoch < 2 ^ 64
      → IsEpoched kv c.epoch c.entries
      → let d = invalidate_resolve_cache net json kv codec c in
        (kv.get (resolve_agent_key d.epoch m) d.entries ≡ none)
        × (kv.get key_resolve_canaries d.entries ≡ none)
  unfolding invalidate_resolve_cache
  invalidate_resolve_cache_misses m c b h =
      let next : (c.epoch + 1) % 2 ^ 64 ≡ suc c.epoch = omega arith in
      (
        rw next (
            get-del_none net json kv codec laws (resolve_agent_key (suc c.epoch) m)
              key_resolve_canaries c.entries (h.future (suc c.epoch) m (omega arith) b)),
        get-del_same net json kv codec laws key_resolve_canaries c.entries,
      )

  -- After any sequence of lookups and invalidations on a cache that starts empty, however stale
  -- the answers of those lookups were, the lookup that follows an invalidation gives what the
  -- store itself resolves for the agent, with the store's rolling canaries. The getters give the
  -- rows of the store's tables, the resolution of the store succeeds, and the number of calls is
  -- too small for the 64-bit epoch to wrap around.
  pub run_calls-manager_configs_for_agent :
      (g : Getters) (s : Store) (m : AgentMatchContext) (r : Resolved) (calls : List (Call kv))
      (empty : kv.State)
      → Reads g s
      → get_configs_for_agent net json s m ≡ some r
      → suc (length calls) < 2 ^ 64
      → let c =
          run_calls net json kv codec calls (record { epoch = 0; entries = kv.clear empty }) in
        (manager_configs_for_agent net json kv codec g
          (some s.canaries)
          (get_configs_for_agent net json s m)
          m
          (invalidate_resolve_cache net json kv codec c)).0
        ≡ some r
  unfolding manager_configs_for_agent
  run_calls-manager_configs_for_agent g s m r calls empty reads e b =
      let start : ResolveCache net json kv codec = record { epoch = 0; entries = kv.clear empty } in
      let c = run_calls net json kv codec calls start in
      let fresh : IsEpoched kv 0 start.entries = record {
        future = λ j n _ _. laws.get_clear _ empty;
      } in
      let kept = run_calls-IsEpoched net json kv codec laws calls start (omega arith) fresh in
      let (miss, bare) = invalidate_resolve_cache_misses m c (omega (arith, kept.0)) kept.1 in
      rw (miss, e, manager_configs_for_agent)
        (resolve_miss-get_configs_for_agent g s m r (invalidate_resolve_cache net json kv codec c)
          reads e bare)
