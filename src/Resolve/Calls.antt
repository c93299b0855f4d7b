-- ===== src/Resolve/Calls.antt =====
-- Sequences of calls on the resolve cache of internal/cache/manager.go, and the entries that they
-- leave.
use config_server.Prelude.{
  ◌≡◌, ◌≢◌, refl, sym, ap, ℕ, suc, ◌+◌, ◌^◌, ◌<◌, Option, none, some, List, [], ◌∷◌, Bytes, length,
  bytes_eq_refl, ◌∙◌, subst, arith, Option-cases, inl, inr,
}
use config_server.Model.{AgentMatchContext, CanaryRelease}
use config_server.IpSelector.{Netip, Json}
use config_server.Cache.{KeyValue, IsKeyValue}
use config_server.Store.{Resolved}
use config_server.Resolve.{
  resolve_agent_key, key_resolve_canaries, Getters, set_of, ResolveCodec, decode_by, ResolveCache,
  set_entry, invalidate_resolve_cache, get_active_canaries, hydrate_agent_config_set, resolve_miss,
  manager_configs_for_agent,
}
use config_server.Resolve.Key.{length-resolve_agent_key, resolve_agent_key_epoch}

module _ (kv : KeyValue) where
  -- A call on the resolve cache: a lookup for an agent, with what the manager's reads answer at
  -- the time, or an invalidation.
  pub data Call : Type 0 where
    look_up : Getters → Option (List CanaryRelease) → Option Resolved → AgentMatchContext → Call
    invalidated : Call

  -- No entry of an epoch that is still to come.
  pub record IsEpoched (epoch : ℕ) (s : kv.State) : Type 0 where
    pub future :
        (j : ℕ) (m : AgentMatchContext)
        → epoch < j
        → j < 2 ^ 64
        → kv.get (resolve_agent_key j m) s ≡ none

module _ (net : Netip) (json : Json) (kv : KeyValue) (codec : ResolveCodec) where
  -- The cache after a sequence of calls.
  pub run_calls : List (Call kv) → ResolveCache net json kv codec → ResolveCache net json kv codec
  run_calls [] c = c
  run_calls (look_up g listed resolved m ∷ calls) c =
      run_calls calls (manager_configs_for_agent net json kv codec g listed resolved m c).1
  run_calls (invalidated ∷ calls) c = run_calls calls (invalidate_resolve_cache net json kv codec c)

  module _ (laws : IsKeyValue kv) where
    pub get-set_other :
        (j k raw : Bytes) (s : kv.State)
        → k ≢ j
        → kv.get j s ≡ none
        → kv.get j (kv.set k raw s) ≡ none
    get-set_other j k raw s other e = elim (Option-cases (kv.get j (kv.set k raw s))) [
      | inl n ↦ n
      | inr (v, n) ↦ ground (arith, laws.get_set j k v raw s n)
    ]

    pub get-del_none :
        (j k : Bytes) (s : kv.State) → kv.get j s ≡ none → kv.get j (kv.del k s) ≡ none
    get-del_none j k s e = elim (Option-cases (kv.get j (kv.del k s))) [
      | inl n ↦ n
      | inr (v, n) ↦ ground (arith, laws.get_del j k v s n)
    ]

    pub get-del_same : (k : Bytes) (s : kv.State) → kv.get k (kv.del k s) ≡ none
    get-del_same k s = elim (Option-cases (kv.get k (kv.del k s))) [
      | inl n ↦ n
      | inr (v, n) ↦ ground (arith, laws.get_del k k v s n, bytes_eq_refl k)
    ]

    pub canaries_key :
        (e : ℕ) (m : AgentMatchContext) → key_resolve_canaries ≢ resolve_agent_key e m
    canaries_key e m h = omega (arith, length-resolve_agent_key e m, ap length h)

    IsEpoched-set_entry :
        (epoch e : ℕ) (m : AgentMatchContext) (raw : Option Bytes)
        (c : ResolveCache net json kv codec)
        → e < suc epoch
        → epoch < 2 ^ 64
        → IsEpoched kv epoch c.entries
        → IsEpoched kv epoch (set_entry net json kv codec (resolve_agent_key e m) raw c).entries
    IsEpoched-set_entry epoch e m none c b w h = h
    IsEpoched-set_entry epoch e m (some raw) c b w h = record {
      future = λ j n after bound.
          get-set_other (resolve_agent_key j n) (resolve_agent_key e m) raw c.entries
            (λ same. omega (arith, resolve_agent_key_epoch e j m n (omega arith) bound same))
            (h.future j n after bound);
    }

    IsEpoched-canaries :
        (epoch : ℕ) (raw : Option Bytes) (c : ResolveCache net json kv codec)
        → IsEpoched kv epoch c.entries
        → IsEpoched kv epoch (set_entry net json kv codec key_resolve_canaries raw c).entries
    IsEpoched-canaries epoch none c h = h
    IsEpoched-canaries epoch (some raw) c h = record {
      future = λ j n after bound.
          get-set_other (resolve_agent_key j n) key_resolve_canaries raw c.entries
            (canaries_key j n) (h.future j n after bound);
    }

    set_entry_epoch :
        (key : Bytes) (raw : Option Bytes) (c : ResolveCache net json kv codec)
        → (set_entry net json kv codec key raw c).epoch ≡ c.epoch
    set_entry_epoch key none c = refl
    set_entry_epoch key (some raw) c = refl

    -- A step of a lookup keeps the epoch and its invariant.
    abbrev Stays : ResolveCache net json kv codec → ResolveCache net json kv codec → Type 0
    Stays c d =
        (d.epoch ≡ c.epoch) × (IsEpoched kv c.epoch c.entries → IsEpoched kv c.epoch d.entries)

    get_active_canaries-Stays :
        (listed : Option (List CanaryRelease)) (c : ResolveCache net json kv codec)
        → Stays c (get_active_canaries net json kv codec listed c).1
    unfolding get_active_canaries
    get_active_canaries-Stays listed c =
        elim (Option-cases
          (decode_by codec.unmarshal_canaries (kv.get key_resolve_canaries c.entries))) [
            | inr (crs, e) ↦ rw (e, get_active_canaries) (refl, λ h. h)
            | inl e ↦ elim (Option-cases listed) [
              | inl n ↦ rw (e, n, get_active_canaries) (refl, λ h. h)
              | inr (all, n) ↦
                  rw (e, n, get_active_canaries)
                    (set_entry_epoch _ _ c, IsEpoched-canaries c.epoch _ c)
            ]
          ]

    resolve_miss-Stays :
        (g : Getters) (listed : Option (List CanaryRelease)) (resolved : Option Resolved)
        (m : AgentMatchContext) (c : ResolveCache net json kv codec)
        → c.epoch < 2 ^ 64
        → Stays c (resolve_miss net json kv codec g listed resolved m c).1
    unfolding resolve_miss hydrate_agent_config_set
    resolve_miss-Stays g listed none m c b = (refl, λ h. h)
    resolve_miss-Stays g listed (some r) m c b =
        let raw = codec.marshal_set (set_of r) in
        let key = resolve_agent_key c.epoch m in
        let filled = set_entry net json kv codec key raw c in
        let (e, keeps) = get_active_canaries-Stays listed filled in
        let same = set_entry_epoch key raw c in
        (
          e ∙ same,
          λ h.
              subst
                (λ n.
                  IsEpoched kv n (get_active_canaries net json kv codec listed filled).1.entries)
                same
                (keeps (
                  subst (λ n. IsEpoched kv n filled.entries) (sym same)
                    (IsEpoched-set_entry c.epoch c.epoch m raw c (omega arith) b h))),
        )

    manager_configs_for_agent-Stays :
        (g : Getters) (listed : Option (List CanaryRelease)) (resolved : Option Resolved)
        (m : AgentMatchContext) (c : ResolveCache net json kv codec)
        → c.epoch < 2 ^ 64
        → Stays c (manager_configs_for_agent net json kv codec g listed resolved m c).1
    unfolding manager_configs_for_agent hydrate_agent_config_set
    manager_configs_for_agent-Stays g listed resolved m c b =
        elim (Option-cases
          (decode_by codec.unmarshal_set (kv.get (resolve_agent_key c.epoch m) c.entries))) [
            | inr (aset, e) ↦ rw (e, manager_configs_for_agent) (get_active_canaries-Stays listed c)
            | inl e ↦ rw (e, manager_configs_for_agent) (resolve_miss-Stays g listed resolved m c b)
          ]

    invalidate_resolve_cache-IsEpoched :
        (c : ResolveCache net json kv codec)
        → suc c.epoch < 2 ^ 64
        → IsEpoched kv c.epoch c.entries
        → ((invalidate_resolve_cache net json kv codec c).epoch ≡ suc c.epoch)
          × IsEpoched kv (suc c.epoch) (invalidate_resolve_cache net json kv codec c).entries
    unfolding invalidate_resolve_cache
    invalidate_resolve_cache-IsEpoched c b h = (
      omega arith,
      record {
        future = λ j m after bound.
            get-del_none (resolve_agent_key j m) key_resolve_canaries c.entries
              (h.future j m (omega arith) bound);
      },
    )

    -- The invariant of any sequence of calls: no entry is kept under a key of an epoch that is still
    -- to come, as long as the counter, which starts at 0, does not wrap around. The start is an empty
    -- cache, and each call counts for at most one epoch.
    pub run_calls-IsEpoched :
        (calls : List (Call kv)) (c : ResolveCache net json kv codec)
        → c.epoch + length calls < 2 ^ 64
        → IsEpoched kv c.epoch c.entries
        → ((run_calls calls c).epoch < suc (c.epoch + length calls))
          × IsEpoched kv (run_calls calls c).epoch (run_calls calls c).entries
    unfolding run_calls
    run_calls-IsEpoched [] c b h = (omega arith, h)
    run_calls-IsEpoched (look_up g listed resolved m ∷ calls) c b h =
        let d = (manager_configs_for_agent net json kv codec g listed resolved m c).1 in
        let (e, keeps) = manager_configs_for_agent-Stays g listed resolved m c (omega arith) in
        let next =
          run_calls-IsEpoched calls d (rw e (omega arith))
            (subst (λ n. IsEpoched kv n d.entries) (sym e) (keeps h)) in
        (omega (arith, e, next.0), next.1)
    run_calls-IsEpoched (invalidated ∷ calls) c b h =
        let d = invalidate_resolve_cache net json kv codec c in
        let (e, kept) = invalidate_resolve_cache-IsEpoched c (omega arith) h in
        let next =
          run_calls-IsEpoched calls d (rw e (omega arith))
            (subst (λ n. IsEpoched kv n d.entries) (sym e) kept) in
        (omega (arith, e, next.0), next.1)
