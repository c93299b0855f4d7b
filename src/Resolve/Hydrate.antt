-- ===== src/Resolve/Hydrate.antt =====
-- The cached resolution of internal/cache/manager.go against that of the store.
use config_server.Prelude.{
  ◌≡◌, refl, Bool, some, List, [], ◌∷◌, Bytes, keep, map, All, arith, Option-cases, Bool-cases, inl,
  inr,
}
use config_server.Model.{
  ConfigType, pipeline, instance_config, onetime, AgentMatchContext, Config, OnetimeCommand,
  CanaryRelease, Fetched, found,
}
use config_server.IpSelector.{Netip, Json}
use config_server.Canary.{canary_eligible}
use config_server.Store.{
  Store, in_set, is_rolling, find_canary, mapped_names, matched_groups, overlay_config, overlay,
  Resolved, get_configs_for_agent,
}
use config_server.Store.Configs.{names}
use config_server.Resolve.{
  Getters, overlay_cached, hydrate_configs, hydrate_onetimes, hydrate, set_of,
}

-- The getters give the rows of the store's tables.
pub record Reads (g : Getters) (s : Store) : Type 0 where
  pub pipelines : All (λ (c : Config). g.pipeline c.name ≡ found c) s.pipelines
  pub instances : All (λ (c : Config). g.instance c.name ≡ found c) s.instances
  pub onetimes : All (λ (c : OnetimeCommand). g.onetime c.name ≡ found c) s.onetimes

All-keep {ℓ κ} :
    {A : Type ℓ} (P : A → Type κ) (p : A → Bool) (xs : List A) → All P xs → All P (keep p xs)
All-keep P p [] h = h
All-keep P p (x ∷ xs) h = elim (Bool-cases (p x)) [
  | inl e ↦ rw e (h.0, All-keep P p xs h.1)
  | inr e ↦ rw e (All-keep P p xs h.1)
]

module _ (net : Netip) (json : Json) where
  -- One config: the overlay of the store and that of the cached path.
  overlay_config-cached :
      (crs : List CanaryRelease) (type : ConfigType) (m : AgentMatchContext) (x c : Config)
      → overlay_config net json crs type m x ≡ some c
      → (overlay_cached net json crs type m x.name x ≡ c) × (c.name ≡ x.name)
  unfolding overlay_config overlay_cached
  overlay_config-cached crs type m x c h = elim (Option-cases (find_canary x.name type crs)) [
    | inl e ↦ ground arith
    | inr (cr, e) ↦ elim (Option-cases (canary_eligible net json cr m x.name)) [
      | inl k ↦ ground arith
      | inr (b, k) ↦ ground arith
    ]
  ]

  hydrate_configs-overlay :
      (get : Bytes → Fetched Config) (crs : List CanaryRelease) (type : ConfigType)
      (m : AgentMatchContext) (xs ys : List Config)
      → All (λ (c : Config). get c.name ≡ found c) xs
      → overlay net json crs type m xs ≡ some ys
      → hydrate_configs net json get crs type m (names ys) ≡ some ys
  unfolding overlay hydrate_configs
  hydrate_configs-overlay get crs type m [] ys a h = ground arith
  hydrate_configs-overlay get crs type m (x ∷ xs) ys a h =
      elim (Option-cases (overlay_config net json crs type m x)) [
        | inl e ↦ ground arith
        | inr (c, e) ↦ elim (Option-cases (overlay net json crs type m xs)) [
          | inl k ↦ ground arith
          | inr (cs, k) ↦ ground (
            arith,
            overlay_config-cached crs type m x c e,
            hydrate_configs-overlay get crs type m xs cs a.1 k,
            a.0,
          )
        ]
      ]

  hydrate_onetimes-All :
      (get : Bytes → Fetched OnetimeCommand) (xs : List OnetimeCommand)
      → All (λ (c : OnetimeCommand). get c.name ≡ found c) xs
      → hydrate_onetimes get (map (λ (c : OnetimeCommand). c.name) xs) ≡ some xs
  unfolding hydrate_onetimes
  hydrate_onetimes-All get [] a = refl
  hydrate_onetimes-All get (x ∷ xs) a = ground (arith, a.0, hydrate_onetimes-All get xs a.1)

  -- Where the store's own resolution succeeds, the cached path gives the same configs, in the same
  -- order and with the same canary overlays, from the names of that resolution alone. The getters
  -- give the rows of the tables, and the list of canaries is that of the store.
  pub hydrate-get_configs_for_agent :
      (g : Getters) (s : Store) (m : AgentMatchContext) (r : Resolved)
      → Reads g s
      → get_configs_for_agent net json s m ≡ some r
      → hydrate net json g
          (keep (λ (cr : CanaryRelease). is_rolling cr.status) s.canaries)
          m
          (set_of r)
        ≡ some r
  unfolding get_configs_for_agent hydrate
  hydrate-get_configs_for_agent g s m r reads h =
      elim (Option-cases (matched_groups net json s m)) [
        | inl n ↦ ground arith
        | inr (groups, n) ↦
            let canaries = keep (λ (cr : CanaryRelease). is_rolling cr.status) s.canaries in
            let pred : Config → Bool =
              λ (c : Config). in_set c.name (mapped_names pipeline groups s.mappings) in
            let ired : Config → Bool =
              λ (c : Config). in_set c.name (mapped_names instance_config groups s.mappings) in
            let ored : OnetimeCommand → Bool =
              λ (c : OnetimeCommand). in_set c.name (mapped_names onetime groups s.mappings) in
            elim (Option-cases (overlay net json canaries pipeline m (keep pred s.pipelines))) [
              | inl e ↦ ground arith
              | inr (ps, e) ↦
                  elim (Option-cases
                    (overlay net json canaries instance_config m (keep ired s.instances))) [
                      | inl k ↦ ground arith
                      | inr (is', k) ↦ ground (
                        arith,
                        hydrate_configs-overlay g.pipeline canaries pipeline m
                            (keep pred s.pipelines) ps
                            (All-keep (λ (c : Config). g.pipeline c.name ≡ found c) pred s.pipelines
                              reads.pipelines)
                            e,
                        hydrate_configs-overlay g.instance canaries instance_config m
                            (keep ired s.instances) is'
                            (All-keep (λ (c : Config). g.instance c.name ≡ found c) ired s.instances
                              reads.instances)
                            k,
                        hydrate_onetimes-All g.onetime (keep ored s.onetimes) (
                            All-keep (λ (c : OnetimeCommand). g.onetime c.name ≡ found c) ored
                              s.onetimes reads.onetimes),
                      )
                    ]
            ]
      ]
