-- ===== src/Store/Configs.antt =====
-- The configs that GetConfigsForAgent of internal/store/gormdb/gormdb.go resolves.
use config_server.Prelude.{
  ◌≡◌, refl, ap, ◌∙◌, Bool, not, ◌&&◌, none, some, any, bytes_eq, List, [], ◌∷◌, Bytes, keep, map,
  arith, if◌then◌else◌, Option-cases, inl, inr,
}
use config_server.Model.{
  ConfigType, pipeline, instance_config, onetime, AgentMatchContext, Config, OnetimeCommand,
  CanaryRelease, GroupConfigMapping,
}
use config_server.IpSelector.{Netip, Json}
use config_server.Canary.{canary_eligible}
use config_server.Store.{
  Store, in_set, find_canary, mapped_names, matched_groups, is_rolling, overlay_config, overlay,
  Resolved, get_configs_for_agent, config_type_eq,
}
use config_server.Store.Groups.{in_set-add_name, joins, keeps_out, matched_groups_lem}

abbrev pub names : List Config → List Bytes
names = map (λ (c : Config). c.name)

-- The configs of the table that the groups map.
abbrev pub mapped : ConfigType → List Bytes → Store → List Config → List Config
mapped type groups s = keep (λ (c : Config). in_set c.name (mapped_names type groups s.mappings))

-- The mapping row gives the config of the type to a group that the agent is in.
abbrev pub assigns :
    Netip → Json → Store → AgentMatchContext → ConfigType → Bytes → GroupConfigMapping → Bool
assigns net json s m type name row =
    bytes_eq row.config_name name
    && config_type_eq row.config_type type
    && joins net json s m row.group_name
    && not (any (keeps_out m.version row.group_name) s.groups)

module _ (net : Netip) (json : Json) where
  -- The config as the agent gets it: with the detail and the version of the canary if there is one
  -- for its name and type and the agent is eligible, and as it is stored otherwise.
  overlay_config-canary :
      (crs : List CanaryRelease) (type : ConfigType) (m : AgentMatchContext) (cfg : Config)
      (canary : CanaryRelease) (b : Bool)
      → find_canary cfg.name type crs ≡ some canary
      → canary_eligible net json canary m cfg.name ≡ some b
      → overlay_config net json crs type m cfg
        ≡ some (
            if b
            then record cfg { detail = canary.canary_detail; version = canary.canary_version }
            else cfg)
  unfolding overlay_config
  overlay_config-canary crs type m cfg canary b f e = ground arith

  overlay_config-name :
      (crs : List CanaryRelease) (type : ConfigType) (m : AgentMatchContext) (cfg c : Config)
      → overlay_config net json crs type m cfg ≡ some c
      → c.name ≡ cfg.name
  unfolding overlay_config
  overlay_config-name crs type m cfg c h = elim (Option-cases (find_canary cfg.name type crs)) [
    | inl e ↦ ground arith
    | inr (cr, e) ↦ elim (Option-cases (canary_eligible net json cr m cfg.name)) [
      | inl k ↦ ground arith
      | inr (b, k) ↦ ground arith
    ]
  ]

  overlay-names :
      (crs : List CanaryRelease) (type : ConfigType) (m : AgentMatchContext) (xs ys : List Config)
      → overlay net json crs type m xs ≡ some ys
      → names ys ≡ names xs
  unfolding overlay
  overlay-names crs type m [] ys h = ground arith
  overlay-names crs type m (x ∷ xs) ys h =
      elim (Option-cases (overlay_config net json crs type m x)) [
        | inl e ↦ ground arith
        | inr (c, e) ↦ elim (Option-cases (overlay net json crs type m xs)) [
          | inl k ↦ ground arith
          | inr (cs, k) ↦
              ground (arith, overlay_config-name crs type m x c e, overlay-names crs type m xs cs k)
        ]
      ]

  in_set-mapped_names :
      (s : Store) (m : AgentMatchContext) (groups : List Bytes)
      → matched_groups net json s m ≡ some groups
      → (type : ConfigType) (name : Bytes) (ms : List GroupConfigMapping)
      → in_set name (mapped_names type groups ms) ≡ any (assigns net json s m type name) ms
  unfolding mapped_names in_set
  in_set-mapped_names s m groups g type name [] = refl
  in_set-mapped_names s m groups g type name (row ∷ ms) = ground (
    arith,
    matched_groups_lem net json s m groups row.group_name g,
    in_set-add_name name row.config_name (mapped_names type groups ms),
    in_set-mapped_names s m groups g type name ms,
  )

  mapped-assigned :
      (s : Store) (m : AgentMatchContext) (groups : List Bytes)
      → matched_groups net json s m ≡ some groups
      → (type : ConfigType) (cfgs : List Config)
      → mapped type groups s cfgs
        ≡ keep (λ (c : Config). any (assigns net json s m type c.name) s.mappings) cfgs
  mapped-assigned s m groups g type [] = refl
  mapped-assigned s m groups g type (c ∷ cfgs) = ground (
    arith,
    in_set-mapped_names s m groups g type c.name s.mappings,
    mapped-assigned s m groups g type cfgs,
  )

  onetimes-assigned :
      (s : Store) (m : AgentMatchContext) (groups : List Bytes)
      → matched_groups net json s m ≡ some groups
      → (cmds : List OnetimeCommand)
      → keep (λ (c : OnetimeCommand). in_set c.name (mapped_names onetime groups s.mappings)) cmds
        ≡ keep (λ (c : OnetimeCommand). any (assigns net json s m onetime c.name) s.mappings) cmds
  onetimes-assigned s m groups g [] = refl
  onetimes-assigned s m groups g (c ∷ cmds) = ground (
    arith,
    in_set-mapped_names s m groups g onetime c.name s.mappings,
    onetimes-assigned s m groups g cmds,
  )

  resolved-names :
      (s : Store) (m : AgentMatchContext) (groups : List Bytes) (r : Resolved)
      → matched_groups net json s m ≡ some groups
      → get_configs_for_agent net json s m ≡ some r
      → (names r.pipelines ≡ names (mapped pipeline groups s s.pipelines))
        × (names r.instances ≡ names (mapped instance_config groups s s.instances))
        × (r.onetimes
            ≡ keep
                (λ (c : OnetimeCommand). in_set c.name (mapped_names onetime groups s.mappings))
                s.onetimes)
  unfolding get_configs_for_agent
  resolved-names s m groups r g h =
      let canaries = keep (λ (cr : CanaryRelease). is_rolling cr.status) s.canaries in
      elim (Option-cases
        (overlay net json canaries pipeline m (mapped pipeline groups s s.pipelines))) [
          | inl e ↦ ground arith
          | inr (ps, e) ↦
              elim (Option-cases (
                overlay net json canaries instance_config m
                  (mapped instance_config groups s s.instances))) [
                    | inl k ↦ ground arith
                    | inr (is', k) ↦ ground (
                      arith,
                      overlay-names canaries pipeline m (mapped pipeline groups s s.pipelines) ps e,
                      overlay-names canaries instance_config m
                          (mapped instance_config groups s s.instances) is' k,
                    )
                  ]
        ]

  unmatched :
      (s : Store) (m : AgentMatchContext)
      → matched_groups net json s m ≡ none
      → get_configs_for_agent net json s m ≡ none
  unfolding get_configs_for_agent
  unmatched s m e = rw (e, get_configs_for_agent)

  -- The resolution gives exactly the configs that are assigned to the agent, in the order of the
  -- tables. A config is assigned if a mapping row of its name and type has a group that the agent
  -- is in: by default, by a tag, by its address or by a version constraint, and not kept out by its
  -- version. Canary releases change no name, and onetime commands are taken as they are stored.
  pub get_configs_for_agent-names :
      (s : Store) (m : AgentMatchContext) (r : Resolved)
      → get_configs_for_agent net json s m ≡ some r
      → (names r.pipelines
          ≡ names (
              keep
                (λ (c : Config). any (assigns net json s m pipeline c.name) s.mappings)
                s.pipelines))
        × (names r.instances
            ≡ names (
                keep
                  (λ (c : Config). any (assigns net json s m instance_config c.name) s.mappings)
                  s.instances))
        × (r.onetimes
            ≡ keep
                (λ (c : OnetimeCommand). any (assigns net json s m onetime c.name) s.mappings)
                s.onetimes)
  get_configs_for_agent-names s m r h = elim (Option-cases (matched_groups net json s m)) [
    | inl e ↦ ground (arith, unmatched s m e)
    | inr (groups, g) ↦
        let (ps, is', os) = resolved-names s m groups r g h in
        (
          ps ∙ ap names (mapped-assigned s m groups g pipeline s.pipelines),
          is' ∙ ap names (mapped-assigned s m groups g instance_config s.instances),
          os ∙ onetimes-assigned s m groups g s.onetimes,
        )
  ]
