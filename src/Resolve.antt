-- ===== src/Resolve.antt =====
-- internal/cache/manager.go, the resolution of the configs of an agent: the cached list of names
-- under a key of the epoch and of the agent's attributes, and the content that is read for the
-- names. The resolve cache is a key-value store of the record KeyValue; a failed read of Redis or
-- of the store is failed.
pub mod Key
pub mod Calls
pub mod Epoch
pub mod Hydrate
mod Tests
use Prim.Native.Nat.{bit_xor}
use config_server.Prelude.{
  ℕ, zero, suc, ◌+◌, ◌*◌, ◌/◌, ◌%◌, ◌^◌, Bool, true, false, not, ◌&&◌, ◌||◌, Option, none, some,
  List, [], ◌∷◌, ◌++◌, Bytes, codes, bytes_eq, is_empty, keep, map, ltb, ◌==◌, if◌then◌else◌,
}
use config_server.Model.{
  ConfigType, pipeline, instance_config, AgentGroupTag, AgentMatchContext, Config, OnetimeCommand,
  CanaryRelease, Fetched, found, not_found, failed,
}
use config_server.IpSelector.{Netip, Json}
use config_server.Canary.{canary_eligible}
use config_server.Agent.Onetime.{fnv64a}
use config_server.Cache.{KeyValue}
use config_server.Store.{find_canary, is_rolling, Resolved}

-- Go's order of strings: by bytes, a prefix first.
pub bytes_le : Bytes → Bytes → Bool
bytes_le [] t = true
bytes_le (a ∷ s) [] = false
bytes_le (a ∷ s) (b ∷ t) = ltb a b || ((a == b) && bytes_le s t)

-- sort.Strings.
pub insert_sorted : Bytes → List Bytes → List Bytes
insert_sorted x [] = x ∷ []
insert_sorted x (y ∷ ys) =
    let rest = insert_sorted x ys in if bytes_le x y then x ∷ y ∷ ys else y ∷ rest

pub sort_strings : List Bytes → List Bytes
sort_strings [] = []
sort_strings (x ∷ xs) = insert_sorted x (sort_strings xs)

abbrev pub tag_text : AgentGroupTag → Bytes
tag_text t = t.tag_name ++ (b'=' ∷ t.tag_value)

-- Each text with a NUL after it.
unfoldable pub with_nuls : List Bytes → Bytes
with_nuls [] = []
with_nuls (s ∷ ss) = s ++ (0 ∷ with_nuls ss)

-- What the hash is fed.
pub agent_attributes : AgentMatchContext → Bytes
agent_attributes m = with_nuls (
    m.ip
    ∷ (if is_empty m.hostid then m.hostname else m.hostid)
    ∷ m.version
    ∷ sort_strings (map tag_text m.tags))

-- binary.LittleEndian.PutUint64, for a number of bytes.
pub little_endian : ℕ → ℕ → Bytes
little_endian zero n = []
little_endian (suc k) n = n % 256 ∷ little_endian k (n / 256)

-- The epoch, a uint64, and the hash, in 8 bytes each.
pub resolve_agent_key : ℕ → AgentMatchContext → Bytes
resolve_agent_key epoch m =
    little_endian 8 epoch ++ little_endian 8 (fnv64a 14695981039346656037 (agent_attributes m))

abbrev pub key_resolve_canaries : Bytes
key_resolve_canaries = codes "__canaries__"

-- agentConfigSet.
pub record AgentConfigSet : Type 0 where
  pub pipelines : List Bytes
  pub instances : List Bytes
  pub onetimes : List Bytes

-- The getters of the manager that hydrateAgentConfigSet calls.
pub record Getters : Type 0 where
  pub pipeline : Bytes → Fetched Config
  pub instance : Bytes → Fetched Config
  pub onetime : Bytes → Fetched OnetimeCommand

-- The loop over the onetime names.
pub hydrate_onetimes : (Bytes → Fetched OnetimeCommand) → List Bytes → Option (List OnetimeCommand)
hydrate_onetimes get [] = some []
hydrate_onetimes get (name ∷ names) =
    let rest = hydrate_onetimes get names in
    elim (get name) [
      | failed ↦ none
      | not_found ↦ rest
      | found cmd ↦ elim rest [ none ↦ none | some cmds ↦ some (cmd ∷ cmds) ]
    ]

abbrev pub set_of : Resolved → AgentConfigSet
set_of r = record {
  pipelines = map (λ (c : Config). c.name) r.pipelines;
  instances = map (λ (c : Config). c.name) r.instances;
  onetimes = map (λ (c : OnetimeCommand). c.name) r.onetimes;
}

-- encoding/json on what the resolve cache holds.
pub record ResolveCodec : Type 0 where
  pub marshal_set : AgentConfigSet → Option Bytes
  pub unmarshal_set : Bytes → Option AgentConfigSet
  pub marshal_canaries : List CanaryRelease → Option Bytes
  pub unmarshal_canaries : Bytes → Option (List CanaryRelease)

abbrev pub decode_by : {A : Type 0} → (Bytes → Option A) → Option Bytes → Option A
decode_by unmarshal none = none
decode_by unmarshal (some raw) = unmarshal raw

module _ (net : Netip) (json : Json) where
  -- The overlay of the cached path: an error of the eligibility is logged, and the stable config
  -- is given.
  pub overlay_cached : List CanaryRelease → ConfigType → AgentMatchContext → Bytes → Config → Config
  overlay_cached crs type m name cfg = elim (find_canary name type crs) [
    | none ↦ cfg
    | some cr ↦ elim (canary_eligible net json cr m name) [
      | none ↦ cfg
      | some eligible ↦
          if eligible
          then record cfg { detail = cr.canary_detail; version = cr.canary_version }
          else cfg
    ]
  ]

  -- The loop over the pipeline names, and over the instance names. A config that is not found is
  -- skipped.
  pub hydrate_configs :
      (Bytes → Fetched Config)
      → List CanaryRelease
      → ConfigType
      → AgentMatchContext
      → List Bytes
      → Option (List Config)
  hydrate_configs get crs type m [] = some []
  hydrate_configs get crs type m (name ∷ names) =
      let rest = hydrate_configs get crs type m names in
      elim (get name) [
        | failed ↦ none
        | not_found ↦ rest
        | found cfg ↦ elim rest [
          | none ↦ none
          | some cfgs ↦ some (overlay_cached crs type m name cfg ∷ cfgs)
        ]
      ]

  -- hydrateAgentConfigSet, from the list of canaries on.
  pub hydrate : Getters → List CanaryRelease → AgentMatchContext → AgentConfigSet → Option Resolved
  hydrate g crs m aset = elim (hydrate_configs g.pipeline crs pipeline m aset.pipelines) [
    | none ↦ none
    | some ps ↦ elim (hydrate_configs g.instance crs instance_config m aset.instances) [
      | none ↦ none
      | some is' ↦ elim (hydrate_onetimes g.onetime aset.onetimes) [
        | none ↦ none
        | some os ↦ some (record { pipelines = ps; instances = is'; onetimes = os })
      ]
    ]
  ]

  module _ (kv : KeyValue) (codec : ResolveCodec) where
    -- resolveCache and resolveEpoch.
    pub record ResolveCache : Type 0 where
      pub epoch : ℕ
      pub entries : kv.State

    abbrev pub set_entry : Bytes → Option Bytes → ResolveCache → ResolveCache
    set_entry key none c = c
    set_entry key (some raw) c = record c { entries = kv.set key raw c.entries }

    -- The message to the other replicas is not part of this replica's cache.
    pub invalidate_resolve_cache : ResolveCache → ResolveCache
    invalidate_resolve_cache c = record {
      epoch = (c.epoch + 1) % 2 ^ 64;
      entries = kv.del key_resolve_canaries c.entries;
    }

    -- The list of the store is none where ListCanaries fails.
    pub get_active_canaries :
        Option (List CanaryRelease) → ResolveCache → Option (List CanaryRelease) × ResolveCache
    get_active_canaries listed c =
        elim (decode_by codec.unmarshal_canaries (kv.get key_resolve_canaries c.entries)) [
          | some crs ↦ (some crs, c)
          | none ↦ elim listed [
            | none ↦ (none, c)
            | some all ↦
                let active = keep (λ (cr : CanaryRelease). is_rolling cr.status) all in
                (some active, set_entry key_resolve_canaries (codec.marshal_canaries active) c)
          ]
        ]

    pub hydrate_agent_config_set :
        Getters
        → Option (List CanaryRelease)
        → AgentMatchContext
        → AgentConfigSet
        → ResolveCache
        → Option Resolved × ResolveCache
    hydrate_agent_config_set g listed m aset c =
        let r = get_active_canaries listed c in
        (elim r.0 [ none ↦ none | some crs ↦ hydrate g crs m aset ], r.1)

    -- The path of a miss. The store's resolution is none where it fails.
    pub resolve_miss :
        Getters
        → Option (List CanaryRelease)
        → Option Resolved
        → AgentMatchContext
        → ResolveCache
        → Option Resolved × ResolveCache
    resolve_miss g listed none m c = (none, c)
    resolve_miss g listed (some r) m c =
        hydrate_agent_config_set g listed m (set_of r)
          (set_entry (resolve_agent_key c.epoch m) (codec.marshal_set (set_of r)) c)

    pub manager_configs_for_agent :
        Getters
        → Option (List CanaryRelease)
        → Option Resolved
        → AgentMatchContext
        → ResolveCache
        → Option Resolved × ResolveCache
    manager_configs_for_agent g listed resolved m c =
        elim (decode_by codec.unmarshal_set (kv.get (resolve_agent_key c.epoch m) c.entries)) [
          | some aset ↦ hydrate_agent_config_set g listed m aset c
          | none ↦ resolve_miss g listed resolved m c
        ]
