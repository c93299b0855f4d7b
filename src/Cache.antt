-- ===== src/Cache.antt =====
-- internal/cache/manager.go, the tiers that a config is read through: the local cache (L1), Redis
-- where there is one (L2), and the store (L3). freecache and the Redis client are key-value stores
-- of the record KeyValue; what they drop by themselves, for space or age, is in its laws. The
-- pipeline, instance and onetime getters are one definition, over the type of the rows. The Lua
-- script of the backfill compares numbers exactly.
pub mod Coherent
pub mod Stale
pub mod Reconcile
mod Tests
use config_server.Prelude.{
  ℕ, ◌≡◌, ◌⊎◌, Bool, true, false, not, ◌&&◌, ◌||◌, Option, none, some, List, [], ◌∷◌, ◌++◌, Bytes,
  codes, bytes_eq, ℤ, pos, negsuc, int_eq, int_lt, if◌then◌else◌,
}
use config_server.Model.{OnetimeCommand, Fetched, found, not_found, failed}

-- The clients of freecache and of Redis, on the keys of one server. `clear` is the one that drops
-- all entries.
pub record KeyValue : Type 1 where
  pub State : Type 0
  pub get : Bytes → State → Option Bytes
  pub set : Bytes → Bytes → State → State
  pub del : Bytes → State → State
  pub clear : State → State

-- What is relied on: an entry that is read was there before or is the one that was set, a deleted
-- entry is gone, and deleting changes no other entry. A store may drop entries at any time, so no
-- law says that an entry that is set can be read.
pub record IsKeyValue (kv : KeyValue) : Type 0 where
  pub get_set :
      (j k raw v : Bytes) (s : kv.State)
      → kv.get j (kv.set k v s) ≡ some raw
      → ((k ≡ j) × (v ≡ raw)) ⊎ (kv.get j s ≡ some raw)
  pub get_del :
      (j k raw : Bytes) (s : kv.State)
      → kv.get j (kv.del k s) ≡ some raw
      → (bytes_eq k j ≡ false) × (kv.get j s ≡ some raw)
  pub get_clear : (j : Bytes) (s : kv.State) → kv.get j (kv.clear s) ≡ none

abbrev pub prefix_pipeline : Bytes
prefix_pipeline = codes "cfg:pipeline:"

abbrev prefix_instance : Bytes
prefix_instance = codes "cfg:instance:"

abbrev prefix_onetime : Bytes
prefix_onetime = codes "cfg:onetime:"

-- encoding/json on the rows of a table, with the version that the cache goes by, the field Version
-- that the script reads, and the change that a row gets before it is cached: only onetime commands
-- get one.
pub record RowCodec (A : Type 0) : Type 0 where
  pub marshal : A → Option Bytes
  pub unmarshal : Bytes → Option A
  pub version : A → ℤ
  pub field : A → ℤ
  pub prepare : A → A

-- The version of a command is its own, else its creation time. Go's zero time is none of the
-- model's times: a command without one has the time 0.
unfoldable pub onetime_cache_version : OnetimeCommand → ℤ
onetime_cache_version cmd = if int_lt (pos 0) cmd.version then cmd.version else cmd.created_at

-- GetOnetimeCommand gives a command without a version the one that the cache goes by.
unfoldable pub prepare_onetime : OnetimeCommand → OnetimeCommand
prepare_onetime cmd =
    if int_eq cmd.version (pos 0) then record cmd { version = onetime_cache_version cmd } else cmd

module _ (near far : KeyValue) where
  -- l1 and rdb of the manager; none is the mode without Redis.
  pub record Tiers : Type 0 where
    pub l1 : near.State
    pub l2 : Option far.State

  pub l1_set : Bytes → Bytes → Tiers → Tiers
  l1_set key raw t = record t { l1 = near.set key raw t.l1 }

  pub get_l2 : Bytes → Option far.State → Option Bytes
  get_l2 key none = none
  get_l2 key (some s) = far.get key s

  -- Del on Redis, if it succeeds. The fallback shortens the time to live of the entry.
  pub del_l2 : Bool → Bytes → Option far.State → Option far.State
  del_l2 reached key none = none
  del_l2 reached key (some s) = if reached then some (far.del key s) else some s

  -- The message to the other replicas is not part of this replica's tiers.
  pub invalidate : Bool → Bytes → Tiers → Tiers
  invalidate reached key t = record { l1 = near.del key t.l1; l2 = del_l2 reached key t.l2 }

  -- The loop of subscribeInvalidations on a message that names a key, and on a lost connection.
  pub receive_invalidation : Bytes → Tiers → Tiers
  receive_invalidation key t = record t { l1 = near.del key t.l1 }

  pub receive_error : Tiers → Tiers
  receive_error t = record t { l1 = near.clear t.l1 }

  module _ {A : Type 0} (codec : RowCodec A) where
    -- The entry decoded, none if there is no entry or it does not decode.
    unfoldable pub decoded : Option Bytes → Option A
    decoded none = none
    decoded (some raw) = codec.unmarshal raw

    -- Whether the script leaves the entry that Redis holds: its version is not smaller.
    pub keeps_current : ℤ → Option A → Bool
    keeps_current version none = false
    keeps_current version (some c) = not (int_lt (codec.field c) version)

    -- The Lua script.
    pub backfill_script : Bytes → Bytes → ℤ → far.State → far.State
    backfill_script key raw version s =
        if not (int_lt (pos 0) version)
        then s
        else if keeps_current version (decoded (far.get key s))
        then s
        else far.set key raw s

    pub backfill_l2 : Bytes → Bytes → ℤ → Option far.State → Option far.State
    backfill_l2 key raw version none = none
    backfill_l2 key raw version (some s) = some (backfill_script key raw version s)

    pub backfill : Bytes → A → Tiers → Tiers
    backfill key c t = elim (codec.marshal c) [
      | none ↦ t
      | some raw ↦ record {
        l1 = near.set key raw t.l1;
        l2 = backfill_l2 key raw (codec.version c) t.l2;
      }
    ]

    -- The step after the caches missed, from what the store answers.
    pub fill : Bytes → Fetched A → Tiers → Fetched A × Tiers
    fill key (found c) t = (found (codec.prepare c), backfill key (codec.prepare c) t)
    fill key not_found t = (not_found, t)
    fill key failed t = (failed, t)

    -- The second tier. An entry that decodes is copied to the first.
    pub get_far : Bytes → Fetched A → Tiers → Option Bytes → Fetched A × Tiers
    get_far key row t none = fill key row t
    get_far key row t (some raw) = elim (codec.unmarshal raw) [
      | none ↦ fill key row t
      | some c ↦ (found c, l1_set key raw t)
    ]

    -- GetPipelineConfig, GetInstanceConfig and GetOnetimeCommand, with the store's answer for the
    -- name as an argument: it is used if both caches miss.
    unfoldable pub get_config : Bytes → Fetched A → Tiers → Fetched A × Tiers
    get_config key row t = elim (decoded (near.get key t.l1)) [
      | some c ↦ (found c, t)
      | none ↦ get_far key row t (get_l2 key t.l2)
    ]

    -- One step of the loops of reconcileCache over the rows of a table.
    pub reconcile_row : Bool → Bytes → A → Tiers → Tiers
    reconcile_row reached key row t = elim (decoded (get_l2 key t.l2)) [
      | none ↦ t
      | some c ↦
          if int_eq (codec.version c) (codec.version row) then t else invalidate reached key t
    ]
