-- ===== src/Cache/Tests.antt =====
-- The theorems on the tiers of internal/cache/manager.go, for two caches that keep what they are
-- given and configs with a name of one letter.
use config_server.Prelude.{
  ◌≡◌, refl, ℕ, Bool, true, false, Option, none, some, List, [], ◌∷◌, ◌++◌, Bytes, codes, bytes_eq,
  bytes_eq_iff, ℤ, pos, negsuc, ◌⊎◌, inl, inr, arith, if◌then◌else◌,
}
use config_server.Prelude.Dict.{Dict, lookup, insert, erase, lookup-insert, lookup-erase}
use config_server.Model.{Config, Fetched, found, not_found}
use config_server.Registry.{member}
use config_server.Cache.{
  KeyValue, IsKeyValue, RowCodec, Tiers, prefix_pipeline, get_l2, decoded, keeps_current, backfill,
  get_config, l1_set, invalidate, receive_invalidation, receive_error, backfill_script, backfill_l2,
  fill, get_far, reconcile_row, del_l2,
}
use config_server.Cache.Coherent.{
  Operation, read, write, message, reconnect, IsRowCodec, IsCoherent, run, plain, run-plain,
}
use config_server.Cache.Stale.{get_config-backfill}
use config_server.Cache.Reconcile.{
  reconcile_table, reconcile_rows, cleanup_key, cleanup_deleted, reconcile_table-versions,
}

abbrev dict_store : KeyValue
dict_store = record { State = Dict Bytes; get = lookup; set = insert; del = erase; clear = λ _. [] }

dict_store-IsKeyValue : IsKeyValue dict_store
unfolding lookup
dict_store-IsKeyValue = record {
  get_set = λ j k raw v s e. ground (arith, lookup-insert k j v s, bytes_eq_iff k j);
  get_del = λ j k raw s e. ground (arith, lookup-erase k j s);
  get_clear = λ j s. refl;
}

abbrev marshal_parts : Bytes → ℤ → Bytes → Option Bytes
marshal_parts (b ∷ []) (pos n) d = some (b ∷ n ∷ d)
marshal_parts _ _ _ = none

abbrev unmarshal_config : Bytes → Option Config
unmarshal_config (b ∷ n ∷ d) = some (record { name = b ∷ []; version = pos n; detail = d })
unmarshal_config _ = none

abbrev config_codec : RowCodec Config
config_codec = record {
  marshal = λ (c : Config). marshal_parts c.name c.version c.detail;
  unmarshal = unmarshal_config;
  version = λ (c : Config). c.version;
  field = λ (c : Config). c.version;
  prepare = λ (c : Config). c;
}

unmarshal_config_parts :
    (n d raw : Bytes) (v : ℤ)
    → marshal_parts n v d ≡ some raw
    → unmarshal_config raw ≡ some (record { name = n; version = v; detail = d })
unmarshal_config_parts [] d raw v e = ground arith
unmarshal_config_parts (b ∷ []) d raw (pos n) e = ground arith
unmarshal_config_parts (b ∷ []) d raw (negsuc n) e = ground arith
unmarshal_config_parts (b ∷ c ∷ s) d raw v e = ground arith

config_codec-IsRowCodec : IsRowCodec config_codec
config_codec-IsRowCodec = record {
  reads_back = λ c raw e. unmarshal_config_parts c.name c.detail raw c.version e;
}

abbrev old_config : Config
old_config = record { name = codes "n"; version = pos 1; detail = codes "old" }

abbrev new_config : Config
new_config = record { name = codes "n"; version = pos 2; detail = codes "new" }

abbrev old_raw : Bytes
old_raw = b'n' ∷ 1 ∷ codes "old"

abbrev new_raw : Bytes
new_raw = b'n' ∷ 2 ∷ codes "new"

abbrev key : Bytes
key = prefix_pipeline ++ codes "n"

abbrev no_rows : Bytes → Fetched Config
no_rows _ = not_found

abbrev empty_tiers : Tiers dict_store dict_store
empty_tiers = record { l1 = []; l2 = some [] }

empty_tiers-IsCoherent : IsCoherent dict_store dict_store config_codec no_rows empty_tiers
unfolding lookup get_l2 decoded
empty_tiers-IsCoherent = record {
  near_true = λ j c e. ground arith;
  far_true = λ j c e. ground arith;
}

-- A write, a read that fills both tiers, a read of the local cache, a second write and a read.
abbrev operations : List (Operation Config)
operations =
    write key (found old_config)
    ∷ read key
    ∷ message (codes "other")
    ∷ read key
    ∷ write key (found new_config)
    ∷ reconnect
    ∷ read key
    ∷ []

run-plain_example :
    run dict_store dict_store config_codec operations no_rows empty_tiers
    ≡ found old_config ∷ found old_config ∷ found new_config ∷ []
unfolding plain config_server.Cache.Coherent.written bytes_eq
run-plain_example =
    run-plain dict_store dict_store config_codec dict_store-IsKeyValue dict_store-IsKeyValue
      config_codec-IsRowCodec operations no_rows empty_tiers empty_tiers-IsCoherent

-- Redis holds the new config when a reader with the old row backfills.
abbrev newer_tiers : Tiers dict_store dict_store
newer_tiers = record { l1 = []; l2 = some ((key, new_raw) ∷ []) }

get_config-backfill_example :
    ((get_config dict_store dict_store config_codec key
        (found new_config)
        (backfill dict_store dict_store config_codec key old_config newer_tiers)).0
      ≡ found old_config)
    × ((backfill dict_store dict_store config_codec key old_config newer_tiers).l2
        ≡ some ((key, new_raw) ∷ []))
unfolding lookup insert bytes_eq keeps_current decoded get_l2 config_server.Prelude.int_lt
get_config-backfill_example =
    get_config-backfill dict_store dict_store config_codec key old_raw old_config (found new_config)
      newer_tiers config_codec-IsRowCodec refl refl refl

-- An older config m and a config x that has no row are left in Redis beside the current n.
abbrev listed : List Config
listed = record { name = codes "m"; version = pos 3; detail = codes "w" } ∷ new_config ∷ []

abbrev mixed_tiers : Tiers dict_store dict_store
mixed_tiers = record {
  l1 = [];
  l2 = some (
      (prefix_pipeline ++ codes "m", b'm' ∷ 1 ∷ codes "v")
      ∷ (key, new_raw)
      ∷ (prefix_pipeline ++ codes "x", b'x' ∷ 1 ∷ [])
      ∷ []);
}

abbrev scanned : List Bytes
scanned = key ∷ (prefix_pipeline ++ codes "x") ∷ []

abbrev config_name : Config → Bytes
config_name c = c.name

rows_reconciled :
    (reconcile_rows dict_store dict_store config_codec config_name true prefix_pipeline listed
      mixed_tiers).l2
    ≡ some ((key, new_raw) ∷ (prefix_pipeline ++ codes "x", b'x' ∷ 1 ∷ []) ∷ [])
unfolding reconcile_rows reconcile_row decoded get_l2 lookup bytes_eq config_server.Prelude.int_eq
    invalidate del_l2 erase
rows_reconciled = refl

mixed_tiers-scanned :
    (m : Bytes) (d : Config)
    → decoded dict_store dict_store config_codec (
        get_l2 dict_store dict_store
          (prefix_pipeline ++ m)
          (reconcile_rows dict_store dict_store config_codec config_name true prefix_pipeline listed
            mixed_tiers).l2)
      ≡ some d
    → member (prefix_pipeline ++ m) scanned ≡ true
unfolding lookup get_l2 decoded member
mixed_tiers-scanned m d = rw rows_reconciled (λ e. ground (
  arith,
  bytes_eq_iff key (prefix_pipeline ++ m),
  bytes_eq_iff (prefix_pipeline ++ m) key,
  bytes_eq_iff (prefix_pipeline ++ codes "x") (prefix_pipeline ++ m),
  bytes_eq_iff (prefix_pipeline ++ m) (prefix_pipeline ++ codes "x"),
))

table_reconciled :
    (reconcile_table dict_store dict_store config_codec config_name true prefix_pipeline listed
      scanned mixed_tiers).l2
    ≡ some ((key, new_raw) ∷ [])
unfolding reconcile_table cleanup_deleted cleanup_key bytes_eq config_server.Strings.strip_prefix
    invalidate del_l2 reconcile_rows reconcile_row decoded get_l2 lookup
    config_server.Prelude.int_eq erase
table_reconciled = refl

reconcile_table-versions_example : (row : Config) × (row.name ≡ codes "n") × (pos 2 ≡ row.version)
unfolding lookup decoded get_l2 bytes_eq
reconcile_table-versions_example =
    reconcile_table-versions dict_store dict_store config_codec config_name dict_store-IsKeyValue
      prefix_pipeline (codes "n") listed scanned mixed_tiers new_config mixed_tiers-scanned
      (rw table_reconciled refl)
