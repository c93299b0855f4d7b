-- ===== src/Cache/Stale.antt =====
-- The backfill of internal/cache/manager.go where a read of the store is overtaken by a write: the
-- reader has the old row, another request writes and invalidates, and then the reader backfills.
use config_server.Prelude.{
  ◌≡◌, refl, true, false, Option, none, some, Bytes, ℤ, pos, negsuc, int_lt, arith,
}
use config_server.Model.{Fetched, found}
use config_server.Cache.{
  KeyValue, IsKeyValue, RowCodec, Tiers, get_l2, decoded, keeps_current, backfill_script,
  backfill_l2, backfill, get_config,
}
use config_server.Cache.Coherent.{IsRowCodec}

int_lt_irrefl : (a : ℤ) → int_lt a a ≡ false
unfolding int_lt
int_lt_irrefl (pos n) = ground arith
int_lt_irrefl (negsuc n) = ground arith

int_lt_asym : (a b : ℤ) → int_lt a b ≡ true → int_lt b a ≡ false
unfolding int_lt
int_lt_asym (pos m) (pos n) h = ground arith
int_lt_asym (pos m) (negsuc n) h = ground arith
int_lt_asym (negsuc m) (pos n) h = ground arith
int_lt_asym (negsuc m) (negsuc n) h = ground arith

module _ (near far : KeyValue) {A : Type 0} (codec : RowCodec A) where
  -- The script never puts an entry in the place of one with a greater version: what Redis holds
  -- under the key afterwards has no smaller version than what it held. The entry that is offered
  -- decodes to a row of the version that is given with it.
  backfill_script_monotone :
      (key raw old new : Bytes) (version : ℤ) (s : far.State) (offered c d : A)
      → IsKeyValue far
      → codec.unmarshal raw ≡ some offered
      → codec.field offered ≡ version
      → far.get key s ≡ some old
      → codec.unmarshal old ≡ some c
      → far.get key (backfill_script near far codec key raw version s) ≡ some new
      → codec.unmarshal new ≡ some d
      → int_lt (codec.field d) (codec.field c) ≡ false
  unfolding backfill_script keeps_current decoded
  backfill_script_monotone key raw old new version s offered c d laws o v e u f w = ground (
    arith,
    laws.get_set key key new raw s,
    int_lt_irrefl (codec.field c),
    int_lt_asym (codec.field c) version,
  )

  backfill_l2-kept :
      (key raw : Bytes) (version : ℤ) (l2 : Option far.State)
      → keeps_current near far codec version (decoded near far codec (get_l2 near far key l2))
        ≡ true
      → backfill_l2 near far codec key raw version l2 ≡ l2
  unfolding backfill_l2 backfill_script get_l2
  backfill_l2-kept key raw version none k = refl
  backfill_l2-kept key raw version (some s) k = ground arith

  get_config-near :
      (key raw : Bytes) (row : Fetched A) (c : A) (t : Tiers near far)
      → near.get key t.l1 ≡ some raw
      → codec.unmarshal raw ≡ some c
      → (get_config near far codec key row t).0 ≡ found c
  unfolding get_config decoded
  get_config-near key raw row c t e u = rw (get_config, e, u) refl

  -- The local cache has no such guard. A backfill with an old row makes the next read answer with
  -- that row, whatever the store holds by then, although Redis holds an entry that is newer and
  -- the script leaves it there. The local cache keeps the entry that it is given.
  pub get_config-backfill :
      (key raw : Bytes) (old : A) (row : Fetched A) (t : Tiers near far)
      → IsRowCodec codec
      → codec.marshal old ≡ some raw
      → near.get key (near.set key raw t.l1) ≡ some raw
      → keeps_current near far codec
          (codec.version old)
          (decoded near far codec (get_l2 near far key t.l2))
        ≡ true
      → ((get_config near far codec key row (backfill near far codec key old t)).0 ≡ found old)
        × ((backfill near far codec key old t).l2 ≡ t.l2)
  unfolding backfill
  get_config-backfill key raw old row t laws m k g =
      rw (m, backfill)
        (
          get_config-near key raw row old
              (record {
                l1 = near.set key raw t.l1;
                l2 = backfill_l2 near far codec key raw (codec.version old) t.l2;
              })
              k (laws.reads_back old raw m),
          backfill_l2-kept key raw (codec.version old) t.l2 g,
        )
