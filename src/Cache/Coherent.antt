-- ===== src/Cache/Coherent.antt =====
-- The tiers of internal/cache/manager.go against the store alone, in sequences of reads, writes that
-- invalidate, and messages from other replicas.
use config_server.Prelude.{
  ◌≡◌, refl, true, Option, none, some, List, [], ◌∷◌, Bytes, ℤ, bytes_eq, arith, if◌then◌else◌,
  Option-cases, inl, inr, subst, ◌⊎◌, ap, sym,
}
use config_server.Model.{Fetched, found, not_found, failed}
use config_server.Cache.{
  KeyValue, IsKeyValue, RowCodec, Tiers, l1_set, get_l2, del_l2, invalidate, receive_invalidation,
  receive_error, decoded, backfill_script, backfill_l2, backfill, fill, get_far, get_config,
}

-- A row as the cached getters give it.
abbrev prepared : {A : Type 0} → RowCodec A → Fetched A → Fetched A
prepared codec (found c) = found (codec.prepare c)
prepared codec not_found = not_found
prepared codec failed = failed

-- A read of a key; a write of its row, which the manager follows with an invalidation; and what
-- subscribeInvalidations receives.
pub data Operation (A : Type 0) : Type 0 where
  read : Bytes → Operation A
  write : Bytes → Fetched A → Operation A
  message : Bytes → Operation A
  reconnect : Operation A

-- The store after a write.
unfoldable pub written : {A : Type 0} → Bytes → Fetched A → (Bytes → Fetched A) → Bytes → Fetched A
written key row db j = if bytes_eq key j then row else db j

-- What is relied on of encoding/json: a row that is encoded decodes to itself.
pub record IsRowCodec {A : Type 0} (codec : RowCodec A) : Type 0 where
  pub reads_back : (c : A) (raw : Bytes) → codec.marshal c ≡ some raw → codec.unmarshal raw ≡ some c

module _ (near far : KeyValue) {A : Type 0} (codec : RowCodec A) where
  -- The entry under the key decodes to the row, if it decodes at all.
  abbrev IsTrue : Fetched A → Option Bytes → Type 0
  IsTrue row entry = (c : A) → decoded near far codec entry ≡ some c → prepared codec row ≡ found c

  -- Every entry of the two caches is true.
  pub record IsCoherent (db : Bytes → Fetched A) (t : Tiers near far) : Type 0 where
    pub near_true : (key : Bytes) → IsTrue (db key) (near.get key t.l1)
    pub far_true : (key : Bytes) → IsTrue (db key) (get_l2 near far key t.l2)

  -- The answers of the reads through the tiers, with the row of the store for each key.
  unfoldable pub run : List (Operation A) → (Bytes → Fetched A) → Tiers near far → List (Fetched A)
  run [] db t = []
  run (read key ∷ ops) db t =
      let r = get_config near far codec key (db key) t in r.0 ∷ run ops db r.1
  run (write key row ∷ ops) db t = run ops (written key row db) (invalidate near far true key t)
  run (message key ∷ ops) db t = run ops db (receive_invalidation near far key t)
  run (reconnect ∷ ops) db t = run ops db (receive_error near far t)

  -- The answers of the store alone.
  unfoldable pub plain : List (Operation A) → (Bytes → Fetched A) → List (Fetched A)
  plain [] db = []
  plain (read key ∷ ops) db = prepared codec (db key) ∷ plain ops db
  plain (write key row ∷ ops) db = plain ops (written key row db)
  plain (message key ∷ ops) db = plain ops db
  plain (reconnect ∷ ops) db = plain ops db

  module _ (near_laws : IsKeyValue near) (far_laws : IsKeyValue far) (laws : IsRowCodec codec) where
    -- An entry that is one of two true ones is true.
    IsTrue-entry :
        (row : Fetched A) (entry : Option Bytes)
        → ((raw : Bytes) → entry ≡ some raw → IsTrue row (some raw))
        → IsTrue row entry
    unfolding decoded
    IsTrue-entry row none h c e = ground arith
    IsTrue-entry row (some raw) h c e = h raw refl c e

    IsTrue-same :
        (row : Fetched A) (entry : Option Bytes) (raw : Bytes)
        → entry ≡ some raw
        → IsTrue row entry
        → IsTrue row (some raw)
    IsTrue-same row entry raw e h = subst (λ x. IsTrue row x) e h

    set-IsTrue :
        (kv : KeyValue)
        → IsKeyValue kv
        → (key raw : Bytes) (s : kv.State) (db : Bytes → Fetched A)
        → ((j : Bytes) → IsTrue (db j) (kv.get j s))
        → IsTrue (db key) (some raw)
        → (j : Bytes) → IsTrue (db j) (kv.get j (kv.set key raw s))
    set-IsTrue kv kv_laws key raw s db before set j =
        IsTrue-entry (db j) (kv.get j (kv.set key raw s)) (λ w n.
          elim (kv_laws.get_set j key w raw s n) [
            | inl (k, v) ↦
                subst (λ x. IsTrue (db j) (some x)) v (subst (λ x. IsTrue (db x) (some raw)) k set)
            | inr old ↦ IsTrue-same (db j) (kv.get j s) w old (before j)
          ])

    backfill_script_cases :
        (key raw : Bytes) (version : ℤ) (s : far.State)
        → (s ≡ backfill_script near far codec key raw version s)
          ⊎ (far.set key raw s ≡ backfill_script near far codec key raw version s)
    unfolding backfill_script
    backfill_script_cases key raw version s = ground arith

    backfill_l2-IsTrue :
        (key raw : Bytes) (version : ℤ) (l2 : Option far.State) (db : Bytes → Fetched A)
        → ((j : Bytes) → IsTrue (db j) (get_l2 near far j l2))
        → IsTrue (db key) (some raw)
        → (j : Bytes)
        → IsTrue (db j) (get_l2 near far j (backfill_l2 near far codec key raw version l2))
    unfolding backfill_l2 get_l2
    backfill_l2-IsTrue key raw version none db before set j = before j
    backfill_l2-IsTrue key raw version (some s) db before set j =
        elim (backfill_script_cases key raw version s) [
          | inl e ↦ subst (λ x. IsTrue (db j) (far.get j x)) e (before j)
          | inr e ↦
              subst (λ x. IsTrue (db j) (far.get j x)) e
                (set-IsTrue far far_laws key raw s db before set j)
        ]

    backfill-none :
        (key : Bytes) (c : A) (t : Tiers near far)
        → codec.marshal c ≡ none
        → t ≡ backfill near far codec key c t
    unfolding backfill
    backfill-none key c t e = rw (e, backfill) refl

    backfill-some :
        (key raw : Bytes) (c : A) (t : Tiers near far)
        → codec.marshal c ≡ some raw
        → record {
          l1 = near.set key raw t.l1;
          l2 = backfill_l2 near far codec key raw (codec.version c) t.l2;
        }
          ≡ backfill near far codec key c t
    unfolding backfill
    backfill-some key raw c t e = rw (e, backfill) refl

    IsTrue-marshalled :
        (row : Fetched A) (c : A) (raw : Bytes)
        → codec.marshal c ≡ some raw
        → prepared codec row ≡ found c
        → IsTrue row (some raw)
    unfolding decoded
    IsTrue-marshalled row c raw m e d u = ground (arith, laws.reads_back c raw m)

    IsCoherent-backfill :
        (key : Bytes) (c : A) (db : Bytes → Fetched A) (t : Tiers near far)
        → IsCoherent db t
        → prepared codec (db key) ≡ found c
        → IsCoherent db (backfill near far codec key c t)
    IsCoherent-backfill key c db t h e = elim (Option-cases (codec.marshal c)) [
      | inl m ↦ subst (λ x. IsCoherent db x) (backfill-none key c t m) h
      | inr (raw, m) ↦
          let set = IsTrue-marshalled (db key) c raw m e in
          subst (λ x. IsCoherent db x) (backfill-some key raw c t m)
            (record {
              near_true = set-IsTrue near near_laws key raw t.l1 db h.near_true set;
              far_true = backfill_l2-IsTrue key raw (codec.version c) t.l2 db h.far_true set;
            })
    ]

    IsCoherent-l1_set :
        (key raw : Bytes) (db : Bytes → Fetched A) (t : Tiers near far)
        → IsCoherent db t
        → IsTrue (db key) (some raw)
        → IsCoherent db (l1_set near far key raw t)
    unfolding l1_set
    IsCoherent-l1_set key raw db t h set = record {
      near_true = set-IsTrue near near_laws key raw t.l1 db h.near_true set;
      far_true = h.far_true;
    }

    -- A step of a read: its answer is the stored row, and the caches stay coherent.
    abbrev Answers : Bytes → (Bytes → Fetched A) → Fetched A × Tiers near far → Type 0
    Answers key db r = (r.0 ≡ prepared codec (db key)) × IsCoherent db r.1

    fill-Answers :
        (key : Bytes) (db : Bytes → Fetched A) (row : Fetched A) (t : Tiers near far)
        → row ≡ db key
        → IsCoherent db t
        → Answers key db (fill near far codec key row t)
    unfolding fill
    fill-Answers key db (found c) t e h = (
      ap (prepared codec) e,
      IsCoherent-backfill key (codec.prepare c) db t h (sym (ap (prepared codec) e)),
    )
    fill-Answers key db not_found t e h = (ap (prepared codec) e, h)
    fill-Answers key db failed t e h = (ap (prepared codec) e, h)

    get_far-Answers :
        (key : Bytes) (db : Bytes → Fetched A) (t : Tiers near far) (entry : Option Bytes)
        → IsTrue (db key) entry
        → IsCoherent db t
        → Answers key db (get_far near far codec key (db key) t entry)
    unfolding get_far decoded
    get_far-Answers key db t none b h = fill-Answers key db (db key) t refl h
    get_far-Answers key db t (some raw) b h = elim (Option-cases (codec.unmarshal raw)) [
      | inl m ↦ rw (m, get_far) (fill-Answers key db (db key) t refl h)
      | inr (c, m) ↦ rw (m, get_far) (sym (b c m), IsCoherent-l1_set key raw db t h b)
    ]

    get_config-Answers :
        (key : Bytes) (db : Bytes → Fetched A) (t : Tiers near far)
        → IsCoherent db t
        → Answers key db (get_config near far codec key (db key) t)
    unfolding get_config
    get_config-Answers key db t h =
        elim (Option-cases (decoded near far codec (near.get key t.l1))) [
          | inl m ↦
              rw (m, get_config)
                (get_far-Answers key db t (get_l2 near far key t.l2) (h.far_true key) h)
          | inr (c, m) ↦ rw (m, get_config) (sym (h.near_true key c m), h)
        ]

    IsTrue-deleted :
        (kv : KeyValue)
        → IsKeyValue kv
        → (key : Bytes) (row : Fetched A) (s : kv.State) (db : Bytes → Fetched A)
        → ((j : Bytes) → IsTrue (db j) (kv.get j s))
        → (j : Bytes) → IsTrue (written key row db j) (kv.get j (kv.del key s))
    unfolding written
    IsTrue-deleted kv kv_laws key row s db before j =
        IsTrue-entry (written key row db j) (kv.get j (kv.del key s)) (λ raw n.
          let (other, old) = kv_laws.get_del j key raw s n in
          rw other (IsTrue-same (db j) (kv.get j s) raw old (before j)))

    IsTrue-del_l2 :
        (key : Bytes) (row : Fetched A) (l2 : Option far.State) (db : Bytes → Fetched A)
        → ((j : Bytes) → IsTrue (db j) (get_l2 near far j l2))
        → (j : Bytes)
        → IsTrue (written key row db j) (get_l2 near far j (del_l2 near far true key l2))
    unfolding get_l2 del_l2 decoded
    IsTrue-del_l2 key row none db before j = λ c e. ground arith
    IsTrue-del_l2 key row (some s) db before j = IsTrue-deleted far far_laws key row s db before j

    -- A write that is followed by an invalidation which reaches Redis keeps the caches coherent with
    -- the store after the write.
    IsCoherent-invalidate :
        (key : Bytes) (row : Fetched A) (db : Bytes → Fetched A) (t : Tiers near far)
        → IsCoherent db t
        → IsCoherent (written key row db) (invalidate near far true key t)
    unfolding invalidate
    IsCoherent-invalidate key row db t h = record {
      near_true = IsTrue-deleted near near_laws key row t.l1 db h.near_true;
      far_true = IsTrue-del_l2 key row t.l2 db h.far_true;
    }

    IsCoherent-receive_invalidation :
        (key : Bytes) (db : Bytes → Fetched A) (t : Tiers near far)
        → IsCoherent db t
        → IsCoherent db (receive_invalidation near far key t)
    unfolding receive_invalidation
    IsCoherent-receive_invalidation key db t h = record {
      near_true = λ j. IsTrue-entry (db j) (near.get j (near.del key t.l1)) (λ raw n.
          IsTrue-same (db j) (near.get j t.l1) raw (near_laws.get_del j key raw t.l1 n).1
            (h.near_true j));
      far_true = h.far_true;
    }

    IsCoherent-receive_error :
        (db : Bytes → Fetched A) (t : Tiers near far)
        → IsCoherent db t
        → IsCoherent db (receive_error near far t)
    unfolding receive_error
    IsCoherent-receive_error db t h = record {
      near_true = λ j.
          IsTrue-entry (db j) (near.get j (near.clear t.l1))
            (λ raw n. ground (arith, near_laws.get_clear j t.l1));
      far_true = h.far_true;
    }

    -- The cached getters refine the store: in any sequence of reads, writes with an invalidation
    -- that reaches Redis, and messages from other replicas, each of which ends before the next
    -- begins, every read answers with the row that the store holds at that moment. The caches hold
    -- true entries at the start.
    pub run-plain :
        (ops : List (Operation A)) (db : Bytes → Fetched A) (t : Tiers near far)
        → IsCoherent db t
        → run ops db t ≡ plain ops db
    unfolding run plain
    run-plain [] db t h = refl
    run-plain (read key ∷ ops) db t h =
        let (answer, after) = get_config-Answers key db t h in
        rw (answer, run-plain ops db (get_config near far codec key (db key) t).1 after) refl
    run-plain (write key row ∷ ops) db t h =
        run-plain ops (written key row db) (invalidate near far true key t)
          (IsCoherent-invalidate key row db t h)
    run-plain (message key ∷ ops) db t h =
        run-plain ops db (receive_invalidation near far key t)
          (IsCoherent-receive_invalidation key db t h)
    run-plain (reconnect ∷ ops) db t h =
        run-plain ops db (receive_error near far t) (IsCoherent-receive_error db t h)
