-- ===== src/Cache/Reconcile.antt =====
-- reconcileCache of internal/cache/manager.go on one table: the loop over the rows that are listed,
-- and cleanupDeletedConfigCacheKeys over the keys that a scan of Redis gives.
use config_server.Prelude.{
  sym, subst, ◌≡◌, refl, Bool, true, false, Option, none, some, List, [], ◌∷◌, ◌++◌, Bytes,
  bytes_eq, bytes_eq_iff, bytes_eq_refl, int_eq_iff, any, All, arith, if◌then◌else◌, Option-cases,
  Bool-cases, inl, inr,
}
use config_server.Registry.{member}
use config_server.Strings.{strip_prefix}
use config_server.Cache.{
  KeyValue, IsKeyValue, RowCodec, Tiers, get_l2, del_l2, invalidate, decoded, reconcile_row,
}

strip_prefix-append : (p s : Bytes) → strip_prefix p (p ++ s) ≡ some s
unfolding strip_prefix
strip_prefix-append [] s = refl
strip_prefix-append (c ∷ p) s = ground (arith, strip_prefix-append p s)

module _ (near far : KeyValue) {A : Type 0} (codec : RowCodec A) (name : A → Bytes) where
  unfoldable pub reconcile_rows : Bool → Bytes → List A → Tiers near far → Tiers near far
  reconcile_rows reached prefix [] t = t
  reconcile_rows reached prefix (row ∷ rows) t =
      reconcile_rows reached prefix rows
        (reconcile_row near far codec reached (prefix ++ name row) row t)

  abbrev is_named : Bytes → A → Bool
  is_named n row = bytes_eq (name row) n

  abbrev trim : Option Bytes → Bytes → Bytes
  trim none key = key
  trim (some rest) key = rest

  unfoldable pub cleanup_key : Bool → Bytes → List A → Bytes → Tiers near far → Tiers near far
  cleanup_key reached prefix rows key t =
      if any (is_named (trim (strip_prefix prefix key) key)) rows
      then t
      else invalidate near far reached key t

  -- The keys of the scan. The names are those of the rows that were listed.
  unfoldable pub cleanup_deleted :
      Bool → Bytes → List A → List Bytes → Tiers near far → Tiers near far
  cleanup_deleted reached prefix rows [] t = t
  cleanup_deleted reached prefix rows (key ∷ keys) t =
      cleanup_deleted reached prefix rows keys (cleanup_key reached prefix rows key t)

  unfoldable pub reconcile_table :
      Bool → Bytes → List A → List Bytes → Tiers near far → Tiers near far
  reconcile_table reached prefix rows keys t =
      cleanup_deleted reached prefix rows keys (reconcile_rows reached prefix rows t)

  -- What Redis holds under the key, if it decodes, has the version of the row.
  abbrev HasVersion : Bytes → A → Option far.State → Type 0
  HasVersion prefix row l2 =
      (c : A)
      → decoded near far codec (get_l2 near far (prefix ++ name row) l2) ≡ some c
      → codec.version c ≡ codec.version row

  module _ (laws : IsKeyValue far) where
    -- A deletion in Redis leaves no entry under its key and adds none.
    get_l2-del_l2 :
        (j key raw : Bytes) (l2 : Option far.State)
        → get_l2 near far j (del_l2 near far true key l2) ≡ some raw
        → (bytes_eq key j ≡ false) × (get_l2 near far j l2 ≡ some raw)
    unfolding get_l2 del_l2
    get_l2-del_l2 j key raw none e = cc
    get_l2-del_l2 j key raw (some s) e = laws.get_del j key raw s e

    decoded-del_l2 :
        (j key : Bytes) (l2 : Option far.State) (c : A)
        → decoded near far codec (get_l2 near far j (del_l2 near far true key l2)) ≡ some c
        → (bytes_eq key j ≡ false) × (decoded near far codec (get_l2 near far j l2) ≡ some c)
    unfolding decoded
    decoded-del_l2 j key l2 c e =
        elim (Option-cases (get_l2 near far j (del_l2 near far true key l2))) [
          | inl n ↦ ground arith
          | inr (raw, n) ↦ let (other, old) = get_l2-del_l2 j key raw l2 n in (other, ground arith)
        ]

    -- A step of either loop only deletes.
    abbrev Deletes : Tiers near far → Tiers near far → Type 0
    Deletes t u =
        (j : Bytes)
        → (c : A) → decoded near far codec (get_l2 near far j u.l2) ≡ some c
        → decoded near far codec (get_l2 near far j t.l2) ≡ some c

    reconcile_row-Deletes :
        (key : Bytes) (row : A) (t : Tiers near far)
        → Deletes t (reconcile_row near far codec true key row t)
    unfolding reconcile_row invalidate
    reconcile_row-Deletes key row t j c e =
        elim (Option-cases (decoded near far codec (get_l2 near far key t.l2))) [
          | inl n ↦ ground arith
          | inr (d, n) ↦ ground (arith, decoded-del_l2 j key t.l2 c)
        ]

    reconcile_row-HasVersion :
        (prefix : Bytes) (row : A) (t : Tiers near far)
        → HasVersion prefix row (reconcile_row near far codec true (prefix ++ name row) row t).l2
    unfolding reconcile_row invalidate
    reconcile_row-HasVersion prefix row t c e =
        let key = prefix ++ name row in
        elim (Option-cases (decoded near far codec (get_l2 near far key t.l2))) [
          | inl n ↦ ground arith
          | inr (d, n) ↦ ground (
            arith,
            decoded-del_l2 key key t.l2 c,
            bytes_eq_refl key,
            int_eq_iff (codec.version d) (codec.version row),
          )
        ]

    HasVersion-Deletes :
        (prefix : Bytes) (row : A) (t u : Tiers near far)
        → Deletes t u
        → HasVersion prefix row t.l2
        → HasVersion prefix row u.l2
    HasVersion-Deletes prefix row t u d h c e = h c (d (prefix ++ name row) c e)

    reconcile_rows-Deletes :
        (prefix : Bytes) (rows : List A) (t : Tiers near far)
        → Deletes t (reconcile_rows true prefix rows t)
    unfolding reconcile_rows
    reconcile_rows-Deletes prefix [] t j c e = e
    reconcile_rows-Deletes prefix (row ∷ rows) t j c e =
        let next = reconcile_row near far codec true (prefix ++ name row) row t in
        reconcile_row-Deletes (prefix ++ name row) row t j c
          (reconcile_rows-Deletes prefix rows next j c e)

    reconcile_rows-HasVersion :
        (prefix : Bytes) (rows : List A) (t : Tiers near far)
        → All (λ row. HasVersion prefix row (reconcile_rows true prefix rows t).l2) rows
    unfolding reconcile_rows
    reconcile_rows-HasVersion prefix [] t = tt
    reconcile_rows-HasVersion prefix (row ∷ rows) t =
        let next = reconcile_row near far codec true (prefix ++ name row) row t in
        (
          HasVersion-Deletes prefix row next (reconcile_rows true prefix rows next)
              (reconcile_rows-Deletes prefix rows next) (reconcile_row-HasVersion prefix row t),
          reconcile_rows-HasVersion prefix rows next,
        )

    invalidate-Deletes :
        (key : Bytes) (t : Tiers near far) → Deletes t (invalidate near far true key t)
    unfolding invalidate
    invalidate-Deletes key t j c e = (decoded-del_l2 j key t.l2 c e).1

    cleanup_key-Deletes :
        (prefix : Bytes) (rows : List A) (key : Bytes) (t : Tiers near far)
        → Deletes t (cleanup_key true prefix rows key t)
    unfolding cleanup_key
    cleanup_key-Deletes prefix rows key t j c e = ground (arith, invalidate-Deletes key t j c)

    cleanup_key_gone :
        (prefix n : Bytes) (rows : List A) (t : Tiers near far) (c : A)
        → decoded near far codec
            (get_l2 near far (prefix ++ n) (cleanup_key true prefix rows (prefix ++ n) t).l2)
          ≡ some c
        → any (is_named n) rows ≡ true
    unfolding cleanup_key invalidate
    cleanup_key_gone prefix n rows t c e = ground (
      arith,
      strip_prefix-append prefix n,
      decoded-del_l2 (prefix ++ n) (prefix ++ n) t.l2 c,
      bytes_eq_refl (prefix ++ n),
    )

    cleanup_deleted-Deletes :
        (prefix : Bytes) (rows : List A) (keys : List Bytes) (t : Tiers near far)
        → Deletes t (cleanup_deleted true prefix rows keys t)
    unfolding cleanup_deleted
    cleanup_deleted-Deletes prefix rows [] t j c e = e
    cleanup_deleted-Deletes prefix rows (key ∷ keys) t j c e =
        cleanup_key-Deletes prefix rows key t j c
          (cleanup_deleted-Deletes prefix rows keys (cleanup_key true prefix rows key t) j c e)

    -- A key of the scan whose name no row has is gone after the loop.
    cleanup_deleted_gone :
        (prefix n : Bytes) (rows : List A) (keys : List Bytes) (t : Tiers near far) (c : A)
        → member (prefix ++ n) keys ≡ true
        → decoded near far codec
            (get_l2 near far (prefix ++ n) (cleanup_deleted true prefix rows keys t).l2)
          ≡ some c
        → any (is_named n) rows ≡ true
    unfolding cleanup_deleted member
    cleanup_deleted_gone prefix n rows [] t c m e = ground arith
    cleanup_deleted_gone prefix n rows (key ∷ keys) t c m e =
        let next = cleanup_key true prefix rows key t in
        elim (Bool-cases (bytes_eq key (prefix ++ n))) [
          | inl k ↦ cleanup_key_gone prefix n rows t c (
              subst
                (λ x.
                  decoded near far codec
                    (get_l2 near far (prefix ++ n) (cleanup_key true prefix rows x t).l2)
                  ≡ some c)
                (ground (arith, bytes_eq_iff key (prefix ++ n)))
                (cleanup_deleted-Deletes prefix rows keys next (prefix ++ n) c e))
          | inr k ↦ cleanup_deleted_gone prefix n rows keys next c (ground arith) e
        ]

    -- A row of the list that has the name and, if Redis holds an entry for it, its version.
    has_version :
        (prefix n : Bytes) (rows : List A) (l2 : Option far.State) (c : A)
        → All (λ row. HasVersion prefix row l2) rows
        → any (is_named n) rows ≡ true
        → decoded near far codec (get_l2 near far (prefix ++ n) l2) ≡ some c
        → (row : A) × (name row ≡ n) × (codec.version c ≡ codec.version row)
    has_version prefix n [] l2 c h a e = ground arith
    has_version prefix n (row ∷ rows) l2 c h a e = elim (Bool-cases (bytes_eq (name row) n)) [
      | inl k ↦
          let same : name row ≡ n = ground (arith, bytes_eq_iff (name row) n) in
          (
            row,
            same,
            h.0 c (
                subst (λ x. decoded near far codec (get_l2 near far (prefix ++ x) l2) ≡ some c)
                  (sym same) e),
          )
      | inr k ↦ has_version prefix n rows l2 c h.1 (ground arith) e
    ]

    -- After a reconciliation of a table that reaches Redis, what Redis holds for a name decodes to
    -- the version of a row of that name that was listed, or does not decode: no entry is left of a
    -- name that is not listed or of another version. The scan, which follows the loop over the rows,
    -- gives the keys under the prefix of the table that Redis holds then.
    pub reconcile_table-versions :
        (prefix n : Bytes) (rows : List A) (keys : List Bytes) (t : Tiers near far) (c : A)
        → ((m : Bytes)
            → (d : A)
            → decoded near far codec
                (get_l2 near far (prefix ++ m) (reconcile_rows true prefix rows t).l2)
              ≡ some d
            → member (prefix ++ m) keys ≡ true)
        → decoded near far codec
            (get_l2 near far (prefix ++ n) (reconcile_table true prefix rows keys t).l2)
          ≡ some c
        → (row : A) × (name row ≡ n) × (codec.version c ≡ codec.version row)
    unfolding reconcile_table
    reconcile_table-versions prefix n rows keys t c scan e =
        let middle = reconcile_rows true prefix rows t in
        let kept = cleanup_deleted-Deletes prefix rows keys middle (prefix ++ n) c e in
        has_version prefix n rows middle.l2 c (reconcile_rows-HasVersion prefix rows t)
          (cleanup_deleted_gone prefix n rows keys middle c (scan n c kept) e) kept
