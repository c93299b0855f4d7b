-- ===== src/Prelude/Dict.antt =====
-- Go's maps and the database's tables with a text key: association lists. Setting a key that is
-- there keeps its place.
use config_server.Prelude.Tests.{if◌then◌else◌, Bool-cases}
use mathlib.Core.Logic.{inl, inr}
use config_server.Prelude.Text.{Bytes, bytes_eq, bytes_eq_iff}
use config_server.Prelude.Lists.{length}
use Prim.Native.Nat.{suc, ◌≤◌}
use mathlib.Core.Path.{◌≡◌, refl}
use mathlib.Core.Bool.{Bool, true, false}
use mathlib.Core.Option.{Option, none, some}
use mathlib.Core.List.{List, [], ◌∷◌}
use native.Mathlib.Omega.{arith}

abbrev pub Dict {ℓ} : Type ℓ → Type ℓ
Dict V = List (Bytes × V)

module _ {ℓ} {V : Type ℓ} where
  unfoldable pub lookup : Bytes → Dict V → Option V
  lookup k [] = none
  lookup k ((j, v) ∷ m) = if bytes_eq j k then some v else lookup k m

  unfoldable pub insert : Bytes → V → Dict V → Dict V
  insert k v [] = (k, v) ∷ []
  insert k v ((j, w) ∷ m) = if bytes_eq j k then (j, v) ∷ m else (j, w) ∷ insert k v m

  unfoldable pub erase : Bytes → Dict V → Dict V
  erase k [] = []
  erase k ((j, v) ∷ m) = let rest = erase k m in if bytes_eq j k then rest else (j, v) ∷ rest

  unfoldable pub has_key : Bytes → Dict V → Bool
  has_key k [] = false
  has_key k ((j, v) ∷ m) = if bytes_eq j k then true else has_key k m

  pub lookup-insert :
      (k j : Bytes) (v : V) (m : Dict V)
      → lookup j (insert k v m) ≡ (if bytes_eq k j then some v else lookup j m)
  unfolding lookup insert
  lookup-insert k j v [] = refl
  lookup-insert k j v ((i, w) ∷ m) =
      ground (arith, bytes_eq_iff k j, bytes_eq_iff i k, bytes_eq_iff i j, lookup-insert k j v m)

  pub lookup-erase :
      (k j : Bytes) (m : Dict V)
      → lookup j (erase k m) ≡ (if bytes_eq k j then none else lookup j m)
  unfolding lookup erase
  lookup-erase k j [] = ground arith
  lookup-erase k j ((i, w) ∷ m) =
      ground (arith, bytes_eq_iff k j, bytes_eq_iff i k, bytes_eq_iff i j, lookup-erase k j m)

  pub has_key-lookup :
      (k : Bytes) (m : Dict V) → has_key k m ≡ elim (lookup k m) [ none ↦ false | some _ ↦ true ]
  unfolding lookup has_key
  has_key-lookup k [] = refl
  has_key-lookup k ((j, v) ∷ m) = ground (arith, has_key-lookup k m)

  pub length-insert :
      (k : Bytes) (v : V) (m : Dict V)
      → length (insert k v m) ≡ (if has_key k m then length m else suc (length m))
  unfolding insert has_key
  length-insert k v [] = refl
  length-insert k v ((j, w) ∷ m) = ground (arith, length-insert k v m)

  pub length-erase : (k : Bytes) (m : Dict V) → length (erase k m) ≤ length m
  unfolding erase
  length-erase k [] = omega arith
  length-erase k ((j, w) ∷ m) = ground (arith, length-erase k m)

  pub has_key-insert :
      (k j : Bytes) (v : V) (m : Dict V)
      → has_key j (insert k v m) ≡ (if bytes_eq k j then true else has_key j m)
  unfolding insert has_key
  has_key-insert k j v [] = refl
  has_key-insert k j v ((i, w) ∷ m) =
      ground (arith, bytes_eq_iff k j, bytes_eq_iff i k, bytes_eq_iff i j, has_key-insert k j v m)

  pub has_key-erase :
      (k j : Bytes) (m : Dict V)
      → has_key j (erase k m) ≡ (if bytes_eq k j then false else has_key j m)
  unfolding erase has_key
  has_key-erase k j [] = ground arith
  has_key-erase k j ((i, w) ∷ m) =
      ground (arith, bytes_eq_iff k j, bytes_eq_iff i k, bytes_eq_iff i j, has_key-erase k j m)

  -- No key stands twice.
  abbrev pub UniqueKeys : Dict V → Type 0
  UniqueKeys [] = Unit
  UniqueKeys ((k, v) ∷ m) = (has_key k m ≡ false) × UniqueKeys m

  pub UniqueKeys-insert :
      (k : Bytes) (v : V) (m : Dict V) → UniqueKeys m → UniqueKeys (insert k v m)
  unfolding insert has_key
  UniqueKeys-insert k v [] h = (refl, tt)
  UniqueKeys-insert k v ((j, w) ∷ m) h = elim (Bool-cases (bytes_eq j k)) [
    | inl e ↦ rw e h
    | inr e ↦ rw e (
      ground (arith, has_key-insert k j v m, bytes_eq_iff j k, bytes_eq_iff k j, h.0),
      UniqueKeys-insert k v m h.1,
    )
  ]

  pub UniqueKeys-erase : (k : Bytes) (m : Dict V) → UniqueKeys m → UniqueKeys (erase k m)
  unfolding erase has_key
  UniqueKeys-erase k [] h = tt
  UniqueKeys-erase k ((j, w) ∷ m) h = elim (Bool-cases (bytes_eq j k)) [
    | inl e ↦ rw e (UniqueKeys-erase k m h.1)
    | inr e ↦ rw e (ground (arith, has_key-erase k j m, h.0), UniqueKeys-erase k m h.1)
  ]

  pub erase_absent : (k : Bytes) (m : Dict V) → has_key k m ≡ false → erase k m ≡ m
  unfolding erase has_key
  erase_absent k [] h = refl
  erase_absent k ((j, w) ∷ m) h = ground (arith, erase_absent k m)

  pub length-erase_present :
      (k : Bytes) (m : Dict V)
      → UniqueKeys m
      → has_key k m ≡ true
      → suc (length (erase k m)) ≡ length m
  unfolding erase has_key
  length-erase_present k [] h p = cc
  length-erase_present k ((j, w) ∷ m) h p =
      ground (arith, bytes_eq_iff j k, h.0, erase_absent k m, length-erase_present k m h.1)
