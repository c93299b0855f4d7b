-- ===== src/Registry/Laws.antt =====
-- Laws of the list of ids, and of the deletion by prefix.
use config_server.Prelude.{
  suc, ◌≡◌, true, false, none, some, List, [], ◌∷◌, Bytes, bytes_eq, bytes_eq_iff, length, arith,
  if◌then◌else◌, Bool-cases, inl, inr,
}
use config_server.Prelude.Dict.{Dict, lookup}
use config_server.Strings.{has_prefix}
use config_server.Registry.{member, remove, back, drop_prefixed}

-- No id stands twice.
abbrev pub IsUnique : List Bytes → Type 0
IsUnique [] = Unit
IsUnique (x ∷ xs) = (member x xs ≡ false) × IsUnique xs

pub member-remove :
    (k j : Bytes) (xs : List Bytes)
    → IsUnique xs
    → member j (remove k xs) ≡ (if bytes_eq k j then false else member j xs)
unfolding member remove
member-remove k j [] h = ground arith
member-remove k j (x ∷ xs) h =
    ground
      (arith, bytes_eq_iff k j, bytes_eq_iff x k, bytes_eq_iff x j, h.0, member-remove k j xs h.1)

pub IsUnique-remove : (k : Bytes) (xs : List Bytes) → IsUnique xs → IsUnique (remove k xs)
unfolding member remove
IsUnique-remove k [] h = tt
IsUnique-remove k (x ∷ xs) h = elim (Bool-cases (bytes_eq x k)) [
  | inl e ↦ rw e h.1
  | inr e ↦ rw e (ground (arith, member-remove k x xs h.1, h.0), IsUnique-remove k xs h.1)
]

pub length-remove :
    (k : Bytes) (xs : List Bytes) → member k xs ≡ true → suc (length (remove k xs)) ≡ length xs
unfolding member remove
length-remove k [] h = cc
length-remove k (x ∷ xs) h = ground (arith, length-remove k xs)

pub member-back : (xs : List Bytes) {x : Bytes} → back xs ≡ some x → member x xs ≡ true
unfolding member back
member-back [] h = cc
member-back (x ∷ []) {x = y} h = ground (arith, bytes_eq_iff x y)
member-back (x ∷ z ∷ xs) h = ground (arith, member-back (z ∷ xs) h)

pub lookup-drop_prefixed {ℓ} :
    {V : Type ℓ} (prefix k : Bytes) (m : Dict V)
    → lookup k (drop_prefixed prefix m) ≡ (if has_prefix prefix k then none else lookup k m)
unfolding lookup drop_prefixed
lookup-drop_prefixed prefix k [] = ground arith
lookup-drop_prefixed prefix k ((j, v) ∷ m) =
    ground (arith, bytes_eq_iff j k, lookup-drop_prefixed prefix k m)
