-- ===== src/Resolve/Key.antt =====
-- The key under which internal/cache/manager.go caches the names that an agent resolves to.
use mathlib.Core.List.{Perm, Permᴰ, is_set}
use native.Mathlib.Nat.{ℕ_set}
use mathlib.Core.Logic.{∥∥₁_elim}
use config_server.Prelude.{
  ◌≡◌, refl, ap, ◌∙◌, true, false, List, [], ◌∷◌, ◌++◌, Bytes, map, arith, ℕ, zero, suc, ◌/◌, ◌^◌,
  ◌<◌, length, length-append,
}
use config_server.Agent.Onetime.{fnv64a}
use config_server.Model.{AgentGroupTag, AgentMatchContext}
use config_server.Resolve.{
  little_endian, bytes_le, insert_sorted, sort_strings, tag_text, agent_attributes,
  resolve_agent_key,
}

bytes_le_total : (s t : Bytes) → bytes_le s t ≡ false → bytes_le t s ≡ true
unfolding bytes_le
bytes_le_total [] t h = ground arith
bytes_le_total (a ∷ s) [] h = refl
bytes_le_total (a ∷ s) (b ∷ t) h = ground (arith, bytes_le_total s t)

bytes_le_antisym : (s t : Bytes) → bytes_le s t ≡ true → bytes_le t s ≡ true → s ≡ t
unfolding bytes_le
bytes_le_antisym [] [] h k = refl
bytes_le_antisym [] (b ∷ t) h k = ground arith
bytes_le_antisym (a ∷ s) [] h k = ground arith
bytes_le_antisym (a ∷ s) (b ∷ t) h k = ground (arith, bytes_le_antisym s t)

bytes_le_trans : (s t u : Bytes) → bytes_le s t ≡ true → bytes_le t u ≡ true → bytes_le s u ≡ true
unfolding bytes_le
bytes_le_trans [] t u h k = refl
bytes_le_trans (a ∷ s) [] u h k = ground arith
bytes_le_trans (a ∷ s) (b ∷ t) [] h k = ground arith
bytes_le_trans (a ∷ s) (b ∷ t) (c ∷ u) h k = ground (arith, bytes_le_trans s t u)

insert_sorted_comm :
    (x y : Bytes) (l : List Bytes)
    → insert_sorted x (insert_sorted y l) ≡ insert_sorted y (insert_sorted x l)
unfolding insert_sorted
insert_sorted_comm x y [] = ground (arith, bytes_le_total x y, bytes_le_antisym x y)
insert_sorted_comm x y (z ∷ l) = ground (
  arith,
  insert_sorted_comm x y l,
  bytes_le_total x y,
  bytes_le_antisym x y,
  bytes_le_total x z,
  bytes_le_total y z,
  bytes_le_trans x y z,
  bytes_le_trans y x z,
)

Permᴰ-sort_strings : {xs ys : List Bytes} → Permᴰ xs ys → sort_strings xs ≡ sort_strings ys
unfolding sort_strings
Permᴰ-sort_strings Permᴰ.nil = refl
Permᴰ-sort_strings (Permᴰ.cons e p) = rw (e, Permᴰ-sort_strings p) refl
Permᴰ-sort_strings (Permᴰ.swap e₁ e₂) = rw (e₁, e₂) (insert_sorted_comm _ _ _)
Permᴰ-sort_strings (Permᴰ.trans p q) = Permᴰ-sort_strings p ∙ Permᴰ-sort_strings q

map-Permᴰ : {ts us : List AgentGroupTag} → Permᴰ ts us → Permᴰ (map tag_text ts) (map tag_text us)
map-Permᴰ Permᴰ.nil = Permᴰ.nil
map-Permᴰ (Permᴰ.cons e p) = Permᴰ.cons (ap tag_text e) (map-Permᴰ p)
map-Permᴰ (Permᴰ.swap e₁ e₂) = Permᴰ.swap (ap tag_text e₁) (ap tag_text e₂)
map-Permᴰ (Permᴰ.trans p q) = Permᴰ.trans (map-Permᴰ p) (map-Permᴰ q)

-- The key under which an agent's names are cached does not depend on the order in which the store
-- lists the tags of the agent: two lists that are permutations of each other give one key.
resolve_agent_key_perm :
    (epoch : ℕ) (m : AgentMatchContext) (tags : List AgentGroupTag)
    → Perm m.tags tags
    → resolve_agent_key epoch (record m { tags = tags }) ≡ resolve_agent_key epoch m
unfolding resolve_agent_key agent_attributes
resolve_agent_key_perm epoch m tags p =
    ∥∥₁_elim p (is_set ℕ_set _ _) (λ q. rw (Permᴰ-sort_strings (map-Permᴰ q)) refl)

length-little_endian : (k n : ℕ) → length (little_endian k n) ≡ k
unfolding little_endian
length-little_endian zero n = refl
length-little_endian (suc k) n = omega (arith, length-little_endian k (n / 256))

-- Numbers of 8 bytes are told apart by those bytes.
little_endian_injective :
    (k n m : ℕ) (x y : Bytes)
    → n < 256 ^ k
    → m < 256 ^ k
    → little_endian k n ++ x ≡ little_endian k m ++ y
    → n ≡ m
unfolding little_endian
little_endian_injective zero n m x y a b h = omega arith
little_endian_injective (suc k) n m x y a b h =
    ground (arith, little_endian_injective k (n / 256) (m / 256) x y)

pub resolve_agent_key_epoch :
    (e j : ℕ) (m n : AgentMatchContext)
    → e < 2 ^ 64
    → j < 2 ^ 64
    → resolve_agent_key e m ≡ resolve_agent_key j n
    → e ≡ j
unfolding resolve_agent_key
resolve_agent_key_epoch e j m n a b h = little_endian_injective 8 e j _ _ a b h

pub length-resolve_agent_key : (e : ℕ) (m : AgentMatchContext) → length (resolve_agent_key e m) ≡ 16
unfolding resolve_agent_key
length-resolve_agent_key e m =
    let hash = fnv64a 14695981039346656037 (agent_attributes m) in
    omega (
      arith,
      length-append (little_endian 8 e) (little_endian 8 hash),
      length-little_endian 8 e,
      length-little_endian 8 hash,
    )
