-- ===== src/Agent/Inline.antt =====
-- The size limit on the content that a heartbeat response carries for one type of configs.
use config_server.Prelude.{
  ℕ, ◌+◌, ◌*◌, ◌≤◌, ◌≡◌, refl, Bool, List, [], ◌∷◌, ◌++◌, map, ltb, length, length-append, ◌<◌,
  arith, Bytes, ℤ, if◌then◌else◌, ◌⊎◌,
}
use config_server.Agent.{ConfigDetail}

abbrev pub max_inline_detail_bytes : ℕ
max_inline_detail_bytes = 256 * 1024

unfoldable pub inline_bytes : List ConfigDetail → ℕ
inline_bytes [] = 0
inline_bytes (d ∷ ds) = length d.detail + inline_bytes ds

abbrev pub without_detail : ConfigDetail → ConfigDetail
without_detail d = record d { detail = [] }

unfoldable pub over_limit : List ConfigDetail → Bool
over_limit ds = ltb max_inline_detail_bytes (inline_bytes ds)

-- The details are stripped where they are too long; the flag is `over_limit`.
unfoldable pub strip_inline : List ConfigDetail → List ConfigDetail
strip_inline ds = if over_limit ds then map without_detail ds else ds

abbrev pub heads : List ConfigDetail → List (Bytes × ℤ)
heads = map (λ d. (d.name, d.version))

heads-stripped : (ds : List ConfigDetail) → heads (map without_detail ds) ≡ heads ds
heads-stripped [] = refl
heads-stripped (d ∷ ds) = ground (arith, heads-stripped ds)

-- The contents of the updates, one after the other.
abbrev pub contents : List ConfigDetail → Bytes
contents [] = []
contents (d ∷ ds) = d.detail ++ contents ds

contents-stripped : (ds : List ConfigDetail) → contents (map without_detail ds) ≡ []
contents-stripped [] = refl
contents-stripped (d ∷ ds) = contents-stripped ds

inline_bytes-contents : (ds : List ConfigDetail) → inline_bytes ds ≡ length (contents ds)
unfolding inline_bytes
inline_bytes-contents [] = refl
inline_bytes-contents (d ∷ ds) =
    ground (arith, inline_bytes-contents ds, length-append d.detail (contents ds))

-- Whatever the updates are, the contents that are sent for the type have at most 262144 bytes, and
-- the updates keep their number, order, names and versions. They are sent unchanged exactly where
-- the contents have at most that length, and without any content where they are longer.
pub strip_inline-bounded :
    (ds : List ConfigDetail)
    → (length (contents (strip_inline ds)) ≤ 262144)
      × (heads (strip_inline ds) ≡ heads ds)
      × (((262144 < length (contents ds)) × (contents (strip_inline ds) ≡ []))
          ⊎ ((length (contents ds) ≤ 262144) × (strip_inline ds ≡ ds)))
unfolding strip_inline over_limit
strip_inline-bounded ds =
    ground (arith, inline_bytes-contents ds, contents-stripped ds, heads-stripped ds)
