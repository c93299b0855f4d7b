-- ===== src/IpSelector/Normalize.antt =====
-- NormalizeIPSelector: what it keeps, that it changes nothing a second time, and the round trip
-- through MarshalIPSelector and ParseIPSelectorJSON.
use mathlib.Core.Option
use config_server.Prelude.{
  subst, ◌≡◌, refl, ◌≢◌, false, none, some, List, [], ◌∷◌, Bytes, is_empty, arith, if◌then◌else◌,
  Bool-cases, Option-cases, inl, inr, ◌⊎◌,
}
use config_server.Strings.{trim_space}
use config_server.Strings.Trim.{trim_space-again}
use config_server.IpSelector.{
  Netip, Json, seen, parse_item, normalize_from, normalize_ip_selector, parse_ip_selector_json,
  marshal_ip_selector,
}

-- The documented behaviour of encoding/json on a selector: what Marshal writes is not blank, and
-- Unmarshal reads it back.
pub record IsSelectorCodec (json : Json) : Type 0 where
  pub reads_back :
      (ips : List Bytes) → json.unmarshal_selector (json.marshal_selector ips) ≡ some ips
  pub not_blank : (ips : List Bytes) → is_empty (trim_space (json.marshal_selector ips)) ≡ false

module _ (net : Netip) where
  -- An item as NormalizeIPSelector keeps it: trimmed, not empty, and one that parses.
  pub record IsItem (item : Bytes) : Type 0 where
    pub trimmed : trim_space item ≡ item
    pub filled : is_empty item ≡ false
    pub parses : parse_item net item ≢ none

  -- The items are in normal form, and none of them is among those known or stands twice.
  abbrev pub IsNormal : List Bytes → List Bytes → Type 0
  IsNormal known [] = Unit
  IsNormal known (x ∷ xs) = IsItem x × (seen x known ≡ false) × IsNormal (x ∷ known) xs

  -- One round of the loop: the item is skipped, refused or kept.
  round_cases :
      (known : List Bytes) (i : Bytes) (ips out : List Bytes)
      → normalize_from net known (i ∷ ips) ≡ some out
      → (normalize_from net known ips ≡ some out)
        ⊎ ((rest : List Bytes) × (out ≡ trim_space i ∷ rest)
            × (normalize_from net (trim_space i ∷ known) ips ≡ some rest)
            × (is_empty (trim_space i) ≡ false)
            × (parse_item net (trim_space i) ≢ none)
            × (seen (trim_space i) known ≡ false))
  unfolding normalize_from
  round_cases known i ips out h = elim (Bool-cases (is_empty (trim_space i))) [
    | inl e ↦ inl (ground arith)
    | inr e ↦ elim (Option-cases (parse_item net (trim_space i))) [
      | inl p ↦ absurd (ground arith)
      | inr (item, p) ↦ elim (Bool-cases (seen (trim_space i) known)) [
        | inl k ↦ inl (ground arith)
        | inr k ↦ elim (Option-cases (normalize_from net (trim_space i ∷ known) ips)) [
          | inl q ↦ absurd (ground arith)
          | inr (rest, q) ↦ inr (rest, ground arith, q, e, ground arith, k)
        ]
      ]
    ]
  ]

  normalize_from-IsNormal :
      (known ips : List Bytes) {out : List Bytes}
      → normalize_from net known ips ≡ some out
      → IsNormal known out
  normalize_from-IsNormal known [] {out} h =
      let e : out ≡ [] = unfold normalize_from in ground arith in rw e tt
  normalize_from-IsNormal known (i ∷ ips) {out} h = elim (round_cases known i ips out h) [
    | inl skipped ↦ normalize_from-IsNormal known ips skipped
    | inr (rest, e, more, filled, parses, new) ↦ rw e (
      record { trimmed = trim_space-again i; filled = filled; parses = parses },
      new,
      normalize_from-IsNormal (trim_space i ∷ known) ips more,
    )
  ]

  round_kept :
      (known : List Bytes) (i j : Bytes) (ips : List Bytes)
      → trim_space i ≡ j
      → is_empty j ≡ false
      → parse_item net j ≢ none
      → seen j known ≡ false
      → normalize_from net known (i ∷ ips)
        ≡ Option.map (λ rest. j ∷ rest) (normalize_from net (j ∷ known) ips)
  unfolding normalize_from
  round_kept known i j ips e filled parses new =
      subst
        (λ t.
          is_empty t ≡ false
          → parse_item net t ≢ none
          → seen t known ≡ false
          → normalize_from net known (i ∷ ips)
            ≡ Option.map (λ rest. t ∷ rest) (normalize_from net (t ∷ known) ips))
        e (λ f p n. ground arith) filled parses new

  -- A list in normal form is kept as it is.
  normalize_from-normal :
      (known ips : List Bytes) → IsNormal known ips → normalize_from net known ips ≡ some ips
  normalize_from-normal known [] h = unfold normalize_from in refl
  normalize_from-normal known (i ∷ ips) h =
      rw (round_kept known i i ips h.0.trimmed h.0.filled h.0.parses h.1)
        (rw (normalize_from-normal (i ∷ known) ips h.2))

  -- NormalizeIPSelector of any list: where it gives a list, each item of that is trimmed, not
  -- empty and parses, no item stands twice, and a second run gives the same list.
  pub normalize_ip_selector-IsNormal :
      (ips : List Bytes) {out : List Bytes}
      → normalize_ip_selector net ips ≡ some out
      → IsNormal [] out × (normalize_ip_selector net out ≡ some out)
  unfolding normalize_ip_selector
  normalize_ip_selector-IsNormal ips {out} h =
      let normal = normalize_from-IsNormal [] ips h in (normal, normalize_from-normal [] out normal)

  marshalled :
      (json : Json) (ips out : List Bytes) {raw : Bytes}
      → marshal_ip_selector net json ips ≡ some raw
      → normalize_ip_selector net ips ≡ some out
      → raw ≡ (if is_empty out then [] else json.marshal_selector out)
  unfolding marshal_ip_selector
  marshalled json ips [] h e = ground arith
  marshalled json ips (x ∷ xs) h e = ground arith

  parse_blank : (json : Json) → parse_ip_selector_json net json [] ≡ some []
  unfolding parse_ip_selector_json trim_space
  parse_blank json = refl

  read_back :
      (json : Json) (ips out : List Bytes) {raw : Bytes}
      → IsSelectorCodec json
      → marshal_ip_selector net json ips ≡ some raw
      → normalize_ip_selector net ips ≡ some out
      → parse_ip_selector_json net json raw ≡ some out
  read_back json ips [] codec h e = rw (marshalled json ips [] h e) (parse_blank json)
  read_back json ips (x ∷ xs) codec h e = rw (marshalled json ips (x ∷ xs) h e) (
      unfold parse_ip_selector_json in
      ground (
        arith,
        codec.reads_back (x ∷ xs),
        codec.not_blank (x ∷ xs),
        (normalize_ip_selector-IsNormal ips e).1,
      ))

  -- With a codec that reads back what it writes, ParseIPSelectorJSON of what MarshalIPSelector
  -- writes is what NormalizeIPSelector gives, for every selector that is accepted.
  pub parse_ip_selector_json-marshal :
      (json : Json) (ips : List Bytes)
      → IsSelectorCodec json
      → {raw : Bytes} → marshal_ip_selector net json ips ≡ some raw
      → parse_ip_selector_json net json raw ≡ normalize_ip_selector net ips
  parse_ip_selector_json-marshal json ips codec {raw} h =
      elim (Option-cases (normalize_ip_selector net ips)) [
        | inl e ↦ absurd (unfold marshal_ip_selector in ground arith)
        | inr (out, e) ↦ rw e (read_back json ips out codec h e)
      ]
