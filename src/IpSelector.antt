-- ===== src/IpSelector.antt =====
-- internal/model/ip_selector.go. An error is `none`. The packages net/netip and encoding/json are
-- parameters.
pub mod Normalize
pub mod Matching
mod Tests
use Prim.Native.Nat.{Ordering}
use mathlib.Core.Option
use config_server.Prelude.{
  ℕ, ◌%◌, Bool, true, false, not, ◌||◌, ◌&&◌, Option, none, some, List, [], ◌∷◌, Bytes, bytes_eq, ℤ,
  pos, negsuc, is_empty, any, if◌then◌else◌, ltb,
}
use config_server.Model.{CanaryTag}
use config_server.Strings.{trim_space, split, contains, atoi_int}

-- net/netip: parsing, equality, order and the octets of an IPv4 address.
pub record Netip : Type 1 where
  pub Addr : Type 0
  pub Prefix : Type 0
  pub parse_addr : Bytes → Option Addr
  pub parse_prefix : Bytes → Option Prefix
  pub addr_eq : Addr → Addr → Bool
  pub compare : Addr → Addr → Ordering
  pub prefix_contains : Prefix → Addr → Bool
  pub is4 : Addr → Bool
  pub as4 : Addr → ℕ × ℕ × ℕ × ℕ
  pub addr_from4 : ℕ × ℕ × ℕ × ℕ → Addr

-- encoding/json on the two selector types.
pub record Json : Type 0 where
  pub unmarshal_selector : Bytes → Option (List Bytes)
  pub marshal_selector : List Bytes → Bytes
  pub unmarshal_tags : Bytes → Option (List CanaryTag)

abbrev is_gt : Ordering → Bool
is_gt Ordering.gt = true
is_gt _ = false

abbrev is_lt : Ordering → Bool
is_lt Ordering.lt = true
is_lt _ = false

-- Whether the text is among those seen.
unfoldable pub seen : Bytes → List Bytes → Bool
seen item [] = false
seen item (x ∷ xs) = bytes_eq x item || seen item xs

module _ (net : Netip) where
  open net use {
    Addr, Prefix, parse_addr, parse_prefix, addr_eq, compare, prefix_contains, is4, as4, addr_from4,
  }

  -- ipSelectorItem with its kind.
  pub data Item : Type 0 where
    addr : Addr → Item
    range : Addr → Addr → Item
    prefix : Prefix → Item

  -- The last octet replaced.
  abbrev with_last : Addr → ℕ → Addr
  with_last start suffix = let (a, b, c, d) = as4 start in addr_from4 (a, b, c, suffix % 256)

  -- A suffix that is not in 0 .. 255 is an error.
  abbrev short_end : Addr → ℤ → Option Addr
  short_end start (negsuc n) = none
  short_end start (pos n) = if ltb 255 n then none else some (with_last start n)

  unfoldable pub parse_range_end : Addr → Bytes → Option Addr
  parse_range_end start end_text =
      if contains b'.' end_text || contains b':' end_text
      then parse_addr end_text
      else if is4 start
      then elim (atoi_int end_text) [ none ↦ none | some n ↦ short_end start n ]
      else none

  abbrev parse_range : List Bytes → Option Item
  parse_range (first ∷ last ∷ []) = elim (parse_addr (trim_space first)) [
    | none ↦ none
    | some start ↦ elim (parse_range_end start (trim_space last)) [
      | none ↦ none
      | some end ↦ if is_gt (compare start end) then none else some (range start end)
    ]
  ]
  parse_range _ = none

  unfoldable pub parse_item : Bytes → Option Item
  parse_item item =
      if contains b'/' item
      then elim (parse_prefix item) [ none ↦ none | some p ↦ some (prefix p) ]
      else if contains b'-' item
      then parse_range (split b'-' item)
      else elim (parse_addr item) [ none ↦ none | some a ↦ some (addr a) ]

  unfoldable pub item_matches : Item → Addr → Bool
  item_matches (addr a) ip = addr_eq ip a
  item_matches (range start end) ip = not (is_lt (compare ip start)) && not (is_gt (compare ip end))
  item_matches (prefix p) ip = prefix_contains p ip

  -- The loop of NormalizeIPSelector; `known` holds the items that are kept already.
  unfoldable pub normalize_from : List Bytes → List Bytes → Option (List Bytes)
  normalize_from known [] = some []
  normalize_from known (i ∷ ips) =
      let item = trim_space i in
      let skip = normalize_from known ips in
      let take = Option.map (λ rest. item ∷ rest) (normalize_from (item ∷ known) ips) in
      if is_empty item
      then skip
      else elim (parse_item item) [ none ↦ none | some _ ↦ if seen item known then skip else take ]

  unfoldable pub normalize_ip_selector : List Bytes → Option (List Bytes)
  normalize_ip_selector ips = normalize_from [] ips

  -- The loop of IPSelectorMatches.
  unfoldable pub matches_from : List Bytes → Addr → Option Bool
  matches_from [] ip = some false
  matches_from (item ∷ items) ip =
      let rest = matches_from items ip in
      elim (parse_item item) [
        | none ↦ none
        | some rule ↦ if item_matches rule ip then some true else rest
      ]

  module _ (json : Json) where
    open json use {unmarshal_selector, marshal_selector}

    unfoldable pub parse_ip_selector_json : Bytes → Option (List Bytes)
    parse_ip_selector_json raw =
        if is_empty (trim_space raw)
        then some []
        else elim (unmarshal_selector raw) [ none ↦ none | some ips ↦ normalize_ip_selector ips ]

    pub marshal_ip_selector : List Bytes → Option Bytes
    marshal_ip_selector ips = elim (normalize_ip_selector ips) [
      | none ↦ none
      | some [] ↦ some []
      | some (item ∷ items) ↦ some (marshal_selector (item ∷ items))
    ]

    -- An agent address that does not parse matches nothing and is no error.
    unfoldable pub ip_selector_matches : Bytes → Bytes → Option Bool
    ip_selector_matches raw ip = elim (parse_ip_selector_json raw) [
      | none ↦ none
      | some ips ↦ elim (parse_addr (trim_space ip)) [
        | none ↦ some false
        | some a ↦ matches_from ips a
      ]
    ]
