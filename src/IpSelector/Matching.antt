-- ===== src/IpSelector/Matching.antt =====
-- IPSelectorMatches on a selector that MarshalIPSelector wrote.
use config_server.Prelude.{
  ◌≡◌, refl, Bool, false, Option, none, some, List, [], ◌∷◌, Bytes, any, arith, Option-cases, inl,
  inr,
}
use config_server.Strings.{trim_space}
use config_server.IpSelector.{
  Netip, Json, parse_item, item_matches, matches_from, normalize_ip_selector, marshal_ip_selector,
  ip_selector_matches,
}
use config_server.IpSelector.Normalize.{
  IsNormal, IsSelectorCodec, normalize_ip_selector-IsNormal, parse_ip_selector_json-marshal,
}

module _ (net : Netip) where
  open net use {Addr, parse_addr}

  -- The item covers the address: it parses, and what it stands for matches.
  abbrev covers : Addr → Bytes → Bool
  covers a item = elim (parse_item net item) [ none ↦ false | some rule ↦ item_matches net rule a ]

  -- Some item covers the address that the text stands for.
  abbrev pub covered : List Bytes → Option Addr → Bool
  covered items none = false
  covered items (some a) = any (covers a) items

  matches_from-any :
      (known items : List Bytes) (a : Addr)
      → IsNormal net known items
      → matches_from net items a ≡ some (any (covers a) items)
  unfolding matches_from
  matches_from-any known [] a h = refl
  matches_from-any known (x ∷ xs) a h =
      ground (arith, h.0.parses, matches_from-any (x ∷ known) xs a h.2)

  -- With a codec that reads back what it writes, IPSelectorMatches on what MarshalIPSelector wrote
  -- gives no error. It is true exactly if the agent's text, trimmed, is an address and some item
  -- that NormalizeIPSelector keeps covers that address.
  pub ip_selector_matches-marshal :
      (json : Json) (ips : List Bytes) (ip : Bytes)
      → IsSelectorCodec json
      → {raw : Bytes} {items : List Bytes} → marshal_ip_selector net json ips ≡ some raw
      → normalize_ip_selector net ips ≡ some items
      → ip_selector_matches net json raw ip ≡ some (covered items (parse_addr (trim_space ip)))
  ip_selector_matches-marshal json ips ip codec {raw} {items} h e =
      elim (Option-cases (parse_addr (trim_space ip))) [
        | inl p ↦
            unfold ip_selector_matches in
            ground (arith, parse_ip_selector_json-marshal net json ips codec h)
        | inr (a, p) ↦
            unfold ip_selector_matches in
            ground (
              arith,
              parse_ip_selector_json-marshal net json ips codec h,
              matches_from-any [] items a (normalize_ip_selector-IsNormal net ips e).0,
            )
      ]
