-- ===== src/IpSelector/Tests.antt =====
-- The theorems on internal/model/ip_selector.go, with addresses of one byte and a codec that
-- marks the start of each item.
use Prim.Native.Nat.{compare}
use config_server.Prelude.{
  ℕ, ◌+◌, ◌-◌, ◌==◌, ◌≡◌, refl, true, false, Option, none, some, List, [], ◌∷◌, ◌++◌, Bytes,
  bytes_eq, codes, map, if◌then◌else◌, arith, ap,
}
use config_server.Strings.{trim_space, contains}
use config_server.Strings.Laws.{ends_solid, ends_solid-append, trim_space-solid}
use config_server.IpSelector.{
  Netip, Json, parse_item, normalize_from, normalize_ip_selector, marshal_ip_selector,
  ip_selector_matches, seen,
}
use config_server.IpSelector.Normalize.{IsNormal, IsSelectorCodec, normalize_ip_selector-IsNormal}
use config_server.IpSelector.Matching.{ip_selector_matches-marshal, covered}

abbrev first_byte : Bytes → Option ℕ
first_byte [] = none
first_byte (b ∷ _) = some b

abbrev toy_net : Netip
toy_net = record {
  Addr = ℕ;
  Prefix = ℕ;
  parse_addr = first_byte;
  parse_prefix = λ _. none;
  addr_eq = λ a b. a == b;
  compare = λ a b. compare a b;
  prefix_contains = λ _ _. false;
  is4 = λ _. false;
  as4 = λ _. (0, 0, 0, 0);
  addr_from4 = λ _. 0;
}

-- An item is a mark and its bytes, raised above the marks; the list ends with a bracket.
abbrev shift : ℕ → ℕ
shift b = b + 1000

abbrev write_items : List Bytes → Bytes
write_items [] = 93 ∷ []
write_items (x ∷ xs) = 1 ∷ (map shift x ++ write_items xs)

-- The item that is not finished, and the items after it.
abbrev read_items : Bytes → Bytes × List Bytes
read_items [] = ([], [])
read_items (c ∷ s) =
    let rest = read_items s in
    if c == 1
    then ([], rest.0 ∷ rest.1)
    else if c == 93
    then ([], [])
    else ((c - 1000) ∷ rest.0, rest.1)

abbrev read_list : Bytes → Option (List Bytes)
read_list [] = none
read_list (_ ∷ s) = some (read_items s).1

abbrev toy_json : Json
toy_json = record {
  unmarshal_selector = read_list;
  marshal_selector = λ ips. 91 ∷ write_items ips;
  unmarshal_tags = λ _. some [];
}

append_nil : (s : Bytes) → s ++ [] ≡ s
append_nil [] = refl
append_nil (b ∷ s) = ap (λ t. b ∷ t) (append_nil s)

read_items-shift :
    (x s : Bytes) → read_items (map shift x ++ s) ≡ (x ++ (read_items s).0, (read_items s).1)
read_items-shift [] s = refl
read_items-shift (b ∷ x) s = ground (arith, read_items-shift x s)

read_items-write_items : (xs : List Bytes) → read_items (write_items xs) ≡ ([], xs)
read_items-write_items [] = refl
read_items-write_items (x ∷ xs) =
    ground (arith, read_items-shift x (write_items xs), read_items-write_items xs, append_nil x)

write_items-ends : (xs : List Bytes) → ends_solid (write_items xs) ≡ true
write_items-ends [] = refl
write_items-ends (x ∷ xs) =
    ends_solid-append (1 ∷ map shift x) (write_items xs) (write_items-ends xs)

toy_json-IsSelectorCodec : IsSelectorCodec toy_json
toy_json-IsSelectorCodec = record {
  reads_back = λ ips. ap (λ p. some p.1) (read_items-write_items ips);
  not_blank = λ ips.
      rw
        (trim_space-solid (91 ∷ write_items ips) refl
          (ends_solid-append (91 ∷ []) (write_items ips) (write_items-ends ips)))
        refl;
}

abbrev items : List Bytes
items = codes " 5 " ∷ codes "7" ∷ codes "5" ∷ []

items-normalized : normalize_ip_selector toy_net items ≡ some (codes "5" ∷ codes "7" ∷ [])
unfolding normalize_ip_selector normalize_from trim_space parse_item contains seen bytes_eq
items-normalized = refl

items-marshalled :
    marshal_ip_selector toy_net toy_json items
    ≡ some (91 ∷ write_items (codes "5" ∷ codes "7" ∷ []))
unfolding marshal_ip_selector normalize_ip_selector normalize_from trim_space parse_item contains
    seen bytes_eq
items-marshalled = refl

normalize_ip_selector-IsNormal_example :
    IsNormal toy_net [] (codes "5" ∷ codes "7" ∷ [])
    × (normalize_ip_selector toy_net (codes "5" ∷ codes "7" ∷ [])
        ≡ some (codes "5" ∷ codes "7" ∷ []))
normalize_ip_selector-IsNormal_example =
    normalize_ip_selector-IsNormal toy_net items items-normalized

ip_selector_matches-marshal_example :
    ip_selector_matches toy_net toy_json (91 ∷ write_items (codes "5" ∷ codes "7" ∷ [])) (codes "7")
    ≡ some (covered toy_net (codes "5" ∷ codes "7" ∷ []) (first_byte (trim_space (codes "7"))))
ip_selector_matches-marshal_example =
    ip_selector_matches-marshal toy_net toy_json items (codes "7") toy_json-IsSelectorCodec
      items-marshalled items-normalized
