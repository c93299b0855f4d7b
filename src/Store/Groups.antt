-- ===== src/Store/Groups.antt =====
-- The set of groups that GetConfigsForAgent of internal/store/gormdb/gormdb.go matches.
use config_server.Prelude.{
  ◌≡◌, refl, sym, Bool, true, false, not, ◌&&◌, ◌||◌, Option, none, some, List, [], ◌∷◌, Bytes,
  bytes_eq, bytes_eq_iff, bytes_eq_refl, is_empty, any, keep, arith, if◌then◌else◌, Bool-cases,
  Option-cases, inl, inr,
}
use config_server.Model.{default_group_name, AgentGroup, AgentGroupTag, AgentMatchContext}
use config_server.IpSelector.{Netip, Json, ip_selector_matches}
use config_server.Store.{
  Store, in_set, add_name, add_names, delete_name, group_tag_matches, tag_groups, version_groups,
  ip_groups, tag_row_matches, version_excludes, exclude_versions, group_names, ip_names,
  matched_groups,
}

pub in_set-add_name :
    (n k : Bytes) (set : List Bytes) → in_set n (add_name k set) ≡ (bytes_eq k n || in_set n set)
unfolding in_set add_name
in_set-add_name n k set = ground (arith, bytes_eq_iff k n)

in_set-add_names :
    (n : Bytes) (ks set : List Bytes) → in_set n (add_names ks set) ≡ (in_set n ks || in_set n set)
unfolding in_set add_names
in_set-add_names n [] set = refl
in_set-add_names n (k ∷ ks) set =
    ground (arith, in_set-add_names n ks (add_name k set), in_set-add_name n k set)

in_set-delete_name :
    (n k : Bytes) (set : List Bytes)
    → in_set n (delete_name k set) ≡ (not (bytes_eq k n) && in_set n set)
unfolding in_set delete_name
in_set-delete_name n k [] = ground arith
in_set-delete_name n k (x ∷ xs) =
    ground (arith, in_set-delete_name n k xs, bytes_eq_iff x k, bytes_eq_iff x n, bytes_eq_iff k n)

-- A row of the group that keeps the agent out by its version.
abbrev pub keeps_out : Bytes → Bytes → AgentGroup → Bool
keeps_out version n g =
    bytes_eq g.name n && not (bytes_eq g.name default_group_name) && version_excludes version g

in_set-step :
    (version n : Bytes) (g : AgentGroup) (set : List Bytes)
    → in_set n (
        if not (bytes_eq g.name default_group_name)
          && in_set g.name set
          && version_excludes version g
        then delete_name g.name set
        else set)
      ≡ (in_set n set && not (keeps_out version n g))
in_set-step version n g set =
    elim (Bool-cases (
      not (bytes_eq g.name default_group_name)
      && in_set g.name set
      && version_excludes version g)) [
        | inl e ↦ rw e (ground (arith, in_set-delete_name n g.name set, bytes_eq_iff g.name n))
        | inr e ↦ rw e (ground (arith, bytes_eq_iff g.name n))
      ]

in_set-exclude_versions :
    (version n : Bytes) (gs : List AgentGroup) (set : List Bytes)
    → in_set n (exclude_versions version gs set)
      ≡ (in_set n set && not (any (keeps_out version n) gs))
unfolding exclude_versions
in_set-exclude_versions version n [] set = ground arith
in_set-exclude_versions version n (g ∷ gs) set = ground (
  arith,
  in_set-exclude_versions version n gs (
      if not (bytes_eq g.name default_group_name) && in_set g.name set && version_excludes version g
      then delete_name g.name set
      else set),
  in_set-step version n g set,
)

in_set-keep :
    (n : Bytes) (p : AgentGroup → Bool) (gs : List AgentGroup)
    → in_set n (group_names (keep p gs)) ≡ any (λ (g : AgentGroup). bytes_eq g.name n && p g) gs
unfolding in_set
in_set-keep n p [] = refl
in_set-keep n p (g ∷ gs) = ground (arith, in_set-keep n p gs)

-- A tag row of the group has the name and the value of a tag of the agent.
abbrev has_tag : Store → AgentMatchContext → AgentGroup → Bool
has_tag s m g =
    any
      (λ (row : AgentGroupTag).
        bytes_eq row.group_name g.name
        && any
            (λ (t : AgentGroupTag).
              bytes_eq row.tag_name t.tag_name && bytes_eq row.tag_value t.tag_value)
            m.tags)
      s.tags

abbrev is_true : Option Bool → Bool
is_true none = false
is_true (some b) = b

-- The group has an IP selector and the agent an address, which the selector matches.
abbrev has_ip : Netip → Json → AgentMatchContext → AgentGroup → Bool
has_ip net json m g =
    not (is_empty m.ip)
    && not (is_empty g.ip_selector_json)
    && is_true (ip_selector_matches net json g.ip_selector_json m.ip)

-- What puts the name of a group into the set.
abbrev pub joins : Netip → Json → Store → AgentMatchContext → Bytes → Bool
joins net json s m n =
    bytes_eq default_group_name n
    || any (λ (g : AgentGroup). bytes_eq g.name n && has_tag s m g) s.groups
    || any (λ (g : AgentGroup). bytes_eq g.name n && has_ip net json m g) s.groups
    || any (λ (g : AgentGroup). bytes_eq g.name n && not (is_empty g.version_constraint)) s.groups

any-false : {A : Type 0} (p : A → Bool) (xs : List A) → ((x : A) → p x ≡ false) → any p xs ≡ false
any-false p [] h = refl
any-false p (x ∷ xs) h = rw (h x, any-false p xs h) refl

any-empty : {A : Type 0} (p : A → Bool) (xs : List A) → is_empty xs ≡ true → any p xs ≡ false
any-empty p [] e = refl
any-empty p (x ∷ xs) e = ground arith

-- An agent without tags has no tag of a group.
any-has_tag :
    (s : Store) (m : AgentMatchContext) (n : Bytes)
    → is_empty m.tags ≡ true
    → (gs : List AgentGroup)
    → any (λ (g : AgentGroup). bytes_eq g.name n && has_tag s m g) gs ≡ false
any-has_tag s m n e gs =
    any-false (λ (g : AgentGroup). bytes_eq g.name n && has_tag s m g) gs
      (λ g.
        rw
          (any-false
            (λ (row : AgentGroupTag).
              bytes_eq row.group_name g.name
              && any
                  (λ (t : AgentGroupTag).
                    bytes_eq row.tag_name t.tag_name && bytes_eq row.tag_value t.tag_value)
                  m.tags)
            s.tags
            (λ row. ground (
              arith,
              any-empty
                  (λ (t : AgentGroupTag).
                    bytes_eq row.tag_name t.tag_name && bytes_eq row.tag_value t.tag_value)
                  m.tags e,
            )))
          (ground arith))

in_set-tag_groups :
    (s : Store) (m : AgentMatchContext) (n : Bytes)
    → in_set n (tag_groups s m.tags)
      ≡ any (λ (g : AgentGroup). bytes_eq g.name n && has_tag s m g) s.groups
unfolding tag_groups in_set group_tag_matches tag_row_matches
in_set-tag_groups s m n = elim (Bool-cases (is_empty m.tags)) [
  | inl e ↦ rw e (sym (any-has_tag s m n e s.groups))
  | inr e ↦ rw e (in_set-keep n (λ g. group_tag_matches s m.tags g) s.groups)
]

in_set-default : (n : Bytes) → in_set n (default_group_name ∷ []) ≡ bytes_eq default_group_name n
unfolding in_set
in_set-default n = ground arith

in_set-version_groups :
    (s : Store) (n : Bytes)
    → in_set n (version_groups s)
      ≡ any (λ (g : AgentGroup). bytes_eq g.name n && not (is_empty g.version_constraint)) s.groups
unfolding version_groups
in_set-version_groups s n =
    in_set-keep n (λ (g : AgentGroup). not (is_empty g.version_constraint)) s.groups

any-keeps_out-default :
    (version : Bytes) (gs : List AgentGroup) → any (keeps_out version default_group_name) gs ≡ false
any-keeps_out-default version [] = refl
any-keeps_out-default version (g ∷ gs) = ground (arith, any-keeps_out-default version gs)

module _ (net : Netip) (json : Json) (s : Store) (m : AgentMatchContext) where
  abbrev by_tag : List Bytes
  by_tag = add_names (tag_groups s m.tags) (default_group_name ∷ [])

  abbrev all_names : List Bytes → List Bytes
  all_names by_ip = add_names (version_groups s) (add_names by_ip by_tag)

  in_set-ip_groups :
      (n : Bytes) (gs : List AgentGroup) (names : List Bytes)
      → is_empty m.ip ≡ false
      → ip_groups net json gs m.ip ≡ some names
      → in_set n names ≡ any (λ (g : AgentGroup). bytes_eq g.name n && has_ip net json m g) gs
  unfolding ip_groups in_set
  in_set-ip_groups n [] names a e = ground arith
  in_set-ip_groups n (g ∷ gs) names a e = elim (Option-cases (ip_groups net json gs m.ip)) [
    | inl k ↦ elim (Option-cases (ip_selector_matches net json g.ip_selector_json m.ip)) [
      | inl f ↦ ground arith
      | inr (b, f) ↦ ground arith
    ]
    | inr (rest, k) ↦ elim (Option-cases (ip_selector_matches net json g.ip_selector_json m.ip)) [
      | inl f ↦ ground (arith, in_set-ip_groups n gs rest a k)
      | inr (b, f) ↦ ground (arith, in_set-ip_groups n gs rest a k)
    ]
  ]

  in_set-ip_names :
      (n : Bytes) (names : List Bytes)
      → ip_names net json s m ≡ some names
      → in_set n names ≡ any (λ (g : AgentGroup). bytes_eq g.name n && has_ip net json m g) s.groups
  unfolding ip_names in_set
  in_set-ip_names n names e = elim (Bool-cases (is_empty m.ip)) [
    | inl a ↦ ground (
      arith,
      any-false (λ (g : AgentGroup). bytes_eq g.name n && has_ip net json m g) s.groups
          (λ g. ground arith),
    )
    | inr a ↦ in_set-ip_groups n s.groups names a (ground arith)
  ]

  matched_groups-names :
      (by_ip names : List Bytes)
      → ip_names net json s m ≡ some by_ip
      → matched_groups net json s m ≡ some names
      → exclude_versions m.version s.groups (all_names by_ip) ≡ names
  unfolding matched_groups
  matched_groups-names by_ip names e h = cc

  matched_groups-none : ip_names net json s m ≡ none → matched_groups net json s m ≡ none
  unfolding matched_groups
  matched_groups-none e = rw (e, matched_groups) refl

  -- When the resolution gives a set of groups, the set is exactly the default group, the groups
  -- with a tag row that has the name and the value of a tag of the agent, those with an IP selector
  -- that matches the agent's address and those with a version constraint; less the groups other
  -- than the default one whose constraint the agent's version does not satisfy.
  pub matched_groups_lem :
      (names : List Bytes) (n : Bytes)
      → matched_groups net json s m ≡ some names
      → in_set n names ≡ (joins net json s m n && not (any (keeps_out m.version n) s.groups))
  matched_groups_lem names n h = elim (Option-cases (ip_names net json s m)) [
    | inl e ↦ ground (arith, matched_groups-none e)
    | inr (by_ip, e) ↦ rw (sym (matched_groups-names by_ip names e h)) (
        ground (
          arith,
          in_set-exclude_versions m.version n s.groups (all_names by_ip),
          in_set-add_names n (version_groups s) (add_names by_ip (by_tag)),
          in_set-add_names n by_ip by_tag,
          in_set-add_names n (tag_groups s m.tags) (default_group_name ∷ []),
          in_set-version_groups s n,
          in_set-tag_groups s m n,
          in_set-ip_names n by_ip e,
          in_set-default n,
        ))
  ]

  -- The default group is matched for every agent, whatever its tags, address and version.
  matched_groups-default :
      (names : List Bytes)
      → matched_groups net json s m ≡ some names
      → in_set default_group_name names ≡ true
  matched_groups-default names h = ground (
    arith,
    matched_groups_lem names default_group_name h,
    bytes_eq_refl default_group_name,
    any-keeps_out-default m.version s.groups,
  )

  -- A group that some row gives a version constraint, and that no row keeps the agent out of by
  -- its version, is matched whatever the agent's tags and address and the group's selectors.
  pub matched_groups-constraint :
      (names : List Bytes) (n : Bytes)
      → matched_groups net json s m ≡ some names
      → any (λ (g : AgentGroup). bytes_eq g.name n && not (is_empty g.version_constraint)) s.groups
        ≡ true
      → any (keeps_out m.version n) s.groups ≡ false
      → in_set n names ≡ true
  matched_groups-constraint names n h c k = ground (arith, matched_groups_lem names n h)
