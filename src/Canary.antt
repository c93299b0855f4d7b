-- ===== src/Canary.antt =====
-- internal/model/canary.go. An error is `none`.
pub mod Rollout
mod Tests
use Prim.Native.Nat.{bit_xor}
use config_server.Prelude.{
  ℕ, ◌*◌, ◌%◌, ◌^◌, Bool, true, false, not, ◌&&◌, ◌||◌, Option, none, some, List, [], ◌∷◌, ◌++◌,
  Bytes, bytes_eq, is_empty, any, if◌then◌else◌, ltb,
}
use config_server.Model.{AgentMatchContext, AgentGroupTag, CanaryTag, CanaryRelease}
use config_server.Version.{match_version_constraint}
use config_server.IpSelector.{Netip, Json, ip_selector_matches}

pub stable_key : AgentMatchContext → Option Bytes
stable_key m =
    if not (is_empty m.instance_id)
    then some m.instance_id
    else if not (is_empty m.hostid)
    then some m.hostid
    else if not (is_empty m.hostname)
    then some m.hostname
    else none

-- FNV-32a of hash/fnv, from a running hash.
pub fnv32a : ℕ → Bytes → ℕ
fnv32a h [] = h
fnv32a h (b ∷ s) = fnv32a ((bit_xor h b * 16777619) % 2 ^ 32) s

-- The bytes are the key, a NUL and the name of the config.
pub canary_bucket : AgentMatchContext → Bytes → Option ℕ
canary_bucket m config_name = elim (stable_key m) [
  | none ↦ none
  | some key ↦ some (fnv32a 2166136261 (key ++ 0 ∷ config_name) % 100)
]

abbrev has_tag : AgentGroupTag → CanaryTag → Bool
has_tag have want = bytes_eq have.tag_name want.name && bytes_eq have.tag_value want.value

-- The two nested loops of CanaryMatchesTags.
unfoldable pub any_tag : List CanaryTag → List AgentGroupTag → Bool
any_tag [] tags = false
any_tag (want ∷ wants) tags = any (λ have. has_tag have want) tags || any_tag wants tags

module _ (net : Netip) (json : Json) where
  open json use {unmarshal_tags}

  pub canary_matches_ip : Bytes → Bytes → Option Bool
  canary_matches_ip selector ip =
      if is_empty selector
      then some true
      else if is_empty ip
      then some false
      else ip_selector_matches net json selector ip

  pub canary_matches_tags : Bytes → List AgentGroupTag → Option Bool
  canary_matches_tags selector tags =
      if is_empty selector then some true else elim (unmarshal_tags selector) [
        | none ↦ none
        | some wants ↦ some (if is_empty wants then true else any_tag wants tags)
      ]

  abbrev version_fails : CanaryRelease → AgentMatchContext → Bool
  version_fails cr m =
      not (is_empty cr.version_constraint)
      && not (match_version_constraint cr.version_constraint m.version)

  pub canary_targeted : CanaryRelease → AgentMatchContext → Option Bool
  canary_targeted cr m =
      if version_fails cr m then some false else elim (canary_matches_ip cr.ip_selector_json m.ip) [
        | none ↦ none
        | some ip_ok ↦
            if not ip_ok then some false else canary_matches_tags cr.tag_selector_json m.tags
      ]

  unfoldable pub canary_eligible : CanaryRelease → AgentMatchContext → Bytes → Option Bool
  canary_eligible cr m config_name =
      if version_fails cr m then some false else elim (canary_matches_ip cr.ip_selector_json m.ip) [
        | none ↦ none
        | some ip_ok ↦
            if not ip_ok
            then some false
            else elim (canary_matches_tags cr.tag_selector_json m.tags) [
              | none ↦ none
              | some tag_ok ↦
                  if not tag_ok then some false else elim (canary_bucket m config_name) [
                    | none ↦ some false
                    | some bucket ↦ some (ltb bucket cr.rollout_percent)
                  ]
            ]
      ]
