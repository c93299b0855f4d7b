-- ===== src/Canary/Tests.antt =====
-- The theorems on internal/model/canary.go, for one agent and one release.
use Prim.Native.Nat.{Ordering}
use config_server.Prelude.{ℕ, ◌≡◌, ◌≢◌, refl, true, false, ◌&&◌, none, some, [], codes, pos, arith}
use config_server.Model.{pipeline, AgentMatchContext, CanaryRelease, rolling}
use config_server.IpSelector.{Netip, Json}
use config_server.Strings.{trim_space, strip_prefix, split, split_pair, atoi}
use config_server.Version.{
  match_version_constraint, match_groups, match_and_group, match_clauses, match_clause,
  parse_clause, compare_versions, compare_segments, version_segments, parse_segments, cut_label,
}
use config_server.Canary.{
  stable_key, fnv32a, canary_bucket, canary_matches_ip, canary_matches_tags, canary_targeted,
  canary_eligible,
}
use config_server.Canary.Rollout.{in_rollout, canary_eligible-canary_targeted}

-- Addresses that do not parse, and a codec without selectors: the release below has none.
abbrev no_net : Netip
no_net = record {
  Addr = ℕ;
  Prefix = ℕ;
  parse_addr = λ _. none;
  parse_prefix = λ _. none;
  addr_eq = λ _ _. false;
  compare = λ _ _. Ordering.eq;
  prefix_contains = λ _ _. false;
  is4 = λ _. false;
  as4 = λ _. (0, 0, 0, 0);
  addr_from4 = λ _. 0;
}

abbrev no_json : Json
no_json = record {
  unmarshal_selector = λ _. none;
  marshal_selector = λ _. [];
  unmarshal_tags = λ _. none;
}

abbrev agent : AgentMatchContext
agent = record {
  instance_id = codes "i-1";
  ip = codes "10.0.0.1";
  hostid = [];
  hostname = [];
  version = codes "1.2.0";
  tags = [];
}

abbrev release_at : ℕ → CanaryRelease
release_at percent = record {
  config_name = codes "nginx";
  config_type = pipeline;
  canary_detail = codes "new";
  canary_version = pos 2;
  rollout_percent = percent;
  version_constraint = codes ">= 1.0";
  ip_selector_json = [];
  tag_selector_json = [];
  status = rolling;
  created_by = [];
}

full_is_eligible : canary_eligible no_net no_json (release_at 100) agent (codes "nginx") ≡ some true
unfolding canary_eligible match_version_constraint trim_space match_groups split_pair
    match_and_group match_clauses split match_clause parse_clause strip_prefix compare_versions
    compare_segments version_segments parse_segments atoi cut_label canary_bucket stable_key fnv32a
    canary_matches_ip canary_matches_tags
full_is_eligible = refl

canary_eligible-canary_targeted_example :
    canary_eligible no_net no_json (release_at 30) agent (codes "nginx")
    ≡ elim (canary_targeted no_net no_json (release_at 30) agent) [
      | none ↦ none
      | some targeted ↦ some (targeted && in_rollout (canary_bucket agent (codes "nginx")) 30)
    ]
canary_eligible-canary_targeted_example =
    canary_eligible-canary_targeted no_net no_json (release_at 30) agent (codes "nginx")

agent-has_key : stable_key agent ≢ none
unfolding stable_key
agent-has_key e = ground arith
