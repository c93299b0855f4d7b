-- ===== src/Canary/Rollout.antt =====
-- What the rollout percentage of a canary decides, and what it does not.
use config_server.Prelude.{
  ℕ, ◌≤◌, ◌<◌, ◌≡◌, ◌≢◌, Bool, true, false, ◌&&◌, Option, none, some, Bytes, ltb, arith,
  Option-cases, inl, inr, ◌++◌, ◌∷◌, ◌%◌,
}
use config_server.Model.{AgentMatchContext, CanaryRelease}
use config_server.IpSelector.{Netip, Json}
use config_server.Canary.{stable_key, fnv32a, canary_bucket, canary_targeted, canary_eligible}

-- CanaryBucket gives a number below 100 for every agent with an identity, and none for the others.
canary_bucket-lt :
    (m : AgentMatchContext) (name : Bytes) {b : ℕ} → canary_bucket m name ≡ some b → b < 100
unfolding canary_bucket
canary_bucket-lt m name h = ground arith

bucket_of_key :
    (m : AgentMatchContext) (name : Bytes)
    → stable_key m ≢ none
    → (b : ℕ) × (canary_bucket m name ≡ some b)
bucket_of_key m name h = elim (Option-cases (stable_key m)) [
  | inl e ↦ absurd (h e)
  | inr (key, e) ↦
      (fnv32a 2166136261 (key ++ 0 ∷ name) % 100, unfold canary_bucket in rw (e, canary_bucket))
]

-- Whether the bucket of the agent is below the percentage; no bucket is below any.
abbrev pub in_rollout : Option ℕ → ℕ → Bool
in_rollout none percent = false
in_rollout (some bucket) percent = ltb bucket percent

module _ (net : Netip) (json : Json) where
  -- CanaryEligible against CanaryTargeted, the other function of the file that evaluates the
  -- selectors: an error where that gives one, else true exactly if the agent is targeted and has a
  -- bucket below the percentage.
  pub canary_eligible-canary_targeted :
      (cr : CanaryRelease) (m : AgentMatchContext) (name : Bytes)
      → canary_eligible net json cr m name ≡ elim (canary_targeted net json cr m) [
        | none ↦ none
        | some targeted ↦ some (targeted && in_rollout (canary_bucket m name) cr.rollout_percent)
      ]
  unfolding canary_eligible canary_targeted
  canary_eligible-canary_targeted cr m name = ground arith

  -- An agent that gets the canary at one percentage gets it at every higher percentage, all else
  -- being the same.
  canary_eligible_monotone :
      (cr : CanaryRelease) (m : AgentMatchContext) (name : Bytes) (percent : ℕ)
      → cr.rollout_percent ≤ percent
      → canary_eligible net json cr m name ≡ some true
      → canary_eligible net json (record cr { rollout_percent = percent }) m name ≡ some true
  unfolding canary_eligible
  canary_eligible_monotone cr m name percent le h = ground arith

  -- At 0 percent no agent gets the canary.
  canary_eligible_zero :
      (cr : CanaryRelease) (m : AgentMatchContext) (name : Bytes)
      → cr.rollout_percent ≡ 0
      → canary_eligible net json cr m name ≢ some true
  unfolding canary_eligible
  canary_eligible_zero cr m name zero h = ground arith

  -- From 100 percent on, an agent with an instance id, a host id or a host name gets the canary
  -- exactly if it is targeted, and errors are those of the targeting.
  canary_eligible_full :
      (cr : CanaryRelease) (m : AgentMatchContext) (name : Bytes)
      → 100 ≤ cr.rollout_percent
      → stable_key m ≢ none
      → canary_eligible net json cr m name ≡ canary_targeted net json cr m
  canary_eligible_full cr m name full key =
      let (b, e) = bucket_of_key m name key in
      ground (arith, canary_eligible-canary_targeted cr m name, e, canary_bucket-lt m name e)
