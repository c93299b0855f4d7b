-- ===== src/CanaryAdmin/Release.antt =====
-- What promoting a canary release and creating it again do, in the handlers of
-- internal/server/admin/handler.go.
use config_server.Prelude.{
  ℕ, ◌≡◌, refl, sym, ◌∙◌, subst, ◌&&◌, Bool, true, Option, none, some, keep, Bool-cases, List, [],
  ◌∷◌, Bytes, codes, ℤ, bytes_eq, bytes_eq_iff, bytes_eq_refl, arith, Option-cases, ◌⊎◌, inl, inr,
}
use config_server.Model.{AgentMatchContext, ConfigType, Config, CanaryTag, CanaryRelease}
use config_server.IpSelector.{Netip, Json, normalize_ip_selector, marshal_ip_selector}
use config_server.Canary.{canary_eligible}
use config_server.Store.{find_canary, is_rolling, overlay_config}
use config_server.CanaryAdmin.{
  Rows, Calls, Reply, bad_request, internal_error, created, shown, status, CanaryBody, percent_of,
  refuse, same_canary_payload, answer_existing, insert_canary, with_canary, finish_promotion,
  promote_config, promote_canary, log_audit, save_history,
}
use config_server.CanaryAdmin.Lifecycle.{Selectors-cases}
use config_server.CanaryAdmin.Requests.{tag_json, selectors, create_canary}

-- The canaries of the rows that GetConfigsForAgent reads.
abbrev pub rolling_canaries : Rows → List CanaryRelease
rolling_canaries rows = elim rows.canary [
  | none ↦ []
  | some cr ↦ keep (λ (k : CanaryRelease). is_rolling k.status) (cr ∷ [])
]

-- The row has the detail, and so does the canary if there is one.
record IsReleased (detail : Bytes) (rows : Rows) : Type 0 where
  config : Config
  is_config : rows.config ≡ some config
  same : config.detail ≡ detail
  canary : (cr : CanaryRelease) → rows.canary ≡ some cr → cr.canary_detail ≡ detail

finish_promotion-IsReleased :
    (calls : Calls) (detail : Bytes) (rows : Rows)
    → IsReleased detail rows
    → IsReleased detail (finish_promotion calls rows).1
unfolding finish_promotion log_audit
finish_promotion-IsReleased calls detail rows h = record {
  config = h.config;
  is_config = ground (arith, h.is_config);
  same = h.same;
  canary = λ cr e. ground (arith, h.canary cr);
}

-- The rows once the promoted detail is written, and its history entry with them.
abbrev written : Calls → ℤ → CanaryRelease → Config → Rows → Rows
written calls now cr cfg rows =
    save_history calls cfg.detail
      (record rows { config = some (record cfg { detail = cr.canary_detail; version = now }) })

promote_config-cases :
    (calls : Calls) (now : ℤ) (cr : CanaryRelease) (cfg : Config) (rows : Rows)
    → (promote_config calls now cr cfg rows ≡ (internal_error, rows))
      ⊎ (((bytes_eq cfg.detail cr.canary_detail ≡ true)
            × (promote_config calls now cr cfg rows ≡ finish_promotion calls rows))
          ⊎ (promote_config calls now cr cfg rows
              ≡ finish_promotion calls (written calls now cr cfg rows)))
unfolding promote_config
promote_config-cases calls now cr cfg rows = ground arith

written-IsReleased :
    (calls : Calls) (now : ℤ) (cr : CanaryRelease) (cfg : Config) (rows : Rows)
    → rows.canary ≡ some cr
    → IsReleased cr.canary_detail (written calls now cr cfg rows)
unfolding save_history
written-IsReleased calls now cr cfg rows c = record {
  config = record cfg { detail = cr.canary_detail; version = now };
  is_config = ground arith;
  same = refl;
  canary = λ k n. ground arith;
}

-- A promotion of a config that is read fails and changes nothing, or releases the detail.
promote_config-IsReleased :
    (calls : Calls) (now : ℤ) (cr : CanaryRelease) (cfg : Config) (rows : Rows)
    → rows.canary ≡ some cr
    → rows.config ≡ some cfg
    → (promote_config calls now cr cfg rows ≡ (internal_error, rows))
      ⊎ IsReleased cr.canary_detail (promote_config calls now cr cfg rows).1
promote_config-IsReleased calls now cr cfg rows c f =
    let released : Reply × Rows → Type 0 = λ x. IsReleased cr.canary_detail x.1 in
    elim (promote_config-cases calls now cr cfg rows) [
      | inl e ↦ inl e
      | inr (inl (same, e)) ↦ inr (
          subst released (sym e) (
            finish_promotion-IsReleased calls cr.canary_detail rows (record {
              config = cfg;
              is_config = f;
              same = ground (arith, bytes_eq_iff cfg.detail cr.canary_detail);
              canary = λ k n. ground arith;
            })))
      | inr (inr e) ↦ inr (
          subst released (sym e) (
            finish_promotion-IsReleased calls cr.canary_detail (written calls now cr cfg rows)
              (written-IsReleased calls now cr cfg rows c)))
    ]

promote_canary-cases :
    (calls : Calls) (type : ConfigType) (now : ℤ) (rows : Rows) (cr : CanaryRelease)
    → rows.canary ≡ some cr
    → (promote_canary calls (some type) now rows ≡ (internal_error, rows))
      ⊎ ((cfg : Config) × (rows.config ≡ some cfg)
          × (promote_canary calls (some type) now rows ≡ promote_config calls now cr cfg rows))
unfolding promote_canary with_canary
promote_canary-cases calls type now rows cr c = elim (Option-cases rows.config) [
  | inl f ↦ inl (ground arith)
  | inr (cfg, f) ↦ elim (Bool-cases (calls.get_canary && calls.get_config)) [
    | inl b ↦ inr (cfg, f, ground arith)
    | inr b ↦ inl (ground arith)
  ]
]

promote_canary-IsReleased :
    (calls : Calls) (type : ConfigType) (now : ℤ) (rows : Rows) (cr : CanaryRelease)
    → rows.canary ≡ some cr
    → (promote_canary calls (some type) now rows ≡ (internal_error, rows))
      ⊎ IsReleased cr.canary_detail (promote_canary calls (some type) now rows).1
promote_canary-IsReleased calls type now rows cr c =
    elim (promote_canary-cases calls type now rows cr c) [
      | inl e ↦ inl e
      | inr (cfg, f, e) ↦ rw e (promote_config-IsReleased calls now cr cfg rows c f)
    ]

-- Where the config and its canary agree on the detail, a promotion leaves the config alone.
promote_config-kept :
    (calls : Calls) (now : ℤ) (cr : CanaryRelease) (cfg : Config) (rows : Rows)
    → cfg.detail ≡ cr.canary_detail
    → (promote_config calls now cr cfg rows).1.config ≡ rows.config
unfolding promote_config finish_promotion log_audit
promote_config-kept calls now cr cfg rows e =
    ground (arith, bytes_eq_iff cfg.detail cr.canary_detail)

IsReleased-promoted_again :
    (calls : Calls) (type : ConfigType) (now : ℤ) (detail : Bytes) (rows : Rows)
    → IsReleased detail rows
    → (promote_canary calls (some type) now rows).1.config ≡ rows.config
unfolding promote_canary with_canary
IsReleased-promoted_again calls type now detail rows h = elim (Option-cases rows.canary) [
  | inl c ↦ ground arith
  | inr (cr, c) ↦ ground (
    arith,
    h.is_config,
    promote_config-kept calls now cr h.config rows (h.same ∙ sym (h.canary cr c)),
  )
]

-- The agent gets the config with the detail, or its resolution is an error.
abbrev pub Resolves : Netip → Json → ConfigType → AgentMatchContext → Bytes → Rows → Config → Type 0
Resolves net json type m detail rows cfg =
    let resolved = overlay_config net json (rolling_canaries rows) type m cfg in
    (resolved ≡ none) ⊎ ((c : Config) × (resolved ≡ some c) × (c.detail ≡ detail))

IsReleased-overlay_config :
    (net : Netip) (json : Json) (type : ConfigType) (m : AgentMatchContext) (detail : Bytes)
    (rows : Rows) (h : IsReleased detail rows) (c : Config)
    → overlay_config net json (rolling_canaries rows) type m h.config ≡ some c
    → c.detail ≡ detail
unfolding overlay_config find_canary
IsReleased-overlay_config net json type m detail rows h c e = elim (Option-cases rows.canary) [
  | inl n ↦ ground (arith, h.same)
  | inr (cr, n) ↦ elim (Option-cases (canary_eligible net json cr m h.config.name)) [
    | inl k ↦ ground (arith, h.same, h.canary cr n)
    | inr (b, k) ↦ ground (arith, h.same, h.canary cr n)
  ]
]

IsReleased-Resolves :
    (net : Netip) (json : Json) (type : ConfigType) (m : AgentMatchContext) (detail : Bytes)
    (rows : Rows)
    → (h : IsReleased detail rows) → Resolves net json type m detail rows h.config
IsReleased-Resolves net json type m detail rows h =
    elim (Option-cases (overlay_config net json (rolling_canaries rows) type m h.config)) [
      | inl e ↦ inl e
      | inr (c, e) ↦ inr (c, e, IsReleased-overlay_config net json type m detail rows h c e)
    ]

-- A promotion reaches every agent. If PromoteCanary answers that a canary is promoted, whichever of
-- its calls fail, the config then has the detail of the canary, and the resolution of the config
-- for an agent, with the canary release that is left where its deletion failed, gives that detail
-- or an error. A second promotion, whichever of its calls fail, leaves the config as it is.
pub promote_canary-overlay_config :
    (net : Netip) (json : Json) (calls again : Calls) (type : ConfigType) (now later : ℤ)
    (m : AgentMatchContext) (rows : Rows) (cr : CanaryRelease)
    → rows.canary ≡ some cr
    → (promote_canary calls (some type) now rows).0 ≡ status (codes "promoted")
    → let after = (promote_canary calls (some type) now rows).1 in
      (cfg : Config) × (after.config ≡ some cfg)
      × (cfg.detail ≡ cr.canary_detail)
      × Resolves net json type m cr.canary_detail after cfg
      × ((promote_canary again (some type) later after).1.config ≡ after.config)
promote_canary-overlay_config net json calls again type now later m rows cr c h =
    let after = (promote_canary calls (some type) now rows).1 in
    elim (promote_canary-IsReleased calls type now rows cr c) [
      | inl e ↦ absurd (ground arith)
      | inr r ↦ (
        r.config,
        r.is_config,
        r.same,
        IsReleased-Resolves net json type m cr.canary_detail after r,
        IsReleased-promoted_again again type later cr.canary_detail after r,
      )
    ]

same_canary_payload_refl :
    (cr : CanaryRelease)
    → same_canary_payload cr cr.canary_detail cr.rollout_percent cr.version_constraint
        cr.ip_selector_json cr.tag_selector_json
      ≡ true
unfolding same_canary_payload
same_canary_payload_refl cr = ground (
  arith,
  bytes_eq_refl cr.canary_detail,
  bytes_eq_refl cr.version_constraint,
  bytes_eq_refl cr.ip_selector_json,
  bytes_eq_refl cr.tag_selector_json,
)

insert_canary-again :
    (calls : Calls) (type : ConfigType) (name : Bytes) (now later : ℤ) (creator other : Bytes)
    (body : CanaryBody) (percent : ℕ) (ips tags : Bytes) (rows after : Rows) (cr : CanaryRelease)
    → insert_canary calls name type now creator body percent ips tags rows ≡ (created cr, after)
    → insert_canary calls name type later other body percent ips tags after ≡ (shown cr, after)
unfolding insert_canary answer_existing log_audit
insert_canary-again calls type name now later creator other body percent ips tags rows after cr h =
    ground (arith, same_canary_payload_refl cr)

tag_json-refuse :
    (net : Netip) (json : Json) (yaml_valid : Bytes → Bool)
    (marshal_tags : List CanaryTag → Option Bytes) (ips : Bytes) (tags : List CanaryTag)
    (reply : Reply)
    → tag_json net json yaml_valid marshal_tags ips tags ≡ refuse reply
    → (reply ≡ bad_request) ⊎ (reply ≡ internal_error)
unfolding tag_json
tag_json-refuse net json yaml_valid marshal_tags ips [] reply k = ground arith
tag_json-refuse net json yaml_valid marshal_tags ips (t ∷ ts) reply k =
    elim (Option-cases (marshal_tags (t ∷ ts))) [
      | inl e ↦ ground arith
      | inr (raw, e) ↦ ground arith
    ]

selectors-refuse :
    (net : Netip) (json : Json) (yaml_valid : Bytes → Bool)
    (marshal_tags : List CanaryTag → Option Bytes) (body : CanaryBody) (reply : Reply)
    → selectors net json yaml_valid marshal_tags body ≡ refuse reply
    → (reply ≡ bad_request) ⊎ (reply ≡ internal_error)
unfolding selectors
selectors-refuse net json yaml_valid marshal_tags body reply k =
    elim (Option-cases (normalize_ip_selector net body.ip_selector)) [
      | inl e ↦
          ground
            (arith, tag_json-refuse net json yaml_valid marshal_tags [] body.tag_selector reply)
      | inr (normalized, e) ↦ elim (Option-cases (marshal_ip_selector net json normalized)) [
        | inl m ↦
            ground
              (arith, tag_json-refuse net json yaml_valid marshal_tags [] body.tag_selector reply)
        | inr (ips, m) ↦ ground (
          arith,
          tag_json-refuse net json yaml_valid marshal_tags [] body.tag_selector reply,
          tag_json-refuse net json yaml_valid marshal_tags ips body.tag_selector reply,
        )
      ]
    ]

-- A creation that has succeeded can be repeated: the same body at a later time, for the same
-- config, gets the canary that was created and changes nothing.
pub create_canary-again :
    (net : Netip) (json : Json) (yaml_valid : Bytes → Bool)
    (marshal_tags : List CanaryTag → Option Bytes) (calls : Calls) (type : ConfigType)
    (name : Bytes) (now later : ℤ) (creator other : Bytes) (body : CanaryBody) (rows after : Rows)
    (cr : CanaryRelease)
    → create_canary net json yaml_valid marshal_tags calls
        (some type)
        name
        now
        creator
        (some body)
        rows
      ≡ (created cr, after)
    → create_canary net json yaml_valid marshal_tags calls
        (some type)
        name
        later
        other
        (some body)
        after
      ≡ (shown cr, after)
unfolding create_canary
create_canary-again net json yaml_valid marshal_tags calls type name now later creator other body
      rows after cr h =
    elim (Option-cases (percent_of body.rollout_percent)) [
      | inl e ↦ ground arith
      | inr (p, e) ↦ elim (Selectors-cases (selectors net json yaml_valid marshal_tags body)) [
        | inl (reply, k) ↦
            ground (arith, selectors-refuse net json yaml_valid marshal_tags body reply k)
        | inr (ips, tags, k) ↦ ground (
          arith,
          insert_canary-again calls type name now later creator other body p ips tags rows after cr,
        )
      ]
    ]
