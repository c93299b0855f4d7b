-- ===== src/CanaryAdmin/Requests.antt =====
-- CreateCanary and UpdateCanary of internal/server/admin/handler.go: the handlers whose bodies
-- carry a config and selectors. A body that JSON decoding refuses is none.
use config_server.Prelude.{
  ℕ, Bool, not, Option, none, some, List, [], ◌∷◌, Bytes, codes, ℤ, is_empty, any, if◌then◌else◌,
}
use config_server.Model.{ConfigType, CanaryTag, CanaryRelease}
use config_server.IpSelector.{Netip, Json, normalize_ip_selector, marshal_ip_selector}
use config_server.CanaryAdmin.{
  Rows, Calls, Reply, bad_request, not_found, internal_error, shown, CanaryBody,
  same_canary_payload, percent_of, Selectors, refuse, accept, insert_canary, is_editable, edited,
  write_canary, with_canary,
}

-- Validation of YAML, and the encoding of the tags of a selector.
module _ (net : Netip) (json : Json) (yaml_valid : Bytes → Bool)
    (marshal_tags : List CanaryTag → Option Bytes) where
  unfoldable pub tag_json : Bytes → List CanaryTag → Selectors
  tag_json ips [] = accept ips []
  tag_json ips (t ∷ ts) =
      if any (λ (tag : CanaryTag). is_empty tag.name) (t ∷ ts)
      then refuse bad_request
      else elim (marshal_tags (t ∷ ts)) [ none ↦ refuse internal_error | some raw ↦ accept ips raw ]

  unfoldable pub selectors : CanaryBody → Selectors
  selectors body =
      if is_empty body.ip_selector
      then tag_json [] body.tag_selector
      else elim (normalize_ip_selector net body.ip_selector) [
        | none ↦ refuse bad_request
        | some normalized ↦ elim (marshal_ip_selector net json normalized) [
          | none ↦ refuse internal_error
          | some ips ↦ tag_json ips body.tag_selector
        ]
      ]

  unfoldable pub create_canary :
      Calls → Option ConfigType → Bytes → ℤ → Bytes → Option CanaryBody → Rows → Reply × Rows
  create_canary calls none name now creator body rows = (bad_request, rows)
  create_canary calls (some type) name now creator none rows = (bad_request, rows)
  create_canary calls (some type) name now creator (some body) rows =
      elim (percent_of body.rollout_percent) [
        | none ↦ (bad_request, rows)
        | some percent ↦
            if not (yaml_valid body.canary_detail)
            then (bad_request, rows)
            else elim (selectors body) [
              | refuse reply ↦ (reply, rows)
              | accept ips tags ↦
                  insert_canary calls name type now creator body percent ips tags rows
            ]
      ]

  unfoldable pub edit_canary : Calls → ℤ → CanaryBody → ℕ → CanaryRelease → Rows → Reply × Rows
  edit_canary calls now body percent cr rows =
      if not (is_editable cr.status) then (bad_request, rows) else elim (selectors body) [
        | refuse reply ↦ (reply, rows)
        | accept ips tags ↦
            if same_canary_payload cr body.canary_detail percent body.version_constraint ips tags
            then (shown cr, rows)
            else write_canary calls (codes "canary-update") (edited now body percent ips tags cr)
                rows
      ]

  unfoldable pub update_canary :
      Calls → Option ConfigType → ℤ → Option CanaryBody → Rows → Reply × Rows
  update_canary calls none now body rows = (bad_request, rows)
  update_canary calls (some type) now none rows = (bad_request, rows)
  update_canary calls (some type) now (some body) rows = elim (percent_of body.rollout_percent) [
    | none ↦ (bad_request, rows)
    | some percent ↦
        if not (yaml_valid body.canary_detail)
        then (bad_request, rows)
        else with_canary calls not_found (λ cr. edit_canary calls now body percent cr rows) rows
  ]
