-- ===== src/CanaryAdmin.antt =====
-- The canary handlers of internal/server/admin/handler.go, on the rows of one config: its canary
-- release, its stable config, and the histories and audit logs that the handlers write for it.
-- What each call of the manager answers is an argument; a type in the path other than pipeline and
-- instance is none, and so is a body that JSON decoding refuses.
pub mod Requests
pub mod Lifecycle
pub mod Release
mod Tests
use config_server.Prelude.{
  ℕ, Bool, true, false, not, ◌&&◌, ◌||◌, Option, none, some, List, [], ◌∷◌, Bytes, codes, ℤ, pos,
  negsuc, bytes_eq, is_empty, any, ltb, ◌==◌, if◌then◌else◌,
}
use config_server.Model.{
  ConfigType, pipeline, instance_config, Config, CanaryTag, CanaryStatus, rolling, paused, promoted,
  aborted, CanaryRelease,
}

pub record Rows : Type 0 where
  pub canary : Option CanaryRelease
  pub config : Option Config
  pub history : List Bytes
  pub audits : List Bytes

-- Which calls of the manager succeed. A canary that another request has created in between is
-- what the second read of CreateCanary gives.
pub record Calls : Type 0 where
  pub get_canary : Bool
  pub get_config : Bool
  pub create_canary : Bool
  pub read_again : Option (Option CanaryRelease)
  pub update_canary : Bool
  pub update_config : Bool
  pub delete_canary : Bool
  pub save_history : Bool
  pub log_audit : Bool

pub data Reply : Type 0 where
  bad_request not_found conflict internal_error : Reply
  shown created : CanaryRelease → Reply
  status : Bytes → Reply

pub record CanaryBody : Type 0 where
  pub canary_detail : Bytes
  pub rollout_percent : ℤ
  pub version_constraint : Bytes
  pub ip_selector : List Bytes
  pub tag_selector : List CanaryTag

pub same_canary_payload : CanaryRelease → Bytes → ℕ → Bytes → Bytes → Bytes → Bool
same_canary_payload cr detail percent version ips tags =
    bytes_eq cr.canary_detail detail
    && (cr.rollout_percent == percent)
    && bytes_eq cr.version_constraint version
    && bytes_eq cr.ip_selector_json ips
    && bytes_eq cr.tag_selector_json tags

unfoldable pub config_type_from_path : Bytes → Option ConfigType
config_type_from_path raw =
    if bytes_eq raw (codes "pipeline")
    then some pipeline
    else if bytes_eq raw (codes "instance")
    then some instance_config
    else none

-- A percentage that the handlers accept.
pub percent_of : ℤ → Option ℕ
percent_of (pos n) = if ltb 100 n then none else some n
percent_of (negsuc n) = none

abbrev status_eq : CanaryStatus → CanaryStatus → Bool
status_eq rolling rolling = true
status_eq paused paused = true
status_eq promoted promoted = true
status_eq aborted aborted = true
status_eq _ _ = false

-- The serialized selectors, or the reply to selectors that are refused.
pub data Selectors : Type 0 where
  refuse : Reply → Selectors
  accept : Bytes → Bytes → Selectors

pub log_audit : Calls → Bytes → Rows → Rows
log_audit calls action rows =
    if calls.log_audit then record rows { audits = action ∷ rows.audits } else rows

pub save_history : Calls → Bytes → Rows → Rows
save_history calls detail rows =
    if calls.save_history then record rows { history = detail ∷ rows.history } else rows

-- The reply to a canary that is there already.
pub answer_existing : CanaryRelease → CanaryBody → ℕ → Bytes → Bytes → Reply
answer_existing existing body percent ips tags =
    if status_eq existing.status rolling
      && same_canary_payload existing body.canary_detail percent body.version_constraint ips tags
    then shown existing
    else conflict

-- CreateCanary once the body is validated.
pub insert_canary :
    Calls → Bytes → ConfigType → ℤ → Bytes → CanaryBody → ℕ → Bytes → Bytes → Rows → Reply × Rows
insert_canary calls name type now creator body percent ips tags rows =
    let cr : CanaryRelease = record {
      config_name = name;
      config_type = type;
      canary_detail = body.canary_detail;
      canary_version = now;
      rollout_percent = percent;
      version_constraint = body.version_constraint;
      ip_selector_json = ips;
      tag_selector_json = tags;
      status = rolling;
      created_by = creator;
    } in
    if not calls.get_canary then (internal_error, rows) else elim rows.canary [
      | some existing ↦ (answer_existing existing body percent ips tags, rows)
      | none ↦
          if calls.create_canary
          then (
            created cr,
            log_audit calls (codes "canary-create") (record rows { canary = some cr }),
          )
          else elim calls.read_again [
            | none ↦ (internal_error, rows)
            | some none ↦ (internal_error, rows)
            | some (some existing) ↦ (answer_existing existing body percent ips tags, rows)
          ]
    ]

abbrev pub is_editable : CanaryStatus → Bool
is_editable rolling = true
is_editable paused = true
is_editable _ = false

-- The canary that UpdateCanary writes.
pub edited : ℤ → CanaryBody → ℕ → Bytes → Bytes → CanaryRelease → CanaryRelease
edited now body percent ips tags cr = record cr {
  canary_version = if bytes_eq cr.canary_detail body.canary_detail then cr.canary_version else now;
  canary_detail = body.canary_detail;
  rollout_percent = percent;
  version_constraint = body.version_constraint;
  ip_selector_json = ips;
  tag_selector_json = tags;
}

-- The write of a changed canary, with its audit log.
pub write_canary : Calls → Bytes → CanaryRelease → Rows → Reply × Rows
write_canary calls action cr rows =
    if calls.update_canary
    then (shown cr, log_audit calls action (record rows { canary = some cr }))
    else (internal_error, rows)

-- The canary that a handler reads, and its replies where there is none.
pub with_canary : Calls → Reply → (CanaryRelease → Reply × Rows) → Rows → Reply × Rows
with_canary calls absent use_it rows =
    if not calls.get_canary
    then (internal_error, rows)
    else elim rows.canary [ none ↦ (absent, rows) | some cr ↦ use_it cr ]

pub set_percent : Calls → ℕ → CanaryRelease → Rows → Reply × Rows
set_percent calls percent cr rows =
    if not (status_eq cr.status rolling)
    then (bad_request, rows)
    else if cr.rollout_percent == percent
    then (shown cr, rows)
    else write_canary calls (codes "canary-set-percent") (record cr { rollout_percent = percent })
        rows

-- The body is the percentage.
pub set_canary_percent : Calls → Option ConfigType → Option ℤ → Rows → Reply × Rows
set_canary_percent calls none body rows = (bad_request, rows)
set_canary_percent calls (some type) none rows = (bad_request, rows)
set_canary_percent calls (some type) (some n) rows = elim (percent_of n) [
  | none ↦ (bad_request, rows)
  | some percent ↦ with_canary calls not_found (λ cr. set_percent calls percent cr rows) rows
]

pub change_status :
    Calls → CanaryStatus → CanaryStatus → Bytes → CanaryRelease → Rows → Reply × Rows
change_status calls required new action cr rows =
    if status_eq cr.status new
    then (shown cr, rows)
    else if not (status_eq cr.status required)
    then (bad_request, rows)
    else write_canary calls action (record cr { status = new }) rows

pub set_canary_status :
    Calls → Option ConfigType → CanaryStatus → CanaryStatus → Bytes → Rows → Reply × Rows
set_canary_status calls none required new action rows = (bad_request, rows)
set_canary_status calls (some type) required new action rows =
    with_canary calls not_found (λ cr. change_status calls required new action cr rows) rows

pub pause_canary : Calls → Option ConfigType → Rows → Reply × Rows
pause_canary calls type = set_canary_status calls type rolling paused (codes "canary-pause")

pub resume_canary : Calls → Option ConfigType → Rows → Reply × Rows
resume_canary calls type = set_canary_status calls type paused rolling (codes "canary-resume")

-- The end of PromoteCanary; a deletion that fails is only logged.
pub finish_promotion : Calls → Rows → Reply × Rows
finish_promotion calls rows =
    let kept = if calls.delete_canary then record rows { canary = none } else rows in
    (status (codes "promoted"), log_audit calls (codes "canary-promote") kept)

pub promote_config : Calls → ℤ → CanaryRelease → Config → Rows → Reply × Rows
promote_config calls now cr cfg rows =
    if bytes_eq cfg.detail cr.canary_detail
    then finish_promotion calls rows
    else if not calls.update_config
    then (internal_error, rows)
    else let written = record rows {
      config = some (record cfg { detail = cr.canary_detail; version = now });
    } in
      finish_promotion calls (save_history calls cfg.detail written)

-- The same code for the two types of config. The manager answers a config that has no row with an
-- error.
pub promote_canary : Calls → Option ConfigType → ℤ → Rows → Reply × Rows
promote_canary calls none now rows = (bad_request, rows)
promote_canary calls (some type) now rows =
    with_canary calls (status (codes "promoted"))
      (λ cr. if not calls.get_config then (internal_error, rows) else elim rows.config [
        | none ↦ (internal_error, rows)
        | some cfg ↦ promote_config calls now cr cfg rows
      ])
      rows

pub abort_canary : Calls → Option ConfigType → Rows → Reply × Rows
abort_canary calls none rows = (bad_request, rows)
abort_canary calls (some type) rows =
    with_canary calls (status (codes "aborted"))
      (λ cr.
        if calls.delete_canary
        then (
          status (codes "aborted"),
          log_audit calls (codes "canary-abort") (record rows { canary = none }),
        )
        else (internal_error, rows))
      rows
