-- ===== src/CanaryAdmin/Lifecycle.antt =====
-- The life of a canary release under the handlers of internal/server/admin/handler.go.
use config_server.Prelude.{
  ℕ, ◌≡◌, refl, Bool, true, ◌&&◌, Option, none, some, List, [], ◌∷◌, Bytes, codes, ℤ, leb, arith,
  Bool-cases, Option-cases, ◌⊎◌, inl, inr,
}
use config_server.Model.{
  ConfigType, Config, CanaryTag, CanaryStatus, rolling, paused, CanaryRelease,
}
use config_server.IpSelector.{Netip, Json}
use config_server.CanaryAdmin.{
  Rows, Calls, Reply, not_found, internal_error, CanaryBody, percent_of, Selectors, refuse, accept,
  insert_canary, is_editable, edited, write_canary, with_canary, set_percent, set_canary_percent,
  change_status, set_canary_status, pause_canary, resume_canary, finish_promotion, promote_config,
  promote_canary, abort_canary, log_audit, save_history,
}
use config_server.CanaryAdmin.Requests.{selectors, create_canary, edit_canary, update_canary}

pub Selectors-cases :
    (s : Selectors)
    → ((reply : Reply) × (s ≡ refuse reply)) ⊎ ((ips tags : Bytes) × (s ≡ accept ips tags))
Selectors-cases (refuse reply) = inl (reply, refl)
Selectors-cases (accept ips tags) = inr (ips, tags, refl)

-- A property of the result of a handler that reads the canary first.
with_canary_lem :
    (P : Reply × Rows → Type 0) (calls : Calls) (absent : Reply)
    (use_it : CanaryRelease → Reply × Rows) (rows : Rows)
    → ((r : Reply) → P (r, rows))
    → ((cr : CanaryRelease) → rows.canary ≡ some cr → P (use_it cr))
    → P (with_canary calls absent use_it rows)
unfolding with_canary
with_canary_lem P calls absent use_it rows stay go = elim (Bool-cases calls.get_canary) [
  | inl e ↦ elim (Option-cases rows.canary) [
    | inl k ↦ rw (e, with_canary) (rw k (stay absent))
    | inr (cr, k) ↦ rw (e, with_canary) (rw k (go cr k))
  ]
  | inr e ↦ rw (e, with_canary) (stay internal_error)
]

module _ (yaml_valid : Bytes → Bool) where
  -- The canary is rolling or paused, for at most 100 percent of the agents, and is valid YAML.
  abbrev pub is_sound : Option CanaryRelease → Bool
  is_sound none = true
  is_sound (some cr) =
      is_editable cr.status && leb cr.rollout_percent 100 && yaml_valid cr.canary_detail

  log_audit-canary :
      (calls : Calls) (action : Bytes) (rows : Rows)
      → (log_audit calls action rows).canary ≡ rows.canary
  unfolding log_audit
  log_audit-canary calls action rows = ground arith

  write_canary_sound :
      (calls : Calls) (action : Bytes) (cr : CanaryRelease) (rows : Rows)
      → is_sound rows.canary ≡ true
      → is_sound (some cr) ≡ true
      → is_sound (write_canary calls action cr rows).1.canary ≡ true
  unfolding write_canary
  write_canary_sound calls action cr rows h k =
      ground (arith, log_audit-canary calls action (record rows { canary = some cr }))

  change_status_sound :
      (calls : Calls) (required new : CanaryStatus) (action : Bytes) (cr : CanaryRelease)
      (rows : Rows)
      → is_editable new ≡ true
      → is_sound rows.canary ≡ true
      → rows.canary ≡ some cr
      → is_sound (change_status calls required new action cr rows).1.canary ≡ true
  unfolding change_status
  change_status_sound calls required new action cr rows n h e =
      ground (arith, write_canary_sound calls action (record cr { status = new }) rows h)

  set_percent_sound :
      (calls : Calls) (percent : ℕ) (cr : CanaryRelease) (rows : Rows)
      → leb percent 100 ≡ true
      → is_sound rows.canary ≡ true
      → rows.canary ≡ some cr
      → is_sound (set_percent calls percent cr rows).1.canary ≡ true
  unfolding set_percent
  set_percent_sound calls percent cr rows n h e = ground (
    arith,
    write_canary_sound calls (codes "canary-set-percent") (record cr { rollout_percent = percent })
        rows h,
  )

  insert_canary_sound :
      (calls : Calls) (name : Bytes) (type : ConfigType) (now : ℤ) (creator : Bytes)
      (body : CanaryBody) (percent : ℕ) (ips tags : Bytes) (rows : Rows)
      → leb percent 100 ≡ true
      → yaml_valid body.canary_detail ≡ true
      → is_sound rows.canary ≡ true
      → is_sound (insert_canary calls name type now creator body percent ips tags rows).1.canary
        ≡ true
  unfolding insert_canary log_audit
  insert_canary_sound calls name type now creator body percent ips tags rows p y h = ground arith

  edited_sound :
      (now : ℤ) (body : CanaryBody) (percent : ℕ) (ips tags : Bytes) (cr : CanaryRelease)
      → leb percent 100 ≡ true
      → yaml_valid body.canary_detail ≡ true
      → is_editable cr.status ≡ true
      → is_sound (some (edited now body percent ips tags cr)) ≡ true
  unfolding edited
  edited_sound now body percent ips tags cr p y e = ground arith

  log_audit-keeps :
      (calls : Calls) (action : Bytes) (rows : Rows)
      → is_sound rows.canary ≡ true
      → is_sound (log_audit calls action rows).canary ≡ true
  log_audit-keeps calls action rows h = ground (arith, log_audit-canary calls action rows)

  finish_promotion_sound :
      (calls : Calls) (rows : Rows)
      → is_sound rows.canary ≡ true
      → is_sound (finish_promotion calls rows).1.canary ≡ true
  unfolding finish_promotion log_audit
  finish_promotion_sound calls rows h = ground arith

  promote_config_sound :
      (calls : Calls) (now : ℤ) (cr : CanaryRelease) (cfg : Config) (rows : Rows)
      → is_sound rows.canary ≡ true
      → is_sound (promote_config calls now cr cfg rows).1.canary ≡ true
  unfolding promote_config finish_promotion save_history log_audit
  promote_config_sound calls now cr cfg rows h = ground arith

  percent_of-bound : (n : ℤ) {p : ℕ} → percent_of n ≡ some p → leb p 100 ≡ true
  unfolding percent_of
  percent_of-bound n h = ground arith

module _ (net : Netip) (json : Json) (yaml_valid : Bytes → Bool)
    (marshal_tags : List CanaryTag → Option Bytes) where
  -- A request to one of the handlers that change a canary, with what the manager answers it.
  pub data Action : Type 0 where
    create : Calls → Option ConfigType → Bytes → ℤ → Bytes → Option CanaryBody → Action
    update : Calls → Option ConfigType → ℤ → Option CanaryBody → Action
    percent : Calls → Option ConfigType → Option ℤ → Action
    pause resume abort : Calls → Option ConfigType → Action
    promote : Calls → Option ConfigType → ℤ → Action

  abbrev pub handle : Action → Rows → Reply × Rows
  handle (create calls type name now creator body) rows =
      create_canary net json yaml_valid marshal_tags calls type name now creator body rows
  handle (update calls type now body) rows =
      update_canary net json yaml_valid marshal_tags calls type now body rows
  handle (percent calls type body) rows = set_canary_percent calls type body rows
  handle (pause calls type) rows = pause_canary calls type rows
  handle (resume calls type) rows = resume_canary calls type rows
  handle (abort calls type) rows = abort_canary calls type rows
  handle (promote calls type now) rows = promote_canary calls type now rows

  unfoldable pub run : List Action → Rows → Rows
  run [] rows = rows
  run (a ∷ as') rows = run as' (handle a rows).1

  abbrev IsSound : Reply × Rows → Type 0
  IsSound r = is_sound yaml_valid r.1.canary ≡ true

  create_canary_sound :
      (calls : Calls) (type : Option ConfigType) (name : Bytes) (now : ℤ) (creator : Bytes)
      (body : Option CanaryBody) (rows : Rows)
      → is_sound yaml_valid rows.canary ≡ true
      → is_sound yaml_valid
          (create_canary net json yaml_valid marshal_tags calls type name now creator body
            rows).1.canary
        ≡ true
  unfolding create_canary
  create_canary_sound calls none name now creator body rows h = h
  create_canary_sound calls (some type) name now creator none rows h = h
  create_canary_sound calls (some type) name now creator (some body) rows h =
      elim (Option-cases (percent_of body.rollout_percent)) [
        | inl e ↦ ground arith
        | inr (p, e) ↦ elim (Selectors-cases (selectors net json yaml_valid marshal_tags body)) [
          | inl (reply, k) ↦ ground arith
          | inr (ips, tags, k) ↦ ground (
            arith,
            percent_of-bound yaml_valid body.rollout_percent e,
            insert_canary_sound yaml_valid calls name type now creator body p ips tags rows,
          )
        ]
      ]

  edit_canary_sound :
      (calls : Calls) (now : ℤ) (body : CanaryBody) (p : ℕ) (cr : CanaryRelease) (rows : Rows)
      → leb p 100 ≡ true
      → yaml_valid body.canary_detail ≡ true
      → is_sound yaml_valid rows.canary ≡ true
      → is_sound yaml_valid
          (edit_canary net json yaml_valid marshal_tags calls now body p cr rows).1.canary
        ≡ true
  unfolding edit_canary
  edit_canary_sound calls now body p cr rows b y h =
      elim (Selectors-cases (selectors net json yaml_valid marshal_tags body)) [
        | inl (reply, k) ↦ ground arith
        | inr (ips, tags, k) ↦ ground (
          arith,
          edited_sound yaml_valid now body p ips tags cr b y,
          write_canary_sound yaml_valid calls (codes "canary-update")
              (edited now body p ips tags cr) rows h,
        )
      ]

  update_canary_sound :
      (calls : Calls) (type : Option ConfigType) (now : ℤ) (body : Option CanaryBody) (rows : Rows)
      → is_sound yaml_valid rows.canary ≡ true
      → is_sound yaml_valid
          (update_canary net json yaml_valid marshal_tags calls type now body rows).1.canary
        ≡ true
  unfolding update_canary
  update_canary_sound calls none now body rows h = h
  update_canary_sound calls (some type) now none rows h = h
  update_canary_sound calls (some type) now (some body) rows h =
      elim (Option-cases (percent_of body.rollout_percent)) [
        | inl e ↦ ground arith
        | inr (p, e) ↦ ground (
          arith,
          λ (y : yaml_valid body.canary_detail ≡ true).
              with_canary_lem IsSound calls not_found
                (λ cr. edit_canary net json yaml_valid marshal_tags calls now body p cr rows) rows
                (λ _. h)
                (λ cr k.
                  edit_canary_sound calls now body p cr rows
                    (percent_of-bound yaml_valid body.rollout_percent e) y h),
        )
      ]

  set_canary_percent_sound :
      (calls : Calls) (type : Option ConfigType) (body : Option ℤ) (rows : Rows)
      → is_sound yaml_valid rows.canary ≡ true
      → is_sound yaml_valid (set_canary_percent calls type body rows).1.canary ≡ true
  unfolding set_canary_percent
  set_canary_percent_sound calls none body rows h = h
  set_canary_percent_sound calls (some type) none rows h = h
  set_canary_percent_sound calls (some type) (some n) rows h = elim (Option-cases (percent_of n)) [
    | inl e ↦ ground arith
    | inr (p, e) ↦
        rw (e, set_canary_percent)
          (with_canary_lem IsSound calls not_found (λ cr. set_percent calls p cr rows) rows (λ _. h)
            (λ cr k.
              set_percent_sound yaml_valid calls p cr rows (percent_of-bound yaml_valid n e) h k))
  ]

  set_canary_status_sound :
      (calls : Calls) (type : Option ConfigType) (required new : CanaryStatus) (action : Bytes)
      (rows : Rows)
      → is_editable new ≡ true
      → is_sound yaml_valid rows.canary ≡ true
      → is_sound yaml_valid (set_canary_status calls type required new action rows).1.canary ≡ true
  unfolding set_canary_status
  set_canary_status_sound calls none required new action rows n h = h
  set_canary_status_sound calls (some type) required new action rows n h =
      with_canary_lem IsSound calls not_found
        (λ cr. change_status calls required new action cr rows) rows (λ _. h)
        (λ cr k. change_status_sound yaml_valid calls required new action cr rows n h k)

  abort_canary_sound :
      (calls : Calls) (type : Option ConfigType) (rows : Rows)
      → is_sound yaml_valid rows.canary ≡ true
      → is_sound yaml_valid (abort_canary calls type rows).1.canary ≡ true
  unfolding abort_canary log_audit with_canary
  abort_canary_sound calls none rows h = h
  abort_canary_sound calls (some type) rows h = ground arith

  promote_canary_sound :
      (calls : Calls) (type : Option ConfigType) (now : ℤ) (rows : Rows)
      → is_sound yaml_valid rows.canary ≡ true
      → is_sound yaml_valid (promote_canary calls type now rows).1.canary ≡ true
  unfolding promote_canary with_canary
  promote_canary_sound calls none now rows h = h
  promote_canary_sound calls (some type) now rows h = elim (Option-cases rows.canary) [
    | inl e ↦ ground arith
    | inr (cr, e) ↦ elim (Option-cases rows.config) [
      | inl k ↦ ground arith
      | inr (cfg, k) ↦ ground (arith, promote_config_sound yaml_valid calls now cr cfg rows h)
    ]
  ]

  handle_sound :
      (a : Action) (rows : Rows)
      → is_sound yaml_valid rows.canary ≡ true
      → is_sound yaml_valid (handle a rows).1.canary ≡ true
  unfolding pause_canary resume_canary
  handle_sound (create calls type name now creator body) rows h =
      create_canary_sound calls type name now creator body rows h
  handle_sound (update calls type now body) rows h = update_canary_sound calls type now body rows h
  handle_sound (percent calls type body) rows h = set_canary_percent_sound calls type body rows h
  handle_sound (pause calls type) rows h =
      set_canary_status_sound calls type rolling paused (codes "canary-pause") rows refl h
  handle_sound (resume calls type) rows h =
      set_canary_status_sound calls type paused rolling (codes "canary-resume") rows refl h
  handle_sound (abort calls type) rows h = abort_canary_sound calls type rows h
  handle_sound (promote calls type now) rows h = promote_canary_sound calls type now rows h

  -- Whatever requests are handled, and whatever calls of the manager fail, a canary release stays
  -- rolling or paused, for at most 100 percent of the agents, with a detail that is valid YAML.
  pub run-is_sound :
      (as' : List Action) (rows : Rows)
      → is_sound yaml_valid rows.canary ≡ true
      → is_sound yaml_valid (run as' rows).canary ≡ true
  unfolding run
  run-is_sound [] rows h = h
  run-is_sound (a ∷ as') rows h = run-is_sound as' (handle a rows).1 (handle_sound a rows h)
