-- ===== src/CanaryAdmin/Tests.antt =====
-- The theorems on the canary handlers of internal/server/admin/handler.go, for one release.
use Prim.Native.Nat.{Ordering}
use config_server.Prelude.{
  ℕ, ◌≡◌, refl, Bool, true, false, not, none, some, List, [], ◌∷◌, Bytes, bytes_eq, codes, pos,
  is_empty,
}
use config_server.Model.{AgentMatchContext, pipeline, Config, CanaryRelease, rolling}
use config_server.IpSelector.{Netip, Json}
use config_server.CanaryAdmin.{
  Rows, Calls, CanaryBody, created, shown, status, log_audit, promote_canary,
}
use config_server.CanaryAdmin.Requests.{create_canary}
use config_server.CanaryAdmin.Lifecycle.{
  Action, create, pause, percent, promote, is_sound, run, run-is_sound,
}
use config_server.CanaryAdmin.Release.{Resolves, promote_canary-overlay_config, create_canary-again}

abbrev no_net : Netip
no_net = record {
  Addr = ℕ;
  Prefix = ℕ;
  parse_addr = λ _. none;
  parse_prefix = λ _. none;
  addr_eq = λ _ _. false;
  compare = λ _ _. Ordering.eq;
  prefix_contains = λ _ _. false;
  is4 = λ _. false;
  as4 = λ _. (0, 0, 0, 0);
  addr_from4 = λ _. 0;
}

abbrev agent : AgentMatchContext
agent = record {
  instance_id = codes "i-1";
  ip = [];
  hostid = [];
  hostname = [];
  version = codes "1.2";
  tags = [];
}

abbrev no_json : Json
no_json = record {
  unmarshal_selector = λ _. none;
  marshal_selector = λ _. [];
  unmarshal_tags = λ _. none;
}

-- Every text that is not empty passes for YAML.
abbrev filled : Bytes → Bool
filled s = not (is_empty s)

abbrev calls : Calls
calls = record {
  get_canary = true;
  get_config = true;
  create_canary = true;
  read_again = none;
  update_canary = true;
  update_config = true;
  delete_canary = true;
  save_history = true;
  log_audit = true;
}

abbrev body : CanaryBody
body = record {
  canary_detail = codes "new";
  rollout_percent = pos 30;
  version_constraint = [];
  ip_selector = [];
  tag_selector = [];
}

abbrev release : CanaryRelease
release = record {
  config_name = codes "nginx";
  config_type = pipeline;
  canary_detail = codes "new";
  canary_version = pos 5;
  rollout_percent = 30;
  version_constraint = [];
  ip_selector_json = [];
  tag_selector_json = [];
  status = rolling;
  created_by = codes "alice";
}

abbrev stable : Config
stable = record { name = codes "nginx"; version = pos 1; detail = codes "old" }

abbrev before : Rows
before = record { canary = none; config = some stable; history = []; audits = [] }

abbrev after : Rows
after = record {
  canary = some release;
  config = some stable;
  history = [];
  audits = codes "canary-create" ∷ [];
}

release-created :
    create_canary no_net no_json filled
      (λ _. none)
      calls
      (some pipeline)
      (codes "nginx")
      (pos 5)
      (codes "alice")
      (some body)
      before
    ≡ (created release, after)
unfolding create_canary config_server.CanaryAdmin.percent_of
    config_server.CanaryAdmin.Requests.selectors config_server.CanaryAdmin.Requests.tag_json
    config_server.CanaryAdmin.insert_canary log_audit
release-created = refl

create_canary-again_example :
    create_canary no_net no_json filled
      (λ _. none)
      calls
      (some pipeline)
      (codes "nginx")
      (pos 9)
      (codes "bob")
      (some body)
      after
    ≡ (shown release, after)
create_canary-again_example =
    create_canary-again no_net no_json filled (λ _. none) calls pipeline (codes "nginx") (pos 5)
      (pos 9) (codes "alice") (codes "bob") body before after release release-created

-- The deletion of the canary fails, and nothing is read the second time.
abbrev kept_calls : Calls
kept_calls = record calls { delete_canary = false }

abbrev failing_calls : Calls
failing_calls = record calls { get_canary = false }

abbrev promoted_rows : Rows
promoted_rows = (promote_canary kept_calls (some pipeline) (pos 7) after).1

promote_canary-overlay_config_example :
    (cfg : Config) × (promoted_rows.config ≡ some cfg)
    × (cfg.detail ≡ codes "new")
    × Resolves no_net no_json pipeline agent (codes "new") promoted_rows cfg
    × ((promote_canary failing_calls (some pipeline) (pos 8) promoted_rows).1.config
        ≡ promoted_rows.config)
unfolding promote_canary config_server.CanaryAdmin.with_canary
    config_server.CanaryAdmin.promote_config bytes_eq config_server.CanaryAdmin.finish_promotion
promote_canary-overlay_config_example =
    promote_canary-overlay_config no_net no_json kept_calls failing_calls pipeline (pos 7) (pos 8)
      agent after release refl refl

abbrev requests : List (Action no_net no_json filled (λ _. none))
requests =
    create calls (some pipeline) (codes "nginx") (pos 5) (codes "alice") (some body)
    ∷ pause calls (some pipeline)
    ∷ percent calls (some pipeline) (some (pos 101))
    ∷ promote calls (some pipeline) (pos 8)
    ∷ []

run-is_sound_example :
    is_sound filled (run no_net no_json filled (λ _. none) requests before).canary ≡ true
run-is_sound_example = run-is_sound no_net no_json filled (λ _. none) requests before refl
