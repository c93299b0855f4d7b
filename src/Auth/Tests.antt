-- ===== src/Auth/Tests.antt =====
-- The theorems on internal/server/admin/auth.go and otp.go, for one user with a second factor.
use config_server.Prelude.{
  ◌+◌, ◌≡◌, ◌⊎◌, refl, true, false, ◌&&◌, ◌||◌, none, some, List, [], ◌∷◌, Bytes, bytes_eq, codes,
  any, if◌then◌else◌,
}
use config_server.Prelude.Dict.{Dict, lookup, insert}
use config_server.Strings.{has_prefix}
use config_server.Model.{User}
use config_server.Auth.{
  csrf_passes, Entry, session_ttl, create_session, get_session, issue_pending, consume_pending,
  fetched, Accounts, UserCtx, Request, api_prefix, is_public, Verdict, forward, require_auth,
}
use config_server.Auth.Middleware.{IsAuthorized, require_auth-forward, require_auth-configs}
use config_server.Auth.Handlers.{Verifier, TokenStores}
use config_server.Auth.Login.{
  Event, login, otp, passes_password, passes_otp, has_no_otp, run, run-sessions,
}

abbrev alice : User
alice = record {
  username = codes "alice";
  password_hash = codes "secret";
  is_admin = true;
  role_name = [];
  email = [];
  totp_secret = codes "123456";
  totp_enabled = true;
}

abbrev accounts : Accounts
accounts = record {
  get_user = λ name. fetched (if bytes_eq name (codes "alice") then some alice else none);
  get_role_permissions = λ _. fetched [];
}

-- Passwords and codes that are compared as they are.
abbrev plain : Verifier
plain = record {
  password_matches = λ hash password. bytes_eq hash password;
  otp_valid = λ code secret. bytes_eq code secret;
}

abbrev logged_in : Dict Entry
logged_in = create_session 0 (codes "t1") (codes "alice") []

abbrev waiting : Dict Entry
waiting = issue_pending 0 (codes "p1") (codes "alice") []

abbrev delete_group_request : Request
delete_group_request = record {
  method = codes "DELETE";
  path = codes "/api/v1/groups/web";
  session_cookie = some (codes "t1");
  csrf_cookie = some (codes "t1");
  csrf_header = codes "t1";
}

abbrev alice_ctx : UserCtx
alice_ctx = record { username = codes "alice"; is_admin = true }

forwarded : require_auth accounts logged_in 5 delete_group_request ≡ forward (some alice_ctx)
unfolding require_auth has_prefix is_public bytes_eq get_session lookup create_session insert
    config_server.Auth.check_user config_server.Auth.is_csrf_safe config_server.Auth.csrf_passes
    config_server.Auth.check_permission
forwarded = refl

require_auth-forward_example :
    ((some alice_ctx ≡ none)
      × ((has_prefix api_prefix delete_group_request.path ≡ false)
          ⊎ (is_public delete_group_request.path ≡ true)))
    ⊎ ((token username : Bytes) × (uc : UserCtx) × (delete_group_request.session_cookie
          ≡ some token)
        × (get_session 5 token logged_in ≡ some username)
        × (some alice_ctx ≡ some uc)
        × IsAuthorized accounts delete_group_request username uc)
require_auth-forward_example =
    require_auth-forward accounts logged_in 5 delete_group_request (some alice_ctx) forwarded

abbrev two_steps : List Event
two_steps =
    otp 20 (codes "t1") (some (record { pending_token = codes "p1"; otp_code = codes "123456" }))
    ∷ login 10 (codes "p1") (some (record { username = codes "alice"; password = codes "secret" }))
    ∷ []

abbrev session : Entry
session = record { username = codes "alice"; expires_at = 20 + session_ttl }

has_session : lookup (codes "t1") (run plain accounts two_steps).sessions ≡ some session
unfolding lookup run config_server.Auth.Handlers.otp_login_step
    config_server.Auth.Handlers.finish_otp_login consume_pending
    config_server.Auth.Handlers.auth_login bytes_eq issue_pending insert create_session
has_session = refl

run-sessions_example :
    (any (passes_password plain accounts (codes "alice")) two_steps
      && (has_no_otp plain accounts (codes "alice")
          || any (passes_otp plain accounts (codes "alice")) two_steps))
    ≡ true
run-sessions_example = run-sessions plain accounts two_steps (codes "t1") session has_session

-- A user without a role.
abbrev guest : User
guest = record {
  username = codes "guest";
  password_hash = [];
  is_admin = false;
  role_name = [];
  email = [];
  totp_secret = [];
  totp_enabled = false;
}

abbrev guests : Accounts
guests = record { get_user = λ _. fetched (some guest); get_role_permissions = λ _. fetched [] }

abbrev promotion : Request
promotion = record {
  method = codes "POST";
  path = codes "/api/v1/configs/pipeline/nginx/canary/promote";
  session_cookie = some (codes "t1");
  csrf_cookie = some (codes "t1");
  csrf_header = codes "t1";
}

guest_session :
    get_session 5 (codes "t1") (create_session 0 (codes "t1") (codes "guest") [])
    ≡ some (codes "guest")
unfolding get_session lookup create_session insert bytes_eq
guest_session = refl

promotion_passes : csrf_passes promotion ≡ true
unfolding csrf_passes bytes_eq
promotion_passes = refl

require_auth-configs_example :
    require_auth guests (create_session 0 (codes "t1") (codes "guest") []) 5 promotion
    ≡ forward (some (record { username = codes "guest"; is_admin = false }))
require_auth-configs_example =
    require_auth-configs guests (create_session 0 (codes "t1") (codes "guest") []) 5 promotion
      (codes "pipeline/nginx/canary/promote") (codes "t1") (codes "guest") guest refl refl
      guest_session promotion_passes refl
