-- ===== src/Auth.antt =====
-- internal/server/admin/auth.go and otp.go: session tokens and pending OTP tokens in memory, the
-- middleware of the admin server, and the handlers that log a user in and out. The random token
-- and the clock's reading (in nanoseconds) are arguments; so are bcrypt and the TOTP library.
pub mod Tokens
pub mod Middleware
pub mod Handlers
pub mod Login
mod Tests
use config_server.Prelude.{
  ◌≡◌, ◌⊎◌, refl, inl, inr, ℕ, ◌+◌, ◌*◌, ◌<◌, Bool, true, false, not, ◌&&◌, ◌||◌, Option, none,
  some, List, [], ◌∷◌, Bytes, codes, bytes_eq, is_empty, any, ltb, length, if◌then◌else◌,
}
use config_server.Prelude.Dict.{Dict, lookup, insert, erase}
use config_server.Strings.{has_prefix, strip_prefix}
use config_server.Model.{
  User, Resource, pipeline_configs, instance_configs, onetime_commands, agent_groups, agents,
  RolePermission,
}

pub record Entry : Type 0 where
  pub username : Bytes
  pub expires_at : ℕ

abbrev pub session_ttl : ℕ
session_ttl = 8 * 3600 * 1000000000

abbrev pub pending_otp_ttl : ℕ
pending_otp_ttl = 5 * 60 * 1000000000

pub create_session : ℕ → Bytes → Bytes → Dict Entry → Dict Entry
create_session now token username tokens =
    insert token (record { username = username; expires_at = now + session_ttl }) tokens

-- The user of an entry that has not expired.
abbrev pub live_user : ℕ → Option Entry → Option Bytes
live_user now none = none
live_user now (some e) = if ltb e.expires_at now then none else some e.username

pub get_session : ℕ → Bytes → Dict Entry → Option Bytes
get_session now token tokens = live_user now (lookup token tokens)

pub issue_pending : ℕ → Bytes → Bytes → Dict Entry → Dict Entry
issue_pending now token username tokens =
    insert token (record { username = username; expires_at = now + pending_otp_ttl }) tokens

-- The token is deleted whether it has expired or not.
pub consume_pending : ℕ → Bytes → Dict Entry → Option Bytes × Dict Entry
consume_pending now token tokens = elim (lookup token tokens) [
  | none ↦ (none, tokens)
  | some e ↦ (live_user now (some e), erase token tokens)
]

-- A call of the manager: it fails, or it gives a value.
pub data Fetched {ℓ} (A : Type ℓ) : Type ℓ where
  failed : Fetched A
  fetched : A → Fetched A

pub Fetched-cases {ℓ} : {A : Type ℓ} (f : Fetched A) → (f ≡ failed) ⊎ ((a : A) × (f ≡ fetched a))
Fetched-cases failed = inl refl
Fetched-cases (fetched a) = inr (a, refl)

-- The calls of the manager that the middleware and the handlers read with.
pub record Accounts : Type 0 where
  pub get_user : Bytes → Fetched (Option User)
  pub get_role_permissions : Bytes → Fetched (List RolePermission)

pub record UserCtx : Type 0 where
  pub username : Bytes
  pub is_admin : Bool

pub record Request : Type 0 where
  pub method : Bytes
  pub path : Bytes
  pub session_cookie : Option Bytes
  pub csrf_cookie : Option Bytes
  pub csrf_header : Bytes

pub data Action : Type 0 where
  create read update delete : Action

pub path_resource : Bytes → Option Resource
path_resource trimmed =
    if has_prefix (codes "pipeline-configs") trimmed
    then some pipeline_configs
    else if has_prefix (codes "instance-configs") trimmed
    then some instance_configs
    else if has_prefix (codes "onetime-commands") trimmed
    then some onetime_commands
    else if has_prefix (codes "groups") trimmed
    then some agent_groups
    else if has_prefix (codes "agents") trimmed
    then some agents
    else none

unfoldable pub method_action : Bytes → Option Action
method_action method =
    if bytes_eq method (codes "GET") || bytes_eq method (codes "HEAD")
    then some read
    else if bytes_eq method (codes "POST")
    then some create
    else if bytes_eq method (codes "PUT") || bytes_eq method (codes "PATCH")
    then some update
    else if bytes_eq method (codes "DELETE")
    then some delete
    else none

abbrev pub api_prefix : Bytes
api_prefix = codes "/api/v1/"

pub trim_api : Bytes → Bytes
trim_api path = elim (strip_prefix api_prefix path) [ none ↦ path | some rest ↦ rest ]

-- none stands for the pair of empty strings.
pub route_to_permission : Bytes → Bytes → Option (Resource × Action)
route_to_permission method path = elim (path_resource (trim_api path)) [
  | none ↦ none
  | some res ↦ elim (method_action method) [ none ↦ none | some act ↦ some (res, act) ]
]

abbrev pub resource_eq : Resource → Resource → Bool
resource_eq pipeline_configs pipeline_configs = true
resource_eq instance_configs instance_configs = true
resource_eq onetime_commands onetime_commands = true
resource_eq agent_groups agent_groups = true
resource_eq agents agents = true
resource_eq _ _ = false

abbrev grants : RolePermission → Action → Bool
grants p create = p.can_create
grants p read = p.can_read
grants p update = p.can_update
grants p delete = p.can_delete

-- The first row of the resource decides.
unfoldable pub permits : List RolePermission → Resource → Action → Bool
permits [] res act = false
permits (p ∷ ps) res act =
    let rest = permits ps res act in if resource_eq p.resource res then grants p act else rest

-- An error of the manager is failed.
pub has_permission : Accounts → Bytes → Resource → Action → Fetched Bool
has_permission acc username res act = elim (acc.get_user username) [
  | failed ↦ failed
  | fetched none ↦ fetched false
  | fetched (some user) ↦
      if is_empty user.role_name
      then fetched false
      else elim (acc.get_role_permissions user.role_name) [
        | failed ↦ failed
        | fetched perms ↦ fetched (permits perms res act)
      ]
]

abbrev auth_public_paths : List Bytes
auth_public_paths =
    codes "/api/v1/auth/status"
    ∷ codes "/api/v1/auth/init"
    ∷ codes "/api/v1/auth/login"
    ∷ codes "/api/v1/auth/login/otp"
    ∷ codes "/api/v1/auth/logout"
    ∷ codes "/api/v1/auth/forgot-password"
    ∷ codes "/api/v1/auth/reset-password"
    ∷ []

pub is_public : Bytes → Bool
is_public path = any (bytes_eq path) auth_public_paths

pub is_csrf_safe : Bytes → Bool
is_csrf_safe method = any (bytes_eq method) (codes "GET" ∷ codes "HEAD" ∷ codes "OPTIONS" ∷ [])

-- The double-submit check.
pub csrf_passes : Request → Bool
csrf_passes r = elim r.csrf_cookie [
  | none ↦ false
  | some cookie ↦ not (is_empty r.csrf_header) && bytes_eq r.csrf_header cookie
]

-- The request goes on to the handler, with the user if the middleware looked one up, or is
-- answered with a status code.
pub data Verdict : Type 0 where
  forward : Option UserCtx → Verdict
  reject : ℕ → Verdict

-- The last check of the middleware: a user who is no admin needs the permission of the route.
pub check_permission : Accounts → Request → Bytes → UserCtx → Verdict
check_permission acc r username uc =
    if uc.is_admin then forward (some uc) else elim (route_to_permission r.method r.path) [
      | none ↦ forward (some uc)
      | some (res, act) ↦ elim (has_permission acc username res act) [
        | failed ↦ reject 403
        | fetched allowed ↦ if allowed then forward (some uc) else reject 403
      ]
    ]

-- The checks after the session's: CSRF, then the user's row, then the permission.
pub check_user : Accounts → Request → Bytes → Verdict
check_user acc r username =
    if not (is_csrf_safe r.method) && not (csrf_passes r)
    then reject 403
    else elim (acc.get_user username) [
      | failed ↦ reject 401
      | fetched none ↦ reject 401
      | fetched (some user) ↦
          check_permission acc r username (record { username = username; is_admin = user.is_admin })
    ]

pub require_auth : Accounts → Dict Entry → ℕ → Request → Verdict
require_auth acc sessions now r =
    if not (has_prefix api_prefix r.path)
    then forward none
    else if is_public r.path
    then forward none
    else elim r.session_cookie [
      | none ↦ reject 401
      | some cookie ↦ elim (get_session now cookie sessions) [
        | none ↦ reject 401
        | some username ↦ check_user acc r username
      ]
    ]

-- The middleware of the admin's routes, on the user that require_auth put into the context.
unfoldable pub require_admin : Option UserCtx → Verdict
require_admin none = reject 403
require_admin (some uc) = if uc.is_admin then forward (some uc) else reject 403
