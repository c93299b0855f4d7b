-- ===== src/Auth/Middleware.antt =====
-- What a request needs to pass requireAuth of internal/server/admin/auth.go.
use config_server.Prelude.{
  ap, ◌∙◌, ◌++◌, codes, bytes_eq, ℕ, ◌≡◌, refl, true, false, not, ◌&&◌, ◌||◌, Option, none, some,
  List, Bytes, is_empty, ◌⊎◌, arith, Bool-cases, Option-cases, inl, inr,
}
use config_server.Prelude.Dict.{Dict}
use config_server.Strings.{has_prefix, strip_prefix}
use config_server.Model.{User, Resource, RolePermission}
use config_server.Auth.{
  trim_api, path_resource, Entry, Fetched-cases, get_session, fetched, Accounts, UserCtx, Request,
  Action, api_prefix, route_to_permission, has_permission, permits, is_public, is_csrf_safe,
  csrf_passes, forward, check_permission, check_user, require_auth,
}

-- The route needs no permission, or the user's role grants it.
IsGranted : Accounts → Request → User → Type 0
IsGranted acc r user =
    (route_to_permission r.method r.path ≡ none)
    ⊎ ((res : Resource) × (act : Action) × (perms : List RolePermission) × (route_to_permission
            r.method r.path
          ≡ some (res, act))
        × (is_empty user.role_name ≡ false)
        × (acc.get_role_permissions user.role_name ≡ fetched perms)
        × (permits perms res act ≡ true))

-- The user's row is there, the request passes the CSRF check where the method needs it, and the
-- user is an admin or is granted the permission of the route.
pub IsAuthorized : Accounts → Request → Bytes → UserCtx → Type 0
IsAuthorized acc r username uc =
    (user : User) × (acc.get_user username ≡ fetched (some user))
    × (uc ≡ record { username = username; is_admin = user.is_admin })
    × ((is_csrf_safe r.method || csrf_passes r) ≡ true)
    × ((user.is_admin ≡ true) ⊎ IsGranted acc r user)

has_permission-true :
    (acc : Accounts) (username : Bytes) (res : Resource) (act : Action) (user : User)
    → acc.get_user username ≡ fetched (some user)
    → has_permission acc username res act ≡ fetched true
    → (perms : List RolePermission) × (is_empty user.role_name ≡ false)
      × (acc.get_role_permissions user.role_name ≡ fetched perms)
      × (permits perms res act ≡ true)
unfolding has_permission
has_permission-true acc username res act user e h =
    elim (Fetched-cases (acc.get_role_permissions user.role_name)) [
      | inl k ↦ ground arith
      | inr (perms, k) ↦ (perms, ground arith, k, ground arith)
    ]

check_permission-allowed :
    (acc : Accounts) (r : Request) (username : Bytes) (uc : UserCtx) (res : Resource) (act : Action)
    {c : Option UserCtx}
    → uc.is_admin ≡ false
    → route_to_permission r.method r.path ≡ some (res, act)
    → check_permission acc r username uc ≡ forward c
    → (c ≡ some uc) × (has_permission acc username res act ≡ fetched true)
unfolding check_permission
check_permission-allowed acc r username uc res act a n h =
    elim (Fetched-cases (has_permission acc username res act)) [
      | inl k ↦ ground arith
      | inr (allowed, k) ↦ ground arith
    ]

check_permission-forward :
    (acc : Accounts) (r : Request) (username : Bytes) (user : User) (uc : UserCtx)
    {c : Option UserCtx}
    → acc.get_user username ≡ fetched (some user)
    → uc.is_admin ≡ user.is_admin
    → check_permission acc r username uc ≡ forward c
    → (c ≡ some uc) × ((user.is_admin ≡ true) ⊎ IsGranted acc r user)
unfolding check_permission IsGranted
check_permission-forward acc r username user uc e a h = elim (Bool-cases user.is_admin) [
  | inl k ↦ (ground arith, inl k)
  | inr k ↦ elim (Option-cases (route_to_permission r.method r.path)) [
    | inl n ↦ (ground arith, inr (inl n))
    | inr ((res, act), n) ↦
        let allowed = check_permission-allowed acc r username uc res act (ground arith) n h in
        let (perms, role, fetch, ok) = has_permission-true acc username res act user e allowed.1 in
        (allowed.0, inr (inr (res, act, perms, n, role, fetch, ok)))
  ]
]

check_user-known :
    (acc : Accounts) (r : Request) (username : Bytes) (user : User) {c : Option UserCtx}
    → acc.get_user username ≡ fetched (some user)
    → check_user acc r username ≡ forward c
    → check_permission acc r username (record { username = username; is_admin = user.is_admin })
      ≡ forward c
unfolding check_user
check_user-known acc r username user e h = ground arith

check_user-forward :
    (acc : Accounts) (r : Request) (username : Bytes) {c : Option UserCtx}
    → check_user acc r username ≡ forward c
    → (uc : UserCtx) × (c ≡ some uc) × IsAuthorized acc r username uc
unfolding check_user IsAuthorized
check_user-forward acc r username {c} h = elim (Fetched-cases (acc.get_user username)) [
  | inl e ↦ ground arith
  | inr (none, e) ↦ ground arith
  | inr (some user, e) ↦
      let uc : UserCtx = record { username = username; is_admin = user.is_admin } in
      let passed =
        check_permission-forward acc r username user uc e refl
          (check_user-known acc r username user e h) in
      (uc, passed.0, (user, e, refl, ground arith, passed.1))
]

-- The middleware passes a request on in three cases only: its path is not under /api/v1/, or is
-- one of the public ones, and then without a user; or its cookie is the token of a session that
-- has not expired, whose user is authorized, and then with that user's name and admin flag.
pub require_auth-forward :
    (acc : Accounts) (sessions : Dict Entry) (now : ℕ) (r : Request) (c : Option UserCtx)
    → require_auth acc sessions now r ≡ forward c
    → ((c ≡ none) × ((has_prefix api_prefix r.path ≡ false) ⊎ (is_public r.path ≡ true)))
      ⊎ ((token username : Bytes) × (uc : UserCtx) × (r.session_cookie ≡ some token)
          × (get_session now token sessions ≡ some username)
          × (c ≡ some uc)
          × IsAuthorized acc r username uc)
unfolding require_auth
require_auth-forward acc sessions now r c h =
    elim (Bool-cases (has_prefix api_prefix r.path && not (is_public r.path))) [
      | inr open' ↦ inl (ground arith, ground arith)
      | inl closed ↦ elim (Option-cases r.session_cookie) [
        | inl n ↦ ground arith
        | inr (token, n) ↦ elim (Option-cases (get_session now token sessions)) [
          | inl k ↦ ground arith
          | inr (username, k) ↦
              let (uc, e, auth) = check_user-forward acc r username (ground arith) in
              inr (token, username, uc, n, k, e, auth)
        ]
      ]
    ]

route_to_permission-configs :
    (method rest : Bytes) → route_to_permission method (codes "/api/v1/configs/" ++ rest) ≡ none
unfolding route_to_permission trim_api path_resource strip_prefix has_prefix
route_to_permission-configs method rest = refl

is_public-configs : (rest : Bytes) → is_public (codes "/api/v1/configs/" ++ rest) ≡ false
unfolding is_public bytes_eq
is_public-configs rest = refl

has_prefix-configs :
    (rest : Bytes) → has_prefix api_prefix (codes "/api/v1/configs/" ++ rest) ≡ true
unfolding has_prefix strip_prefix
has_prefix-configs rest = refl

-- A request under /api/v1/configs/, the paths of the canary handlers, passes the middleware for
-- every user with a session, an existing row and a valid CSRF token, whatever the user's role and
-- its permissions.
pub require_auth-configs :
    (acc : Accounts) (sessions : Dict Entry) (now : ℕ) (r : Request) (rest token username : Bytes)
    (user : User)
    → r.path ≡ codes "/api/v1/configs/" ++ rest
    → r.session_cookie ≡ some token
    → get_session now token sessions ≡ some username
    → csrf_passes r ≡ true
    → acc.get_user username ≡ fetched (some user)
    → require_auth acc sessions now r
      ≡ forward (some (record { username = username; is_admin = user.is_admin }))
unfolding require_auth check_user check_permission
require_auth-configs acc sessions now r rest token username user p c s f u = ground (
  arith,
  ap (λ q. has_prefix api_prefix q) p ∙ has_prefix-configs rest,
  ap is_public p ∙ is_public-configs rest,
  ap (λ q. route_to_permission r.method q) p ∙ route_to_permission-configs r.method rest,
)
