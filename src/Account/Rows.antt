-- ===== src/Account/Rows.antt =====
-- The rows of the table of users, and which of them are admins.
use config_server.Prelude.{
  ◌≡◌, refl, Bool, true, Option, none, some, List, [], ◌∷◌, ◌++◌, Bytes, bytes_eq, bytes_eq_iff,
  map, arith, if◌then◌else◌,
}
use config_server.Model.{User}
use config_server.Store.Rows.{clear_role}
use config_server.Account.{get_user, update_user, delete_user, admin_exists}

-- Whether the user of a name is an admin.
abbrev admin_of : Option User → Option Bool
admin_of none = none
admin_of (some u) = some u.is_admin

abbrev pub rank : Bytes → List User → Option Bool
rank name us = admin_of (get_user name us)

pub get_user_username :
    (name : Bytes) (us : List User) (u : User) → get_user name us ≡ some u → u.username ≡ name
unfolding get_user
get_user_username name [] u e = ground arith
get_user_username name (v ∷ vs) u e =
    ground (arith, bytes_eq_iff v.username name, get_user_username name vs u)

pub get_user-update_user :
    (j : Bytes) (u : User) (us : List User)
    → get_user j (update_user u us) ≡ (if bytes_eq u.username j then some u else get_user j us)
unfolding get_user update_user
get_user-update_user j u [] = refl
get_user-update_user j u (v ∷ vs) = ground (
  arith,
  get_user-update_user j u vs,
  bytes_eq_iff u.username j,
  bytes_eq_iff v.username j,
  bytes_eq_iff v.username u.username,
)

pub get_user-append :
    (j : Bytes) (u : User) (us : List User)
    → get_user u.username us ≡ none
    → get_user j (us ++ u ∷ []) ≡ (if bytes_eq u.username j then some u else get_user j us)
unfolding get_user
get_user-append j u [] e = refl
get_user-append j u (v ∷ vs) e = ground (
  arith,
  get_user-append j u vs,
  bytes_eq_iff u.username j,
  bytes_eq_iff v.username j,
  bytes_eq_iff v.username u.username,
)

pub get_user-delete_user :
    (j name : Bytes) (us : List User)
    → get_user j (delete_user name us) ≡ (if bytes_eq name j then none else get_user j us)
unfolding get_user
get_user-delete_user j name [] = ground arith
get_user-delete_user j name (v ∷ vs) = ground (
  arith,
  get_user-delete_user j name vs,
  bytes_eq_iff name j,
  bytes_eq_iff v.username j,
  bytes_eq_iff v.username name,
)

pub rank-clear_role :
    (j name : Bytes) (us : List User) → rank j (map (clear_role name) us) ≡ rank j us
unfolding get_user
rank-clear_role j name [] = refl
rank-clear_role j name (v ∷ vs) = ground (arith, rank-clear_role j name vs)

pub admin_exists-rank :
    (name : Bytes) (us : List User) → rank name us ≡ some true → admin_exists us ≡ true
unfolding get_user
admin_exists-rank name [] e = ground arith
admin_exists-rank name (v ∷ vs) e = ground (arith, admin_exists-rank name vs)

-- Writing the row of a user with its name and its rank changes no rank.
pub rank-update_user :
    (j name : Bytes) (u w : User) (us : List User)
    → get_user name us ≡ some u
    → w.username ≡ u.username
    → w.is_admin ≡ u.is_admin
    → rank j (update_user w us) ≡ rank j us
rank-update_user j name u w us e n r =
    ground
      (arith, get_user-update_user j w us, get_user_username name us u e, bytes_eq_iff w.username j)
