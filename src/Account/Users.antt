-- ===== src/Account/Users.antt =====
-- The handlers of internal/server/admin/handler.go by which an admin manages users and roles, and
-- their tables' operations of internal/store/gormdb/gormdb.go.
use config_server.Prelude.{
  Bool, true, false, not, ◌&&◌, ◌||◌, Option, none, some, List, [], ◌∷◌, ◌++◌, Bytes, bytes_eq,
  is_empty, any, keep, map, ltb, length, if◌then◌else◌,
}
use config_server.Model.{User, Role, RolePermission}
use config_server.Auth.{resource_eq}
use config_server.Auth.Handlers.{Verifier}
use config_server.Store.Rows.{clear_role}
use config_server.Account.{
  Accounts, Calls, Reply, refused, done, get_user, create_user, delete_user, admin_name, Generator,
  save, save_password,
}

unfoldable pub get_role : Bytes → List Role → Option Role
get_role name [] = none
get_role name (r ∷ rs) = if bytes_eq r.name name then some r else get_role name rs

-- none is the violation of the primary key.
unfoldable pub create_role_row : Role → List Role → Option (List Role)
create_role_row r rs = elim (get_role r.name rs) [ some old ↦ none | none ↦ some (rs ++ r ∷ []) ]

abbrev name_permission : Bytes → RolePermission → RolePermission
name_permission name p = record p { role_name = name }

-- The primary key of the rows of one role.
unfoldable pub distinct_resources : List RolePermission → Bool
distinct_resources [] = true
distinct_resources (p ∷ ps) =
    not (any (λ (q : RolePermission). resource_eq p.resource q.resource) ps)
    && distinct_resources ps

pub record UserBody : Type 0 where
  pub username : Bytes
  pub password : Bytes
  pub role_name : Bytes

pub record RoleBody : Type 0 where
  pub name : Bytes
  pub description : Bytes

module _ (v : Verifier) (gen : Generator) (calls : Calls) where
  -- The check of a role name; the empty one stands for no role. none is no objection.
  unfoldable pub check_role : Bytes → Accounts → Option Reply
  check_role name a =
      if is_empty name
      then none
      else if not calls.get_role
      then some (refused 500)
      else elim (get_role name a.roles) [ none ↦ some (refused 400) | some r ↦ none ]

  unfoldable pub insert_user : UserBody → Accounts → Reply × Accounts
  insert_user b a = elim (gen.hash_password b.password) [
    | none ↦ (refused 500, a)
    | some hash ↦
        let user : User = record {
          username = b.username;
          password_hash = hash;
          is_admin = false;
          role_name = b.role_name;
          email = [];
          totp_secret = [];
          totp_enabled = false;
        } in
        if not calls.create_user then (refused 500, a) else elim (create_user user a.users) [
          | none ↦ (refused 500, a)
          | some users ↦ (done, record a { users = users })
        ]
  ]

  unfoldable pub add_user : Option UserBody → Accounts → Reply × Accounts
  add_user none a = (refused 400, a)
  add_user (some b) a =
      if is_empty b.username || bytes_eq b.username admin_name || ltb (length b.password) 8
      then (refused 400, a)
      else if not calls.get_user
      then (refused 500, a)
      else elim (get_user b.username a.users) [
        | some existing ↦ (refused 409, a)
        | none ↦ elim (check_role b.role_name a) [
          | some reply ↦ (reply, a)
          | none ↦ insert_user b a
        ]
      ]

  unfoldable pub remove_user : Bytes → Accounts → Reply × Accounts
  remove_user username a =
      if bytes_eq username admin_name
      then (refused 400, a)
      else if not calls.delete_user
      then (refused 500, a)
      else (done, record a { users = delete_user username a.users })

  -- The body is the password.
  unfoldable pub reset_user_password : Bytes → Bytes → Option Bytes → Accounts → Reply × Accounts
  reset_user_password caller username body a =
      if bytes_eq caller username then (refused 403, a) else elim body [
        | none ↦ (refused 400, a)
        | some password ↦
            if ltb (length password) 8
            then (refused 400, a)
            else if not calls.get_user
            then (refused 500, a)
            else elim (get_user username a.users) [
              | none ↦ (refused 404, a)
              | some user ↦ save_password v gen calls password user a
            ]
      ]

  -- The body is the name of the role.
  unfoldable pub assign_user_role : Bytes → Option Bytes → Accounts → Reply × Accounts
  assign_user_role username body a =
      if bytes_eq username admin_name then (refused 400, a) else elim body [
        | none ↦ (refused 400, a)
        | some role ↦
            if not calls.get_user then (refused 500, a) else elim (get_user username a.users) [
              | none ↦ (refused 404, a)
              | some user ↦ elim (check_role role a) [
                | some reply ↦ (reply, a)
                | none ↦ save v gen calls done (record user { role_name = role }) a
              ]
            ]
      ]

  unfoldable pub add_role : Option RoleBody → Accounts → Reply × Accounts
  add_role none a = (refused 400, a)
  add_role (some b) a =
      if is_empty b.name
      then (refused 400, a)
      else if not calls.get_role
      then (refused 500, a)
      else elim (get_role b.name a.roles) [
        | some existing ↦ (refused 409, a)
        | none ↦
            let role : Role = record { name = b.name; description = b.description } in
            if not calls.create_role
            then (refused 500, a)
            else elim (create_role_row role a.roles) [
              | none ↦ (refused 500, a)
              | some roles ↦ (done, record a { roles = roles })
            ]
      ]

  unfoldable pub remove_role : Bytes → Accounts → Reply × Accounts
  remove_role name a = if not calls.delete_role then (refused 500, a) else (
    done,
    record a {
      users = map (clear_role name) a.users;
      permissions = keep (λ (p : RolePermission). not (bytes_eq p.role_name name)) a.permissions;
      roles = keep (λ (r : Role). not (bytes_eq r.name name)) a.roles;
    },
  )

  -- The rows of the role are replaced in one transaction.
  unfoldable pub set_permissions :
      Bytes → Option (List RolePermission) → Accounts → Reply × Accounts
  set_permissions name none a = (refused 400, a)
  set_permissions name (some perms) a =
      if not calls.set_role_permissions || not (distinct_resources perms)
      then (refused 500, a)
      else (
        done,
        record a {
          permissions =
              keep (λ (p : RolePermission). not (bytes_eq p.role_name name)) a.permissions
              ++ map (name_permission name) perms;
        },
      )
