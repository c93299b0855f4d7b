-- ===== src/Account.antt =====
-- internal/server/admin/auth.go, otp.go, reset.go and the user and role handlers of handler.go: the
-- tables of the accounts and the handlers that write them. Which calls of the manager fail is an
-- argument, and so are bcrypt and the TOTP library. A body that JSON decoding refuses is none; the
-- texts of messages are not modelled, their codes are.
pub mod Reset
pub mod Users
pub mod Rows
pub mod Ranks
pub mod Requests
pub mod Login
mod Tests
use config_server.Prelude.{
  ℕ, Bool, true, false, not, ◌&&◌, ◌||◌, Option, none, some, List, [], ◌∷◌, ◌++◌, Bytes, codes,
  bytes_eq, is_empty, any, keep, ltb, length, if◌then◌else◌,
}
use config_server.Prelude.Dict.{Dict}
use config_server.Model.{User, Role, RolePermission}
use config_server.Auth.{Entry}
use config_server.Auth.Handlers.{Verifier}

-- An e-mail that was sent: its address and its text.
pub record Mail : Type 0 where
  pub address : Bytes
  pub text : Bytes

pub record Accounts : Type 0 where
  pub users : List User
  pub roles : List Role
  pub permissions : List RolePermission
  pub resets : Dict Entry
  pub outbox : List Mail

-- Which calls succeed.
pub record Calls : Type 0 where
  pub admin_exists : Bool
  pub get_user : Bool
  pub create_user : Bool
  pub update_user : Bool
  pub delete_user : Bool
  pub get_role : Bool
  pub create_role : Bool
  pub delete_role : Bool
  pub set_role_permissions : Bool
  pub send_mail : Bool

-- A reply with the code of an error, the reply of a success, the secret that OTPSetup shows, and a
-- panic of the handler.
pub data Reply : Type 0 where
  refused : ℕ → Reply
  done : Reply
  message : Bytes → Reply
  secret : Bytes → Reply
  crashed : Reply

-- The rows of the table of users, whose primary key is the name.
unfoldable pub get_user : Bytes → List User → Option User
get_user name [] = none
get_user name (u ∷ us) = if bytes_eq u.username name then some u else get_user name us

-- gorm's Save: it writes the row of the name, and creates it if there is none.
pub update_user : User → List User → List User
update_user u [] = u ∷ []
update_user u (v ∷ vs) =
    let rest = update_user u vs in if bytes_eq v.username u.username then u ∷ vs else v ∷ rest

-- none is the violation of the primary key.
pub create_user : User → List User → Option (List User)
create_user u us = elim (get_user u.username us) [ some old ↦ none | none ↦ some (us ++ u ∷ []) ]

abbrev pub delete_user : Bytes → List User → List User
delete_user name = keep (λ (u : User). not (bytes_eq u.username name))

abbrev pub admin_exists : List User → Bool
admin_exists = any (λ (u : User). u.is_admin)

abbrev pub admin_name : Bytes
admin_name = codes "admin"

-- bcrypt.GenerateFromPassword, and totp.Generate, for the random bytes of one call.
pub record Generator : Type 0 where
  pub hash_password : Bytes → Option Bytes
  pub otp_secret : Bytes → Option Bytes

pub record PasswordBody : Type 0 where
  pub password : Bytes
  pub confirm_password : Bytes

pub record ChangeBody : Type 0 where
  pub current_password : Bytes
  pub new_password : Bytes
  pub confirm_password : Bytes

-- The checks on a new password and its confirmation.
pub accepts_password : Bytes → Bytes → Bool
accepts_password password confirm =
    not (is_empty password) && not (ltb (length password) 8) && bytes_eq password confirm

module _ (v : Verifier) (gen : Generator) (calls : Calls) where
  -- The handlers' last step: the row is written, or the write fails.
  abbrev pub save : Reply → User → Accounts → Reply × Accounts
  save reply u a =
      if calls.update_user
      then (reply, record a { users = update_user u a.users })
      else (refused 500, a)

  -- A user with a new password.
  abbrev pub save_password : Bytes → User → Accounts → Reply × Accounts
  save_password password u a = elim (gen.hash_password password) [
    | none ↦ (refused 500, a)
    | some hash ↦ save done (record u { password_hash = hash }) a
  ]

  -- The row of the name: none is an error of the call or a row that is not there.
  abbrev pub found_user : Bytes → Accounts → Option User
  found_user name a = if calls.get_user then get_user name a.users else none

  unfoldable pub create_admin : Bytes → Accounts → Reply × Accounts
  create_admin hash a =
      let user : User = record {
        username = admin_name;
        password_hash = hash;
        is_admin = true;
        role_name = [];
        email = [];
        totp_secret = [];
        totp_enabled = false;
      } in
      if not calls.create_user then (refused 500, a) else elim (create_user user a.users) [
        | none ↦ (refused 500, a)
        | some users ↦ (done, record a { users = users })
      ]

  pub auth_init : Option PasswordBody → Accounts → Reply × Accounts
  auth_init body a =
      if not calls.admin_exists
      then (refused 500, a)
      else if admin_exists a.users
      then (refused 400, a)
      else elim body [
        | none ↦ (refused 400, a)
        | some b ↦
            if not (accepts_password b.password b.confirm_password)
            then (refused 400, a)
            else elim (gen.hash_password b.password) [
              | none ↦ (refused 500, a)
              | some hash ↦ create_admin hash a
            ]
      ]

  -- AuthChangePassword once the body is validated.
  pub change_password : Bytes → ChangeBody → Accounts → Reply × Accounts
  change_password caller b a =
      if not calls.get_user then (refused 500, a) else elim (get_user caller a.users) [
        | none ↦ (refused 401, a)
        | some user ↦
            if not (v.password_matches user.password_hash b.current_password)
            then (refused 401, a)
            else save_password b.new_password user a
      ]

  pub auth_change_password : Bytes → Option ChangeBody → Accounts → Reply × Accounts
  auth_change_password caller none a = (refused 400, a)
  auth_change_password caller (some b) a =
      if accepts_password b.new_password b.confirm_password
      then change_password caller b a
      else (refused 400, a)

  pub otp_setup : Bytes → Accounts → Reply × Accounts
  otp_setup caller a = elim (found_user caller a) [
    | none ↦ (refused 500, a)
    | some user ↦ if user.totp_enabled then (refused 400, a) else elim (gen.otp_secret caller) [
      | none ↦ (refused 500, a)
      | some key ↦ save (secret key) (record user { totp_secret = key; totp_enabled = false }) a
    ]
  ]

  -- The body is the code.
  pub otp_enable : Bytes → Option Bytes → Accounts → Reply × Accounts
  otp_enable caller none a = (refused 400, a)
  otp_enable caller (some code) a =
      if is_empty code then (refused 400, a) else elim (found_user caller a) [
        | none ↦ (refused 500, a)
        | some user ↦
            if is_empty user.totp_secret || user.totp_enabled
            then (refused 400, a)
            else if not (v.otp_valid code user.totp_secret)
            then (refused 401, a)
            else save done (record user { totp_enabled = true }) a
      ]

  -- The body is the current password.
  pub otp_disable : Bytes → Option Bytes → Accounts → Reply × Accounts
  otp_disable caller none a = (refused 400, a)
  otp_disable caller (some password) a =
      if is_empty password then (refused 400, a) else elim (found_user caller a) [
        | none ↦ (refused 500, a)
        | some user ↦
            if not (v.password_matches user.password_hash password)
            then (refused 401, a)
            else save done (record user { totp_secret = []; totp_enabled = false }) a
      ]
