-- ===== src/Account/Ranks.antt =====
-- Who is an admin before and after each handler of the accounts but those that create or delete a
-- user.
use config_server.Prelude.{
  ◌≡◌, refl, sym, ◌∙◌, ℕ, true, false, Option, none, some, List, [], Bytes, arith, Option-cases,
  Bool-cases, inl, inr,
}
use config_server.Strings.{trim_space}
use config_server.Model.{User, RolePermission}
use config_server.Auth.Handlers.{Verifier}
use config_server.Account.{
  Accounts, Calls, Reply, done, secret, get_user, admin_name, Generator, ChangeBody, save,
  save_password, found_user, change_password, auth_change_password, otp_setup, otp_enable,
  otp_disable,
}
use config_server.Account.Reset.{
  SmtpConfig, ResetBody, consume_reset, forgot_password, apply_reset, reset_password, set_my_email,
  set_user_email,
}
use config_server.Account.Users.{
  get_role, create_role_row, RoleBody, check_role, reset_user_password, assign_user_role, add_role,
  remove_role, set_permissions,
}
use config_server.Account.Rows.{rank, rank-clear_role, rank-update_user}

-- The user of each name is an admin after a step if and only if before.
abbrev IsSame : Accounts → Accounts → Type 0
IsSame a b = (j : Bytes) → rank j b.users ≡ rank j a.users

-- The user named admin stays what it is, and no one becomes an admin.
pub record PromotesNone (a b : Accounts) : Type 0 where
  pub admin : rank admin_name b.users ≡ rank admin_name a.users
  pub others : (j : Bytes) → rank j b.users ≡ some true → rank j a.users ≡ some true

pub PromotesNone-same : (a b : Accounts) → IsSame a b → PromotesNone a b
PromotesNone-same a b h = record { admin = h admin_name; others = λ j e. sym (h j) ∙ e }

module _ (v : Verifier) (gen : Generator) (calls : Calls) where
  save-IsSame :
      (reply : Reply) (name : Bytes) (u w : User) (a : Accounts)
      → get_user name a.users ≡ some u
      → w.username ≡ u.username
      → w.is_admin ≡ u.is_admin
      → IsSame a (save v gen calls reply w a).1
  save-IsSame reply name u w a e n r j = elim (Bool-cases calls.update_user) [
    | inl k ↦ rw k (rank-update_user j name u w a.users e n r)
    | inr k ↦ rw k refl
  ]

  save_password-IsSame :
      (password name : Bytes) (u : User) (a : Accounts)
      → get_user name a.users ≡ some u
      → IsSame a (save_password v gen calls password u a).1
  save_password-IsSame password name u a e j = elim (Option-cases (gen.hash_password password)) [
    | inl k ↦ rw (k, save_password) refl
    | inr (hash, k) ↦
        rw (k, save_password)
          (save-IsSame done name u (record u { password_hash = hash }) a e refl refl j)
  ]

  found_user_row :
      (name : Bytes) (a : Accounts) (u : User)
      → found_user v gen calls name a ≡ some u
      → get_user name a.users ≡ some u
  found_user_row name a u e = ground arith

  change_password-IsSame :
      (caller : Bytes) (b : ChangeBody) (a : Accounts)
      → IsSame a (change_password v gen calls caller b a).1
  unfolding change_password
  change_password-IsSame caller b a j = elim (Option-cases (get_user caller a.users)) [
    | inl e ↦ ground arith
    | inr (u, e) ↦ ground (arith, save_password-IsSame b.new_password caller u a e j)
  ]

  pub auth_change_password-IsSame :
      (caller : Bytes) (b : Option ChangeBody) (a : Accounts)
      → IsSame a (auth_change_password v gen calls caller b a).1
  unfolding auth_change_password
  auth_change_password-IsSame caller none a j = refl
  auth_change_password-IsSame caller (some b) a j =
      ground (arith, change_password-IsSame caller b a j)

  pub otp_setup-IsSame :
      (caller : Bytes) (a : Accounts) → IsSame a (otp_setup v gen calls caller a).1
  unfolding otp_setup
  otp_setup-IsSame caller a j = elim (Option-cases (found_user v gen calls caller a)) [
    | inl e ↦ rw (e, otp_setup) refl
    | inr (u, e) ↦ elim (Option-cases (gen.otp_secret caller)) [
      | inl n ↦ ground arith
      | inr (key, n) ↦ ground (
        arith,
        save-IsSame (secret key) caller u (record u { totp_secret = key; totp_enabled = false }) a
            (found_user_row caller a u e) refl refl j,
      )
    ]
  ]

  pub otp_enable-IsSame :
      (caller : Bytes) (body : Option Bytes) (a : Accounts)
      → IsSame a (otp_enable v gen calls caller body a).1
  unfolding otp_enable
  otp_enable-IsSame caller none a j = refl
  otp_enable-IsSame caller (some code) a j = elim (Option-cases (found_user v gen calls caller a)) [
    | inl e ↦ ground arith
    | inr (u, e) ↦ ground (
      arith,
      save-IsSame done caller u (record u { totp_enabled = true }) a (found_user_row caller a u e)
          refl refl j,
    )
  ]

  pub otp_disable-IsSame :
      (caller : Bytes) (body : Option Bytes) (a : Accounts)
      → IsSame a (otp_disable v gen calls caller body a).1
  unfolding otp_disable
  otp_disable-IsSame caller none a j = refl
  otp_disable-IsSame caller (some password) a j =
      elim (Option-cases (found_user v gen calls caller a)) [
        | inl e ↦ ground arith
        | inr (u, e) ↦ ground (
          arith,
          save-IsSame done caller u (record u { totp_secret = []; totp_enabled = false }) a
              (found_user_row caller a u e) refl refl j,
        )
      ]

  pub forgot_password-IsSame :
      (smtp : SmtpConfig) (now : ℕ) (token : Bytes) (body : Option Bytes) (a : Accounts)
      → IsSame a (forgot_password v gen calls smtp now token body a).1
  unfolding forgot_password
  forgot_password-IsSame smtp now token none a j = refl
  forgot_password-IsSame smtp now token (some body) a j =
      elim (Option-cases (found_user v gen calls (trim_space body) a)) [
        | inl e ↦ ground arith
        | inr (u, e) ↦ ground arith
      ]

  apply_reset-IsSame :
      (password : Bytes) (name : Option Bytes) (a : Accounts)
      → IsSame a (apply_reset v gen calls password name a).1
  unfolding apply_reset
  apply_reset-IsSame password none a j = refl
  apply_reset-IsSame password (some name) a j =
      elim (Option-cases (found_user v gen calls name a)) [
        | inl e ↦ rw (e, apply_reset) refl
        | inr (u, e) ↦
            rw (e, apply_reset)
              (save_password-IsSame password name u a (found_user_row name a u e) j)
      ]

  pub reset_password-IsSame :
      (now : ℕ) (body : Option ResetBody) (a : Accounts)
      → IsSame a (reset_password v gen calls now body a).1
  unfolding reset_password
  reset_password-IsSame now none a j = refl
  reset_password-IsSame now (some b) a j =
      let consumed = consume_reset now b.token a.resets in
      ground
        (arith, apply_reset-IsSame b.new_password consumed.0 (record a { resets = consumed.1 }) j)

  pub set_my_email-IsSame :
      (caller : Bytes) (body : Option Bytes) (a : Accounts)
      → IsSame a (set_my_email v gen calls caller body a).1
  unfolding set_my_email
  set_my_email-IsSame caller none a j = refl
  set_my_email-IsSame caller (some email) a j =
      elim (Option-cases (found_user v gen calls caller a)) [
        | inl e ↦ rw (e, set_my_email) refl
        | inr (u, e) ↦
            rw (e, set_my_email)
              (save-IsSame done caller u (record u { email = trim_space email }) a
                (found_user_row caller a u e) refl refl j)
      ]

  pub set_user_email-IsSame :
      (name : Bytes) (body : Option Bytes) (a : Accounts)
      → IsSame a (set_user_email v gen calls name body a).1
  unfolding set_user_email
  set_user_email-IsSame name none a j = refl
  set_user_email-IsSame name (some email) a j = elim (Option-cases (get_user name a.users)) [
    | inl e ↦ ground arith
    | inr (u, e) ↦
        ground
          (arith, save-IsSame done name u (record u { email = trim_space email }) a e refl refl j)
  ]

  pub reset_user_password-IsSame :
      (caller name : Bytes) (body : Option Bytes) (a : Accounts)
      → IsSame a (reset_user_password v gen calls caller name body a).1
  unfolding reset_user_password
  reset_user_password-IsSame caller name none a j = ground arith
  reset_user_password-IsSame caller name (some password) a j =
      elim (Option-cases (get_user name a.users)) [
        | inl e ↦ ground arith
        | inr (u, e) ↦ ground (arith, save_password-IsSame password name u a e j)
      ]

  pub assign_user_role-IsSame :
      (name : Bytes) (body : Option Bytes) (a : Accounts)
      → IsSame a (assign_user_role v gen calls name body a).1
  unfolding assign_user_role
  assign_user_role-IsSame name none a j = ground arith
  assign_user_role-IsSame name (some role) a j = elim (Option-cases (get_user name a.users)) [
    | inl e ↦ ground arith
    | inr (u, e) ↦ elim (Option-cases (check_role v gen calls role a)) [
      | inl n ↦
          ground (arith, save-IsSame done name u (record u { role_name = role }) a e refl refl j)
      | inr (reply, n) ↦ ground arith
    ]
  ]

  pub add_role-IsSame :
      (body : Option RoleBody) (a : Accounts) → IsSame a (add_role v gen calls body a).1
  unfolding add_role
  add_role-IsSame none a j = refl
  add_role-IsSame (some b) a j = elim (Option-cases (get_role b.name a.roles)) [
    | inl e ↦
        elim (Option-cases
          (create_role_row (record { name = b.name; description = b.description }) a.roles)) [
            | inl n ↦ ground arith
            | inr (roles, n) ↦ ground arith
          ]
    | inr (r, e) ↦ ground arith
  ]

  pub remove_role-IsSame :
      (name : Bytes) (a : Accounts) → IsSame a (remove_role v gen calls name a).1
  unfolding remove_role
  remove_role-IsSame name a j = ground (arith, rank-clear_role j name a.users)

  pub set_permissions-IsSame :
      (name : Bytes) (body : Option (List RolePermission)) (a : Accounts)
      → IsSame a (set_permissions v gen calls name body a).1
  unfolding set_permissions
  set_permissions-IsSame name none a j = refl
  set_permissions-IsSame name (some perms) a j = ground arith
