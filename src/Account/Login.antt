-- ===== src/Account/Login.antt =====
-- The handlers of the accounts together with those that log a user in.
use config_server.Prelude.{
  ◌≡◌, ◌≢◌, refl, sym, ap, ◌∙◌, ℕ, Bool, true, false, Option, none, some, Bytes, bytes_eq_iff,
  bytes_eq_refl, is_empty, arith, Option-cases, inl, inr,
}
use config_server.Prelude.Dict.{Dict, lookup, lookup-erase}
use config_server.Strings.{trim_space}
use config_server.Model.{User}
use config_server.Auth as Auth
use config_server.Auth.{fetched}
use config_server.Auth.Handlers as Handlers
use config_server.Auth.Handlers.{
  Verifier, LoginBody, TokenStores, auth_login, otp_required, logged_in,
}
use config_server.Account.{
  Accounts, Calls, refused, done, get_user, update_user, Generator, ChangeBody, save, found_user,
  change_password, auth_change_password, otp_enable, otp_disable,
}
use config_server.Account.Reset.{
  SmtpConfig, ResetBody, consume_reset, forgot_password, apply_reset, reset_password,
}
use config_server.Account.Rows.{get_user_username, get_user-update_user}

-- The reads of the login handlers, on the tables.
abbrev pub reads : Accounts → Auth.Accounts
reads a = record {
  get_user = λ name. fetched (get_user name a.users);
  get_role_permissions = λ role. fetched a.permissions;
}

-- What is relied on of bcrypt: a password matches its own hash.
pub record IsGenerator (v : Verifier) (gen : Generator) : Type 0 where
  pub hash_matches : (p h : Bytes) → gen.hash_password p ≡ some h → v.password_matches h p ≡ true

-- The reply to a forgotten password tells nothing about the accounts: it is the same whatever users
-- there are, whether the user has an address, and whether the calls of the manager and the mail
-- server succeed.
pub forgot_password_uniform :
    (v : Verifier) (gen gen' : Generator) (calls calls' : Calls) (smtp smtp' : SmtpConfig)
    (now now' : ℕ) (token token' : Bytes) (body : Option Bytes) (a a' : Accounts)
    → (forgot_password v gen calls smtp now token body a).0
      ≡ (forgot_password v gen' calls' smtp' now' token' body a').0
unfolding forgot_password
forgot_password_uniform v gen gen' calls calls' smtp smtp' now now' token token' none a a' = refl
forgot_password_uniform v gen gen' calls calls' smtp smtp' now now' token token' (some body) a a' =
    elim (Option-cases (found_user v gen calls (trim_space body) a)) [
      | inl e ↦ elim (Option-cases (found_user v gen' calls' (trim_space body) a')) [
        | inl n ↦ ground arith
        | inr (u, n) ↦ ground arith
      ]
      | inr (w, e) ↦ elim (Option-cases (found_user v gen' calls' (trim_space body) a')) [
        | inl n ↦ ground arith
        | inr (u, n) ↦ ground arith
      ]
    ]

module _ (v : Verifier) (gen : Generator) (calls : Calls) where
  -- Without the current password the session alone changes neither the password nor the second
  -- factor: AuthChangePassword and OTPDisable refuse every such body and write nothing.
  wrong_password_writes_none :
      (caller : Bytes) (u : User) (b : ChangeBody) (a : Accounts)
      → get_user caller a.users ≡ some u
      → v.password_matches u.password_hash b.current_password ≡ false
      → ((auth_change_password v gen calls caller (some b) a).1 ≡ a)
        × ((otp_disable v gen calls caller (some b.current_password) a).1 ≡ a)
        × ((auth_change_password v gen calls caller (some b) a).0 ≢ done)
        × ((otp_disable v gen calls caller (some b.current_password) a).0 ≢ done)
  unfolding auth_change_password change_password otp_disable
  wrong_password_writes_none caller u b a e w =
      (ground arith, ground arith, λ h. ground arith, λ h. ground arith)

  save_done :
      (w : User) (a : Accounts)
      → (save v gen calls done w a).0 ≡ done
      → (save v gen calls done w a).1 ≡ record a { users = update_user w a.users }
  save_done w a h = ground arith

  get_user-save :
      (name : Bytes) (u w : User) (a : Accounts)
      → get_user name a.users ≡ some u
      → w.username ≡ u.username
      → (save v gen calls done w a).0 ≡ done
      → get_user name (save v gen calls done w a).1.users ≡ some w
  get_user-save name u w a e n h = ground (
    arith,
    get_user-update_user name w a.users,
    get_user_username name a.users u e,
    bytes_eq_iff w.username name,
  )

  -- The user that a done reset leaves under the name has a hash of the new password.
  get_user-apply_reset :
      (password name : Bytes) (a : Accounts)
      → IsGenerator v gen
      → (apply_reset v gen calls password (some name) a).0 ≡ done
      → (u : User) × (get_user name (apply_reset v gen calls password (some name) a).1.users
          ≡ some u)
        × (v.password_matches u.password_hash password ≡ true)
  unfolding apply_reset
  get_user-apply_reset password name a laws h =
      elim (Option-cases (found_user v gen calls name a)) [
        | inl e ↦ ground arith
        | inr (u, e) ↦ elim (Option-cases (gen.hash_password password)) [
          | inl k ↦ ground arith
          | inr (hash, k) ↦
              let w : User = record u { password_hash = hash } in
              (w, ground (arith, get_user-save name u w a), laws.hash_matches password hash k)
        ]
      ]

  -- A reset that is done lets its user log in with the new password: AuthLogin on the tables that it
  -- leaves does not refuse, and goes on to the second factor or to a session. The token's user has a
  -- name, bcrypt matches a password with its own hash, and the reads of the login succeed.
  pub reset_password-auth_login :
      (now later : ℕ) (name fresh : Bytes) (b : ResetBody) (a : Accounts) (t : TokenStores)
      (code : ℕ)
      → IsGenerator v gen
      → is_empty name ≡ false
      → (consume_reset now b.token a.resets).0 ≡ some name
      → (reset_password v gen calls now (some b) a).0 ≡ done
      → (auth_login v
          (reads (reset_password v gen calls now (some b) a).1)
          later
          fresh
          (some (record { username = name; password = b.new_password }))
          t).0
        ≢ Handlers.refused code
  unfolding reset_password auth_login
  reset_password-auth_login now later name fresh b a t code laws n c h r =
      let consumed = consume_reset now b.token a.resets in
      let left : Accounts = record a { resets = consumed.1 } in
      let same : (reset_password v gen calls now (some b) a)
          ≡ apply_reset v gen calls b.new_password (some name) left =
        ground arith in
      let (u, e, m) =
        get_user-apply_reset b.new_password name left laws (ap (λ x. x.0) (sym same) ∙ h) in
      ground (arith, e, m)

  apply_reset-resets :
      (password : Bytes) (name : Option Bytes) (a : Accounts)
      → (apply_reset v gen calls password name a).1.resets ≡ a.resets
  unfolding apply_reset
  apply_reset-resets password none a = refl
  apply_reset-resets password (some name) a = elim (Option-cases (found_user v gen calls name a)) [
    | inl e ↦ rw (e, apply_reset) refl
    | inr (u, e) ↦ elim (Option-cases (gen.hash_password password)) [
      | inl k ↦ ground arith
      | inr (hash, k) ↦ ground arith
    ]
  ]

  consume_reset_twice :
      (now later : ℕ) (token : Bytes) (tokens : Dict Auth.Entry)
      → (consume_reset later token (consume_reset now token tokens).1).0 ≡ none
  unfolding consume_reset
  consume_reset_twice now later token tokens = elim (Option-cases (lookup token tokens)) [
    | inl e ↦ ground (arith, e)
    | inr (x, e) ↦ ground (arith, lookup-erase token token tokens, bytes_eq_refl token)
  ]

  -- A reset token is used up by the first request that passes the checks on its body, whatever comes
  -- of that request: a later one with the same token is refused.
  pub reset_password_once :
      (now later : ℕ) (b b' : ResetBody) (a : Accounts)
      → b'.token ≡ b.token
      → (reset_password v gen calls now (some b) a).0 ≢ refused 400
      → (reset_password v gen calls later (some b') (reset_password v gen calls now (some b) a).1).0
        ≢ done
  unfolding reset_password apply_reset
  reset_password_once now later b b' a e h k =
      let consumed = consume_reset now b.token a.resets in
      let left : Accounts = record a { resets = consumed.1 } in
      let first = apply_reset v gen calls b.new_password consumed.0 left in
      let same : (reset_password v gen calls now (some b) a) ≡ first = ground arith in
      let gone : (consume_reset later b'.token first.1.resets).0 ≡ none =
        rw (e, apply_reset-resets b.new_password consumed.0 left)
          (consume_reset_twice now later b.token a.resets) in
      ground (arith, same, gone, k)

  -- Once OTPEnable is done, a password alone opens no session for the user: AuthLogin on the tables
  -- that it leaves refuses, or asks for the second factor, and leaves the sessions as they are.
  pub otp_enable-auth_login :
      (now : ℕ) (caller fresh password token : Bytes) (is_admin : Bool) (code : Option Bytes)
      (a : Accounts) (t : TokenStores)
      → is_empty caller ≡ false
      → (otp_enable v gen calls caller code a).0 ≡ done
      → let r =
          auth_login v
            (reads (otp_enable v gen calls caller code a).1)
            now
            fresh
            (some (record { username = caller; password = password }))
            t in
        (r.0 ≢ logged_in token caller is_admin) × (r.1.sessions ≡ t.sessions)
  unfolding otp_enable auth_login
  otp_enable-auth_login now caller fresh password token is_admin none a t n h = ground arith
  otp_enable-auth_login now caller fresh password token is_admin (some code) a t n h =
      elim (Option-cases (found_user v gen calls caller a)) [
        | inl e ↦ ground arith
        | inr (u, e) ↦
            let w : User = record u { totp_enabled = true } in
            let kept = get_user-save caller u w a in
            (λ k. ground (arith, kept), ground (arith, kept))
      ]
