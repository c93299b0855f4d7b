-- ===== src/Auth/Handlers.antt =====
-- The handlers of internal/server/admin/auth.go and otp.go that log a user in and out. A handler
-- gives its reply and the token stores that it leaves; a body that JSON decoding refuses is none.
-- The texts of messages are not modelled, their codes are.
use config_server.Prelude.{
  ℕ, Bool, not, ◌||◌, Option, none, some, Bytes, codes, is_empty, if◌then◌else◌,
}
use config_server.Prelude.Dict.{Dict, erase}
use config_server.Model.{User}
use config_server.Auth.{
  Entry, create_session, issue_pending, consume_pending, failed, fetched, Accounts,
}

-- The two token stores.
pub record TokenStores : Type 0 where
  pub sessions : Dict Entry
  pub pending : Dict Entry

pub data Reply : Type 0 where
  refused : ℕ → Reply
  done : Reply
  otp_required : Bytes → Reply
  logged_in : Bytes → Bytes → Bool → Reply

-- The comparisons of bcrypt and of the TOTP library.
pub record Verifier : Type 0 where
  pub password_matches : Bytes → Bytes → Bool
  pub otp_valid : Bytes → Bytes → Bool

pub record LoginBody : Type 0 where
  pub username : Bytes
  pub password : Bytes

pub record OtpBody : Type 0 where
  pub pending_token : Bytes
  pub otp_code : Bytes

abbrev pub login_name : LoginBody → Bytes
login_name body = if is_empty body.username then codes "admin" else body.username

-- The handlers' writes of a session, with the two cookies that carry its token.
abbrev start_session : ℕ → Bytes → Bytes → User → TokenStores → Reply × TokenStores
start_session now token username user t = (
  logged_in token username user.is_admin,
  record t { sessions = create_session now token username t.sessions },
)

module _ (v : Verifier) (acc : Accounts) where
  unfoldable pub auth_login : ℕ → Bytes → Option LoginBody → TokenStores → Reply × TokenStores
  auth_login now token none t = (refused 400, t)
  auth_login now token (some body) t = elim (acc.get_user (login_name body)) [
    | failed ↦ (refused 500, t)
    | fetched none ↦ (refused 401, t)
    | fetched (some user) ↦
        if not (v.password_matches user.password_hash body.password)
        then (refused 401, t)
        else if user.totp_enabled
        then (
          otp_required token,
          record t { pending = issue_pending now token (login_name body) t.pending },
        )
        else start_session now token (login_name body) user t
  ]

  unfoldable pub finish_otp_login :
      ℕ → Bytes → Bytes → Option Bytes → TokenStores → Reply × TokenStores
  finish_otp_login now token code none t = (refused 401, t)
  finish_otp_login now token code (some username) t = elim (acc.get_user username) [
    | failed ↦ (refused 401, t)
    | fetched none ↦ (refused 401, t)
    | fetched (some user) ↦
        if not (v.otp_valid code user.totp_secret)
        then (refused 401, t)
        else start_session now token username user t
  ]

  unfoldable pub otp_login_step : ℕ → Bytes → Option OtpBody → TokenStores → Reply × TokenStores
  otp_login_step now token none t = (refused 400, t)
  otp_login_step now token (some body) t =
      if is_empty body.pending_token || is_empty body.otp_code
      then (refused 400, t)
      else let consumed = consume_pending now body.pending_token t.pending in
        finish_otp_login now token body.otp_code consumed.0 (record t { pending = consumed.1 })

  -- The cookie of the request, if it has one.
  unfoldable pub auth_logout : Option Bytes → TokenStores → Reply × TokenStores
  auth_logout none t = (done, t)
  auth_logout (some token) t = (done, record t { sessions = erase token t.sessions })
