-- ===== src/Account/Reset.antt =====
-- internal/server/admin/email.go, the store of reset tokens in memory, and the handlers of reset.go.
use config_server.Prelude.{
  ℕ, ◌+◌, ◌*◌, not, ◌&&◌, ◌||◌, Option, none, some, [], ◌∷◌, ◌++◌, Bytes, codes, is_empty, ◌==◌,
  if◌then◌else◌,
}
use config_server.Prelude.Dict.{Dict, lookup, insert, erase}
use config_server.Strings.{trim_space}
use config_server.Model.{User}
use config_server.Auth.{Entry, live_user}
use config_server.Auth.Handlers.{Verifier}
use config_server.Account.{
  Mail, Accounts, Calls, Reply, refused, done, message, crashed, get_user, Generator,
  accepts_password, save, save_password, found_user,
}

abbrev pub reset_token_ttl : ℕ
reset_token_ttl = 30 * 60 * 1000000000

unfoldable pub issue_reset : ℕ → Bytes → Bytes → Dict Entry → Dict Entry
issue_reset now token username tokens =
    insert token (record { username = username; expires_at = now + reset_token_ttl }) tokens

-- The token is deleted whether it has expired or not.
unfoldable pub consume_reset : ℕ → Bytes → Dict Entry → Option Bytes × Dict Entry
consume_reset now token tokens = elim (lookup token tokens) [
  | none ↦ (none, tokens)
  | some e ↦ (live_user now (some e), erase token tokens)
]

-- The mail server, and the address of the web pages.
pub record SmtpConfig : Type 0 where
  pub host : Bytes
  pub public_url : Bytes

-- strings.TrimRight(url, "/").
unfoldable pub trim_slashes : Bytes → Bytes
trim_slashes [] = []
trim_slashes (a ∷ s) =
    let rest = trim_slashes s in if is_empty rest && (a == b'/') then [] else a ∷ rest

abbrev crlf : Bytes
crlf = codes "\r\n"

pub build_reset_email_body : Bytes → Bytes → Bytes → Bytes
build_reset_email_body username token public_url =
    let start =
      codes "Hello "
      ++ username
      ++ codes ","
      ++ crlf
      ++ crlf
      ++ codes "We received a request to reset your ConfigServer password."
      ++ crlf
      ++ crlf in
    let middle =
      if is_empty public_url
      then codes "Use the following reset token in the password-reset form (valid for 30 minutes):"
        ++ crlf
      else codes "Click the link below to set a new password (valid for 30 minutes):"
        ++ crlf
        ++ trim_slashes public_url
        ++ codes "/reset-password?token="
        ++ token
        ++ crlf
        ++ crlf
        ++ codes "Or copy-paste the reset token into the password-reset form:"
        ++ crlf in
    start
    ++ middle
    ++ token
    ++ crlf
    ++ crlf
    ++ codes "If you did not request this, please ignore this email."
    ++ crlf

-- The text that answers a name of a user and a name of none.
abbrev generic : Bytes
generic =
    codes "If that account exists and has an email address on file, a reset link has been sent."

pub record ResetBody : Type 0 where
  pub token : Bytes
  pub new_password : Bytes
  pub confirm_password : Bytes

module _ (v : Verifier) (gen : Generator) (calls : Calls) where
  -- ForgotPassword for a user with an address and with a mail server.
  abbrev send_reset : SmtpConfig → ℕ → Bytes → Bytes → User → Accounts → Accounts
  send_reset smtp now token name user a =
      let mail : Mail = record {
        address = user.email;
        text = build_reset_email_body name token smtp.public_url;
      } in
      record a {
        resets = issue_reset now token name a.resets;
        outbox = if calls.send_mail then mail ∷ a.outbox else a.outbox;
      }

  -- The body is the username.
  unfoldable pub forgot_password :
      SmtpConfig → ℕ → Bytes → Option Bytes → Accounts → Reply × Accounts
  forgot_password smtp now token none a = (refused 400, a)
  forgot_password smtp now token (some body) a =
      let name = trim_space body in
      if is_empty name then (refused 400, a) else elim (found_user v gen calls name a) [
        | none ↦ (message generic, a)
        | some user ↦
            if is_empty user.email || is_empty smtp.host
            then (message generic, a)
            else (message generic, send_reset smtp now token name user a)
      ]

  -- ResetPassword once the token is consumed.
  unfoldable pub apply_reset : Bytes → Option Bytes → Accounts → Reply × Accounts
  apply_reset password none a = (refused 401, a)
  apply_reset password (some username) a = elim (found_user v gen calls username a) [
    | none ↦ (refused 500, a)
    | some user ↦ save_password v gen calls password user a
  ]

  unfoldable pub reset_password : ℕ → Option ResetBody → Accounts → Reply × Accounts
  reset_password now none a = (refused 400, a)
  reset_password now (some b) a =
      if is_empty b.token || not (accepts_password b.new_password b.confirm_password)
      then (refused 400, a)
      else let consumed = consume_reset now b.token a.resets in
        apply_reset b.new_password consumed.0 (record a { resets = consumed.1 })

  -- The body is the address.
  unfoldable pub set_my_email : Bytes → Option Bytes → Accounts → Reply × Accounts
  set_my_email caller none a = (refused 400, a)
  set_my_email caller (some email) a = elim (found_user v gen calls caller a) [
    | none ↦ (refused 500, a)
    | some user ↦ save v gen calls done (record user { email = trim_space email }) a
  ]

  -- GetUser answers a name that is not there without an error and without a user, which the handler
  -- does not test.
  unfoldable pub set_user_email : Bytes → Option Bytes → Accounts → Reply × Accounts
  set_user_email username none a = (refused 400, a)
  set_user_email username (some email) a =
      if not calls.get_user then (refused 500, a) else elim (get_user username a.users) [
        | none ↦ (crashed, a)
        | some user ↦ save v gen calls done (record user { email = trim_space email }) a
      ]
