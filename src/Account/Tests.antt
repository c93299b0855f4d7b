-- ===== src/Account/Tests.antt =====
-- The theorems on the accounts, for an admin and one user, with passwords that are their own hashes
-- and a code that is the secret.
use config_server.Prelude.{
  ◌≡◌, ◌≢◌, refl, Bool, true, false, none, some, List, [], ◌∷◌, codes, bytes_eq, bytes_eq_refl,
  arith,
}
use config_server.Prelude.Dict.{lookup}
use config_server.Model.{User}
use config_server.Auth.Handlers as Handlers
use config_server.Auth.Handlers.{Verifier, TokenStores, auth_login, logged_in}
use config_server.Account.{
  Accounts, Calls, Reply, refused, done, Generator, ChangeBody, admin_name, auth_change_password,
  otp_enable, otp_disable,
}
use config_server.Account.Reset.{
  SmtpConfig, ResetBody, reset_token_ttl, forgot_password, reset_password,
}
use config_server.Account.Rows.{rank}
use config_server.Account.Ranks.{PromotesNone}
use config_server.Account.Requests.{
  Step, Request, init_request, reset_request, create_user_request, delete_user_request,
  delete_role_request, run, run-PromotesNone,
}
use config_server.Account.Login.{
  reads, IsGenerator, forgot_password_uniform, reset_password-auth_login, reset_password_once,
  otp_enable-auth_login,
}

abbrev same_text : Verifier
same_text = record { password_matches = bytes_eq; otp_valid = bytes_eq }

abbrev plain : Generator
plain = record { hash_password = λ p. some p; otp_secret = λ _. some (codes "key") }

abbrev failing : Generator
failing = record { hash_password = λ p. none; otp_secret = λ _. none }

plain_laws : IsGenerator same_text plain
plain_laws = record { hash_matches = λ p h e. ground (arith, bytes_eq_refl p) }

abbrev calls_with : Bool → Calls
calls_with b = record {
  admin_exists = b;
  get_user = b;
  create_user = b;
  update_user = b;
  delete_user = b;
  get_role = b;
  create_role = b;
  delete_role = b;
  set_role_permissions = b;
  send_mail = b;
}

abbrev admin : User
admin = record {
  username = admin_name;
  password_hash = codes "admin-pw";
  is_admin = true;
  role_name = [];
  email = [];
  totp_secret = [];
  totp_enabled = false;
}

abbrev bob : User
bob = record {
  username = codes "bob";
  password_hash = codes "password";
  is_admin = false;
  role_name = codes "ops";
  email = codes "bob@x";
  totp_secret = codes "key";
  totp_enabled = false;
}

abbrev accounts : Accounts
accounts = record {
  users = admin ∷ bob ∷ [];
  roles = [];
  permissions = [];
  resets = (codes "t", record { username = codes "bob"; expires_at = 100 }) ∷ [];
  outbox = [];
}

abbrev no_accounts : Accounts
no_accounts = record { users = []; roles = []; permissions = []; resets = []; outbox = [] }

abbrev no_tokens : TokenStores
no_tokens = record { sessions = []; pending = [] }

abbrev smtp : SmtpConfig
smtp = record { host = codes "mail"; public_url = [] }

abbrev reset_body : ResetBody
reset_body = record {
  token = codes "t";
  new_password = codes "new-secret";
  confirm_password = codes "new-secret";
}

abbrev step : Request → Step
step r = record { request = r; calls = calls_with true; generator = plain }

abbrev steps : List Step
steps =
    step (
      init_request
        (some (record { password = codes "password"; confirm_password = codes "password" })))
    ∷ step (
        create_user_request
          (some (record { username = codes "eve"; password = codes "password"; role_name = [] })))
    ∷ step (delete_user_request admin_name)
    ∷ step (reset_request 50 (some reset_body))
    ∷ step (delete_role_request (codes "ops"))
    ∷ []

run-PromotesNone_example :
    (rank admin_name (run same_text steps accounts).users ≡ some true)
    × PromotesNone accounts (run same_text steps accounts)
unfolding config_server.Account.get_user bytes_eq
run-PromotesNone_example = run-PromotesNone same_text steps accounts refl

-- A user with an address, against a server without users whose calls fail.
forgot_password_uniform_example :
    (forgot_password same_text plain
      (calls_with true)
      smtp
      0
      (codes "u")
      (some (codes "bob"))
      accounts).0
    ≡ (forgot_password same_text failing
        (calls_with false)
        smtp
        9
        []
        (some (codes "bob"))
        no_accounts).0
forgot_password_uniform_example =
    forgot_password_uniform same_text plain failing (calls_with true) (calls_with false) smtp smtp 0
      9 (codes "u") [] (some (codes "bob")) accounts no_accounts

reset_password-auth_login_example :
    (auth_login same_text
      (reads (reset_password same_text plain (calls_with true) 50 (some reset_body) accounts).1)
      60
      (codes "s")
      (some (record { username = codes "bob"; password = codes "new-secret" }))
      no_tokens).0
    ≢ Handlers.refused 401
unfolding config_server.Account.Reset.consume_reset lookup bytes_eq reset_password
    config_server.Account.accepts_password config_server.Account.Reset.apply_reset
    config_server.Account.get_user
reset_password-auth_login_example =
    reset_password-auth_login same_text plain (calls_with true) 50 60 (codes "bob") (codes "s")
      reset_body accounts no_tokens 401 plain_laws refl refl refl

reset_done :
    (reset_password same_text plain (calls_with true) 50 (some reset_body) accounts).0 ≡ done
unfolding reset_password config_server.Account.accepts_password bytes_eq
    config_server.Account.Reset.apply_reset config_server.Account.Reset.consume_reset lookup
    config_server.Account.get_user
reset_done = refl

reset_accepted :
    (reset_password same_text plain (calls_with true) 50 (some reset_body) accounts).0 ≢ refused 400
reset_accepted e = ground (arith, reset_done)

reset_password_once_example :
    (reset_password same_text plain
      (calls_with true)
      51
      (some reset_body)
      (reset_password same_text plain (calls_with true) 50 (some reset_body) accounts).1).0
    ≢ done
reset_password_once_example =
    reset_password_once same_text plain (calls_with true) 50 51 reset_body reset_body accounts refl
      reset_accepted

otp_enable-auth_login_example :
    let r =
      auth_login same_text
        (reads
          (otp_enable same_text plain
            (calls_with true)
            (codes "bob")
            (some (codes "key"))
            accounts).1)
        60
        (codes "s")
        (some (record { username = codes "bob"; password = codes "password" }))
        no_tokens in
    (r.0 ≢ logged_in (codes "s") (codes "bob") false) × (r.1.sessions ≡ [])
unfolding otp_enable config_server.Account.get_user bytes_eq
otp_enable-auth_login_example =
    otp_enable-auth_login same_text plain (calls_with true) 60 (codes "bob") (codes "s")
      (codes "password") (codes "s") false (some (codes "key")) accounts no_tokens refl refl
