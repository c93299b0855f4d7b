-- ===== src/Account/Requests.antt =====
-- Sequences of requests to the handlers of the accounts, and who is an admin after them.
use config_server.Prelude.{
  ◌≡◌, refl, sym, subst, ◌∙◌, ℕ, true, false, Option, none, some, List, [], ◌∷◌, Bytes, bytes_eq,
  if◌then◌else◌, arith, Option-cases, Bool-cases, inl, inr,
}
use config_server.Model.{User, RolePermission}
use config_server.Auth.Handlers.{Verifier}
use config_server.Account.{
  Accounts, Calls, Reply, get_user, create_user, admin_exists, admin_name, Generator, PasswordBody,
  ChangeBody, auth_init, auth_change_password, otp_setup, otp_enable, otp_disable,
}
use config_server.Account.Reset.{
  SmtpConfig, ResetBody, forgot_password, reset_password, set_my_email, set_user_email,
}
use config_server.Account.Users.{
  UserBody, RoleBody, check_role, insert_user, add_user, remove_user, reset_user_password,
  assign_user_role, add_role, remove_role, set_permissions,
}
use config_server.Account.Rows.{rank, get_user-append, get_user-delete_user, admin_exists-rank}
use config_server.Account.Ranks.{
  PromotesNone, PromotesNone-same, auth_change_password-IsSame, otp_setup-IsSame, otp_enable-IsSame,
  otp_disable-IsSame, forgot_password-IsSame, reset_password-IsSame, set_my_email-IsSame,
  set_user_email-IsSame, reset_user_password-IsSame, assign_user_role-IsSame, add_role-IsSame,
  remove_role-IsSame, set_permissions-IsSame,
}

-- The requests that write to the tables, with what the handler reads from the path, the session and
-- the body.
pub data Request : Type 0 where
  init_request : Option PasswordBody → Request
  change_request : Bytes → Option ChangeBody → Request
  otp_setup_request : Bytes → Request
  otp_enable_request : Bytes → Option Bytes → Request
  otp_disable_request : Bytes → Option Bytes → Request
  forgot_request : SmtpConfig → ℕ → Bytes → Option Bytes → Request
  reset_request : ℕ → Option ResetBody → Request
  my_email_request : Bytes → Option Bytes → Request
  user_email_request : Bytes → Option Bytes → Request
  create_user_request : Option UserBody → Request
  delete_user_request : Bytes → Request
  user_password_request : Bytes → Bytes → Option Bytes → Request
  user_role_request : Bytes → Option Bytes → Request
  create_role_request : Option RoleBody → Request
  delete_role_request : Bytes → Request
  permissions_request : Bytes → Option (List RolePermission) → Request

-- A request, with the calls of the manager that succeed in it and its random bytes.
pub record Step : Type 0 where
  pub request : Request
  pub calls : Calls
  pub generator : Generator

create_user_rank :
    (j : Bytes) (u : User) (us ws : List User)
    → create_user u us ≡ some ws
    → rank j ws ≡ (if bytes_eq u.username j then some u.is_admin else rank j us)
unfolding create_user
create_user_rank j u us ws e = elim (Option-cases (get_user u.username us)) [
  | inl n ↦ ground (arith, get_user-append j u us n)
  | inr (w, n) ↦ ground arith
]

module _ (v : Verifier) (gen : Generator) (calls : Calls) where
  unfoldable pub handle : Request → Accounts → Reply × Accounts
  handle (init_request body) = auth_init v gen calls body
  handle (change_request caller body) = auth_change_password v gen calls caller body
  handle (otp_setup_request caller) = otp_setup v gen calls caller
  handle (otp_enable_request caller body) = otp_enable v gen calls caller body
  handle (otp_disable_request caller body) = otp_disable v gen calls caller body
  handle (forgot_request smtp now token body) = forgot_password v gen calls smtp now token body
  handle (reset_request now body) = reset_password v gen calls now body
  handle (my_email_request caller body) = set_my_email v gen calls caller body
  handle (user_email_request name body) = set_user_email v gen calls name body
  handle (create_user_request body) = add_user v gen calls body
  handle (delete_user_request name) = remove_user v gen calls name
  handle (user_password_request caller name body) = reset_user_password v gen calls caller name body
  handle (user_role_request name body) = assign_user_role v gen calls name body
  handle (create_role_request body) = add_role v gen calls body
  handle (delete_role_request name) = remove_role v gen calls name
  handle (permissions_request name body) = set_permissions v gen calls name body

  insert_user-PromotesNone :
      (b : UserBody) (a : Accounts)
      → bytes_eq b.username admin_name ≡ false
      → PromotesNone a (insert_user v gen calls b a).1
  unfolding insert_user
  insert_user-PromotesNone b a n = elim (Option-cases (gen.hash_password b.password)) [
    | inl e ↦ rw (e, insert_user) (record { admin = refl; others = λ j h. h })
    | inr (hash, e) ↦
        let user : User = record {
          username = b.username;
          password_hash = hash;
          is_admin = false;
          role_name = b.role_name;
          email = [];
          totp_secret = [];
          totp_enabled = false;
        } in
        elim (Option-cases (create_user user a.users)) [
          | inl k ↦ record { admin = ground arith; others = λ j h. ground arith }
          | inr (ws, k) ↦ record {
            admin = ground (arith, create_user_rank admin_name user a.users ws k);
            others = λ j h. ground (arith, create_user_rank j user a.users ws k);
          }
        ]
  ]

  add_user-PromotesNone :
      (body : Option UserBody) (a : Accounts) → PromotesNone a (add_user v gen calls body a).1
  unfolding add_user
  add_user-PromotesNone none a = record { admin = refl; others = λ j h. h }
  add_user-PromotesNone (some b) a = elim (Option-cases (get_user b.username a.users)) [
    | inr (u, e) ↦ record { admin = ground arith; others = λ j h. ground arith }
    | inl e ↦ elim (Option-cases (check_role v gen calls b.role_name a)) [
      | inr (reply, n) ↦ record { admin = ground arith; others = λ j h. ground arith }
      | inl n ↦ elim (Bool-cases (bytes_eq b.username admin_name)) [
        | inl k ↦ record { admin = ground arith; others = λ j h. ground arith }
        | inr k ↦
            let inserted = insert_user-PromotesNone b a k in
            record {
              admin = ground (arith, inserted.admin);
              others = λ j h. ground (arith, inserted.others j);
            }
      ]
    ]
  ]

  remove_user-PromotesNone :
      (name : Bytes) (a : Accounts) → PromotesNone a (remove_user v gen calls name a).1
  unfolding remove_user
  remove_user-PromotesNone name a = record {
    admin = ground (arith, get_user-delete_user admin_name name a.users);
    others = λ j h. ground (arith, get_user-delete_user j name a.users);
  }

  -- Where there is an admin, AuthInit is refused and writes nothing.
  auth_init_refused :
      (body : Option PasswordBody) (a : Accounts)
      → admin_exists a.users ≡ true
      → (auth_init v gen calls body a).1 ≡ a
  unfolding auth_init
  auth_init_refused body a e = ground arith

  handle-PromotesNone :
      (r : Request) (a : Accounts)
      → rank admin_name a.users ≡ some true
      → PromotesNone a (handle r a).1
  unfolding handle
  handle-PromotesNone (init_request body) a e =
      subst (PromotesNone a)
        (sym (auth_init_refused body a (admin_exists-rank admin_name a.users e)))
        (record { admin = refl; others = λ j h. h })
  handle-PromotesNone (change_request caller body) a e =
      PromotesNone-same a _ (auth_change_password-IsSame v gen calls caller body a)
  handle-PromotesNone (otp_setup_request caller) a e =
      PromotesNone-same a _ (otp_setup-IsSame v gen calls caller a)
  handle-PromotesNone (otp_enable_request caller body) a e =
      PromotesNone-same a _ (otp_enable-IsSame v gen calls caller body a)
  handle-PromotesNone (otp_disable_request caller body) a e =
      PromotesNone-same a _ (otp_disable-IsSame v gen calls caller body a)
  handle-PromotesNone (forgot_request smtp now token body) a e =
      PromotesNone-same a _ (forgot_password-IsSame v gen calls smtp now token body a)
  handle-PromotesNone (reset_request now body) a e =
      PromotesNone-same a _ (reset_password-IsSame v gen calls now body a)
  handle-PromotesNone (my_email_request caller body) a e =
      PromotesNone-same a _ (set_my_email-IsSame v gen calls caller body a)
  handle-PromotesNone (user_email_request name body) a e =
      PromotesNone-same a _ (set_user_email-IsSame v gen calls name body a)
  handle-PromotesNone (create_user_request body) a e = add_user-PromotesNone body a
  handle-PromotesNone (delete_user_request name) a e = remove_user-PromotesNone name a
  handle-PromotesNone (user_password_request caller name body) a e =
      PromotesNone-same a _ (reset_user_password-IsSame v gen calls caller name body a)
  handle-PromotesNone (user_role_request name body) a e =
      PromotesNone-same a _ (assign_user_role-IsSame v gen calls name body a)
  handle-PromotesNone (create_role_request body) a e =
      PromotesNone-same a _ (add_role-IsSame v gen calls body a)
  handle-PromotesNone (delete_role_request name) a e =
      PromotesNone-same a _ (remove_role-IsSame v gen calls name a)
  handle-PromotesNone (permissions_request name body) a e =
      PromotesNone-same a _ (set_permissions-IsSame v gen calls name body a)

module _ (v : Verifier) where
  -- The tables after a sequence of requests.
  unfoldable pub run : List Step → Accounts → Accounts
  run [] a = a
  run (s ∷ ss) a = run ss (handle v s.generator s.calls s.request a).1

  -- Once the admin account is there, no sequence of requests to the handlers makes another user an
  -- admin, or takes the account or its rank away: the users who are admins afterwards were admins
  -- before, and the user named admin still is one. The calls of the manager may fail in any way.
  pub run-PromotesNone :
      (steps : List Step) (a : Accounts)
      → rank admin_name a.users ≡ some true
      → (rank admin_name (run steps a).users ≡ some true) × PromotesNone a (run steps a)
  unfolding run
  run-PromotesNone [] a e = (e, record { admin = refl; others = λ j h. h })
  run-PromotesNone (s ∷ ss) a e =
      let b = (handle v s.generator s.calls s.request a).1 in
      let first = handle-PromotesNone v s.generator s.calls s.request a e in
      let (is_admin, rest) = run-PromotesNone ss b (first.admin ∙ e) in
      (
        is_admin,
        record {
          admin = rest.admin ∙ first.admin;
          others = λ j h. first.others j (rest.others j h);
        },
      )
