-- ===== src/Auth/Login.antt =====
-- What stands behind a session: AuthLogin, OTPLoginStep and AuthLogout of
-- internal/server/admin/auth.go and otp.go as steps on the two token stores.
use config_server.Prelude.{
  ℕ, ◌+◌, subst, ◌≡◌, refl, Bool, true, false, not, ◌&&◌, ◌||◌, Option, none, some, List, [], ◌∷◌,
  Bytes, bytes_eq, bytes_eq_refl, is_empty, any, ◌⊎◌, arith, Bool-cases, inl, inr,
}
use config_server.Prelude.Dict.{Dict, lookup, lookup-insert, lookup-erase}
use config_server.Auth.{
  Entry, Fetched-cases, session_ttl, pending_otp_ttl, create_session, issue_pending,
  consume_pending, failed, fetched, Accounts,
}
use config_server.Auth.Tokens.{consume_pending-user, consume_pending_once}
use config_server.Auth.Handlers.{
  TokenStores, Verifier, LoginBody, OtpBody, login_name, auth_login, finish_otp_login,
  otp_login_step, auth_logout,
}

-- A request to one of the three handlers, with the time and the random token it meets.
pub data Event : Type 0 where
  login : ℕ → Bytes → Option LoginBody → Event
  otp : ℕ → Bytes → Option OtpBody → Event
  logout : Option Bytes → Event

-- A session in the store after the creation of one is an old one, or the new user's.
create_session-username :
    (now : ℕ) (fresh name token : Bytes) (s : Dict Entry) (e : Entry)
    → lookup token (create_session now fresh name s) ≡ some e
    → (lookup token s ≡ some e) ⊎ (e.username ≡ name)
unfolding create_session
create_session-username now fresh name token s e h = ground (
  arith,
  lookup-insert fresh token (record { username = name; expires_at = now + session_ttl }) s,
)

issue_pending-username :
    (now : ℕ) (fresh name token : Bytes) (s : Dict Entry) (e : Entry)
    → lookup token (issue_pending now fresh name s) ≡ some e
    → (lookup token s ≡ some e) ⊎ (e.username ≡ name)
unfolding issue_pending
issue_pending-username now fresh name token s e h = ground (
  arith,
  lookup-insert fresh token (record { username = name; expires_at = now + pending_otp_ttl }) s,
)

-- The tests that a request passes for a user: the password's, and the TOTP code's.
module _ (v : Verifier) (acc : Accounts) where
  pub passes_password : Bytes → Event → Bool
  passes_password name (login now token (some body)) =
      bytes_eq (login_name body) name && elim (acc.get_user name) as (λ _. Bool) [
        | failed ↦ false
        | fetched none ↦ false
        | fetched (some user) ↦ v.password_matches user.password_hash body.password
      ]
  passes_password name _ = false

  pub passes_otp : Bytes → Event → Bool
  passes_otp name (otp now token (some body)) = elim (acc.get_user name) as (λ _. Bool) [
    | failed ↦ false
    | fetched none ↦ false
    | fetched (some user) ↦ v.otp_valid body.otp_code user.totp_secret
  ]
  passes_otp name _ = false

  -- The user's row says that the second factor is off.
  pub has_no_otp : Bytes → Bool
  has_no_otp name = elim (acc.get_user name) as (λ _. Bool) [
    | failed ↦ false
    | fetched none ↦ false
    | fetched (some user) ↦ not user.totp_enabled
  ]

  abbrev pub handle : Event → TokenStores → TokenStores
  handle (login now token body) t = (auth_login v acc now token body t).1
  handle (otp now token body) t = (otp_login_step v acc now token body t).1
  handle (logout cookie) t = (auth_logout v acc cookie t).1

  -- The stores after the events, the latest of which is the first of the list.
  unfoldable pub run : List Event → TokenStores
  run [] = record { sessions = []; pending = [] }
  run (e ∷ es) = handle e (run es)

  auth_login-sessions :
      (now : ℕ) (fresh : Bytes) (body : Option LoginBody) (t : TokenStores) (token : Bytes)
      (e : Entry)
      → lookup token (auth_login v acc now fresh body t).1.sessions ≡ some e
      → (lookup token t.sessions ≡ some e)
        ⊎ ((passes_password e.username (login now fresh body) ≡ true)
            × (has_no_otp e.username ≡ true))
  unfolding auth_login passes_password has_no_otp
  auth_login-sessions now fresh none t token e h = inl h
  auth_login-sessions now fresh (some body) t token e h =
      elim (Fetched-cases (acc.get_user (login_name body))) [
        | inl k ↦ inl (ground arith)
        | inr (none, k) ↦ inl (ground arith)
        | inr (some user, k) ↦ ground (
          arith,
          create_session-username now fresh (login_name body) token t.sessions e,
          bytes_eq_refl e.username,
        )
      ]

  finish-sessions :
      (now : ℕ) (fresh : Bytes) (body : OtpBody) (name : Option Bytes) (t : TokenStores)
      (token : Bytes) (e : Entry)
      → lookup token (finish_otp_login v acc now fresh body.otp_code name t).1.sessions ≡ some e
      → (lookup token t.sessions ≡ some e)
        ⊎ ((passes_otp e.username (otp now fresh (some body)) ≡ true) × (name ≡ some e.username))
  unfolding finish_otp_login passes_otp
  finish-sessions now fresh body none t token e h = inl h
  finish-sessions now fresh body (some username) t token e h =
      elim (Fetched-cases (acc.get_user username)) [
        | inl k ↦ inl (ground arith)
        | inr (none, k) ↦ inl (ground arith)
        | inr (some user, k) ↦
            ground (arith, create_session-username now fresh username token t.sessions e)
      ]

  auth_login-pending :
      (now : ℕ) (fresh : Bytes) (body : Option LoginBody) (t : TokenStores) (token : Bytes)
      (e : Entry)
      → lookup token (auth_login v acc now fresh body t).1.pending ≡ some e
      → (lookup token t.pending ≡ some e)
        ⊎ (passes_password e.username (login now fresh body) ≡ true)
  unfolding auth_login passes_password
  auth_login-pending now fresh none t token e h = inl h
  auth_login-pending now fresh (some body) t token e h =
      elim (Fetched-cases (acc.get_user (login_name body))) [
        | inl k ↦ inl (ground arith)
        | inr (none, k) ↦ inl (ground arith)
        | inr (some user, k) ↦ ground (
          arith,
          issue_pending-username now fresh (login_name body) token t.pending e,
          bytes_eq_refl e.username,
        )
      ]

  finish-pending :
      (now : ℕ) (fresh code : Bytes) (name : Option Bytes) (t : TokenStores)
      → (finish_otp_login v acc now fresh code name t).1.pending ≡ t.pending
  unfolding finish_otp_login
  finish-pending now fresh code none t = refl
  finish-pending now fresh code (some username) t = elim (Fetched-cases (acc.get_user username)) [
    | inl k ↦ ground arith
    | inr (none, k) ↦ ground arith
    | inr (some user, k) ↦ ground arith
  ]

  -- A session after the second step of a login is an old one, or its user's pending token was
  -- there and its code passes.
  otp_login_step-sessions :
      (now : ℕ) (fresh : Bytes) (body : Option OtpBody) (t : TokenStores) (token : Bytes)
      (e : Entry)
      → lookup token (otp_login_step v acc now fresh body t).1.sessions ≡ some e
      → (lookup token t.sessions ≡ some e)
        ⊎ ((passes_otp e.username (otp now fresh body) ≡ true)
            × (key : Bytes) × (p : Entry) × (lookup key t.pending ≡ some p)
            × (p.username ≡ e.username))
  unfolding otp_login_step
  otp_login_step-sessions now fresh none t token e h = inl h
  otp_login_step-sessions now fresh (some body) t token e h =
      elim (Bool-cases (is_empty body.pending_token || is_empty body.otp_code)) [
        | inl k ↦ inl (ground arith)
        | inr k ↦
            let consumed = consume_pending now body.pending_token t.pending in
            elim (finish-sessions now fresh body consumed.0 (record t { pending = consumed.1 })
              token e (ground arith)) [
                | inl old ↦ inl old
                | inr (passes, n) ↦
                    let (p, at, name) =
                      consume_pending-user now body.pending_token e.username t.pending n in
                    inr (passes, body.pending_token, p, at, name)
              ]
      ]

  otp_login_step-pending :
      (now : ℕ) (fresh : Bytes) (body : Option OtpBody) (t : TokenStores) (token : Bytes)
      (e : Entry)
      → lookup token (otp_login_step v acc now fresh body t).1.pending ≡ some e
      → lookup token t.pending ≡ some e
  unfolding otp_login_step
  otp_login_step-pending now fresh none t token e h = h
  otp_login_step-pending now fresh (some body) t token e h =
      elim (Bool-cases (is_empty body.pending_token || is_empty body.otp_code)) [
        | inl k ↦ ground arith
        | inr k ↦
            let consumed = consume_pending now body.pending_token t.pending in
            ground (
              arith,
              finish-pending now fresh body.otp_code consumed.0 (record t { pending = consumed.1 }),
              (consume_pending_once now now body.pending_token token t.pending).1,
            )
      ]

  -- Each session's user passed the password's test, and the code's too unless the user's second
  -- factor is off; each pending token's user passed the password's test.
  IsVouched : List Event → TokenStores → Type 0
  IsVouched es t =
      ((token : Bytes)
        → (e : Entry) → lookup token t.sessions ≡ some e
        → (any (passes_password e.username) es
            && (has_no_otp e.username || any (passes_otp e.username) es))
          ≡ true)
      × ((token : Bytes)
          → (e : Entry) → lookup token t.pending ≡ some e
          → any (passes_password e.username) es ≡ true)

  IsVouched-login :
      (now : ℕ) (fresh : Bytes) (body : Option LoginBody) (es : List Event) (t : TokenStores)
      → IsVouched es t
      → IsVouched (login now fresh body ∷ es) (auth_login v acc now fresh body t).1
  unfolding IsVouched
  IsVouched-login now fresh body es t (sessions, pending) = (
    λ token e h. ground (arith, auth_login-sessions now fresh body t token e h, sessions token e),
    λ token e h. ground (arith, auth_login-pending now fresh body t token e h, pending token e),
  )

  IsVouched-otp :
      (now : ℕ) (fresh : Bytes) (body : Option OtpBody) (es : List Event) (t : TokenStores)
      → IsVouched es t
      → IsVouched (otp now fresh body ∷ es) (otp_login_step v acc now fresh body t).1
  unfolding IsVouched
  IsVouched-otp now fresh body es t (sessions, pending) = (
    λ token e h. elim (otp_login_step-sessions now fresh body t token e h) [
      | inl old ↦ ground (arith, sessions token e old)
      | inr (passes, key, p, at, name) ↦
          let known : any (passes_password p.username) es ≡ true = pending key p at in
          let given : any (passes_password e.username) es ≡ true =
            subst (λ n. any (passes_password n) es ≡ true) name known in
          ground arith
    ],
    λ token e h.
        ground (arith, pending token e (otp_login_step-pending now fresh body t token e h)),
  )

  IsVouched-logout :
      (cookie : Option Bytes) (es : List Event) (t : TokenStores)
      → IsVouched es t
      → IsVouched (logout cookie ∷ es) (auth_logout v acc cookie t).1
  unfolding IsVouched auth_logout
  IsVouched-logout none es t (sessions, pending) =
      (λ token e h. ground (arith, sessions token e), λ token e h. ground (arith, pending token e))
  IsVouched-logout (some k) es t (sessions, pending) = (
    λ token e h. ground (arith, sessions token e, lookup-erase k token t.sessions),
    λ token e h. ground (arith, pending token e),
  )

  IsVouched-run : (es : List Event) → IsVouched es (run es)
  unfolding IsVouched run lookup
  IsVouched-run [] = (λ token e h. ground arith, λ token e h. ground arith)
  IsVouched-run (login now fresh body ∷ es) =
      IsVouched-login now fresh body es (run es) (IsVouched-run es)
  IsVouched-run (otp now fresh body ∷ es) =
      IsVouched-otp now fresh body es (run es) (IsVouched-run es)
  IsVouched-run (logout cookie ∷ es) = IsVouched-logout cookie es (run es) (IsVouched-run es)

  -- A session that is in the store after any sequence of logins, second steps and logouts from
  -- empty stores belongs to a user for whom one of the events passed the password's test, and, if
  -- the user's second factor is on, one of them passed the TOTP code's test.
  pub run-sessions :
      (es : List Event) (token : Bytes) (e : Entry)
      → lookup token (run es).sessions ≡ some e
      → (any (passes_password e.username) es
          && (has_no_otp e.username || any (passes_otp e.username) es))
        ≡ true
  unfolding IsVouched
  run-sessions es token e h = (IsVouched-run es).0 token e h
