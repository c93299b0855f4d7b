-- ===== src/Auth/Tokens.antt =====
-- Laws of the in-memory token stores of internal/server/admin/auth.go and otp.go.
use config_server.Prelude.{
  ℕ, ◌+◌, ◌≡◌, refl, none, some, Bytes, bytes_eq, bytes_eq_iff, bytes_eq_refl, arith, ltb,
  if◌then◌else◌, Option-cases, inl, inr,
}
use config_server.Prelude.Dict.{Dict, lookup, erase, lookup-insert, lookup-erase}
use config_server.Auth.{Entry, session_ttl, create_session, live_user, get_session, consume_pending}

-- A session gives its user until it expires and nothing afterwards, and its creation leaves the
-- other tokens alone.
get_session-create_session :
    (now later : ℕ) (token other username : Bytes) (tokens : Dict Entry)
    → get_session later other (create_session now token username tokens) ≡ (
        if bytes_eq token other
        then (if ltb (now + session_ttl) later then none else some username)
        else get_session later other tokens)
unfolding get_session create_session
get_session-create_session now later token other username tokens =
    rw
      (lookup-insert token other (record { username = username; expires_at = now + session_ttl })
        tokens)
      (ground arith)

consume_pending-none :
    (now : ℕ) (token : Bytes) (tokens : Dict Entry)
    → lookup token tokens ≡ none
    → consume_pending now token tokens ≡ (none, tokens)
unfolding consume_pending
consume_pending-none now token tokens e = rw (e, consume_pending) refl

consume_pending-some :
    (now : ℕ) (token : Bytes) (tokens : Dict Entry) {entry : Entry}
    → lookup token tokens ≡ some entry
    → consume_pending now token tokens ≡ (live_user now (some entry), erase token tokens)
unfolding consume_pending
consume_pending-some now token tokens e = rw (e, consume_pending) refl

consume_pending-erased :
    (now : ℕ) (token : Bytes) (tokens : Dict Entry)
    → consume_pending now token (erase token tokens) ≡ (none, erase token tokens)
consume_pending-erased now token tokens =
    consume_pending-none now token (erase token tokens)
      (rw (lookup-erase token token tokens) (rw (bytes_eq_refl token) refl))

-- A pending token is accepted once: whatever the first call answers, and whenever a second one is
-- made, the second is refused, and no other token's entry is changed.
pub consume_pending_once :
    (now later : ℕ) (token other : Bytes) (tokens : Dict Entry)
    → ((consume_pending later token (consume_pending now token tokens).1).0 ≡ none)
      × (lookup other (consume_pending now token tokens).1
          ≡ (if bytes_eq token other then none else lookup other tokens))
consume_pending_once now later token other tokens = elim (Option-cases (lookup token tokens)) [
  | inl e ↦ rw (consume_pending-none now token tokens e) (
    rw (consume_pending-none later token tokens e) refl,
    ground (arith, bytes_eq_iff token other),
  )
  | inr (entry, e) ↦
      rw (consume_pending-some now token tokens e)
        (rw (consume_pending-erased later token tokens) refl, lookup-erase token other tokens)
]

pub consume_pending-user :
    (now : ℕ) (token name : Bytes) (tokens : Dict Entry)
    → (consume_pending now token tokens).0 ≡ some name
    → (e : Entry) × (lookup token tokens ≡ some e) × (e.username ≡ name)
consume_pending-user now token name tokens h = elim (Option-cases (lookup token tokens)) [
  | inl e ↦ ground (arith, consume_pending-none now token tokens e)
  | inr (entry, e) ↦ (entry, e, ground (arith, consume_pending-some now token tokens e))
]
