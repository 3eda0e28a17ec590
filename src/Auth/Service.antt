-- ===== src/Auth/Service.antt =====
-- `AuthService` (src/auth/auth.service.ts): sessions, passwords and the choice of a workshop. What was
-- written before an exception stays written.
use superflow_api.Base.{
  ℕ, ◌+◌, Bool, false, not, ◌&&◌, ◌||◌, Option, none, some, List, ◌∷◌, ◌==◌, leb, ltb, find_first,
  update_where, is_some, same_option, if◌then◌else◌,
}
use superflow_api.Base.Text.{Text}
use superflow_api.Auth.Types.{
  Crypto, Account, sha, legacy, Session, ResetToken, Vault, Tokens, invalid_token, reuse_detected,
  token_expired, inactive, invalid_reset, session_missing, Outcome, returns, throws,
}
use superflow_api.Auth.Login.{
  is_later, is_over, find_email, find_account, write_account, normalized, new_session, tokens,
}

abbrev pub has_digest : ℕ → Session → Bool
has_digest d s = elim s.token_hash [ sha e ↦ e == d | legacy h ↦ false ]

-- A live session whose bcrypt hash accepts the token
abbrev pub accepts_legacy : Crypto → ℕ → ℕ → Session → Bool
accepts_legacy c now raw s = elim s.token_hash [
  | sha d ↦ false
  | legacy h ↦ not (is_some s.revoked_at) && is_later s.expires_at now && c.compare raw h
]

abbrev pub or_first : Option Session → Option Session → Option Session
or_first none b = b
or_first (some a) _ = some a

-- The session of a refresh token: by its digest, or else among the old rows
unfoldable pub find_session : Crypto → ℕ → ℕ → List Session → Option Session
find_session c now raw sessions =
    or_first (find_first (has_digest (c.digest raw)) sessions)
      (find_first (accepts_legacy c now raw) sessions)

abbrev pub as_revoked : ℕ → Session → Session
as_revoked now s = record s { revoked_at = some now }

abbrev pub is_live_of : ℕ → Session → Bool
is_live_of user s = same_option s.user_id (some user) && not (is_some s.revoked_at)

-- `logout`, and the revocation of all sessions of a user elsewhere
unfoldable pub revoke_all : ℕ → ℕ → Vault → Vault
revoke_all now user db = record db {
  sessions = update_where (is_live_of user) (as_revoked now) db.sessions;
}

abbrev pub revoke_one : ℕ → ℕ → Vault → Vault
revoke_one now id db = record db {
  sessions = update_where (λ s. s.id == id) (as_revoked now) db.sessions;
}

abbrev pub add_session : Session → Vault → Vault
add_session s db = record db { sessions = s ∷ db.sessions }

-- A refresh issues a new token to an active user, and ends all sessions of another.
unfoldable pub reissue :
    Crypto → ℕ → ℕ → ℕ → ℕ → Option ℕ → Option Account → Vault → Outcome Tokens × Vault
reissue c now id raw user workshop none db = (throws inactive, revoke_all now user db)
reissue c now id raw user workshop (some a) db =
    if a.is_active
    then (returns (tokens a workshop raw), add_session (new_session c now id raw a.id workshop) db)
    else (throws inactive, revoke_all now user db)

abbrev pub refresh_for : Crypto → ℕ → ℕ → ℕ → Session → Option ℕ → Vault → Outcome Tokens × Vault
refresh_for c now id raw s none db = (throws invalid_token, db)
refresh_for c now id raw s (some user) db =
    if is_some s.revoked_at
    then (throws reuse_detected, revoke_all now user db)
    else if is_over s.expires_at now
    then (throws token_expired, db)
    else let db' = revoke_one now s.id db in
      reissue c now id raw user s.workshop_id (find_account user db'.accounts) db'

abbrev pub refresh_found : Crypto → ℕ → ℕ → ℕ → Option Session → Vault → Outcome Tokens × Vault
refresh_found c now id raw none db = (throws invalid_token, db)
refresh_found c now id raw (some s) db = refresh_for c now id raw s s.user_id db

-- `refresh` of the token `old`; `id` and `raw` are the new session's.
unfoldable pub refresh : Crypto → ℕ → ℕ → ℕ → ℕ → Vault → Outcome Tokens × Vault
refresh c now id raw old db = refresh_found c now id raw (find_session c now old db.sessions) db

abbrev pub log_out_of : ℕ → Option Session → Vault → Vault
log_out_of now none db = db
log_out_of now (some s) db = elim s.user_id [ none ↦ db | some user ↦ revoke_all now user db ]

-- `logoutRefreshToken`
unfoldable pub log_out_token : Crypto → ℕ → ℕ → Vault → Vault
log_out_token c now raw db = log_out_of now (find_first (has_digest (c.digest raw)) db.sessions) db

abbrev pub revoke_found : ℕ → ℕ → Option Session → Vault → Outcome (Unit {0}) × Vault
revoke_found now user none db = (throws session_missing, db)
revoke_found now user (some s) db =
    if same_option s.user_id (some user)
    then (returns tt, revoke_one now s.id db)
    else (throws session_missing, db)

-- `revokeSession`
unfoldable pub revoke_session : ℕ → ℕ → ℕ → Vault → Outcome (Unit {0}) × Vault
revoke_session now id user db = revoke_found now user (find_first (λ s. s.id == id) db.sessions) db

abbrev pub is_pending : ℕ → ℕ → ResetToken → Bool
is_pending now user t =
    same_option t.user_id (some user) && not (is_some t.used_at) && ltb now t.expires_at

abbrev pub as_used : ℕ → ResetToken → ResetToken
as_used now t = record t { used_at = some now }

-- One hour
abbrev pub hour : ℕ
hour = 3600000

abbrev pub new_reset : Crypto → ℕ → ℕ → ℕ → ℕ → ResetToken
new_reset c now id raw user = record {
  id = id;
  user_id = some user;
  token_hash = c.digest raw;
  expires_at = now + hour;
  used_at = none;
}

abbrev pub forgot_for : Crypto → ℕ → ℕ → ℕ → Option Account → Vault → Vault
forgot_for c now id raw none db = db
forgot_for c now id raw (some a) db =
    if a.is_active
    then record db {
      resets =
          new_reset c now id raw a.id ∷ update_where (is_pending now a.id) (as_used now) db.resets;
    }
    else db

-- `forgotPassword`, without the mail: it returns the same whether there is such a user or not.
unfoldable pub forgot_password : Crypto → ℕ → ℕ → ℕ → Text → Vault → Vault
forgot_password c now id raw email db =
    forgot_for c now id raw (find_email (normalized email) db.accounts) db

abbrev pub with_password : ℕ → Account → Account
with_password hashed a = record a {
  password_hash = hashed;
  failed_login_attempts = 0;
  locked_until = none;
}

abbrev pub reset_for : Crypto → ℕ → ℕ → ResetToken → Option ℕ → Vault → Outcome (Unit {0}) × Vault
reset_for c now password t none db = (throws invalid_reset, db)
reset_for c now password t (some user) db =
    if is_some t.used_at || leb t.expires_at now
    then (throws invalid_reset, db)
    else let db' = write_account user (with_password (c.hash password)) db in
      (
        returns tt,
        revoke_all now user
            (record db' { resets = update_where (λ x. x.id == t.id) (as_used now) db'.resets }),
      )

abbrev pub reset_found : Crypto → ℕ → ℕ → Option ResetToken → Vault → Outcome (Unit {0}) × Vault
reset_found c now password none db = (throws invalid_reset, db)
reset_found c now password (some t) db = reset_for c now password t t.user_id db

abbrev pub find_reset : ℕ → List ResetToken → Option ResetToken
find_reset digest = find_first (λ t. t.token_hash == digest)

-- `resetPassword`
unfoldable pub reset_password : Crypto → ℕ → ℕ → ℕ → Vault → Outcome (Unit {0}) × Vault
reset_password c now raw password db =
    reset_found c now password (find_reset (c.digest raw) db.resets) db
