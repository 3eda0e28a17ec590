-- ===== src/Auth/Login.antt =====
-- `login` and what it calls (src/auth/auth.service.ts). What was written before an exception stays
-- written, so a call gives its outcome and the rows.
use superflow_api.Base.{
  ℕ, ◌+◌, Bool, true, false, not, ◌&&◌, ◌||◌, Option, none, some, List, [], ◌∷◌, ◌==◌, ltb, leb,
  find_first, keep_if, update_where, is_some, same_option, any, if◌then◌else◌,
}
use superflow_api.Base.Text.{Text, trim, to_lower, same_text}
use superflow_api.Access.Guards.{is_platform_admin}
use superflow_api.Auth.Types.{
  Crypto, Account, sha, Session, AccessRow, WorkshopRow, Vault, Tokens, account_locked, now_locked,
  invalid_credentials, Outcome, returns, throws,
}

-- 15 minutes, and 30 days
abbrev pub lockout : ℕ
lockout = 900000

abbrev pub month : ℕ
month = 2592000000

abbrev pub max_login_attempts : ℕ
max_login_attempts = 5

-- `email.trim().toLowerCase()`
unfoldable pub normalized : Text → Text
normalized email = to_lower (trim email)

abbrev pub find_email : Text → List Account → Option Account
find_email email = find_first (λ a. same_text a.email email)

abbrev pub find_account : ℕ → List Account → Option Account
find_account id = find_first (λ a. a.id == id)

abbrev pub is_later : Option ℕ → ℕ → Bool
is_later none now = false
is_later (some at) now = ltb now at

abbrev pub is_over : Option ℕ → ℕ → Bool
is_over none now = false
is_over (some at) now = leb at now

abbrev pub write_account : ℕ → (Account → Account) → Vault → Vault
write_account id f db = record db { accounts = update_where (λ a. a.id == id) f db.accounts }

abbrev pub as_unlocked : Account → Account
as_unlocked a = record a { failed_login_attempts = 0; locked_until = none }

abbrev pub accepted : Bool → Account → Outcome (Option Account)
accepted true a = returns (some a)
accepted false a = returns none

-- `validateUser`, for the user of the email
unfoldable pub validate_account :
    Crypto → ℕ → ℕ → Account → Vault → Outcome (Option Account) × Vault
validate_account c now password a db =
    if not a.is_active
    then (returns none, db)
    else if is_later a.locked_until now
    then (throws account_locked, db)
    else (
      accepted (c.compare password a.password_hash) a,
      if is_over a.locked_until now then write_account a.id as_unlocked db else db,
    )

abbrev pub validate_found :
    Crypto → ℕ → ℕ → Option Account → Vault → Outcome (Option Account) × Vault
validate_found c now password none db = (returns none, db)
validate_found c now password (some a) db = validate_account c now password a db

unfoldable pub validate_user : Crypto → ℕ → Text → ℕ → Vault → Outcome (Option Account) × Vault
validate_user c now email password db =
    validate_found c now password (find_email email db.accounts) db

abbrev pub as_failed : ℕ → Account → Account
as_failed attempts a = record a { failed_login_attempts = attempts }

abbrev pub as_locked : ℕ → ℕ → Account → Account
as_locked attempts until a = record a {
  failed_login_attempts = attempts;
  locked_until = some until;
}

-- A failed attempt is counted from the row that was read first.
unfoldable pub count_failure : ℕ → Option Account → Vault → Outcome Tokens × Vault
count_failure now none db = (throws invalid_credentials, db)
count_failure now (some a) db =
    let attempts = a.failed_login_attempts + 1 in
    if leb max_login_attempts attempts
    then (throws now_locked, write_account a.id (as_locked attempts (now + lockout)) db)
    else (throws invalid_credentials, write_account a.id (as_failed attempts) db)

-- Revoked and expired rows are cleared away at a login.
abbrev pub is_dead : ℕ → Session → Bool
is_dead now s = is_some s.revoked_at || is_over s.expires_at now

abbrev pub clear_dead : ℕ → ℕ → List Session → List Session
clear_dead now user = keep_if (λ s. not (same_option s.user_id (some user) && is_dead now s))

-- Active workshops, by the user's access rows or, for a platform administrator, all
abbrev is_workshop : ℕ → WorkshopRow → Bool
is_workshop id w = w.id == id && w.is_active

abbrev active_of : List AccessRow → List WorkshopRow → List ℕ
active_of [] ws = []
active_of (r ∷ rows) ws =
    let rest = active_of rows ws in
    if any (is_workshop r.workshop_id) ws then r.workshop_id ∷ rest else rest

abbrev ids_of : List WorkshopRow → List ℕ
ids_of [] = []
ids_of (w ∷ ws) = w.id ∷ ids_of ws

-- `getUserWorkshops`
unfoldable pub user_workshops : Account → Vault → List ℕ
user_workshops a db =
    if is_platform_admin a.role
    then ids_of (keep_if (λ w. w.is_active) db.workshops)
    else active_of (keep_if (λ r. r.user_id == a.id) db.access) db.workshops

-- The workshop is chosen if there is exactly one.
abbrev pub only_one : List ℕ → Option ℕ
only_one (w ∷ []) = some w
only_one _ = none

abbrev pub as_logged_in : ℕ → Account → Account
as_logged_in now a = record a {
  last_login_at = some now;
  failed_login_attempts = 0;
  locked_until = none;
}

abbrev pub new_session : Crypto → ℕ → ℕ → ℕ → ℕ → Option ℕ → Session
new_session c now id raw user workshop = record {
  id = id;
  user_id = some user;
  token_hash = sha (c.digest raw);
  workshop_id = workshop;
  expires_at = some (now + month);
  revoked_at = none;
}

abbrev pub tokens : Account → Option ℕ → ℕ → Tokens
tokens a workshop raw = record {
  claims = record { sub = a.id; role = a.role; workshop_id = workshop };
  refresh_token = raw;
}

unfoldable pub log_in : Crypto → ℕ → ℕ → ℕ → Account → Vault → Outcome Tokens × Vault
log_in c now id raw a db =
    let db' = write_account a.id (as_logged_in now) db in
    let workshop = only_one (user_workshops a db) in
    (
      returns (tokens a workshop raw),
      record db' {
        sessions = new_session c now id raw a.id workshop ∷ clear_dead now a.id db.sessions;
      },
    )

abbrev pub finish_login :
    Crypto → ℕ → ℕ → ℕ → Option Account → Outcome (Option Account) × Vault → Outcome Tokens × Vault
finish_login c now id raw existing (throws e, db) = (throws e, db)
finish_login c now id raw existing (returns none, db) = count_failure now existing db
finish_login c now id raw existing (returns (some a), db) = log_in c now id raw a db

abbrev pub is_locked : ℕ → Option Account → Bool
is_locked now none = false
is_locked now (some a) = is_later a.locked_until now

-- `login`; `id` and `raw` are the new session's id and refresh token.
unfoldable pub login : Crypto → ℕ → ℕ → ℕ → Text → ℕ → Vault → Outcome Tokens × Vault
login c now id raw email password db =
    let existing = find_email (normalized email) db.accounts in
    if is_locked now existing
    then (throws account_locked, db)
    else finish_login c now id raw existing (validate_user c now email password db)
