-- ===== src/Auth/Change.antt =====
-- `changePassword` and `selectWorkshop` (src/auth/auth.service.ts), and a history of calls.
use superflow_api.Base.{
  ℕ, Bool, false, not, ◌&&◌, ◌||◌, Option, none, some, List, [], ◌∷◌, ◌==◌, find_first, keep_if,
  update_where, any, if◌then◌else◌,
}
use superflow_api.Base.Text.{Text}
use superflow_api.Access.Guards.{is_platform_admin}
use superflow_api.Auth.Types.{
  Crypto, Account, Session, Vault, Claims, inactive, no_access, workshop_inactive, user_missing,
  wrong_password, Outcome, returns, throws,
}
use superflow_api.Auth.Login.{is_later, find_account, write_account, login}
use superflow_api.Auth.Service.{
  as_revoked, is_live_of, revoke_all, refresh, log_out_token, revoke_session, forgot_password,
  reset_password,
}

abbrev pub is_current_of : ℕ → ℕ → Session → Bool
is_current_of now user s = is_live_of user s && is_later s.expires_at now

-- The newest session is kept where there are several; all others are revoked.
abbrev pub keep_newest : ℕ → ℕ → List Session → Vault → Vault
keep_newest now user (s ∷ t ∷ more) db = record db {
  sessions =
      update_where (λ x. is_live_of user x && not (x.id == s.id)) (as_revoked now) db.sessions;
}
keep_newest now user _ db = db

abbrev pub as_changed : ℕ → Account → Account
as_changed hashed a = record a { password_hash = hashed }

abbrev pub change_for : Crypto → ℕ → ℕ → ℕ → Option Account → Vault → Outcome (Unit {0}) × Vault
change_for c now current new none db = (throws user_missing, db)
change_for c now current new (some a) db =
    if not (c.compare current a.password_hash)
    then (throws wrong_password, db)
    else let db' = write_account a.id (as_changed (c.hash new)) db in
      (returns tt, keep_newest now a.id (keep_if (is_current_of now a.id) db'.sessions) db')

-- `changePassword`
unfoldable pub change_password : Crypto → ℕ → ℕ → ℕ → ℕ → Vault → Outcome (Unit {0}) × Vault
change_password c now user current new db =
    change_for c now current new (find_account user db.accounts) db

abbrev pub into_workshop : ℕ → Session → Session
into_workshop w s = record s { workshop_id = some w }

abbrev pub select_session : ℕ → Option Session → Vault → Vault
select_session w none db = db
select_session w (some s) db = record db {
  sessions = update_where (λ x. x.id == s.id) (into_workshop w) db.sessions;
}

abbrev pub is_open : ℕ → Vault → Bool
is_open w db = elim (find_first (λ x. x.id == w) db.workshops) [
  | none ↦ false
  | some x ↦ x.is_active
]

abbrev pub has_access : ℕ → ℕ → Vault → Bool
has_access user w db = any (λ r. r.user_id == user && r.workshop_id == w) db.access

abbrev pub select_for : ℕ → ℕ → Option Account → Vault → Outcome Claims × Vault
select_for now w none db = (throws inactive, db)
select_for now w (some a) db =
    if not a.is_active
    then (throws inactive, db)
    else if not (is_platform_admin a.role || has_access a.id w db)
    then (throws no_access, db)
    else if not (is_open w db)
    then (throws workshop_inactive, db)
    else (
      returns (record { sub = a.id; role = a.role; workshop_id = some w }),
      select_session w (find_first (is_current_of now a.id) db.sessions) db,
    )

-- `selectWorkshop`
unfoldable pub select_workshop : ℕ → ℕ → ℕ → Vault → Outcome Claims × Vault
select_workshop now user w db = select_for now w (find_account user db.accounts) db

pub data Call : Type 0 where
  logs_in : ℕ → ℕ → ℕ → Text → ℕ → Call
  refreshes : ℕ → ℕ → ℕ → ℕ → Call
  logs_out : ℕ → ℕ → Call
  logs_out_token : ℕ → ℕ → Call
  revokes : ℕ → ℕ → ℕ → Call
  forgets : ℕ → ℕ → ℕ → Text → Call
  resets : ℕ → ℕ → ℕ → Call
  changes : ℕ → ℕ → ℕ → ℕ → Call
  selects : ℕ → ℕ → ℕ → Call

unfoldable pub step : Crypto → Vault → Call → Vault
step c db (logs_in now id raw email password) = (login c now id raw email password db).1
step c db (refreshes now id raw old) = (refresh c now id raw old db).1
step c db (logs_out now user) = revoke_all now user db
step c db (logs_out_token now raw) = log_out_token c now raw db
step c db (revokes now id user) = (revoke_session now id user db).1
step c db (forgets now id raw email) = forgot_password c now id raw email db
step c db (resets now raw password) = (reset_password c now raw password db).1
step c db (changes now user current new) = (change_password c now user current new db).1
step c db (selects now user w) = (select_workshop now user w db).1

unfoldable pub run : Crypto → Vault → List Call → Vault
run c db [] = db
run c db (call ∷ calls) = run c (step c db call) calls
