-- ===== src/Auth/Types.antt =====
-- The rows of src/auth/auth.service.ts. Raw tokens, passwords, their hashes and times (in
-- milliseconds) are numbers.
use superflow_api.Base.{ℕ, ◌≡◌, Bool, true, false, Option, List}
use superflow_api.Base.Text.{Text}
use superflow_api.Access.Accounts.{Role}

-- What the code relies on of bcrypt and of SHA-256: a password is accepted by its own hash.
pub record Crypto : Type 0 where
  pub digest : ℕ → ℕ
  pub hash : ℕ → ℕ
  pub compare : ℕ → ℕ → Bool
  pub compare_hash : (password : ℕ) → compare password (hash password) ≡ true

pub record Account : Type 0 where
  pub id : ℕ
  pub email : Text
  pub role : Role
  pub password_hash : ℕ
  pub is_active : Bool
  pub failed_login_attempts : ℕ
  pub locked_until : Option ℕ
  pub last_login_at : Option ℕ

-- `token_hash`: a digest, or the bcrypt hash (`$2…`) of an old row
pub data TokenHash : Type 0 where
  sha legacy : ℕ → TokenHash

pub record Session : Type 0 where
  pub id : ℕ
  pub user_id : Option ℕ
  pub token_hash : TokenHash
  pub workshop_id : Option ℕ
  pub expires_at : Option ℕ
  pub revoked_at : Option ℕ

pub record ResetToken : Type 0 where
  pub id : ℕ
  pub user_id : Option ℕ
  pub token_hash : ℕ
  pub expires_at : ℕ
  pub used_at : Option ℕ

pub record AccessRow : Type 0 where
  pub user_id : ℕ
  pub workshop_id : ℕ

pub record WorkshopRow : Type 0 where
  pub id : ℕ
  pub is_active : Bool

-- Sessions stand newest first.
pub record Vault : Type 0 where
  pub accounts : List Account
  pub sessions : List Session
  pub resets : List ResetToken
  pub access : List AccessRow
  pub workshops : List WorkshopRow

-- What a signed access token says
pub record Claims : Type 0 where
  pub sub : ℕ
  pub role : Role
  pub workshop_id : Option ℕ

pub record Tokens : Type 0 where
  pub claims : Claims
  pub refresh_token : ℕ

pub data Reason : Type 0 where
  account_locked now_locked invalid_credentials : Reason
  invalid_token reuse_detected token_expired inactive : Reason
  invalid_reset no_access workshop_inactive session_missing : Reason
  user_missing wrong_password : Reason

pub data Outcome {ℓ} (A : Type ℓ) : Type ℓ where
  returns : A → Outcome A
  throws : Reason → Outcome A

abbrev pub is_returned {ℓ} : {A : Type ℓ} → Outcome A → Bool
is_returned (returns _) = true
is_returned (throws _) = false
