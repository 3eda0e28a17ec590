-- ===== src/Auth/Tests.antt =====
-- Logging in.
use superflow_api.Base.{ℕ, ◌+◌, ◌≡◌, refl, true, false, not, none, some, [], ◌∷◌, arith, ◌==◌, all}
use superflow_api.Base.Text.{Text, codes, trim, trim_by, key_text}
use superflow_api.Access.Accounts.{staff}
use superflow_api.Auth.Types.{
  Crypto, Account, sha, legacy, Vault, Tokens, returns, throws, is_returned, account_locked,
  invalid_reset,
}
use superflow_api.Auth.Login.{login, normalized}
use superflow_api.Auth.Service.{find_session, refresh, reissue, reset_password, is_live_of}
use superflow_api.Auth.Change.{logs_in, refreshes, logs_out, run}
use superflow_api.Auth.Lockout.{Attempt, attempt, attempts, attempts-locked}
use superflow_api.Auth.Renewal.{login-refresh}
use superflow_api.Auth.Reset.{reset_password-login}
use superflow_api.Auth.Rotation.{refresh-once}
use superflow_api.Auth.Slug.{
  unique_workshop_slug, slugify, find_slug, slug_of, decimal, digits, is_claimed,
  unique_workshop_slug-total,
}

plus_one : (p : ℕ) → (p + 1 == p + 1) ≡ true
plus_one p = ground arith

abbrev crypto : Crypto
crypto = record {
  digest = λ t. t;
  hash = λ p. p + 1;
  compare = λ p h. p + 1 == h;
  compare_hash = plus_one;
}

abbrev address : Text
address = codes "ali@garage.ae"

abbrev ali : Account
ali = record {
  id = 7;
  email = address;
  role = staff 3;
  password_hash = 1001;
  is_active = true;
  failed_login_attempts = 3;
  locked_until = none;
  last_login_at = none;
}

abbrev vault : Vault
vault = record {
  accounts = ali ∷ [];
  sessions =
      record {
        id = 1;
        user_id = some 7;
        token_hash = sha 500;
        workshop_id = some 2;
        expires_at = some 9000;
        revoked_at = none;
      }
      ∷ record {
        id = 2;
        user_id = some 8;
        token_hash = legacy 90;
        workshop_id = none;
        expires_at = none;
        revoked_at = none;
      }
      ∷ [];
  resets =
      record { id = 11; user_id = some 7; token_hash = 600; expires_at = 4000; used_at = none }
      ∷ [];
  access = record { user_id = 7; workshop_id = 2 } ∷ [];
  workshops = record { id = 2; is_active = true } ∷ [];
}

address_typed : normalized (codes " Ali@Garage.AE ") ≡ address
unfolding normalized trim trim_by
address_typed = refl

plain : normalized address ≡ address
unfolding normalized trim trim_by
plain = refl

refresh-once_example :
    is_returned
      (refresh crypto 5000 31 601 500 (
        run crypto
          (refresh crypto 100 30 600 500 vault).1
          (logs_in 200 32 602 address 1000 ∷ refreshes 300 33 603 600 ∷ logs_out 400 7 ∷ []))).0
    ≡ false
unfolding refresh find_session reissue
refresh-once_example =
    refresh-once crypto 500 100 30 600 1 vault
      (logs_in 200 32 602 address 1000 ∷ refreshes 300 33 603 600 ∷ logs_out 400 7 ∷ []) 5000 31 601
      refl refl refl refl

abbrev wrong_at : ℕ → Attempt
wrong_at t = record { at = t; id = 40; raw = 700; password = 99 }

attempts-locked_example :
    attempt crypto address
      (record { at = 900; id = 41; raw = 701; password = 1000 })
      (attempts crypto address (wrong_at 100 ∷ wrong_at 200 ∷ []) vault)
    ≡ (throws account_locked, attempts crypto address (wrong_at 100 ∷ wrong_at 200 ∷ []) vault)
attempts-locked_example =
    attempts-locked crypto address (wrong_at 100) (wrong_at 200 ∷ [])
      (record { at = 900; id = 41; raw = 701; password = 1000 }) vault ali plain refl refl refl refl
      (omega arith)

login-refresh_example :
    (out : Tokens) × ((login crypto 100 30 600 address 1000 vault).0 ≡ returns out)
    × (out.claims.sub ≡ 7)
    × ((refresh crypto 200 31 601 600 (login crypto 100 30 600 address 1000 vault).1).0
        ≡ returns (record out { refresh_token = 601 }))
login-refresh_example =
    login-refresh crypto 100 30 600 address 1000 vault ali 200 31 601 plain refl refl refl refl refl
      (omega arith)

reset_password-login_example :
    let db' = (reset_password crypto 100 600 5000 vault).1 in
    ((reset_password crypto 100 600 5000 vault).0 ≡ returns tt)
    × ((now' id new : ℕ) → is_returned (login crypto now' id new address 5000 db').0 ≡ true)
    × (all (λ s. not (is_live_of 7 s)) db'.sessions ≡ true)
    × ((now' p : ℕ) → (reset_password crypto now' 600 p db').0 ≡ throws invalid_reset)
reset_password-login_example =
    reset_password-login crypto 100 600 5000 address vault
      (record { id = 11; user_id = some 7; token_hash = 600; expires_at = 4000; used_at = none })
      ali refl refl refl (omega arith) plain refl refl

slug_of_name : slugify (codes "  Ali's Garage! ") ≡ codes "ali-s-garage"
unfolding slugify key_text trim trim_by
slug_of_name = refl

third :
    unique_workshop_slug (codes "Garage") (codes "garage" ∷ codes "garage-2" ∷ [])
    ≡ some (codes "garage-3")
unfolding unique_workshop_slug find_slug slug_of decimal digits slugify key_text trim trim_by
third = refl

unique_workshop_slug-total_example :
    (slug : Text) × (unique_workshop_slug (codes "Garage") (codes "garage" ∷ []) ≡ some slug)
    × (is_claimed slug (codes "garage" ∷ []) ≡ false)
unique_workshop_slug-total_example =
    unique_workshop_slug-total (codes "Garage") (codes "garage" ∷ [])
