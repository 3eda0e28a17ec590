-- ===== src/Auth/Lockout.antt =====
-- Wrong passwords lock an account (`login` of src/auth/auth.service.ts).
use superflow_api.Base.{
  ℕ, suc, ◌+◌, ◌≤◌, ◌<◌, ◌≡◌, refl, ap, ◌∙◌, Bool, true, false, not, ◌&&◌, Option, none, some, List,
  [], ◌∷◌, arith, ◌==◌, leb, length, update_where, all, if◌then◌else◌, Bool-cases, inl, inr,
}
use superflow_api.Base.Rows.{find-update_own}
use superflow_api.Base.Text.{Text, same_text}
use superflow_api.Auth.Types.{Crypto, Account, Vault, Tokens, Outcome, throws, account_locked}
use superflow_api.Auth.Login.{
  login, normalized, find_email, write_account, count_failure, validate_user, validate_account,
  as_failed, as_locked, as_unlocked, lockout, is_later, is_over, max_login_attempts,
}

find_email-own :
    (e : Text) (id : ℕ) (f : Account → Account) (l : List Account) (a : Account)
    → ((x : Account) → (f x).email ≡ x.email)
    → find_email e l ≡ some a
    → a.id ≡ id
    → find_email e (update_where (λ x. x.id == id) f l) ≡ some (f a)
find_email-own e id f l a keeps found same =
    find-update_own (λ x. same_text x.email e) (λ x. x.id == id) f l a
      (λ x. ap (λ t. same_text t e) (keeps x)) found (ground (arith, same))

-- The row of an account after a failure
abbrev pub after_failure : ℕ → ℕ → Account → Account
after_failure now attempts a =
    if leb max_login_attempts attempts
    then as_locked attempts (now + lockout) a
    else as_failed attempts a

count_failure-find :
    (e : Text) (now : ℕ) (a b : Account) (db : Vault)
    → find_email e db.accounts ≡ some b
    → b.id ≡ a.id
    → find_email e (count_failure now (some a) db).1.accounts
      ≡ some (after_failure now (a.failed_login_attempts + 1) b)
unfolding count_failure
count_failure-find e now a b db found same =
    elim (Bool-cases (leb max_login_attempts (a.failed_login_attempts + 1))) [
      | inl full ↦ rw full (find_email-own e a.id _ db.accounts b (λ _. refl) found same)
      | inr more ↦ rw more (find_email-own e a.id _ db.accounts b (λ _. refl) found same)
    ]

-- One attempt to log in
pub record Attempt : Type 0 where
  pub at : ℕ
  pub id : ℕ
  pub raw : ℕ
  pub password : ℕ

module _ (c : Crypto) (e : Text) where
  unfoldable pub attempt : Attempt → Vault → Outcome Tokens × Vault
  attempt x db = login c x.at x.id x.raw e x.password db

  unfoldable pub attempts : List Attempt → Vault → Vault
  attempts [] db = db
  attempts (x ∷ xs) db = attempts xs (attempt x db).1

  -- The time of the last attempt
  abbrev pub last_at : ℕ → List Attempt → ℕ
  last_at now [] = now
  last_at now (x ∷ xs) = last_at x.at xs

  abbrev pub is_wrong : ℕ → Attempt → Bool
  is_wrong hashed x = not (c.compare x.password hashed)

  module _ (plain : normalized e ≡ e) where
    attempt-wrong :
        (x : Attempt) (db : Vault) (a : Account)
        → find_email e db.accounts ≡ some a
        → is_later a.locked_until x.at ≡ false
        → is_wrong a.password_hash x ≡ true
        → attempt x db
          ≡ count_failure x.at (some a) (
              if a.is_active && is_over a.locked_until x.at
              then write_account a.id as_unlocked db
              else db)
    unfolding attempt login validate_user validate_account
    attempt-wrong x db a found open' wrong =
        let unequal : c.compare x.password a.password_hash ≡ false = ground (arith, wrong) in
        rw plain (
          rw found (
            rw open' (elim (Bool-cases a.is_active) [
              | inl on ↦ rw on (rw unequal refl)
              | inr off ↦ rw off refl
            ])))

    -- An attempt on an account that is not locked is counted, and the fifth locks it.
    attempt-counts :
        (x : Attempt) (db : Vault) (a : Account)
        → find_email e db.accounts ≡ some a
        → a.locked_until ≡ none
        → is_wrong a.password_hash x ≡ true
        → find_email e (attempt x db).1.accounts
          ≡ some (after_failure x.at (a.failed_login_attempts + 1) a)
    attempt-counts x db a found unlocked wrong =
        let idle : (a.is_active && is_over a.locked_until x.at) ≡ false =
          ground (arith, unlocked) in
        rw (attempt-wrong x db a found (ground (arith, unlocked)) wrong)
          (rw idle (count_failure-find e x.at a a db found refl))

    attempts-lock :
        (x : Attempt) (xs : List Attempt) (db : Vault) (a : Account)
        → find_email e db.accounts ≡ some a
        → a.locked_until ≡ none
        → a.failed_login_attempts + suc (length xs) ≡ max_login_attempts
        → all (is_wrong a.password_hash) (x ∷ xs) ≡ true
        → (b : Account) × (find_email e (attempts (x ∷ xs) db).accounts ≡ some b)
          × (b.locked_until ≡ some (last_at x.at xs + lockout))
    unfolding attempts
    attempts-lock x [] db a found unlocked count wrong =
        (_, attempt-counts x db a found unlocked (ground arith), ground (arith, count))
    attempts-lock x (y ∷ ys) db a found unlocked count wrong =
        let more : leb max_login_attempts (a.failed_login_attempts + 1) ≡ false =
          ground (arith, count) in
        let counted = rw more at (attempt-counts x db a found unlocked (ground arith)) in
        attempts-lock y ys (attempt x db).1 (as_failed (a.failed_login_attempts + 1) a) counted
          unlocked (omega (arith, count)) (ground (arith, wrong))

    attempt-locked :
        (x : Attempt) (db : Vault) (a : Account)
        → find_email e db.accounts ≡ some a
        → is_later a.locked_until x.at ≡ true
        → attempt x db ≡ (throws account_locked, db)
    unfolding attempt login
    attempt-locked x db a found locked = rw plain (rw found (rw locked refl))

-- A run of wrong passwords that brings an account's count of failures to five locks it for 15
-- minutes: every attempt that starts sooner after the last of them, with any password, the right
-- one too, throws and writes nothing. The address is as it is stored, and the account is not
-- locked at the start.
pub attempts-locked :
    (c : Crypto) (e : Text) (x : Attempt) (xs : List Attempt) (y : Attempt) (db : Vault)
    (a : Account)
    → normalized e ≡ e
    → find_email e db.accounts ≡ some a
    → a.locked_until ≡ none
    → a.failed_login_attempts + suc (length xs) ≡ max_login_attempts
    → all (is_wrong c e a.password_hash) (x ∷ xs) ≡ true
    → y.at < last_at c e x.at xs + lockout
    → attempt c e y (attempts c e (x ∷ xs) db) ≡ (throws account_locked, attempts c e (x ∷ xs) db)
attempts-locked c e x xs y db a plain found unlocked count wrong soon =
    let (b, there, until) = attempts-lock c e plain x xs db a found unlocked count wrong in
    attempt-locked c e plain y _ b there (ground (arith, until, soon))

-- A lock that has run out is not forgotten: the first wrong password after it locks the account
-- again for 15 minutes, if its count of failures is four or more, as a lock leaves it. The count
-- that a login starts anew is the one that was read before. The address is as it is stored.
pub attempt-relocks :
    (c : Crypto) (e : Text) (x : Attempt) (db : Vault) (a : Account)
    → normalized e ≡ e
    → find_email e db.accounts ≡ some a
    → is_over a.locked_until x.at ≡ true
    → max_login_attempts ≤ a.failed_login_attempts + 1
    → is_wrong c e a.password_hash x ≡ true
    → (b : Account) × (find_email e (attempt c e x db).1.accounts ≡ some b)
      × (b.locked_until ≡ some (x.at + lockout))
attempt-relocks c e x db a plain found over count wrong =
    let open' : is_later a.locked_until x.at ≡ false = over_later a.locked_until over in
    let full : leb max_login_attempts (a.failed_login_attempts + 1) ≡ true =
      ground (arith, count) in
    elim (Bool-cases a.is_active) [
      | inl on ↦
          let cleared : (a.is_active && is_over a.locked_until x.at) ≡ true =
            ground (arith, on, over) in
          (
            as_locked (a.failed_login_attempts + 1) (x.at + lockout) (as_unlocked a),
            rw (attempt-wrong c e plain x db a found open' wrong) (
                rw cleared (
                  count_failure-find e x.at a (as_unlocked a) (write_account a.id as_unlocked db)
                    (find_email-own e a.id as_unlocked db.accounts a (λ _. refl) found refl) refl
                  ∙ rw full refl)),
            refl,
          )
      | inr off ↦
          let idle : (a.is_active && is_over a.locked_until x.at) ≡ false = ground (arith, off) in
          (
            as_locked (a.failed_login_attempts + 1) (x.at + lockout) a,
            rw (attempt-wrong c e plain x db a found open' wrong)
                (rw idle (count_failure-find e x.at a a db found refl ∙ rw full refl)),
            refl,
          )
    ]
  where
    over_later : (o : Option ℕ) → is_over o x.at ≡ true → is_later o x.at ≡ false
    over_later none h = cc
    over_later (some t) h = ground arith
