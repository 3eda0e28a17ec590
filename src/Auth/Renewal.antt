-- ===== src/Auth/Renewal.antt =====
-- What a login and a new password are good for (src/auth/auth.service.ts).
use superflow_api.Base.{
  ℕ, ◌+◌, ◌<◌, ◌≡◌, refl, ap, ◌∙◌, true, false, Option, some, List, ◌∷◌, arith, ◌==◌, leb,
  update_where, if◌then◌else◌, Bool-cases, inl, inr,
}
use superflow_api.Base.Rows.{find-update_own}
use superflow_api.Base.Text.{Text}
use superflow_api.Auth.Types.{Crypto, Account, Session, Vault, Tokens, returns}
use superflow_api.Auth.Login.{
  login, log_in, normalized, find_email, find_account, write_account, validate_user,
  validate_account, as_unlocked, as_logged_in, is_later, is_over, month, new_session, tokens,
  only_one, user_workshops,
}
use superflow_api.Auth.Service.{find_session, refresh, reissue}

module _ (c : Crypto) (now : ℕ) where
  -- The rows after the account has been checked
  abbrev checked : Account → Vault → Vault
  checked a db = if is_over a.locked_until now then write_account a.id as_unlocked db else db

  -- A login with the right password at an account that is active and not locked
  pub login-right :
      (id raw : ℕ) (e : Text) (password : ℕ) (db : Vault) (a : Account)
      → normalized e ≡ e
      → find_email e db.accounts ≡ some a
      → a.is_active ≡ true
      → is_later a.locked_until now ≡ false
      → c.compare password a.password_hash ≡ true
      → login c now id raw e password db ≡ log_in c now id raw a (checked a db)
  unfolding login validate_user validate_account
  login-right id raw e password db a plain found active' free right =
      rw plain (rw found (rw free (rw active' (rw right refl))))

  abbrev row_after : Account → Account
  row_after a = as_logged_in now (if is_over a.locked_until now then as_unlocked a else a)

  find_account-own :
      (f : Account → Account) (l : List Account) (a : Account)
      → ((x : Account) → (f x).id ≡ x.id)
      → find_account a.id l ≡ some a
      → find_account a.id (update_where (λ x. x.id == a.id) f l) ≡ some (f a)
  find_account-own f l a keeps found =
      find-update_own (λ x. x.id == a.id) (λ x. x.id == a.id) f l a
        (λ x. ap (λ n. n == a.id) (keeps x)) found (ground arith)

  log_in-account :
      (id raw : ℕ) (a : Account) (db : Vault)
      → find_account a.id db.accounts ≡ some a
      → find_account a.id (log_in c now id raw a (checked a db)).1.accounts ≡ some (row_after a)
  unfolding log_in
  log_in-account id raw a db found = elim (Bool-cases (is_over a.locked_until now)) [
    | inr none' ↦ rw none' (find_account-own (as_logged_in now) db.accounts a (λ _. refl) found)
    | inl over ↦
        let first = find_account-own as_unlocked db.accounts a (λ _. refl) found in
        rw over (
          find_account-own (as_logged_in now)
            (update_where (λ x. x.id == a.id) as_unlocked db.accounts) (as_unlocked a) (λ _. refl)
            first)
  ]

  -- The newest session is found by its token and renewed.
  refresh-newest :
      (id raw now' id' raw' user : ℕ) (w : Option ℕ) (rest : List Session) (b : Account) (v : Vault)
      → find_account user v.accounts ≡ some b
      → b.is_active ≡ true
      → now' < now + month
      → (refresh c now' id' raw' raw
          (record v { sessions = new_session c now id raw user w ∷ rest })).0
        ≡ returns (tokens b w raw')
  unfolding refresh find_session reissue
  refresh-newest id raw now' id' raw' user w rest b v found active' soon =
      let own : (c.digest raw == c.digest raw) ≡ true = ground arith in
      let early : leb (now + month) now' ≡ false = ground (arith, soon) in
      rw own (rw early (rw found (rw active' refl)))

  row_after-is_active : (a : Account) → (row_after a).is_active ≡ a.is_active
  row_after-is_active a = ground arith

  row_after-id : (a : Account) → (row_after a).id ≡ a.id
  row_after-id a = ground arith

  row_after-role : (a : Account) → (row_after a).role ≡ a.role
  row_after-role a = ground arith

  log_in-refresh :
      (id raw now' id' raw' : ℕ) (a : Account) (db : Vault)
      → find_account a.id db.accounts ≡ some a
      → a.is_active ≡ true
      → now' < now + month
      → (refresh c now' id' raw' raw (log_in c now id raw a (checked a db)).1).0
        ≡ returns (tokens a (only_one (user_workshops a (checked a db))) raw')
  unfolding log_in
  log_in-refresh id raw now' id' raw' a db found active' soon =
      let w = only_one (user_workshops a (checked a db)) in
      refresh-newest id raw now' id' raw' a.id w _ (row_after a)
        (write_account a.id (as_logged_in now) (checked a db)) (log_in-account id raw a db found)
        (row_after-is_active a ∙ active') soon
      ∙ same w
    where
      same : (w : Option ℕ) → returns (tokens (row_after a) w raw') ≡ returns (tokens a w raw')
      same w = cc (row_after-id a, row_after-role a)

-- A login with the right password succeeds, if the account is active and not locked and the
-- address is as it is stored; and the refresh token that it gives is accepted once it is
-- presented within 30 days: it yields the claims of the login, for the same user, role and
-- workshop, with a new refresh token. The account is found by its address and by its id.
pub login-refresh :
    (c : Crypto) (now id raw : ℕ) (e : Text) (password : ℕ) (db : Vault) (a : Account)
    (now' id' raw' : ℕ)
    → normalized e ≡ e
    → find_email e db.accounts ≡ some a
    → find_account a.id db.accounts ≡ some a
    → a.is_active ≡ true
    → is_later a.locked_until now ≡ false
    → c.compare password a.password_hash ≡ true
    → now' < now + month
    → (out : Tokens) × ((login c now id raw e password db).0 ≡ returns out)
      × (out.claims.sub ≡ a.id)
      × ((refresh c now' id' raw' raw (login c now id raw e password db).1).0
          ≡ returns (record out { refresh_token = raw' }))
unfolding log_in
login-refresh c now id raw e password db a now' id' raw' plain found keyed active' free right soon =
    let entered = login-right c now id raw e password db a plain found active' free right in
    (
      tokens a (only_one (user_workshops a (checked c now a db))) raw,
      rw entered refl,
      refl,
      rw entered (log_in-refresh c now id raw now' id' raw' a db keyed active' soon),
    )
