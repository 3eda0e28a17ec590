-- ===== src/Auth/Spent.antt =====
-- A refresh token whose sessions are revoked, and the calls that leave it so (src/auth/auth.service.ts).
pub mod Sessions
use superflow_api.Base.{
  ℕ, ◌≡◌, refl, sym, ap, ◌∙◌, subst, Bool, true, false, not, ◌&&◌, ◌||◌, Option, none, some, List,
  [], ◌∷◌, arith, ◌==◌, ==_iff, find_first, keep_if, update_where, is_some, same_option, any, all,
  if◌then◌else◌, Option-cases, Bool-cases, inl, inr,
}
use superflow_api.Base.Rows.{all-find, find-holds, all-update, all-keep}
use superflow_api.Base.Text.{Text}
use superflow_api.Access.Guards.{is_platform_admin}
use superflow_api.Auth.Types.{
  Crypto, Account, TokenHash, sha, legacy, Session, Vault, Tokens, Outcome, returns, throws,
}
use superflow_api.Auth.Login.{
  login, log_in, finish_login, is_locked, validate_found, normalized, only_one, user_workshops,
  count_failure, validate_user, validate_account, new_session, write_account, find_account,
  find_email, is_over, is_later, as_unlocked, as_logged_in, clear_dead, is_dead,
}
use superflow_api.Auth.Service.{
  has_digest, accepts_legacy, find_session, as_revoked, is_live_of, revoke_all, revoke_one, refresh,
  reissue, log_out_token, revoke_session, forgot_password, reset_password,
}
use superflow_api.Auth.Change.{
  change_password, select_workshop, Call, logs_in, refreshes, logs_out, logs_out_token, revokes,
  forgets, resets, changes, selects, step, run,
}

count_failure-sessions :
    (now : ℕ) (o : Option Account) (db : Vault) → (count_failure now o db).1.sessions ≡ db.sessions
unfolding count_failure
count_failure-sessions now none db = refl
count_failure-sessions now (some a) db = ground arith

validate_account-sessions :
    (c : Crypto) (now password : ℕ) (a : Account) (db : Vault)
    → (validate_account c now password a db).1.sessions ≡ db.sessions
unfolding validate_account
validate_account-sessions c now password a db = ground arith

validate_found-sessions :
    (c : Crypto) (now password : ℕ) (o : Option Account) (db : Vault)
    → (validate_found c now password o db).1.sessions ≡ db.sessions
validate_found-sessions c now password none db = refl
validate_found-sessions c now password (some a) db = validate_account-sessions c now password a db

pub validate_user-sessions :
    (c : Crypto) (now : ℕ) (email : Text) (password : ℕ) (db : Vault)
    → (validate_user c now email password db).1.sessions ≡ db.sessions
unfolding validate_user
validate_user-sessions c now email password db =
    validate_found-sessions c now password (find_email email db.accounts) db

module _ (c : Crypto) (raw : ℕ) where
  -- Is this the token's session, by its digest or as an old row?
  abbrev pub answers : Session → Bool
  answers s = elim s.token_hash [ sha d ↦ d == c.digest raw | legacy h ↦ c.compare raw h ]

  abbrev pub is_spent : Session → Bool
  is_spent s = not (answers s) || is_some s.revoked_at

  abbrev pub IsSpent : Vault → Type 0
  IsSpent db = all is_spent db.sessions ≡ true

  digest-answers : (s : Session) → has_digest (c.digest raw) s ≡ true → answers s ≡ true
  digest-answers s h = ground arith

  legacy-answers :
      (now : ℕ) (s : Session)
      → accepts_legacy c now raw s ≡ true
      → (answers s ≡ true) × (is_some s.revoked_at ≡ false)
  legacy-answers now s h = ground arith

  pub find_session-answers :
      (now : ℕ) (l : List Session) (s : Session)
      → find_session c now raw l ≡ some s
      → answers s ≡ true
  unfolding find_session
  find_session-answers now l s h = elim (Option-cases (find_first (has_digest (c.digest raw)) l)) [
    | inr (t, at) ↦
        let same : t ≡ s = ground (arith, at, h) in
        subst (λ x. answers x ≡ true) same
          (digest-answers t (find-holds (has_digest (c.digest raw)) l t at))
    | inl none' ↦
        (legacy-answers now s
          (find-holds (accepts_legacy c now raw) l s (ground (arith, none', h)))).0
  ]

  pub find_session-all :
      (q : Session → Bool) (now : ℕ) (l : List Session) (s : Session)
      → all q l ≡ true
      → find_session c now raw l ≡ some s
      → q s ≡ true
  unfolding find_session
  find_session-all q now l s h found =
      elim (Option-cases (find_first (has_digest (c.digest raw)) l)) [
        | inr (t, at) ↦
            let same : t ≡ s = ground (arith, at, found) in
            subst (λ x. q x ≡ true) same (all-find (has_digest (c.digest raw)) q l t h at).1
        | inl none' ↦ (all-find (accepts_legacy c now raw) q l s h (ground (arith, none', found))).1
      ]

  -- A spent token finds a revoked session at most.
  pub find_session-spent :
      (now : ℕ) (l : List Session) (s : Session)
      → all is_spent l ≡ true
      → find_session c now raw l ≡ some s
      → is_some s.revoked_at ≡ true
  find_session-spent now l s h found =
      ground (arith, find_session-answers now l s found, find_session-all is_spent now l s h found)

  pub revoked-spent :
      (now : ℕ) (s : Session) → is_spent s ≡ true → is_spent (as_revoked now s) ≡ true
  revoked-spent now s h = ground arith

  pub revoke_all-IsSpent :
      (now user : ℕ) (db : Vault) → IsSpent db → IsSpent (revoke_all now user db)
  unfolding revoke_all
  revoke_all-IsSpent now user db h =
      all-update is_spent (is_live_of user) (as_revoked now) db.sessions (revoked-spent now) h

  pub revoke_one-IsSpent : (now id : ℕ) (db : Vault) → IsSpent db → IsSpent (revoke_one now id db)
  revoke_one-IsSpent now id db h =
      all-update is_spent (λ s. s.id == id) (as_revoked now) db.sessions (revoked-spent now) h

  pub add-IsSpent :
      (now id new user : ℕ) (w : Option ℕ) (l : List Session)
      → (c.digest new == c.digest raw) ≡ false
      → all is_spent l ≡ true
      → all is_spent (new_session c now id new user w ∷ l) ≡ true
  add-IsSpent now id new user w l apart h = ground (arith, apart, h)

  log_in-IsSpent :
      (now id new : ℕ) (a : Account) (db : Vault)
      → (c.digest new == c.digest raw) ≡ false
      → IsSpent db
      → IsSpent (log_in c now id new a db).1
  unfolding log_in
  log_in-IsSpent now id new a db apart h =
      add-IsSpent now id new a.id (only_one (user_workshops a db)) _ apart (
        all-keep is_spent (λ s. not (same_option s.user_id (some a.id) && is_dead now s))
          db.sessions h)

  finish_login-IsSpent :
      (now id new : ℕ) (existing : Option Account) (r : Outcome (Option Account) × Vault)
      → (c.digest new == c.digest raw) ≡ false
      → IsSpent r.1
      → IsSpent (finish_login c now id new existing r).1
  finish_login-IsSpent now id new existing (throws e, db) apart h = h
  finish_login-IsSpent now id new existing (returns none, db) apart h =
      rw (count_failure-sessions now existing db) h
  finish_login-IsSpent now id new existing (returns (some a), db) apart h =
      log_in-IsSpent now id new a db apart h

  pub login-IsSpent :
      (now id new : ℕ) (email : Text) (password : ℕ) (db : Vault)
      → (c.digest new == c.digest raw) ≡ false
      → IsSpent db
      → IsSpent (login c now id new email password db).1
  unfolding login
  login-IsSpent now id new email password db apart h =
      let existing = find_email (normalized email) db.accounts in
      let after =
        finish_login-IsSpent now id new existing (validate_user c now email password db) apart
          (rw (validate_user-sessions c now email password db) h) in
      elim (Bool-cases (is_locked now existing)) [
        | inl locked ↦ rw locked h
        | inr free ↦ rw free after
      ]
