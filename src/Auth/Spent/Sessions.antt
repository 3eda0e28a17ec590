-- ===== src/Auth/Spent/Sessions.antt =====
-- The other calls leave a spent token spent (src/auth/auth.service.ts).
use superflow_api.Base.{
  ℕ, ◌≡◌, Bool, true, false, not, ◌&&◌, ◌||◌, Option, none, some, List, [], ◌∷◌, arith, ◌==◌,
  find_first, keep_if, is_some, same_option, all, leb, Bool-cases, inl, inr,
}
use superflow_api.Base.Rows.{all-update}
use superflow_api.Base.Text.{Text}
use superflow_api.Access.Guards.{is_platform_admin}
use superflow_api.Auth.Types.{Crypto, Account, Session, ResetToken, Vault}
use superflow_api.Auth.Login.{find_account, find_email, normalized, is_over}
use superflow_api.Auth.Service.{
  has_digest, find_session, find_reset, as_revoked, is_live_of, revoke_all, revoke_one, refresh,
  refresh_found, refresh_for, reissue, log_out_token, log_out_of, revoke_session, revoke_found,
  forgot_password, forgot_for, reset_password, reset_found, reset_for,
}
use superflow_api.Auth.Change.{
  change_password, change_for, keep_newest, is_current_of, select_workshop, select_for,
  select_session, into_workshop, has_access, is_open, Call, logs_in, refreshes, logs_out,
  logs_out_token, revokes, forgets, resets, changes, selects, step, run,
}
use superflow_api.Auth.Spent.{
  is_spent, IsSpent, revoke_all-IsSpent, revoke_one-IsSpent, add-IsSpent, login-IsSpent,
  revoked-spent,
}

module _ (c : Crypto) (raw : ℕ) where
  reissue-IsSpent :
      (now id new user : ℕ) (w : Option ℕ) (o : Option Account) (db : Vault)
      → (c.digest new == c.digest raw) ≡ false
      → IsSpent c raw db
      → IsSpent c raw (reissue c now id new user w o db).1
  unfolding reissue
  reissue-IsSpent now id new user w none db apart h = revoke_all-IsSpent c raw now user db h
  reissue-IsSpent now id new user w (some a) db apart h = elim (Bool-cases a.is_active) [
    | inl on ↦ rw on (add-IsSpent c raw now id new a.id w db.sessions apart h)
    | inr off ↦ rw off (revoke_all-IsSpent c raw now user db h)
  ]

  refresh_for-IsSpent :
      (now id new : ℕ) (s : Session) (u : Option ℕ) (db : Vault)
      → (c.digest new == c.digest raw) ≡ false
      → IsSpent c raw db
      → IsSpent c raw (refresh_for c now id new s u db).1
  refresh_for-IsSpent now id new s none db apart h = h
  refresh_for-IsSpent now id new s (some user) db apart h =
      let ended = revoke_one-IsSpent c raw now s.id db h in
      let renewed =
        reissue-IsSpent now id new user s.workshop_id (find_account user db.accounts)
          (revoke_one now s.id db) apart ended in
      elim (Bool-cases (is_some s.revoked_at)) [
        | inl revoked ↦ rw revoked (revoke_all-IsSpent c raw now user db h)
        | inr live ↦ elim (Bool-cases (is_over s.expires_at now)) [
          | inl over ↦ rw (live, over) h
          | inr on ↦ rw (live, on) renewed
        ]
      ]

  refresh-IsSpent :
      (now id new old : ℕ) (db : Vault)
      → (c.digest new == c.digest raw) ≡ false
      → IsSpent c raw db
      → IsSpent c raw (refresh c now id new old db).1
  unfolding refresh
  refresh-IsSpent now id new old db apart h = found (find_session c now old db.sessions)
    where
      found : (o : Option Session) → IsSpent c raw (refresh_found c now id new o db).1
      found none = h
      found (some s) = refresh_for-IsSpent now id new s s.user_id db apart h

  log_out_token-IsSpent :
      (now t : ℕ) (db : Vault) → IsSpent c raw db → IsSpent c raw (log_out_token c now t db)
  unfolding log_out_token
  log_out_token-IsSpent now t db h = found (find_first (has_digest (c.digest t)) db.sessions)
    where
      ended :
          (u : Option ℕ) → IsSpent c raw (elim u [ none ↦ db | some user ↦ revoke_all now user db ])
      ended none = h
      ended (some user) = revoke_all-IsSpent c raw now user db h

      found : (o : Option Session) → IsSpent c raw (log_out_of now o db)
      found none = h
      found (some s) = ended s.user_id

  revoke_session-IsSpent :
      (now id user : ℕ) (db : Vault)
      → IsSpent c raw db
      → IsSpent c raw (revoke_session now id user db).1
  unfolding revoke_session
  revoke_session-IsSpent now id user db h = found (find_first (λ s. s.id == id) db.sessions)
    where
      found : (o : Option Session) → IsSpent c raw (revoke_found now user o db).1
      found none = h
      found (some s) = elim (Bool-cases (same_option s.user_id (some user))) [
        | inl own ↦ rw own (revoke_one-IsSpent c raw now s.id db h)
        | inr other ↦ rw other h
      ]

  forgot_password-IsSpent :
      (now id t : ℕ) (email : Text) (db : Vault)
      → IsSpent c raw db
      → IsSpent c raw (forgot_password c now id t email db)
  unfolding forgot_password
  forgot_password-IsSpent now id t email db h = found (find_email (normalized email) db.accounts)
    where
      found : (o : Option Account) → IsSpent c raw (forgot_for c now id t o db)
      found none = h
      found (some a) = elim (Bool-cases a.is_active) [ inl on ↦ rw on h | inr off ↦ rw off h ]

  reset_password-IsSpent :
      (now t password : ℕ) (db : Vault)
      → IsSpent c raw db
      → IsSpent c raw (reset_password c now t password db).1
  unfolding reset_password
  reset_password-IsSpent now t password db h = found (find_reset (c.digest t) db.resets)
    where
      for_user : (r : ResetToken) (u : Option ℕ) → IsSpent c raw (reset_for c now password r u db).1
      for_user r none = h
      for_user r (some user) = elim (Bool-cases (is_some r.used_at || leb r.expires_at now)) [
        | inl refused ↦ rw refused h
        | inr open' ↦ rw open' (revoke_all-IsSpent c raw now user _ h)
      ]

      found : (o : Option ResetToken) → IsSpent c raw (reset_found c now password o db).1
      found none = h
      found (some r) = for_user r r.user_id

  change_password-IsSpent :
      (now user current new : ℕ) (db : Vault)
      → IsSpent c raw db
      → IsSpent c raw (change_password c now user current new db).1
  unfolding change_password
  change_password-IsSpent now user current new db h = found (find_account user db.accounts)
    where
      kept :
          (u : ℕ) (current : List Session) (v : Vault)
          → IsSpent c raw v
          → IsSpent c raw (keep_newest now u current v)
      kept u [] v g = g
      kept u (s ∷ []) v g = g
      kept u (s ∷ t ∷ more) v g =
          all-update (is_spent c raw) (λ x. is_live_of u x && not (x.id == s.id)) (as_revoked now)
            v.sessions (revoked-spent c raw now) g

      found : (o : Option Account) → IsSpent c raw (change_for c now current new o db).1
      found none = h
      found (some a) = elim (Bool-cases (c.compare current a.password_hash)) [
        | inl right ↦ rw right (kept a.id (keep_if (is_current_of now a.id) db.sessions) _ h)
        | inr wrong ↦ rw wrong h
      ]

  select_workshop-IsSpent :
      (now user w : ℕ) (db : Vault)
      → IsSpent c raw db
      → IsSpent c raw (select_workshop now user w db).1
  unfolding select_workshop
  select_workshop-IsSpent now user w db h = found (find_account user db.accounts)
    where
      chosen : (o : Option Session) → IsSpent c raw (select_session w o db)
      chosen none = h
      chosen (some s) =
          all-update (is_spent c raw) (λ x. x.id == s.id) (into_workshop w) db.sessions (λ x k. k) h

      found : (o : Option Account) → IsSpent c raw (select_for now w o db).1
      found none = h
      found (some a) = elim (Bool-cases a.is_active) [
        | inr off ↦ rw off h
        | inl on ↦ elim (Bool-cases (is_platform_admin a.role || has_access a.id w db)) [
          | inr outside ↦ rw (on, outside) h
          | inl inside ↦ elim (Bool-cases (is_open w db)) [
            | inr closed ↦ rw (on, inside, closed) h
            | inl there ↦
                rw (on, inside, there) (chosen (find_first (is_current_of now a.id) db.sessions))
          ]
        ]
      ]

  -- A call that issues a token issues another than this one.
  abbrev pub is_apart : Call → Bool
  is_apart (logs_in _ _ new _ _) = not (c.digest new == c.digest raw)
  is_apart (refreshes _ _ new _) = not (c.digest new == c.digest raw)
  is_apart _ = true

  step-IsSpent :
      (call : Call) (db : Vault)
      → is_apart call ≡ true
      → IsSpent c raw db
      → IsSpent c raw (step c db call)
  unfolding step
  step-IsSpent (logs_in now id new email password) db a h =
      login-IsSpent c raw now id new email password db (ground arith) h
  step-IsSpent (refreshes now id new old) db a h =
      refresh-IsSpent now id new old db (ground arith) h
  step-IsSpent (logs_out now user) db a h = revoke_all-IsSpent c raw now user db h
  step-IsSpent (logs_out_token now t) db a h = log_out_token-IsSpent now t db h
  step-IsSpent (revokes now id user) db a h = revoke_session-IsSpent now id user db h
  step-IsSpent (forgets now id t email) db a h = forgot_password-IsSpent now id t email db h
  step-IsSpent (resets now t password) db a h = reset_password-IsSpent now t password db h
  step-IsSpent (changes now user current new) db a h =
      change_password-IsSpent now user current new db h
  step-IsSpent (selects now user w) db a h = select_workshop-IsSpent now user w db h

  pub run-IsSpent :
      (calls : List Call) (db : Vault)
      → all is_apart calls ≡ true
      → IsSpent c raw db
      → IsSpent c raw (run c db calls)
  unfolding run
  run-IsSpent [] db a h = h
  run-IsSpent (call ∷ calls) db a h =
      run-IsSpent calls (step c db call) (ground arith) (step-IsSpent call db (ground arith) h)
