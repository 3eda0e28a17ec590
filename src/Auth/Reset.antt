-- ===== src/Auth/Reset.antt =====
-- A reset of a password (`resetPassword` of src/auth/auth.service.ts).
use superflow_api.Base.{
  ℕ, ◌<◌, ◌≡◌, refl, true, false, not, none, some, List, [], ◌∷◌, arith, ◌==◌, leb, update_where,
  all, Bool-cases, inl, inr,
}
use superflow_api.Base.Rows.{find-update_own}
use superflow_api.Base.Text.{Text, same_text}
use superflow_api.Auth.Types.{
  Crypto, Account, Session, ResetToken, Vault, returns, throws, is_returned, invalid_reset,
}
use superflow_api.Auth.Login.{login, log_in, normalized, find_email}
use superflow_api.Auth.Service.{
  revoke_all, find_reset, reset_password, with_password, as_used, as_revoked, is_live_of,
}
use superflow_api.Auth.Renewal.{login-right}

none_live :
    (now user : ℕ) (l : List Session)
    → all (λ s. not (is_live_of user s)) (update_where (is_live_of user) (as_revoked now) l) ≡ true
none_live now user [] = refl
none_live now user (s ∷ l) = elim (Bool-cases (is_live_of user s)) [
  | inl live ↦ rw live (ground (arith, none_live now user l))
  | inr over ↦ rw over (ground (arith, over, none_live now user l))
]

module _ (c : Crypto) (now raw password : ℕ) (db : Vault) (t : ResetToken) (a : Account)
    (found : find_reset (c.digest raw) db.resets ≡ some t) (own : t.user_id ≡ some a.id)
    (unused : t.used_at ≡ none) (early : now < t.expires_at) where
  -- The rows after the reset
  abbrev reset_rows : Vault
  reset_rows = record db {
    accounts = update_where (λ x. x.id == a.id) (with_password (c.hash password)) db.accounts;
    resets = update_where (λ x. x.id == t.id) (as_used now) db.resets;
    sessions = update_where (is_live_of a.id) (as_revoked now) db.sessions;
  }

  reset_password-eq : reset_password c now raw password db ≡ (returns tt, reset_rows)
  unfolding reset_password revoke_all
  reset_password-eq =
      let late : leb t.expires_at now ≡ false = ground arith in
      rw found (rw own (rw unused (rw late refl)))

  used_refused : (now' p : ℕ) → (reset_password c now' raw p reset_rows).0 ≡ throws invalid_reset
  unfolding reset_password
  used_refused now' p =
      let again =
        find-update_own (λ x. x.token_hash == c.digest raw) (λ x. x.id == t.id) (as_used now)
          db.resets t (λ _. refl) found (ground arith) in
      rw again (rw own refl)

  new_password_enters :
      (e : Text)
      → normalized e ≡ e
      → find_email e db.accounts ≡ some a
      → a.is_active ≡ true
      → (now' id new : ℕ) → is_returned (login c now' id new e password reset_rows).0 ≡ true
  unfolding log_in
  new_password_enters e plain at' active' now' id new =
      let b = with_password (c.hash password) a in
      let there : find_email e reset_rows.accounts ≡ some b =
        find-update_own (λ x. same_text x.email e) (λ x. x.id == a.id)
          (with_password (c.hash password)) db.accounts a (λ _. refl) at' (ground arith) in
      rw
        (login-right c now' id new e password reset_rows b plain there active' refl
          (c.compare_hash password))
        refl

-- A reset with a link that is pending succeeds, and then the new password is the one that counts:
-- a login with it succeeds at any time, if the account is active, though it was locked before; no
-- session of the account goes on; and the link cannot be used again. The account is found by its
-- address, which is as it is stored.
pub reset_password-login :
    (c : Crypto) (now raw password : ℕ) (e : Text) (db : Vault) (t : ResetToken) (a : Account)
    → find_reset (c.digest raw) db.resets ≡ some t
    → t.user_id ≡ some a.id
    → t.used_at ≡ none
    → now < t.expires_at
    → normalized e ≡ e
    → find_email e db.accounts ≡ some a
    → a.is_active ≡ true
    → let db' = (reset_password c now raw password db).1 in
      ((reset_password c now raw password db).0 ≡ returns tt)
      × ((now' id new : ℕ) → is_returned (login c now' id new e password db').0 ≡ true)
      × (all (λ s. not (is_live_of a.id s)) db'.sessions ≡ true)
      × ((now' p : ℕ) → (reset_password c now' raw p db').0 ≡ throws invalid_reset)
reset_password-login c now raw password e db t a found own unused early plain at' active' =
    let done = reset_password-eq c now raw password db t a found own unused early in
    (
      rw done refl,
      λ now' id new. rw done (
          new_password_enters c now raw password db t a found own unused early e plain at' active'
            now' id new),
      rw done (none_live now a.id db.sessions),
      λ now' p. rw done (used_refused c now raw password db t a found own unused early now' p),
    )
