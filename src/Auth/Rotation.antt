-- ===== src/Auth/Rotation.antt =====
-- A refresh token serves once (`refresh` of src/auth/auth.service.ts).
use superflow_api.Base.{
  ℕ, ◌≡◌, refl, sym, subst, Bool, true, false, not, ◌||◌, Option, none, some, List, [], ◌∷◌, arith,
  ◌==◌, update_where, is_some, all, Option-cases, Bool-cases, inl, inr,
}
use superflow_api.Auth.Types.{Crypto, Account, Session, Vault, is_returned}
use superflow_api.Auth.Login.{find_account, is_over}
use superflow_api.Auth.Service.{find_session, as_revoked, revoke_one, refresh, refresh_for, reissue}
use superflow_api.Auth.Change.{Call, run}
use superflow_api.Auth.Spent.{
  answers, is_spent, IsSpent, find_session-all, find_session-answers, find_session-spent,
  add-IsSpent,
}
use superflow_api.Auth.Spent.Sessions.{is_apart, run-IsSpent}

module _ (c : Crypto) (raw : ℕ) where
  -- Only the session `k` answers the token.
  abbrev pub is_alone : ℕ → Session → Bool
  is_alone k s = not (answers c raw s) || s.id == k

  revoked_alone :
      (now k : ℕ) (l : List Session)
      → all (is_alone k) l ≡ true
      → all (is_spent c raw) (update_where (λ s. s.id == k) (as_revoked now) l) ≡ true
  revoked_alone now k [] h = refl
  revoked_alone now k (s ∷ l) h = ground (arith, revoked_alone now k l)

  reissue-spends :
      (now id new user : ℕ) (w : Option ℕ) (o : Option Account) (db : Vault)
      → (c.digest new == c.digest raw) ≡ false
      → IsSpent c raw db
      → is_returned (reissue c now id new user w o db).0 ≡ true
      → IsSpent c raw (reissue c now id new user w o db).1
  unfolding reissue
  reissue-spends now id new user w none db apart h r = cc
  reissue-spends now id new user w (some a) db apart h r = elim (Bool-cases a.is_active) [
    | inl on ↦ rw on (add-IsSpent c raw now id new a.id w db.sessions apart h)
    | inr off ↦ cc (rw off at r)
  ]

  refresh_for-spends :
      (now id new k : ℕ) (s : Session) (u : Option ℕ) (db : Vault)
      → (c.digest new == c.digest raw) ≡ false
      → s.id ≡ k
      → all (is_alone k) db.sessions ≡ true
      → is_returned (refresh_for c now id new s u db).0 ≡ true
      → IsSpent c raw (refresh_for c now id new s u db).1
  refresh_for-spends now id new k s none db apart same alone r = cc
  refresh_for-spends now id new k s (some user) db apart same alone r =
      let ended : IsSpent c raw (revoke_one now s.id db) =
        subst
          (λ n.
            all (is_spent c raw) (update_where (λ x. x.id == n) (as_revoked now) db.sessions)
            ≡ true)
          (sym same) (revoked_alone now k db.sessions alone) in
      let renewed =
        reissue-spends now id new user s.workshop_id (find_account user db.accounts)
          (revoke_one now s.id db) apart ended in
      elim (Bool-cases (is_some s.revoked_at)) [
        | inl revoked ↦ cc (rw revoked at r)
        | inr live ↦ elim (Bool-cases (is_over s.expires_at now)) [
          | inl over ↦ cc (rw (live, over) at r)
          | inr on ↦ rw (live, on) (renewed (rw (live, on) at r))
        ]
      ]

  refresh-spends :
      (now id new k : ℕ) (db : Vault)
      → (c.digest new == c.digest raw) ≡ false
      → all (is_alone k) db.sessions ≡ true
      → is_returned (refresh c now id new raw db).0 ≡ true
      → IsSpent c raw (refresh c now id new raw db).1
  unfolding refresh
  refresh-spends now id new k db apart alone r =
      elim (Option-cases (find_session c now raw db.sessions)) [
        | inl none' ↦ cc (rw none' at r)
        | inr (s, at') ↦
            rw at'
              (refresh_for-spends now id new k s s.user_id db apart (own s at') alone (rw at' at r))
      ]
    where
      own : (s : Session) → find_session c now raw db.sessions ≡ some s → s.id ≡ k
      own s found = ground (
        arith,
        find_session-answers c raw now db.sessions s found,
        find_session-all c raw (is_alone k) now db.sessions s alone found,
      )

  spent-refused :
      (now id new : ℕ) (db : Vault)
      → IsSpent c raw db
      → is_returned (refresh c now id new raw db).0 ≡ false
  unfolding refresh
  spent-refused now id new db h = elim (Option-cases (find_session c now raw db.sessions)) [
    | inl none' ↦ rw none' refl
    | inr (s, at') ↦ rw at' (refused s s.user_id (find_session-spent c raw now db.sessions s h at'))
  ]
    where
      refused :
          (s : Session) (u : Option ℕ)
          → is_some s.revoked_at ≡ true
          → is_returned (refresh_for c now id new s u db).0 ≡ false
      refused s none revoked = refl
      refused s (some user) revoked = rw revoked refl

-- A refresh token serves once: when a refresh with it has returned, none returns again, after any
-- history of logins, refreshes, logouts, resets and changes of passwords and choices of a
-- workshop, at any time. Only one session answers the token, by its digest or as an old row, and
-- no other token that is issued has its digest.
pub refresh-once :
    (c : Crypto) (raw : ℕ) (now id new k : ℕ) (db : Vault) (calls : List Call) (now' id' new' : ℕ)
    → all (is_alone c raw k) db.sessions ≡ true
    → (c.digest new == c.digest raw) ≡ false
    → all (is_apart c raw) calls ≡ true
    → is_returned (refresh c now id new raw db).0 ≡ true
    → is_returned (refresh c now' id' new' raw (run c (refresh c now id new raw db).1 calls)).0
      ≡ false
refresh-once c raw now id new k db calls now' id' new' alone apart others served =
    let spent = refresh-spends c raw now id new k db apart alone served in
    spent-refused c raw now' id' new' _
      (run-IsSpent c raw calls (refresh c now id new raw db).1 others spent)
