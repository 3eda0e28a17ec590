-- ===== src/Access/Ceilings.antt =====
-- The use of a feature stays within its plan's ceiling (src/common/guards/plan-feature.guard.ts,
-- src/common/plan-features/usage.service.ts).
use superflow_api.Base.{
  ℕ, ◌+◌, ◌≤◌, ◌<◌, ◌≡◌, refl, sym, subst, Bool-cases, Bool, true, not, ◌&&◌, some, List, [], ◌∷◌,
  arith, all, same_option, update_where, ok, err, Result, HttpError, ◌⊎◌, Option-cases, inl, inr,
  >>=-eq-ok, throw_if-eq-ok, or_throw-eq-ok,
}
use superflow_api.Access.Accounts.{User, Accounts, metered, PlanFeature, UsageRecord}
use superflow_api.Access.Usage.{
  increment, add_count, usage_of, is_usage, count_of, plan_of, plan_feature_of, current_count,
  check_ceiling,
}
use superflow_api.Access.Guards.{
  Reason, is_platform_admin, plan_feature_guard, plan_feature_of_user, resolved_workshop,
}

-- What a workshop has used of a metered feature in a period.
abbrev pub used : ℕ → ℕ → ℕ → Accounts → ℕ
used w n period db = count_of (usage_of w (metered n) period db.usage)

-- The count after an increment is the count before it, and the increment.
increment-count :
    (w n period delta : ℕ) (usage : List UsageRecord)
    → count_of (usage_of w (metered n) period (increment w (metered n) period delta usage))
      ≡ count_of (usage_of w (metered n) period usage) + delta
unfolding increment
increment-count w n period delta usage = elim (Option-cases (usage_of w (metered n) period usage)) [
  | inl none' ↦ rw none' (ground arith)
  | inr (r, at) ↦ rw at (found usage r at)
]
  where
    found :
        (usage : List UsageRecord) (r : UsageRecord)
        → usage_of w (metered n) period usage ≡ some r
        → count_of (
            usage_of w
              (metered n)
              period
              (update_where (is_usage w (metered n) period) (add_count delta) usage))
          ≡ r.count + delta
    found [] r at = cc
    found (x ∷ usage) r at = elim (Bool-cases (is_usage w (metered n) period x)) [
      | inl here ↦ simp here (ground (arith, here, at))
      | inr there ↦ simp there (found usage r (ground (arith, there, at)))
    ]

Result-cases : (r : Result Reason (Unit {0})) → (r ≡ ok tt) ⊎ ((e : HttpError Reason) × (r ≡ err e))
Result-cases (ok tt) = inl refl
Result-cases (err e) = inr (e, refl)

-- A request that uses a metered feature: the guard, and the increment where it lets it through.
abbrev pub counted : ℕ → ℕ → ℕ → Accounts → Result Reason (Unit {0}) → Accounts
counted w n period db (ok _) = record db { usage = increment w (metered n) period 1 db.usage }
counted w n period db (err _) = db

unfoldable pub attempt : ℕ → ℕ → ℕ → ℕ → User → Accounts → Accounts
attempt free w n period user db =
    counted w n period db (plan_feature_guard free (some (metered n)) period (some user) db)

unfoldable pub attempts : ℕ → ℕ → ℕ → ℕ → List User → Accounts → Accounts
attempts free w n period [] db = db
attempts free w n period (user ∷ users) db =
    attempts free w n period users (attempt free w n period user db)

-- A user of the workshop who is no administrator of the platform
abbrev pub is_of_workshop : ℕ → User → Bool
is_of_workshop w user = same_option user.workshop_id (some w) && not (is_platform_admin user.role)

-- The guard lets such a user through only below the ceiling.
guard-below :
    (free w n period : ℕ) (user : User) (db : Accounts) (f : PlanFeature) (c : ℕ)
    → is_of_workshop w user ≡ true
    → plan_feature_of (plan_of free w db) (metered n) db ≡ some f
    → f.ceiling ≡ some c
    → plan_feature_guard free (some (metered n)) period (some user) db ≡ ok tt
    → used w n period db < c
unfolding plan_feature_guard plan_feature_of_user check_ceiling current_count resolved_workshop
guard-below free w n period user db f c own feature ceiling passed =
    let inner : plan_feature_of_user free (metered n) period user db ≡ ok tt =
      ground (arith, passed) in
    let (sub, _, h1) = >>=-eq-ok _ _ inner in
    let (v, resolved, h2) = >>=-eq-ok _ _ h1 in
    let (_, _, allowed) = >>=-eq-ok _ _ h2 in
    let same : w ≡ v = ground (arith, or_throw-eq-ok _ _ resolved) in
    ground (
      arith,
      subst (λ v. (check_ceiling free v (metered n) period db).is_allowed ≡ true) (sym same)
          (ground (arith, throw_if-eq-ok _ _ allowed)),
      feature,
      ceiling,
    )

-- An attempt leaves the plans, and stays within the ceiling.
attempt-within :
    (free w n period : ℕ) (user : User) (db : Accounts) (f : PlanFeature) (c : ℕ)
    → is_of_workshop w user ≡ true
    → plan_feature_of (plan_of free w db) (metered n) db ≡ some f
    → f.ceiling ≡ some c
    → used w n period db ≤ c
    → let db' = attempt free w n period user db in
      (plan_feature_of (plan_of free w db') (metered n) db' ≡ some f) × (used w n period db' ≤ c)
unfolding attempt plan_feature_of plan_of
attempt-within free w n period user db f c own feature ceiling within =
    elim (Result-cases (plan_feature_guard free (some (metered n)) period (some user) db)) [
      | inl passed ↦ rw passed (
        feature,
        ground (
          arith,
          guard-below free w n period user db f c own feature ceiling passed,
          increment-count w n period 1 db.usage,
        ),
      )
      | inr (e, refused) ↦ rw refused (feature, within)
    ]

-- However often the staff of a workshop make requests that use a metered feature of a limited
-- plan, each counted once it is let through, the workshop's use in a period stays within the
-- plan's ceiling, if it is within it at the start: a request is let through only below the
-- ceiling. The requests follow one another.
pub attempts-within :
    (free w n period : ℕ) (users : List User) (db : Accounts) (f : PlanFeature) (c : ℕ)
    → all (is_of_workshop w) users ≡ true
    → plan_feature_of (plan_of free w db) (metered n) db ≡ some f
    → f.ceiling ≡ some c
    → used w n period db ≤ c
    → used w n period (attempts free w n period users db) ≤ c
unfolding attempts
attempts-within free w n period [] db f c own feature ceiling within = within
attempts-within free w n period (user ∷ users) db f c own feature ceiling within =
    let (feature', within') =
      attempt-within free w n period user db f c (ground arith) feature ceiling within in
    attempts-within free w n period users (attempt free w n period user db) f c (ground arith)
      feature' ceiling within'
