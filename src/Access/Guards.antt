-- ===== src/Access/Guards.antt =====
-- The guards of src/common/guards. A guard lets a request through, or throws.
use superflow_api.Base.{
  ℕ, Bool, true, false, not, ◌||◌, ◌&&◌, Option, none, some, List, [], ◌∷◌, ◌==◌, ltb, find_first,
  any, is_some, if◌then◌else◌, Result, ok, err, forbidden, ◌>>=◌, ◌>>◌, throw_if, or_throw,
}
use superflow_api.Access.Accounts.{
  Role, platform_admin, staff, User, Subscription, Workshop, AccessRow, Accounts, FeatureKey,
  PlanFeature, is_active_status,
}
use superflow_api.Access.Usage.{plan_of, plan_feature_of, ceiling_of, check_ceiling}

pub data Reason : Type 0 where
  authentication_required missing_permission trial_expired : Reason
  no_workshop plan_feature_required plan_limit_reached : Reason

abbrev pub is_platform_admin : Role → Bool
is_platform_admin platform_admin = true
is_platform_admin _ = false

-- The roles that `PermissionsGuard` always lets through
abbrev pub is_administrator : Role → Bool
is_administrator (staff _) = false
is_administrator _ = true

abbrev pub first_of : Option ℕ → Option ℕ → Option ℕ
first_of none b = b
first_of (some a) _ = some a

abbrev pub workshop_trial : Option Workshop → Option ℕ
workshop_trial none = none
workshop_trial (some w) = w.trial_ends_at

-- `expiry`: the workshop's own only where it has no subscription.
abbrev pub expiry_of : ℕ → Option Subscription → Accounts → Option ℕ
expiry_of w none db = workshop_trial (find_first (λ x. x.id == w) db.workshops)
expiry_of w (some s) db = first_of s.trial_ends_at s.current_period_ends_at

abbrev pub is_granted : Option Subscription → Bool
is_granted none = false
is_granted (some s) = is_active_status s.status

abbrev pub is_running : ℕ → Option ℕ → Bool
is_running now none = true
is_running now (some expiry) = ltb now expiry

-- Does the workshop's trial or subscription allow a write?
unfoldable pub trial_runs : ℕ → ℕ → Accounts → Bool
trial_runs now w db =
    let s = find_first (λ s. s.workshop_id == w) db.subscriptions in
    is_granted s || is_running now (expiry_of w s db)

abbrev pub trial_of : ℕ → Option ℕ → Accounts → Bool
trial_of now none db = true
trial_of now (some w) db = trial_runs now w db

-- `assertTrialAllowsRequest`
unfoldable pub assert_trial : ℕ → User → Bool → Accounts → Result Reason (Unit {0})
assert_trial now user is_get db =
    throw_if (not (is_platform_admin user.role || is_get || trial_of now user.workshop_id db))
      (forbidden trial_expired)

-- `requiredPermissions.some((p) => userPermissions.includes(p))`
abbrev pub holds_one : List ℕ → List ℕ → Bool
holds_one required held = any (λ p. any (λ q. q == p) held) required

abbrev pub is_empty : List ℕ → Bool
is_empty [] = true
is_empty (_ ∷ _) = false

-- `PermissionsGuard.canActivate`, for a user
unfoldable pub permissions_of_user : ℕ → List ℕ → User → Bool → Accounts → Result Reason (Unit {0})
permissions_of_user now required user is_get db = do
  assert_trial now user is_get db
  throw_if (not (holds_one required user.permissions)) (forbidden missing_permission)

unfoldable pub permissions_guard :
    ℕ → List ℕ → Option User → Bool → Accounts → Result Reason (Unit {0})
permissions_guard now required none is_get db =
    if is_empty required then ok tt else err (forbidden authentication_required)
permissions_guard now required (some user) is_get db =
    if is_empty required || is_administrator user.role
    then ok tt
    else permissions_of_user now required user is_get db

abbrev workshop_ids : Option AccessRow → Option ℕ
workshop_ids none = none
workshop_ids (some a) = some a.workshop_id

-- The workshop of a token, or the first that the user has access to.
unfoldable pub resolved_workshop : User → ℕ → Accounts → Option ℕ
resolved_workshop user sub db =
    first_of user.workshop_id (workshop_ids (find_first (λ a. a.user_id == sub) db.access))

-- `WorkshopGuard.canActivate`: the request goes on with the user's workshop.
abbrev workshop_of_sub : Option ℕ → User → Accounts → Option ℕ
workshop_of_sub none user db = none
workshop_of_sub (some sub) user db = resolved_workshop user sub db

unfoldable workshop_guard : User → Accounts → Result Reason User
workshop_guard user db =
    if is_platform_admin user.role || is_some user.workshop_id then ok user else do
      w ← or_throw (workshop_of_sub user.sub user db) (forbidden no_workshop)
      ok (record user { workshop_id = some w })

abbrev is_included : Option PlanFeature → Bool
is_included none = false
is_included (some f) = f.is_included

-- `PlanFeatureGuard.canActivate`, past the tests that let a request through unasked
unfoldable pub plan_feature_of_user :
    ℕ → FeatureKey → ℕ → User → Accounts → Result Reason (Unit {0})
plan_feature_of_user free feature period user db = do
  sub ← or_throw user.sub (forbidden authentication_required)
  w ← or_throw (resolved_workshop user sub db) (forbidden no_workshop)
  throw_if (not (is_included (plan_feature_of (plan_of free w db) feature db)))
      (forbidden plan_feature_required)
  throw_if
      (is_some (ceiling_of (plan_feature_of (plan_of free w db) feature db))
        && not (check_ceiling free w feature period db).is_allowed)
      (forbidden plan_limit_reached)

unfoldable pub plan_feature_guard :
    ℕ → Option FeatureKey → ℕ → Option User → Accounts → Result Reason (Unit {0})
plan_feature_guard free none period user db = ok tt
plan_feature_guard free (some feature) period none db = ok tt
plan_feature_guard free (some feature) period (some user) db =
    if is_platform_admin user.role then ok tt else plan_feature_of_user free feature period user db
