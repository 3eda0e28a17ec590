-- ===== src/Access/Usage.antt =====
-- `UsageService` (src/common/plan-features/usage.service.ts)
use superflow_api.Base.{
  ℕ, ◌+◌, Bool, true, ◌&&◌, Option, none, some, List, ◌∷◌, ◌==◌, ltb, length, find_first, keep_if,
  update_where,
}
use superflow_api.Access.Accounts.{
  Accounts, Subscription, PlanFeature, UsageRecord, FeatureKey, max_users, max_locations, metered,
  same_feature, grants_plan,
}

abbrev pub is_usage : ℕ → FeatureKey → ℕ → UsageRecord → Bool
is_usage w feature period r =
    r.workshop_id == w && same_feature r.feature_key feature && r.period == period

abbrev pub usage_of : ℕ → FeatureKey → ℕ → List UsageRecord → Option UsageRecord
usage_of w feature period = find_first (is_usage w feature period)

abbrev pub add_count : ℕ → UsageRecord → UsageRecord
add_count delta r = record r { count = r.count + delta }

-- The record that is there is raised, or a new one is added.
abbrev pub raised :
    ℕ → FeatureKey → ℕ → ℕ → List UsageRecord → Option UsageRecord → List UsageRecord
raised w feature period delta usage (some _) =
    update_where (is_usage w feature period) (add_count delta) usage
raised w feature period delta usage none =
    record { workshop_id = w; feature_key = feature; period = period; count = delta } ∷ usage

-- `increment`. A workshop has one record of a feature in a period.
unfoldable pub increment : ℕ → FeatureKey → ℕ → ℕ → List UsageRecord → List UsageRecord
increment w feature period delta usage =
    raised w feature period delta usage (usage_of w feature period usage)

-- The plan of a workshop's newest subscription that grants one; `free` stands for `free_trial`.
abbrev plan_or : ℕ → Option Subscription → ℕ
plan_or free none = free
plan_or free (some s) = s.plan_id

unfoldable pub plan_of : ℕ → ℕ → Accounts → ℕ
plan_of free w db =
    plan_or free (find_first (λ s. s.workshop_id == w && grants_plan s.status) db.subscriptions)

unfoldable pub plan_feature_of : ℕ → FeatureKey → Accounts → Option PlanFeature
plan_feature_of plan feature db =
    find_first (λ f. f.plan_id == plan && same_feature f.feature_key feature) db.plan_features

abbrev pub count_of : Option UsageRecord → ℕ
count_of none = 0
count_of (some r) = r.count

unfoldable pub current_count : ℕ → FeatureKey → ℕ → Accounts → ℕ
current_count w max_users period db = length (keep_if (λ a. a.workshop_id == w) db.access)
current_count w max_locations period db =
    length (keep_if (λ x. x.id == w && x.is_active) db.workshops)
current_count w (metered n) period db = count_of (usage_of w (metered n) period db.usage)

abbrev pub ceiling_of : Option PlanFeature → Option ℕ
ceiling_of none = none
ceiling_of (some f) = f.ceiling

abbrev pub is_below : ℕ → Option ℕ → Bool
is_below count none = true
is_below count (some ceiling) = ltb count ceiling

pub record Ceiling : Type 0 where
  pub count : ℕ
  pub ceiling : Option ℕ
  pub is_allowed : Bool
  pub plan_id : ℕ

-- `checkCeiling`
unfoldable pub check_ceiling : ℕ → ℕ → FeatureKey → ℕ → Accounts → Ceiling
check_ceiling free w feature period db =
    let plan = plan_of free w db in
    let ceiling = ceiling_of (plan_feature_of plan feature db) in
    let count = current_count w feature period db in
    record { count = count; ceiling = ceiling; is_allowed = is_below count ceiling; plan_id = plan }
