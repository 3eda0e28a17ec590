-- ===== src/Access/Accounts.antt =====
-- The users, subscriptions and plans that the guards read. Permissions, plans, workshops, periods
-- and times are only compared, so they are numbers.
use superflow_api.Base.{ℕ, Bool, true, false, Option, List, ◌==◌}

-- `platform_admin`, `admin`, `workshop_admin`, or the number of another role
pub data Role : Type 0 where
  platform_admin admin workshop_admin : Role
  staff : ℕ → Role

-- The user of a token
pub record User : Type 0 where
  pub sub : Option ℕ
  pub role : Role
  pub workshop_id : Option ℕ
  pub permissions : List ℕ

-- A subscription's `status`; the rest are the ones that grant nothing.
pub data SubscriptionStatus : Type 0 where
  active paid manual_active trialing comped : SubscriptionStatus
  lapsed : ℕ → SubscriptionStatus

pub record Subscription : Type 0 where
  pub workshop_id : ℕ
  pub plan_id : ℕ
  pub status : SubscriptionStatus
  pub trial_ends_at : Option ℕ
  pub current_period_ends_at : Option ℕ

pub record Workshop : Type 0 where
  pub id : ℕ
  pub is_active : Bool
  pub trial_ends_at : Option ℕ

pub record AccessRow : Type 0 where
  pub user_id : ℕ
  pub workshop_id : ℕ

-- `max_users`, `max_locations`, or a feature whose uses are recorded
pub data FeatureKey : Type 0 where
  max_users max_locations : FeatureKey
  metered : ℕ → FeatureKey

pub record PlanFeature : Type 0 where
  pub plan_id : ℕ
  pub feature_key : FeatureKey
  pub is_included : Bool
  pub ceiling : Option ℕ

pub record UsageRecord : Type 0 where
  pub workshop_id : ℕ
  pub feature_key : FeatureKey
  pub period : ℕ
  pub count : ℕ

-- Rows stand newest first.
pub record Accounts : Type 0 where
  pub subscriptions : List Subscription
  pub workshops : List Workshop
  pub access : List AccessRow
  pub plan_features : List PlanFeature
  pub usage : List UsageRecord

abbrev pub same_feature : FeatureKey → FeatureKey → Bool
same_feature max_users max_users = true
same_feature max_locations max_locations = true
same_feature (metered a) (metered b) = a == b
same_feature _ _ = false

-- `status: { in: ['active', 'paid', 'manual_active', 'trialing', 'comped'] }`
abbrev pub grants_plan : SubscriptionStatus → Bool
grants_plan (lapsed _) = false
grants_plan _ = true

-- `activeStatuses`, which is the same without `trialing`
abbrev pub is_active_status : SubscriptionStatus → Bool
is_active_status trialing = false
is_active_status (lapsed _) = false
is_active_status _ = true
