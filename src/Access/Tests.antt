-- ===== src/Access/Tests.antt =====
-- A workshop on a trial, and the theorems at concrete inputs.
use superflow_api.Base.{
  ℕ, ◌≤◌, ◌≡◌, ◌↔◌, ◌⊎◌, refl, true, false, none, some, [], ◌∷◌, arith, ok, ◌>>=◌,
}
use superflow_api.Access.Accounts.{staff, User, trialing, metered, PlanFeature, Accounts}
use superflow_api.Access.Usage.{plan_of, plan_feature_of, current_count, check_ceiling, increment}
use superflow_api.Access.Guards.{
  trial_runs, permissions_guard, resolved_workshop, plan_feature_of_user, plan_feature_guard,
  trial_of,
}
use superflow_api.Access.Trial.{IsIn, MayWrite, permissions_guard-staff}
use superflow_api.Access.Ceilings.{used, attempt, attempts, attempts-within}

abbrev advisor : User
advisor = record { sub = some 7; role = staff 1; workshop_id = some 1; permissions = 30 ∷ 31 ∷ [] }

abbrev two_jobs : PlanFeature
two_jobs = record { plan_id = 100; feature_key = metered 5; is_included = true; ceiling = some 2 }

abbrev accounts : Accounts
accounts = record {
  subscriptions =
      record {
        workshop_id = 1;
        plan_id = 100;
        status = trialing;
        trial_ends_at = some 50;
        current_period_ends_at = none;
      }
      ∷ [];
  workshops = record { id = 1; is_active = true; trial_ends_at = none } ∷ [];
  access = record { user_id = 7; workshop_id = 1 } ∷ [];
  plan_features = two_jobs ∷ [];
  usage = [];
}

-- The third of three attempts is refused.
three_attempts : used 1 5 6 (attempts 99 1 5 6 (advisor ∷ advisor ∷ advisor ∷ []) accounts) ≡ 2
unfolding attempts attempt plan_feature_guard plan_feature_of_user resolved_workshop check_ceiling
    current_count plan_of plan_feature_of increment ◌>>=◌
three_attempts = refl

attempts-within_example :
    used 1 5 6 (attempts 99 1 5 6 (advisor ∷ advisor ∷ advisor ∷ []) accounts) ≤ 2
unfolding plan_of plan_feature_of
attempts-within_example =
    attempts-within 99 1 5 6 (advisor ∷ advisor ∷ advisor ∷ []) accounts two_jobs 2 refl refl refl
      (omega arith)

-- At the time 60 the trial is over: the advisor reads and does not write.
permissions_guard-staff_example :
    (permissions_guard 60 (31 ∷ []) (some advisor) false accounts ≡ ok tt) ↔ (
      ((p : ℕ) × IsIn p (31 ∷ []) × IsIn p advisor.permissions)
      × ((false ≡ true) ⊎ MayWrite 60 (some 1) accounts))
permissions_guard-staff_example =
    permissions_guard-staff 60 (31 ∷ []) advisor false accounts refl refl

expired : trial_of 60 (some 1) accounts ≡ false
unfolding trial_runs
expired = refl
