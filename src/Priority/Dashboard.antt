-- ===== src/Priority/Dashboard.antt =====
-- `computeAll` and `getAdvisorDashboard` (src/priority/priority.service.ts). The rows of the jobs
-- are given in the order of the query, which is by the time of the last update.
use superflow_api.Base.{
  ℕ, Bool, true, false, not, ◌&&◌, ◌||◌, Option, none, some, List, [], ◌∷◌, map, leb, ltb, length,
  take, keep_if, any, is_some, or_else, same_option, if◌then◌else◌,
}
use superflow_api.Jobs.Status.{JobStatus, closed, no_show, same_status}
use superflow_api.Priority.Factors.{FactorKey, waiting_customer_decision, PriorityJob, due_within}
use superflow_api.Priority.Action.{by_advisor, by_customer, owner}
use superflow_api.Priority.Score.{critical, high, PriorityResult, compute_for_job}

pub record Options : Type 0 where
  pub statuses : Option (List JobStatus)
  pub advisor_id : Option ℕ
  pub limit : Option ℕ

abbrev has_status : Option (List JobStatus) → JobStatus → Bool
has_status none s = not (same_status s closed || same_status s no_show)
has_status (some statuses) s = any (same_status s) statuses

abbrev has_advisor : Option ℕ → PriorityJob → Bool
has_advisor none j = true
has_advisor (some id) j = same_option j.advisor_id (some id)

-- `where`
abbrev pub is_selected : Options → PriorityJob → Bool
is_selected opts j =
    not j.is_deleted
    && not (is_some j.archived_at)
    && has_status opts.statuses j.status
    && has_advisor opts.advisor_id j

-- `sort((a, b) => b.score - a.score)`, which keeps the order of equal scores.
unfoldable pub insert : PriorityResult → List PriorityResult → List PriorityResult
insert r [] = r ∷ []
insert r (s ∷ rest) =
    let further = insert r rest in if ltb r.score s.score then s ∷ further else r ∷ s ∷ rest

unfoldable pub sort_by_score : List PriorityResult → List PriorityResult
sort_by_score [] = []
sort_by_score (r ∷ rest) = insert r (sort_by_score rest)

-- The rows that the query returns.
abbrev pub selected : Options → List PriorityJob → List PriorityJob
selected opts jobs = take (or_else opts.limit 200) (keep_if (is_selected opts) jobs)

unfoldable pub compute_all : ℕ → Options → List PriorityJob → List PriorityResult
compute_all now opts jobs = sort_by_score (map (compute_for_job now) (selected opts jobs))

-- The tests of the dashboard
abbrev pub is_urgent : PriorityResult → Bool
is_urgent r = leb 40 r.score

abbrev pub is_decision : FactorKey → Bool
is_decision waiting_customer_decision = true
is_decision _ = false

abbrev pub is_pending : PriorityResult → Bool
is_pending r = any is_decision r.factors

abbrev pub is_at_risk : ℕ → PriorityResult → Bool
is_at_risk now r = r.is_overdue || due_within 6 now r.promised_at

abbrev pub is_critical : PriorityResult → Bool
is_critical r = elim r.level [ critical ↦ true | _ ↦ false ]

abbrev pub is_high : PriorityResult → Bool
is_high r = elim r.level [ high ↦ true | _ ↦ false ]

abbrev pub concerns_advisor : PriorityResult → Bool
concerns_advisor r = elim (owner r.next_action) [
  | by_advisor ↦ true
  | by_customer ↦ true
  | _ ↦ false
]

pub record Dashboard : Type 0 where
  pub critical_count : ℕ
  pub high_count : ℕ
  pub awaiting_approval : ℕ
  pub at_risk : ℕ
  pub urgent_jobs : List PriorityResult
  pub pending_approvals : List PriorityResult
  pub promises_at_risk : List PriorityResult
  pub next_best_actions : List PriorityResult

-- An advisor sees the jobs of their own, an administrator all of them.
abbrev pub dashboard_options : ℕ → Bool → Options
dashboard_options user is_admin = record {
  statuses = none;
  advisor_id = if is_admin then none else some user;
  limit = none;
}

unfoldable pub advisor_dashboard : ℕ → ℕ → Bool → List PriorityJob → Dashboard
advisor_dashboard now user is_admin jobs =
    let results = compute_all now (dashboard_options user is_admin) jobs in
    record {
      critical_count = length (keep_if is_critical results);
      high_count = length (keep_if is_high results);
      awaiting_approval = length (keep_if is_pending results);
      at_risk = length (keep_if (is_at_risk now) results);
      urgent_jobs = take 15 (keep_if is_urgent results);
      pending_approvals = take 10 (keep_if is_pending results);
      promises_at_risk = take 10 (keep_if (is_at_risk now) results);
      next_best_actions = take 10 (keep_if concerns_advisor results);
    }
