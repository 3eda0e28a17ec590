-- ===== src/Priority/Tests.antt =====
-- The priorities of two jobs, and the theorems at concrete inputs.
use mathlib.Core.List.{Perm}
use superflow_api.Base.{
  ℕ, ◌+◌, ◌≤◌, ◌≡◌, refl, true, false, none, some, [], ◌∷◌, map, any, length, keep_if,
}
use superflow_api.Base.Int.{pos, ◌+ℤ◌}
use superflow_api.Jobs.Status.{in_progress, ready}
use superflow_api.Jobs.Types.{backorder, work_in_progress, ready_handover}
use superflow_api.Priority.Factors.{
  PriorityJob, normal, angry, is_overdue, informed_ready, promise_factor, no_promise_factor,
  waiting_factor, sensitivity_factor, decision_factor, parts_factor, idle_factor, stage_factor,
  inform_factor, value_factor,
}
use superflow_api.Priority.Score.{min, engine, scoring, compute_for_job}
use superflow_api.Priority.Dashboard.{
  Options, compute_all, is_pending, is_urgent, dashboard_options, advisor_dashboard,
}
use superflow_api.Priority.Sum.{total_weight, compute_for_job-sum}
use superflow_api.Priority.Categories.{customer, count, compute_for_job-count}
use superflow_api.Priority.Signals.{is_overdue_factor, compute_for_job-signals}
use superflow_api.Priority.Ranking.{IsRanked, with_score, compute_all-ranking, dashboard-counts}

-- In progress and overdue, on a backorder, for an angry customer who waits.
abbrev late_job : PriorityJob
late_job = record {
  id = 1;
  status = in_progress;
  parts_status = some backorder;
  workshop_stage = some work_in_progress;
  sensitivity = angry;
  customer_informed = false;
  is_customer_waiting = true;
  promised_at = some 1000;
  updated_at = 0;
  advisor_id = some 7;
  technician_id = some 8;
  line_totals = pos 600000 ∷ pos 500000 ∷ [];
  is_deleted = false;
  archived_at = none;
}

-- Ready, and the customer knows.
abbrev told_job : PriorityJob
told_job = record late_job {
  id = 2;
  status = ready;
  parts_status = none;
  workshop_stage = some ready_handover;
  sensitivity = normal;
  customer_informed = true;
}

abbrev now : ℕ
now = 90000000

unfoldable late_score : ℕ × ℕ
unfolding compute_for_job scoring engine is_overdue informed_ready promise_factor no_promise_factor
    waiting_factor sensitivity_factor decision_factor parts_factor idle_factor stage_factor
    inform_factor value_factor ◌+ℤ◌
late_score = ((compute_for_job now late_job).score, (compute_for_job now told_job).score)

-- 10 + 30 + 22 + 18 + 22 + 20 + 8, capped, and 10 + 8
late_score_run : late_score ≡ (100, 18)
unfolding late_score
late_score_run = refl

compute_for_job-sum_example :
    ((compute_for_job now late_job).score
      ≡ min 100 (10 + total_weight (compute_for_job now late_job).factors))
    × (10 ≤ (compute_for_job now late_job).score)
    × ((compute_for_job now late_job).score ≤ 100)
compute_for_job-sum_example = compute_for_job-sum now late_job

compute_for_job-count_example : count customer (compute_for_job now late_job).factors ≤ 2
compute_for_job-count_example = compute_for_job-count customer now late_job

compute_for_job-signals_example :
    (any is_overdue_factor (compute_for_job now late_job).factors
      ≡ (compute_for_job now late_job).is_overdue)
    × (is_pending (compute_for_job now late_job) ≡ false)
compute_for_job-signals_example = compute_for_job-signals now late_job

abbrev everything : Options
everything = record { statuses = none; advisor_id = none; limit = none }

compute_all-ranking_example :
    Perm
      (compute_all now everything (told_job ∷ late_job ∷ []))
      (map (compute_for_job now) (told_job ∷ late_job ∷ []))
    × IsRanked (compute_all now everything (told_job ∷ late_job ∷ []))
    × ((n : ℕ)
        → with_score n (compute_all now everything (told_job ∷ late_job ∷ []))
          ≡ with_score n (map (compute_for_job now) (told_job ∷ late_job ∷ [])))
compute_all-ranking_example = compute_all-ranking now everything (told_job ∷ late_job ∷ [])

dashboard-counts_example :
    ((advisor_dashboard now 7 true (told_job ∷ late_job ∷ [])).awaiting_approval ≡ 0)
    × ((advisor_dashboard now 7 true (told_job ∷ late_job ∷ [])).critical_count
          + (advisor_dashboard now 7 true (told_job ∷ late_job ∷ [])).high_count
        ≡ length (
            keep_if is_urgent
              (compute_all now (dashboard_options 7 true) (told_job ∷ late_job ∷ []))))
dashboard-counts_example = dashboard-counts now 7 true (told_job ∷ late_job ∷ [])
