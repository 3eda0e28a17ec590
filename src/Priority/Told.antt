-- ===== src/Priority/Told.antt =====
-- A job that is ready, and whose customer was told so, is not urgent (src/priority/priority.service.ts).
use superflow_api.Base.{ℕ, ◌+◌, ◌≤◌, ◌≡◌, true, false, Option, none, some, List, [], ◌∷◌, arith}
use superflow_api.Priority.Factors.{
  Addition, PriorityJob, Sensitivity, normal, angry, vip, comeback, informed_ready, promise_factor,
  no_promise_factor, waiting_factor, sensitivity_factor, decision_factor, parts_factor, idle_factor,
  stage_factor, inform_factor, value_factor,
}
use superflow_api.Priority.Score.{Scoring, add, add_all, engine, base, scoring, compute_for_job}
use superflow_api.Priority.Dashboard.{is_urgent}

abbrev weight_of : Option Addition → ℕ
weight_of none = 0
weight_of (some a) = a.points

abbrev weights : List (Option Addition) → ℕ
weights [] = 0
weights (o ∷ os) = weight_of o + weights os

score-add_all :
    (os : List (Option Addition)) (s : Scoring) → (add_all os s).score ≡ s.score + weights os
score-add_all [] s = ground arith
score-add_all (none ∷ os) s = ground (arith, score-add_all os s)
score-add_all (some a ∷ os) s = ground (arith, score-add_all os (add (some a) s))

sensitivity_weight : (s : Sensitivity) → weight_of (sensitivity_factor s) ≤ 18
unfolding sensitivity_factor
sensitivity_weight normal = ground arith
sensitivity_weight angry = ground arith
sensitivity_weight vip = ground arith
sensitivity_weight comeback = ground arith

value_weight : (j : PriorityJob) → weight_of (value_factor j) ≤ 8
unfolding value_factor
value_weight j = ground arith

module _ (now : ℕ) (j : PriorityJob) (told : informed_ready j ≡ true) where
  no_promise_risk : (weight_of (promise_factor now j) ≡ 0) × (weight_of (no_promise_factor j) ≡ 0)
  unfolding promise_factor no_promise_factor
  no_promise_risk = (ground (arith, told), ground (arith, told))

  no_waiting_risk :
      (weight_of (waiting_factor j) ≡ 0)
      × (weight_of (decision_factor j) ≡ 0)
      × (weight_of (parts_factor j) ≡ 0)
  unfolding waiting_factor decision_factor parts_factor
  no_waiting_risk = (ground (arith, told), ground (arith, told), ground (arith, told))

  no_stage_risk :
      (weight_of (idle_factor now j) ≡ 0)
      × (weight_of (stage_factor j) ≡ 0)
      × (weight_of (inform_factor j) ≡ 0)
  unfolding idle_factor stage_factor inform_factor informed_ready
  no_stage_risk = (ground (arith, told), ground (arith, told), ground (arith, told))

  -- A job that is ready and whose customer was informed scores at most 36, whatever its promise,
  -- its parts and its age, so it is never among the urgent jobs.
  pub told-not_urgent :
      ((compute_for_job now j).score ≤ 36) × (is_urgent (compute_for_job now j) ≡ false)
  unfolding compute_for_job scoring engine
  told-not_urgent = (bound, ground (arith, bound))
    where
      bound : (compute_for_job now j).score ≤ 36
      bound = ground (
        arith,
        score-add_all (engine now j) base,
        no_promise_risk,
        no_waiting_risk,
        no_stage_risk,
        sensitivity_weight j.sensitivity,
        value_weight j,
      )
