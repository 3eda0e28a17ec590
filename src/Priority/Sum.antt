-- ===== src/Priority/Sum.antt =====
-- The score of a job is the sum of the weights of its factors (src/priority/priority.service.ts).
use superflow_api.Base.{
  ℕ, Bool, true, ◌==◌, all, ◌+◌, ◌≤◌, ◌≡◌, refl, Option, none, some, List, [], ◌∷◌, ◌++◌, arith,
}
use superflow_api.Jobs.Status.{JobStatus}
use superflow_api.Jobs.Types.{PartsStatus, order_parts, waiting_warehouse, backorder}
use superflow_api.Priority.Factors.{
  FactorKey, weight, Addition, PriorityJob, Sensitivity, normal, angry, vip, comeback,
  promise_factor, no_promise_factor, waiting_factor, sensitivity_factor, decision_factor,
  parts_factor, parts_risk, idle_factor, stage_factor, inform_factor, value_factor,
}
use superflow_api.Priority.Score.{
  Scoring, add, add_all, engine, base, scoring, min, compute_for_job,
}

abbrev pub total_weight : List FactorKey → ℕ
total_weight [] = 0
total_weight (key ∷ keys) = weight key + total_weight keys

total_weight-++ :
    (keys more : List FactorKey)
    → total_weight (keys ++ more) ≡ total_weight keys + total_weight more
total_weight-++ [] more = ground arith
total_weight-++ (key ∷ keys) more = ground (arith, total_weight-++ keys more)

abbrev IsSummed : Scoring → Type 0
IsSummed s = s.score ≡ 10 + total_weight s.factors

-- A branch adds the weight of the factor that it pushes.
abbrev is_weighed : Option Addition → Bool
is_weighed none = true
is_weighed (some a) = a.points == weight a.key

add-IsSummed :
    (o : Option Addition) (s : Scoring) → is_weighed o ≡ true → IsSummed s → IsSummed (add o s)
add-IsSummed none s w h = h
add-IsSummed (some a) s w h = ground (arith, total_weight-++ s.factors (a.key ∷ []))

add_all-IsSummed :
    (os : List (Option Addition)) (s : Scoring)
    → all is_weighed os ≡ true
    → IsSummed s
    → IsSummed (add_all os s)
add_all-IsSummed [] s w h = h
add_all-IsSummed (o ∷ os) s w h =
    add_all-IsSummed os (add o s) (ground arith) (add-IsSummed o s (ground arith) h)

sensitivity-is_weighed : (s : Sensitivity) → is_weighed (sensitivity_factor s) ≡ true
unfolding sensitivity_factor
sensitivity-is_weighed normal = refl
sensitivity-is_weighed angry = refl
sensitivity-is_weighed vip = refl
sensitivity-is_weighed comeback = refl

parts_risk-is_weighed :
    (o : Option PartsStatus) (s : JobStatus) → is_weighed (parts_risk o s) ≡ true
parts_risk-is_weighed (some backorder) s = refl
parts_risk-is_weighed (some waiting_warehouse) s = refl
parts_risk-is_weighed (some order_parts) s = refl
parts_risk-is_weighed (some _) s = ground arith
parts_risk-is_weighed none s = ground arith

module _ (now : ℕ) (j : PriorityJob) where
  promise-is_weighed : is_weighed (promise_factor now j) ≡ true
  unfolding promise_factor
  promise-is_weighed = ground arith

  no_promise-is_weighed : is_weighed (no_promise_factor j) ≡ true
  unfolding no_promise_factor
  no_promise-is_weighed = ground arith

  waiting-is_weighed : is_weighed (waiting_factor j) ≡ true
  unfolding waiting_factor
  waiting-is_weighed = ground arith

  decision-is_weighed : is_weighed (decision_factor j) ≡ true
  unfolding decision_factor
  decision-is_weighed = ground arith

  parts-is_weighed : is_weighed (parts_factor j) ≡ true
  unfolding parts_factor
  parts-is_weighed = ground (arith, parts_risk-is_weighed j.parts_status j.status)

  idle-is_weighed : is_weighed (idle_factor now j) ≡ true
  unfolding idle_factor
  idle-is_weighed = ground arith

  stage-is_weighed : is_weighed (stage_factor j) ≡ true
  unfolding stage_factor
  stage-is_weighed = ground arith

  inform-is_weighed : is_weighed (inform_factor j) ≡ true
  unfolding inform_factor
  inform-is_weighed = ground arith

  value-is_weighed : is_weighed (value_factor j) ≡ true
  unfolding value_factor
  value-is_weighed = ground arith

  engine-is_weighed : all is_weighed (engine now j) ≡ true
  unfolding engine
  engine-is_weighed = ground (
    arith,
    promise-is_weighed,
    no_promise-is_weighed,
    waiting-is_weighed,
    sensitivity-is_weighed j.sensitivity,
    decision-is_weighed,
    parts-is_weighed,
    idle-is_weighed,
    stage-is_weighed,
    inform-is_weighed,
    value-is_weighed,
  )

-- The score that is shown for a job is ten and the weights of the factors that are shown with it,
-- but at most a hundred; so it always lies between ten and a hundred. Each branch of the engine
-- adds the weight of the very factor that it pushes.
pub compute_for_job-sum :
    (now : ℕ) (j : PriorityJob)
    → let r = compute_for_job now j in
      (r.score ≡ min 100 (10 + total_weight r.factors)) × (10 ≤ r.score) × (r.score ≤ 100)
unfolding compute_for_job scoring
compute_for_job-sum now j =
    let summed = add_all-IsSummed (engine now j) base (engine-is_weighed now j) refl in
    (ground (arith, summed), ground (arith, summed), ground arith)
