-- ===== src/Priority/Categories.antt =====
-- No risk is counted twice (src/priority/priority.service.ts).
use superflow_api.Base.{
  ℕ, ◌+◌, ◌*◌, ◌≤◌, ◌≡◌, Bool, Option, none, some, List, [], ◌∷◌, ◌++◌, arith, ◌==◌, if◌then◌else◌,
  Option-cases, inl, inr,
}
use superflow_api.Jobs.Types.{PartsStatus, order_parts, waiting_warehouse, backorder}
use superflow_api.Jobs.Status.{JobStatus}
use superflow_api.Priority.Factors.{
  FactorKey, Addition, promise_overdue, promise_due_2h, promise_due_6h, no_promise_date,
  customer_waiting, customer_angry, customer_vip, customer_comeback, waiting_customer_decision,
  parts_backorder, parts_waiting_warehouse, parts_need_order, idle_24h, idle_12h, idle_6h,
  stage_checking_diagnosis, stage_qc_near_delivery, ready_to_inform, high_estimate_value,
  medium_estimate_value, PriorityJob, Sensitivity, normal, angry, vip, comeback, is_overdue,
  promise_factor, no_promise_factor, waiting_factor, sensitivity_factor, decision_factor,
  parts_factor, parts_risk, idle_factor, stage_factor, inform_factor, value_factor,
}
use superflow_api.Priority.Score.{Scoring, add, add_all, engine, base, scoring, compute_for_job}

-- `category` of a factor
pub data FactorCategory : Type 0 where
  promise customer approval parts idle stage delivery value : FactorCategory

abbrev category_place : FactorCategory → ℕ
category_place promise = 0
category_place customer = 1
category_place approval = 2
category_place parts = 3
category_place idle = 4
category_place stage = 5
category_place delivery = 6
category_place value = 7

abbrev pub category : FactorKey → FactorCategory
category promise_overdue = promise
category promise_due_2h = promise
category promise_due_6h = promise
category no_promise_date = promise
category customer_waiting = customer
category customer_angry = customer
category customer_vip = customer
category customer_comeback = customer
category waiting_customer_decision = approval
category parts_backorder = parts
category parts_waiting_warehouse = parts
category parts_need_order = parts
category idle_24h = idle
category idle_12h = idle
category idle_6h = idle
category stage_checking_diagnosis = stage
category stage_qc_near_delivery = stage
category ready_to_inform = delivery
category high_estimate_value = value
category medium_estimate_value = value

abbrev pub is_in : FactorCategory → FactorKey → Bool
is_in c key = category_place (category key) == category_place c

abbrev pub count : FactorCategory → List FactorKey → ℕ
count c [] = 0
count c (key ∷ keys) = (if is_in c key then 1 else 0) + count c keys

-- How many factors of a category a job may have.
abbrev pub most : FactorCategory → ℕ
most customer = 2
most _ = 1

abbrev hits : FactorCategory → Option Addition → ℕ
hits c none = 0
hits c (some a) = if is_in c a.key then 1 else 0

abbrev at : FactorCategory → FactorCategory → ℕ
at c d = if category_place d == category_place c then 1 else 0

count-++ :
    (c : FactorCategory) (keys more : List FactorKey)
    → count c (keys ++ more) ≡ count c keys + count c more
count-++ c [] more = ground arith
count-++ c (key ∷ keys) more = ground (arith, count-++ c keys more)

count-add :
    (c : FactorCategory) (o : Option Addition) (s : Scoring)
    → count c (add o s).factors ≡ count c s.factors + hits c o
count-add c none s = ground arith
count-add c (some a) s = ground (arith, count-++ c s.factors (a.key ∷ []))

abbrev hits_all : FactorCategory → List (Option Addition) → ℕ
hits_all c [] = 0
hits_all c (o ∷ os) = hits c o + hits_all c os

count-add_all :
    (c : FactorCategory) (os : List (Option Addition)) (s : Scoring)
    → count c (add_all os s).factors ≡ count c s.factors + hits_all c os
count-add_all c [] s = ground arith
count-add_all c (o ∷ os) s = ground (arith, count-add c o s, count-add_all c os (add o s))

module _ (c : FactorCategory) (now : ℕ) (j : PriorityJob) where
  promise_hits : hits c (promise_factor now j) + hits c (no_promise_factor j) ≤ at c promise
  unfolding promise_factor no_promise_factor is_overdue
  promise_hits = elim (Option-cases j.promised_at) [
    | inl none' ↦ ground arith
    | inr (at', e) ↦ ground arith
  ]

  waiting_hits : hits c (waiting_factor j) ≤ at c customer
  unfolding waiting_factor
  waiting_hits = ground arith

  decision_hits : hits c (decision_factor j) ≤ at c approval
  unfolding decision_factor
  decision_hits = ground arith

  idle_hits : hits c (idle_factor now j) ≤ at c idle
  unfolding idle_factor
  idle_hits = ground arith

  stage_hits : hits c (stage_factor j) ≤ at c stage
  unfolding stage_factor
  stage_hits = ground arith

  inform_hits : hits c (inform_factor j) ≤ at c delivery
  unfolding inform_factor
  inform_hits = ground arith

  value_hits : hits c (value_factor j) ≤ at c value
  unfolding value_factor
  value_hits = ground arith

risk_hits :
    (c : FactorCategory) (o : Option PartsStatus) (s : JobStatus)
    → hits c (parts_risk o s) ≤ at c parts
risk_hits c (some backorder) s = ground arith
risk_hits c (some waiting_warehouse) s = ground arith
risk_hits c (some order_parts) s = ground arith
risk_hits c (some _) s = ground arith
risk_hits c none s = ground arith

parts_hits : (c : FactorCategory) (j : PriorityJob) → hits c (parts_factor j) ≤ at c parts
unfolding parts_factor
parts_hits c j = ground (arith, risk_hits c j.parts_status j.status)

sensitivity_hits :
    (c : FactorCategory) (s : Sensitivity) → hits c (sensitivity_factor s) ≤ at c customer
unfolding sensitivity_factor
sensitivity_hits c normal = ground arith
sensitivity_hits c angry = ground arith
sensitivity_hits c vip = ground arith
sensitivity_hits c comeback = ground arith

fits :
    (c : FactorCategory)
    → at c promise
        + 2 * at c customer
        + at c approval
        + at c parts
        + at c idle
        + at c stage
        + at c delivery
        + at c value
      ≤ most c
fits promise = ground arith
fits customer = ground arith
fits approval = ground arith
fits parts = ground arith
fits idle = ground arith
fits stage = ground arith
fits delivery = ground arith
fits value = ground arith

-- No risk is counted twice: of each category of factors (promise, customer, approval, parts,
-- idle, stage, delivery, value) a job has at most one, but for the customer's, of which it has at
-- most two (that the customer waits, and the customer's sensitivity).
pub compute_for_job-count :
    (c : FactorCategory) (now : ℕ) (j : PriorityJob)
    → count c (compute_for_job now j).factors ≤ most c
unfolding compute_for_job scoring engine
compute_for_job-count c now j = omega (
  arith,
  count-add_all c (engine now j) base,
  promise_hits c now j,
  waiting_hits c now j,
  sensitivity_hits c j.sensitivity,
  decision_hits c now j,
  parts_hits c j,
  idle_hits c now j,
  stage_hits c now j,
  inform_hits c now j,
  value_hits c now j,
  fits c,
)
