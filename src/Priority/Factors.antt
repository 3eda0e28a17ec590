-- ===== src/Priority/Factors.antt =====
-- The factors of a job's priority and their weights (src/priority/priority.service.ts). Times are
-- milliseconds and amounts are cents, so the hours and the currency of the source are compared
-- multiplied out.
use superflow_api.Base.{
  ℕ, ◌+◌, ◌*◌, Bool, true, false, not, ◌&&◌, ◌||◌, Option, none, some, List, [], ◌∷◌, leb, ltb,
  is_some, if◌then◌else◌,
}
use superflow_api.Base.Int.{ℤ, pos, ◌+ℤ◌, leb_ℤ}
use superflow_api.Jobs.Status.{
  JobStatus, booked, checking, estimate_sent, waiting_parts, quality_check, ready, closed,
  same_status,
}
use superflow_api.Jobs.Types.{PartsStatus, order_parts, waiting_warehouse, backorder, WorkshopStage}

pub data FactorKey : Type 0 where
  promise_overdue promise_due_2h promise_due_6h no_promise_date : FactorKey
  customer_waiting customer_angry customer_vip customer_comeback : FactorKey
  waiting_customer_decision : FactorKey
  parts_backorder parts_waiting_warehouse parts_need_order : FactorKey
  idle_24h idle_12h idle_6h : FactorKey
  stage_checking_diagnosis stage_qc_near_delivery : FactorKey
  ready_to_inform high_estimate_value medium_estimate_value : FactorKey

-- `DEFAULT_PRIORITY_WEIGHTS`
abbrev pub weight : FactorKey → ℕ
weight promise_overdue = 30
weight promise_due_2h = 20
weight promise_due_6h = 10
weight no_promise_date = 5
weight customer_waiting = 22
weight customer_angry = 18
weight customer_vip = 16
weight customer_comeback = 14
weight waiting_customer_decision = 20
weight parts_backorder = 22
weight parts_waiting_warehouse = 16
weight parts_need_order = 12
weight idle_24h = 20
weight idle_12h = 12
weight idle_6h = 6
weight stage_checking_diagnosis = 10
weight stage_qc_near_delivery = 10
weight ready_to_inform = 20
weight high_estimate_value = 8
weight medium_estimate_value = 4

-- `customer_sensitivity`; any other text counts as normal.
pub data Sensitivity : Type 0 where
  normal angry vip comeback : Sensitivity

-- The columns of a job that its priority reads, with the totals of its estimate lines.
pub record PriorityJob : Type 0 where
  pub id : ℕ
  pub status : JobStatus
  pub parts_status : Option PartsStatus
  pub workshop_stage : Option WorkshopStage
  pub sensitivity : Sensitivity
  pub customer_informed : Bool
  pub is_customer_waiting : Bool
  pub promised_at : Option ℕ
  pub updated_at : ℕ
  pub advisor_id : Option ℕ
  pub technician_id : Option ℕ
  pub line_totals : List ℤ
  pub is_deleted : Bool
  pub archived_at : Option ℕ

abbrev hours : ℕ → ℕ
hours n = n * 3600000

-- `IDLE_EXCLUDED_STATUSES` and `OVERDUE_EXCLUDED_STATUSES`
abbrev is_excluded : JobStatus → Bool
is_excluded s = same_status s booked || same_status s ready || same_status s closed

-- `isOverdue`
abbrev is_before : Option ℕ → ℕ → Bool
is_before none now = false
is_before (some at) now = ltb at now

unfoldable pub is_overdue : ℕ → PriorityJob → Bool
is_overdue now j = not (is_excluded j.status) && is_before j.promised_at now

-- `hoursToPromise !== null && hoursToPromise <= n`
abbrev pub due_within : ℕ → ℕ → Option ℕ → Bool
due_within n now none = false
due_within n now (some at) = leb at (now + hours n)

-- `informedReady`
unfoldable pub informed_ready : PriorityJob → Bool
informed_ready j = same_status j.status ready && j.customer_informed

-- What a branch of the engine does: `score += points; factors.push({ key, … })`. The weight, the
-- description and the category that it pushes go with the key.
pub record Addition : Type 0 where
  pub points : ℕ
  pub key : FactorKey

abbrev pub adds : ℕ → FactorKey → Option Addition
adds points key = some (record { points = points; key = key })

-- Each of the engine's chains of tests takes one of its branches or none.
abbrev unless : Bool → Option Addition → Option Addition
unless true key = none
unless false key = key

unfoldable pub promise_factor : ℕ → PriorityJob → Option Addition
promise_factor now j = unless (informed_ready j) (
    if is_overdue now j
    then adds (weight promise_overdue) promise_overdue
    else if due_within 2 now j.promised_at
    then adds (weight promise_due_2h) promise_due_2h
    else if due_within 6 now j.promised_at
    then adds (weight promise_due_6h) promise_due_6h
    else none)

unfoldable pub no_promise_factor : PriorityJob → Option Addition
no_promise_factor j = unless (informed_ready j) (
    if not (is_some j.promised_at)
      && not (same_status j.status booked)
      && not (same_status j.status closed)
    then adds (weight no_promise_date) no_promise_date
    else none)

unfoldable pub waiting_factor : PriorityJob → Option Addition
waiting_factor j =
    unless (informed_ready j)
      (if j.is_customer_waiting then adds (weight customer_waiting) customer_waiting else none)

unfoldable pub sensitivity_factor : Sensitivity → Option Addition
sensitivity_factor angry = adds (weight customer_angry) customer_angry
sensitivity_factor vip = adds (weight customer_vip) customer_vip
sensitivity_factor comeback = adds (weight customer_comeback) customer_comeback
sensitivity_factor normal = none

unfoldable pub decision_factor : PriorityJob → Option Addition
decision_factor j =
    if not (informed_ready j) && same_status j.status estimate_sent
    then adds (weight waiting_customer_decision) waiting_customer_decision
    else none

abbrev pub parts_risk : Option PartsStatus → JobStatus → Option Addition
parts_risk (some backorder) status = adds (weight parts_backorder) parts_backorder
parts_risk (some waiting_warehouse) status =
    adds (weight parts_waiting_warehouse) parts_waiting_warehouse
parts_risk (some order_parts) status = adds (weight parts_need_order) parts_need_order
parts_risk _ status =
    if same_status status waiting_parts
    then adds (weight parts_need_order) parts_need_order
    else none

unfoldable pub parts_factor : PriorityJob → Option Addition
parts_factor j = unless (informed_ready j) (parts_risk j.parts_status j.status)

abbrev idle_for : ℕ → ℕ → ℕ → Bool
idle_for n now updated = leb (updated + hours n) now

unfoldable pub idle_factor : ℕ → PriorityJob → Option Addition
idle_factor now j =
    if is_excluded j.status
    then none
    else if idle_for 24 now j.updated_at
    then adds (weight idle_24h) idle_24h
    else if idle_for 12 now j.updated_at
    then adds (weight idle_12h) idle_12h
    else if idle_for 6 now j.updated_at
    then adds (weight idle_6h) idle_6h
    else none

unfoldable pub stage_factor : PriorityJob → Option Addition
stage_factor j = unless (informed_ready j) (
    if same_status j.status checking
    then adds (weight stage_checking_diagnosis) stage_checking_diagnosis
    else if same_status j.status quality_check
    then adds (weight stage_qc_near_delivery) stage_qc_near_delivery
    else none)

unfoldable pub inform_factor : PriorityJob → Option Addition
inform_factor j =
    if same_status j.status ready && not j.customer_informed
    then adds (weight ready_to_inform) ready_to_inform
    else none

-- `estimateTotal`
abbrev pub total : List ℤ → ℤ
total [] = pos 0
total (t ∷ ts) = t +ℤ total ts

unfoldable pub value_factor : PriorityJob → Option Addition
value_factor j =
    if leb_ℤ (pos 1000000) (total j.line_totals)
    then adds (weight high_estimate_value) high_estimate_value
    else if leb_ℤ (pos 500000) (total j.line_totals)
    then adds (weight medium_estimate_value) medium_estimate_value
    else none
