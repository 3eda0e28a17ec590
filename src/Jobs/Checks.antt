-- ===== src/Jobs/Checks.antt =====
-- The calls of other services that move a job: `InspectionsService.create`
-- (src/inspections/inspections.service.ts), `QcChecklistsService.create` and `submit`
-- (src/qc-checklists/qc-checklists.service.ts).
use text.Mathlib.Text.{◌==◌ as str_eq}
use superflow_api.Base.{
  ℕ, String, Bool, true, false, ◌||◌, Option, none, some, List, [], ◌∷◌, ◌==◌, if◌then◌else◌,
  find_first, keep_if, update_where, any, same_option, or_else, Result, ok, not_found, bad_request,
  ◌>>=◌, ◌>>◌, throw_if, or_throw,
}
use superflow_api.Jobs.Status.{
  JobStatus, booked, checking, in_progress, waiting_parts, quality_check, ready, same_status,
}
use superflow_api.Jobs.Types.{
  Shop, Ctx, Job, Inspection, Checklist, ChecklistStatus, qc_in_progress, submitted, approved,
  QcResult, pass, fail, na, QcResponse, waiting_technician, at_quality_check, ready_handover,
  inspection_started, qc_started, qc_result, Reason, checklist_missing, already_submitted,
  already_approved,
}
use superflow_api.Jobs.Stages.{default_stage_key}
use superflow_api.Jobs.Service.{job_by_id, write_job, change_of, with_change}

abbrev pub arrived_now : Option String → ℕ → Job → Job
arrived_now key now j = record j {
  status = checking;
  workflow_stage_key = key;
  workshop_stage = none;
  arrived_at = some (or_else j.arrived_at now);
}

-- A booked job is checked in when its inspection starts.
unfoldable pub check_in : ℕ → Ctx → ℕ → Option Job → Shop → Shop
check_in change_id ctx user none shop = shop
check_in change_id ctx user (some j) shop =
    if same_status j.status booked
    then with_change (change_of change_id j checking (some user) inspection_started)
        (write_job j.id (arrived_now (default_stage_key checking shop.stages) ctx.now) shop.jobs)
        shop
    else shop

abbrev pub inspection_of : ℕ → List Inspection → Option Inspection
inspection_of job = find_first (λ i. i.job_id == job)

abbrev add_inspection : Inspection → Shop → Shop
add_inspection i shop = record shop { inspections = i ∷ shop.inspections }

abbrev pub new_inspection : ℕ → ℕ → ℕ → ℕ → Inspection
new_inspection id job template technician = record {
  id = id;
  job_id = job;
  template_id = template;
  technician_id = technician;
}

-- `InspectionsService.create`: one inspection for a job, by the one that is there if any.
unfoldable pub inspect_if_new :
    Option Inspection → ℕ → ℕ → Ctx → ℕ → ℕ → ℕ → Shop → Inspection × Shop
inspect_if_new (some existing) id change_id ctx job template technician shop = (existing, shop)
inspect_if_new none id change_id ctx job template technician shop =
    let inspection = new_inspection id job template technician in
    (
      inspection,
      add_inspection inspection (check_in change_id ctx technician (job_by_id job shop.jobs) shop),
    )

unfoldable pub start_inspection : ℕ → ℕ → Ctx → ℕ → ℕ → ℕ → Shop → Inspection × Shop
start_inspection id change_id ctx job template technician shop =
    inspect_if_new (inspection_of job shop.inspections) id change_id ctx job template technician
      shop

abbrev pub in_quality_check : Option String → Job → Job
in_quality_check key j = record j {
  status = quality_check;
  workflow_stage_key = key;
  workshop_stage = some at_quality_check;
}

abbrev pub is_worked_on : JobStatus → Bool
is_worked_on s = same_status s in_progress || same_status s waiting_parts

-- A job that is worked on, or waits for parts, goes to quality control when its checklist starts.
unfoldable pub to_quality_check : ℕ → ℕ → Option Job → Shop → Shop
to_quality_check change_id user none shop = shop
to_quality_check change_id user (some j) shop =
    if is_worked_on j.status
    then with_change (change_of change_id j quality_check (some user) qc_started)
        (write_job j.id (in_quality_check (default_stage_key quality_check shop.stages)) shop.jobs)
        shop
    else shop

abbrev pub checklist_of : ℕ → List Checklist → Option Checklist
checklist_of job = find_first (λ c. same_option c.job_id (some job))

abbrev add_checklist : Checklist → Shop → Shop
add_checklist c shop = record shop { checklists = c ∷ shop.checklists }

abbrev pub new_checklist : ℕ → ℕ → ℕ → ℕ → Checklist
new_checklist id job template checker = record {
  id = id;
  job_id = some job;
  template_id = template;
  checker_id = checker;
  status = qc_in_progress;
  overall_result = none;
}

-- `QcChecklistsService.create`, by the checklist that the job has if any
unfoldable pub check_if_new : Option Checklist → ℕ → ℕ → ℕ → ℕ → ℕ → Shop → Checklist × Shop
check_if_new (some existing) id change_id job template checker shop = (existing, shop)
check_if_new none id change_id job template checker shop =
    let checklist = new_checklist id job template checker in
    (
      checklist,
      add_checklist checklist (to_quality_check change_id checker (job_by_id job shop.jobs) shop),
    )

unfoldable pub start_checklist : ℕ → ℕ → ℕ → ℕ → ℕ → Shop → Checklist × Shop
start_checklist id change_id job template checker shop =
    check_if_new (checklist_of job shop.checklists) id change_id job template checker shop

abbrev is_submitted : ChecklistStatus → Bool
is_submitted submitted = true
is_submitted _ = false

abbrev is_approved : ChecklistStatus → Bool
is_approved approved = true
is_approved _ = false

abbrev is_failed : QcResponse → Bool
is_failed r = elim r.value [ none ↦ false | some value ↦ str_eq value "fail" ]

-- `overallResult`
unfoldable pub overall_result : List QcResponse → QcResult
overall_result [] = na
overall_result (r ∷ rest) = if any is_failed (r ∷ rest) then fail else pass

abbrev pub result_status : QcResult → JobStatus
result_status pass = ready
result_status _ = in_progress

-- `transitionData` of a submission
abbrev pub checked : Option String → ℕ → QcResult → Job → Job
checked key now pass j = record j {
  status = ready;
  workflow_stage_key = key;
  workshop_stage = some ready_handover;
  completed_at = some now;
}
checked key now _ j = record j {
  status = in_progress;
  workflow_stage_key = key;
  workshop_stage = some waiting_technician;
  completed_at = none;
}

unfoldable pub from_quality_check : ℕ → Ctx → QcResult → ℕ → Option Job → Shop → Shop
from_quality_check change_id ctx result user none shop = shop
from_quality_check change_id ctx result user (some j) shop =
    let to = result_status result in
    if same_status j.status quality_check
    then with_change (change_of change_id j to (some user) (qc_result result))
        (write_job j.id (checked (default_stage_key to shop.stages) ctx.now result) shop.jobs) shop
    else shop

abbrev pub job_if : Option ℕ → List Job → Option Job
job_if none jobs = none
job_if (some id) jobs = job_by_id id jobs

abbrev set_submitted : ℕ → QcResult → List Checklist → List Checklist
set_submitted id result =
    update_where (λ c. c.id == id)
      (λ c. record c { status = submitted; overall_result = some result })

-- `submit`, without the notification of the advisor
unfoldable pub submit_checklist : ℕ → Ctx → ℕ → ℕ → Shop → Result Reason (QcResult × Shop)
submit_checklist change_id ctx id user shop = do
  c ← or_throw (find_first (λ c. c.id == id) shop.checklists) (not_found checklist_missing)
  throw_if (is_submitted c.status) (bad_request already_submitted)
  throw_if (is_approved c.status) (bad_request already_approved)
  let result = overall_result (keep_if (λ r. r.checklist_id == id) shop.responses)
  let shop' = record shop { checklists = set_submitted id result shop.checklists }
  ok (result, from_quality_check change_id ctx result user (job_if c.job_id shop.jobs) shop')
