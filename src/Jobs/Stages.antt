-- ===== src/Jobs/Stages.antt =====
-- The workflow stages that a workshop has configured (src/admin/workflow.service.ts), and the two
-- columns of a job that follow its status (the helpers of src/jobs/jobs.service.ts).
use text.Mathlib.Text.{◌==◌ as str_eq}
use superflow_api.Base.{
  ℕ, String, Bool, ◌&&◌, ◌||◌, Option, none, some, List, ◌==◌, if◌then◌else◌, find_first, Result,
  bad_request, or_throw,
}
use superflow_api.Jobs.Status.{
  JobStatus, booked, in_progress, quality_check, ready, closed, no_show, same_status,
}
use superflow_api.Jobs.Types.{
  Stage, Category, as_booked, as_active, as_ready, as_closed, as_cancelled, WorkshopStage,
  waiting_technician, diagnosis, customer_approval, work_in_progress, final_test, at_quality_check,
  ready_handover, Reason, stage_not_active,
}

-- `resolveStage`
unfoldable pub resolve_stage : String → List Stage → Result Reason Stage
resolve_stage key stages =
    or_throw (find_first (λ s. str_eq s.key key && s.is_active) stages)
      (bad_request stage_not_active)

-- `categoryForStatus`
unfoldable pub category_for_status : JobStatus → Category
category_for_status booked = as_booked
category_for_status ready = as_ready
category_for_status closed = as_closed
category_for_status no_show = as_cancelled
category_for_status _ = as_active

abbrev category_place : Category → ℕ
category_place as_booked = 0
category_place as_active = 1
category_place as_ready = 2
category_place as_closed = 3
category_place as_cancelled = 4

abbrev pub same_category : Category → Category → Bool
same_category a b = category_place a == category_place b

abbrev key_or : Option Stage → Option Stage → Option String
key_or (some s) _ = some s.key
key_or none (some s) = some s.key
key_or none none = none

-- `defaultWorkflowStageKeyForStatus`
unfoldable pub default_stage_key : JobStatus → List Stage → Option String
default_stage_key status stages =
    key_or (find_first (λ s. s.is_active && same_status s.system_status status) stages) (
      find_first (λ s. s.is_active && same_category s.system_category (category_for_status status))
        stages)

-- The lanes of the stages of the status `in_progress`.
abbrev working_lane : String → WorkshopStage
working_lane key =
    if str_eq key "damage_assessment" || str_eq key "inspection"
    then diagnosis
    else if str_eq key "estimate_sent"
        || str_eq key "waiting_approval"
        || str_eq key "insurance_approval"
    then customer_approval
    else if str_eq key "paint" || str_eq key "final_test"
    then final_test
    else work_in_progress

-- `legacyWorkshopStageForStatus`
unfoldable pub legacy_workshop_stage : JobStatus → String → Option WorkshopStage
legacy_workshop_stage quality_check key = some at_quality_check
legacy_workshop_stage ready key = some ready_handover
legacy_workshop_stage in_progress key = some (working_lane key)
legacy_workshop_stage _ key = none

-- The workshop stage that a transition to a status writes.
unfoldable pub stage_of_status : JobStatus → Option WorkshopStage
stage_of_status in_progress = some waiting_technician
stage_of_status quality_check = some at_quality_check
stage_of_status ready = some ready_handover
stage_of_status _ = none
