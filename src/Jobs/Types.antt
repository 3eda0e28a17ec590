-- ===== src/Jobs/Types.antt =====
-- The tables that the job services read and write (prisma/schema.prisma), one workshop's rows. Ids
-- and times are numbers. Columns that no operation tests or derives (the job's number, its texts,
-- the odometer, the sensitivity) are left out.
use superflow_api.Base.{ℕ, String, Bool, Option, List}
use superflow_api.Jobs.Status.{JobStatus}

-- `WORKSHOP_STAGES` of dto/update-job.dto.ts
pub data WorkshopStage : Type 0 where
  waiting_technician diagnosis estimate_prep customer_approval : WorkshopStage
  work_in_progress final_test at_quality_check ready_handover : WorkshopStage

-- `PARTS_STATUSES` of dto/update-job.dto.ts
pub data PartsStatus : Type 0 where
  no_parts order_parts waiting_warehouse backorder parts_ready issued : PartsStatus

pub record Job : Type 0 where
  pub id : ℕ
  pub customer_id : ℕ
  pub vehicle_id : ℕ
  pub advisor_id : Option ℕ
  pub technician_id : Option ℕ
  pub status : JobStatus
  pub workshop_stage : Option WorkshopStage
  pub workflow_stage_key : Option String
  pub parts_status : Option PartsStatus
  pub customer_informed : Bool
  pub is_customer_waiting : Bool
  pub promised_at : Option ℕ
  pub arrived_at : Option ℕ
  pub completed_at : Option ℕ
  pub invoiced_at : Option ℕ
  pub archived_at : Option ℕ
  pub is_deleted : Bool

pub data QcResult : Type 0 where
  pass fail na : QcResult

-- A history row's `reason`: what the user wrote, or one of the texts of the services.
pub data ChangeReason : Type 0 where
  job_created status_changed_from_update inspection_started qc_started : ChangeReason
  qc_result : QcResult → ChangeReason
  link_generated portal_response : ChangeReason
  given : Option String → ChangeReason

-- A row of `job_status_history`
pub record Change : Type 0 where
  pub id : ℕ
  pub job_id : ℕ
  pub from_status : Option JobStatus
  pub to_status : JobStatus
  pub changed_by : Option ℕ
  pub reason : ChangeReason

-- `systemCategory` of a workflow stage
pub data Category : Type 0 where
  as_booked as_active as_ready as_closed as_cancelled : Category

-- `WorkflowStageConfig` of src/admin/workflow-templates.ts
pub record Stage : Type 0 where
  pub key : String
  pub system_status : JobStatus
  pub system_category : Category
  pub is_active : Bool

pub record Customer : Type 0 where
  pub id : ℕ
  pub is_active : Bool

pub record Vehicle : Type 0 where
  pub id : ℕ
  pub customer_id : Option ℕ
  pub is_deleted : Bool

pub record User : Type 0 where
  pub id : ℕ
  pub is_active : Bool

pub record Access : Type 0 where
  pub user_id : ℕ
  pub workshop_id : ℕ

pub record Inspection : Type 0 where
  pub id : ℕ
  pub job_id : ℕ
  pub template_id : ℕ
  pub technician_id : ℕ

pub data ChecklistStatus : Type 0 where
  draft qc_in_progress submitted approved : ChecklistStatus

pub record Checklist : Type 0 where
  pub id : ℕ
  pub job_id : Option ℕ
  pub template_id : ℕ
  pub checker_id : ℕ
  pub status : ChecklistStatus
  pub overall_result : Option QcResult

-- A row of `qc_checklist_responses`
pub record QcResponse : Type 0 where
  pub checklist_id : ℕ
  pub item_id : ℕ
  pub value : Option String

-- An item of a template; the sections between are left out.
pub record QcItem : Type 0 where
  pub id : ℕ
  pub template_id : ℕ

-- Rows stand newest first. `stages` is what `WorkflowService.getStages` reads from the settings.
pub record Shop : Type 0 where
  pub customers : List Customer
  pub vehicles : List Vehicle
  pub users : List User
  pub access : List Access
  pub stages : List Stage
  pub jobs : List Job
  pub history : List Change
  pub inspections : List Inspection
  pub checklists : List Checklist
  pub responses : List QcResponse
  pub qc_items : List QcItem

-- What a request brings: the workshop that it has selected, and the time.
pub record Ctx : Type 0 where
  pub workshop_id : Option ℕ
  pub now : ℕ

pub data Reason : Type 0 where
  customer_missing vehicle_missing vehicle_of_another user_inactive user_not_assigned : Reason
  job_missing bad_transition null_status stage_not_active only_closed_is_archived not_archived :
      Reason
  checklist_missing already_submitted already_approved checklist_locked : Reason
  item_of_another checklist_not_locked : Reason
