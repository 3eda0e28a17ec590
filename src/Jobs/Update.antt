-- ===== src/Jobs/Update.antt =====
-- `JobsService.update` (src/jobs/jobs.service.ts): the data that it makes of a request, step by step.
use text.Mathlib.Text.{◌==◌ as str_eq}
use superflow_api.Base.{
  ℕ, String, Bool, true, false, not, ◌&&◌, ◌||◌, Option, none, some, List, ◌∷◌, List, if◌then◌else◌,
  or_else, Result, ok, bad_request, failed, ◌>>=◌, ◌>>◌, throw_if,
}
use superflow_api.Jobs.Status.{
  JobStatus, in_progress, quality_check, ready, same_status, can_transition,
}
use superflow_api.Jobs.Types.{
  Shop, Ctx, Job, Change, Stage, PartsStatus, parts_ready, WorkshopStage, waiting_technician,
  at_quality_check, ready_handover, Reason, bad_transition, null_status, status_changed_from_update,
}
use superflow_api.Jobs.Stages.{resolve_stage, legacy_workshop_stage}
use superflow_api.Jobs.Service.{assert_user_if, find_one, write_job, change_of}

-- A field that the request leaves out is none, and one that it gives as null, which `@IsOptional`
-- lets through, is some none. An empty text of an id counts as null. A null of a Boolean reads as
-- false, and a null or empty time counts as left out.
pub record UpdateJobDto : Type 0 where
  pub status : Option (Option JobStatus)
  pub advisor_id : Option (Option ℕ)
  pub technician_id : Option (Option ℕ)
  pub promised_at : Option ℕ
  pub workshop_stage : Option (Option WorkshopStage)
  pub workflow_stage_key : Option (Option String)
  pub parts_status : Option (Option PartsStatus)
  pub customer_informed : Option Bool
  pub is_customer_waiting : Option Bool

-- The object `data`: the columns to write, none for one that is left as it is. Where its status is
-- null, `is_null_status` holds and `status` is none.
pub record JobData : Type 0 where
  pub status : Option JobStatus
  pub is_null_status : Bool
  pub advisor_id : Option (Option ℕ)
  pub technician_id : Option (Option ℕ)
  pub promised_at : Option ℕ
  pub workshop_stage : Option (Option WorkshopStage)
  pub workflow_stage_key : Option (Option String)
  pub parts_status : Option (Option PartsStatus)
  pub customer_informed : Option Bool
  pub is_customer_waiting : Option Bool

abbrev pub flat {ℓ} : {A : Type ℓ} → Option (Option A) → Option A
flat none = none
flat (some a) = a

abbrev pub is_null {ℓ} : {A : Type ℓ} → Option (Option A) → Bool
is_null (some none) = true
is_null _ = false

-- `{ ...dto, promised_at }`
abbrev pub data_of : UpdateJobDto → JobData
data_of dto = record {
  status = flat dto.status;
  is_null_status = is_null dto.status;
  advisor_id = dto.advisor_id;
  technician_id = dto.technician_id;
  promised_at = dto.promised_at;
  workshop_stage = dto.workshop_stage;
  workflow_stage_key = dto.workflow_stage_key;
  parts_status = dto.parts_status;
  customer_informed = dto.customer_informed;
  is_customer_waiting = dto.is_customer_waiting;
}

-- The status asked for must be the job's or one that it may move to.
abbrev pub status_guard : JobStatus → Option JobStatus → Bool
status_guard now none = true
status_guard now (some to) = same_status to now || can_transition now to

-- `if (dto.workflow_stage_key)`: an empty key counts as none.
abbrev pub asked_key : Option String → Option String
asked_key none = none
asked_key (some key) = if str_eq key "" then none else some key

abbrev with_stage : Stage → JobData → JobData
with_stage s d = record d {
  workflow_stage_key = some (some s.key);
  status = some s.system_status;
  is_null_status = false;
  workshop_stage = some (legacy_workshop_stage s.system_status s.key);
}

unfoldable pub by_workflow_stage : Option String → List Stage → JobData → Result Reason JobData
by_workflow_stage none stages d = ok d
by_workflow_stage (some key) stages d = do s ← resolve_stage key stages; ok (with_stage s d)

-- The status of a lane of the workshop's board.
unfoldable pub lane_status : WorkshopStage → JobStatus
lane_status at_quality_check = quality_check
lane_status ready_handover = ready
lane_status _ = in_progress

abbrev pub by_workshop_stage : Option (Option WorkshopStage) → JobData → JobData
by_workshop_stage (some (some stage)) d = record d {
  status = some (lane_status stage);
  is_null_status = false;
}
by_workshop_stage _ d = d

-- Parts that have come put the car back into the workshop's queue.
abbrev pub by_parts : Option (Option PartsStatus) → JobData → JobData
by_parts (some (some parts_ready)) d = record d {
  workshop_stage = some (some waiting_technician);
  workflow_stage_key = some (some "in_progress");
}
by_parts _ d = d

abbrev is_done : JobStatus → Bool
is_done s = same_status s ready || same_status s quality_check

abbrev ready_or_unset : Option JobStatus → Bool
ready_or_unset none = true
ready_or_unset (some s) = same_status s ready

-- A customer who is told of a finished car no longer counts as waiting.
abbrev pub by_informed : Option Bool → JobStatus → JobData → JobData
by_informed (some true) now d =
    if not d.is_null_status && ready_or_unset d.status && is_done (or_else d.status now)
    then record d { is_customer_waiting = some false }
    else d
by_informed _ now d = d

-- jobs.update({ where: { id }, data })
abbrev pub patched : JobData → Job → Job
patched d j = record j {
  status = or_else d.status j.status;
  advisor_id = or_else d.advisor_id j.advisor_id;
  technician_id = or_else d.technician_id j.technician_id;
  promised_at = elim d.promised_at [ none ↦ j.promised_at | some at ↦ some at ];
  workshop_stage = or_else d.workshop_stage j.workshop_stage;
  workflow_stage_key = or_else d.workflow_stage_key j.workflow_stage_key;
  parts_status = or_else d.parts_status j.parts_status;
  customer_informed = or_else d.customer_informed j.customer_informed;
  is_customer_waiting = or_else d.is_customer_waiting j.is_customer_waiting;
}

-- `if (data.status && data.status !== job.status)`: the history row that goes with the update.
abbrev pub recorded : ℕ → Job → Option JobStatus → Option ℕ → List Change → List Change
recorded change_id j none user history = history
recorded change_id j (some to) user history =
    if same_status to j.status
    then history
    else change_of change_id j to user status_changed_from_update ∷ history

-- `data`, from the job that was read
unfoldable pub update_data : UpdateJobDto → Job → List Stage → Result Reason JobData
update_data dto j stages = do
  throw_if (not (status_guard j.status (flat dto.status))) (bad_request bad_transition)
  d ← by_workflow_stage (asked_key (flat dto.workflow_stage_key)) stages (data_of dto)
  ok (
      by_informed dto.customer_informed j.status
        (by_parts dto.parts_status (by_workshop_stage dto.workshop_stage d)))

-- `update`. The column `status` has no null, so that `jobs.update` throws for one.
unfoldable pub update :
    ℕ → Ctx → ℕ → UpdateJobDto → Option ℕ → Shop → Result Reason (Unit {0} × Shop)
update change_id ctx id dto user shop = do
  j ← find_one id shop
  d ← update_data dto j shop.stages
  assert_user_if ctx (flat d.advisor_id) shop
  assert_user_if ctx (flat d.technician_id) shop
  throw_if d.is_null_status (failed null_status)
  ok (
    tt,
    record shop {
      jobs = write_job j.id (patched d) shop.jobs;
      history = recorded change_id j d.status user shop.history;
    },
  )
