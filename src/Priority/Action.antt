-- ===== src/Priority/Action.antt =====
-- `buildNextBestAction` (src/priority/priority.service.ts). An action stands for its title, reason
-- and signals, which are fixed texts.
use superflow_api.Base.{Bool, true, false, not, ◌||◌, Option, some, is_some, if◌then◌else◌}
use superflow_api.Jobs.Status.{
  JobStatus, booked, checking, estimate_sent, approved, in_progress, waiting_parts, quality_check,
  ready, closed, no_show,
}
use superflow_api.Jobs.Types.{
  PartsStatus, order_parts, waiting_warehouse, backorder, WorkshopStage, waiting_technician,
  customer_approval,
}
use superflow_api.Priority.Factors.{PriorityJob, informed_ready}

pub data Owner : Type 0 where
  by_advisor by_workshop by_parts by_customer : Owner

pub data Action : Type 0 where
  arrange_collection check_in_vehicle prepare_estimate follow_up_decision : Action
  release_to_workshop check_parts_eta assign_technician clear_approval : Action
  unblock_technician check_progress complete_qc notify_customer review_job : Action

abbrev pub owner : Action → Owner
owner check_parts_eta = by_parts
owner unblock_technician = by_parts
owner assign_technician = by_workshop
owner check_progress = by_workshop
owner complete_qc = by_workshop
owner _ = by_advisor

abbrev blocks_work : Option PartsStatus → Bool
blocks_work (some order_parts) = true
blocks_work (some waiting_warehouse) = true
blocks_work (some backorder) = true
blocks_work _ = false

abbrev at_stage : WorkshopStage → Bool
at_stage waiting_technician = true
at_stage _ = false

abbrev waits_for_technician : Option WorkshopStage → Bool
waits_for_technician (some waiting_technician) = true
waits_for_technician _ = false

abbrev waits_for_approval : Option WorkshopStage → Bool
waits_for_approval (some customer_approval) = true
waits_for_approval _ = false

abbrev work_action : PriorityJob → Action
work_action j =
    if waits_for_technician j.workshop_stage || not (is_some j.technician_id)
    then assign_technician
    else if waits_for_approval j.workshop_stage
    then clear_approval
    else if blocks_work j.parts_status
    then unblock_technician
    else check_progress

abbrev status_action : JobStatus → PriorityJob → Action
status_action booked j = check_in_vehicle
status_action checking j = prepare_estimate
status_action estimate_sent j = follow_up_decision
status_action approved j = release_to_workshop
status_action waiting_parts j = check_parts_eta
status_action in_progress j = work_action j
status_action quality_check j = complete_qc
status_action ready j = notify_customer
status_action closed j = review_job
status_action no_show j = review_job

unfoldable pub next_best_action : PriorityJob → Action
next_best_action j = if informed_ready j then arrange_collection else status_action j.status j
