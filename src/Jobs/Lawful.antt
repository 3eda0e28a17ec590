-- ===== src/Jobs/Lawful.antt =====
-- The rows of `job_status_history` are moves that src/jobs/jobs.state-machine.ts allows.
pub mod Calls
pub mod Checks
pub mod Run
use superflow_api.Base.{
  ℕ, String, ◌≡◌, refl, sym, ap, subst, inl, inr, Bool, true, false, not, ◌&&◌, ◌||◌, Option, none,
  some, List, [], ◌∷◌, arith, ◌==◌, if◌then◌else◌, all, Option-cases, Bool-cases, is_some, or_else,
  ok, ok_inj, after, Keeps, Keeps-bind, or_throw-eq-ok, throw_if-eq-ok, >>=-eq-ok,
}
use superflow_api.Jobs.Status.{
  JobStatus, booked, checking, in_progress, waiting_parts, quality_check, ready, same_status,
  same_status-eq, can_transition, transitions,
}
use superflow_api.Jobs.Types.{
  Shop, Ctx, Job, Change, ChangeReason, Stage, QcResult, pass, fail, na, Inspection, Checklist,
}
use superflow_api.Jobs.Service.{
  CreateJobDto, find_one, job_by_id, create, transition, transition_job, change_of,
  assign_technician, archive_job, unarchive_job, remove, remove_all,
}
use superflow_api.Jobs.Update.{
  UpdateJobDto, JobData, update, update_data, data_of, recorded, status_guard, asked_key,
  by_informed, by_parts, by_workshop_stage, flat,
}
use superflow_api.Jobs.Sweeps.{archive_closed_jobs, archive_old_closed_jobs, mark_booked_as_no_show}
use superflow_api.Jobs.Checks.{
  submit_checklist, start_inspection, start_checklist, inspect_if_new, check_if_new, check_in,
  to_quality_check, from_quality_check, is_worked_on, job_if, result_status,
}
use superflow_api.Jobs.Data.{by_informed-SameLane, by_workflow_stage-none, by_parts-status}
use superflow_api.Jobs.Calls.{
  Call, creates, updates, transits, assigns, archives, unarchives, removes, removes_all,
  archives_closed, marks_no_show, archives_old, inspects, starts_checklist, submits_checklist, step,
  run, Scope,
}

-- The move that `QcChecklistsService.create` makes besides those of the state machine.
abbrev pub is_check_of_waiting : JobStatus → JobStatus → Bool
is_check_of_waiting waiting_parts quality_check = true
is_check_of_waiting _ _ = false

abbrev pub is_lawful : Change → Bool
is_lawful c = elim c.from_status [
  | none ↦ same_status c.to_status booked
  | some from ↦ can_transition from c.to_status || is_check_of_waiting from c.to_status
]

abbrev pub IsLawful : Shop → Type 0
IsLawful shop = all is_lawful shop.history ≡ true

-- An update that names no workflow stage and no lane: its status is checked.
abbrev pub is_checked_update : UpdateJobDto → Bool
is_checked_update dto =
    not (is_some (asked_key (flat dto.workflow_stage_key)))
    && not (is_some (flat dto.workshop_stage))

-- The history's updates are checked, and the portal's moves are left out.
abbrev pub lawful_scope : Scope
lawful_scope = record { may_update = is_checked_update; with_portal = false; with_outside = true }
