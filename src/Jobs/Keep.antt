-- ===== src/Jobs/Keep.antt =====
-- What every call on a job does to its row, as one record of laws, and what follows for histories.
pub mod Service
pub mod Checks
pub mod Outside
pub mod Run
use superflow_api.Base.{
  ℕ, String, ◌≡◌, refl, subst, sym, inl, inr, Bool, true, false, not, ◌&&◌, ◌||◌, Option, none,
  some, List, [], ◌∷◌, arith, ◌==◌, ==_iff, if◌then◌else◌, Option-cases, Bool-cases, is_some, ok,
  after, Keeps, Keeps-bind, or_throw-eq-ok, throw_if-eq-ok,
}
use superflow_api.Jobs.Status.{
  JobStatus, booked, checking, quality_check, estimate_sent, approved, closed, same_status,
  can_transition, same_status-eq,
}
use superflow_api.Jobs.Types.{
  Shop, Ctx, Job, Stage, QcResult, pass, fail, na, Inspection, Checklist,
}
use superflow_api.Jobs.Move.{moved}
use superflow_api.Jobs.Service.{
  CreateJobDto, new_job, job_by_id, write_job, create, transition, transition_job,
  assign_technician, archive_job, unarchive_job, remove, remove_all, unassigned, set_archived,
  set_deleted, is_live_booking,
}
use superflow_api.Jobs.Update.{UpdateJobDto, JobData, update, update_data, patched, recorded}
use superflow_api.Jobs.Sweeps.{
  archive_closed_jobs, mark_booked_as_no_show, archive_old_closed_jobs, is_unarchived, is_missed,
  missed, is_old,
}
use superflow_api.Jobs.Checks.{
  start_inspection, start_checklist, inspect_if_new, check_if_new, submit_checklist, check_in,
  to_quality_check, from_quality_check, arrived_now, in_quality_check, checked, is_worked_on,
  inspection_of, checklist_of, job_if,
}
use superflow_api.Jobs.Outside.{moved_by_portal, outside_booking}
use superflow_api.Jobs.Calls.{
  Call, creates, updates, transits, assigns, archives, unarchives, removes, removes_all,
  archives_closed, marks_no_show, archives_old, inspects, starts_checklist, submits_checklist, step,
  run, Scope,
}
use superflow_api.Jobs.Rows.{
  Found, KeepsId, update_where-Found, write_job-Found, job_by_id-own, found_job,
}

-- What each write of a job must keep, under the condition that the code has checked by then.
pub record RowLaws (P : Job → Type 0) (allowed : Scope) : Type 0 where
  pub on_create : (id : ℕ) (dto : CreateJobDto) (user : ℕ) → P (new_job id dto user)
  pub on_move :
      (j : Job) (to : JobStatus) (key : Option String) (now : ℕ)
      → can_transition j.status to ≡ true
      → P j
      → P (moved to key now j)
  pub on_update :
      (dto : UpdateJobDto) (j : Job) (stages : List Stage) (d : JobData)
      → allowed.may_update dto ≡ true
      → update_data dto j stages ≡ ok d
      → P j
      → P (patched d j)
  pub on_unassign : (j : Job) → P j → P (unassigned j)
  pub on_assign : (j : Job) (user : ℕ) → P j → P (record j { technician_id = some user })
  pub on_archive : (j : Job) (now : ℕ) → j.status ≡ closed → P j → P (set_archived (some now) j)
  pub on_unarchive : (j : Job) → P j → P (set_archived none j)
  pub on_delete : (j : Job) → P j → P (record j { is_deleted = true })
  pub on_miss : (j : Job) → is_missed j ≡ true → P j → P (missed j)
  pub on_arrival :
      (j : Job) (key : Option String) (now : ℕ)
      → j.status ≡ booked
      → P j
      → P (arrived_now key now j)
  pub on_qc_start :
      (j : Job) (key : Option String)
      → is_worked_on j.status ≡ true
      → P j
      → P (in_quality_check key j)
  pub on_qc_end :
      (j : Job) (key : Option String) (now : ℕ) (result : QcResult)
      → j.status ≡ quality_check
      → P j
      → P (checked key now result j)
  pub on_approval :
      (j : Job) (key : Option String)
      → allowed.with_portal ≡ true
      → P j
      → P (moved_by_portal approved key j)
  pub on_request :
      (j : Job) (key : Option String)
      → allowed.with_portal ≡ true
      → P j
      → P (moved_by_portal estimate_sent key j)
  pub on_booking :
      (id customer vehicle : ℕ) (advisor promised : Option ℕ)
      → allowed.with_outside ≡ true
      → P (outside_booking id customer vehicle advisor promised)
