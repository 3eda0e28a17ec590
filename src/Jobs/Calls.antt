-- ===== src/Jobs/Calls.antt =====
-- The calls of the program that write a column of a job in the model, and a history of them: those
-- of the job services, of the customer portal, of the import of bookings and of deferred work. A call
-- carries the ids that `uuid` returns while it runs, and comes with its request.
use superflow_api.Base.{ℕ, Bool, true, Option, List, [], ◌∷◌, after, all}
use superflow_api.Base.{String}
use superflow_api.Jobs.Status.{JobStatus}
use superflow_api.Jobs.Types.{Shop, Ctx, Job}
use superflow_api.Jobs.Service.{
  CreateJobDto, job_by_id, create, transition, assign_technician, archive_job, unarchive_job,
  remove, remove_all,
}
use superflow_api.Jobs.Update.{UpdateJobDto, update}
use superflow_api.Jobs.Outside.{approve_job, send_estimate, import_booking, book_deferred}
use superflow_api.Jobs.Sweeps.{archive_closed_jobs, mark_booked_as_no_show, archive_old_closed_jobs}
use superflow_api.Jobs.Checks.{start_inspection, start_checklist, submit_checklist}
use superflow_api.Jobs.Quality.{QcResponseDto, save_qc_responses, reopen_checklist}

pub data Call : Type 0 where
  creates : ℕ → ℕ → CreateJobDto → ℕ → Call
  updates : ℕ → ℕ → UpdateJobDto → Option ℕ → Call
  transits : ℕ → ℕ → JobStatus → Option String → ℕ → Call
  assigns : ℕ → Option ℕ → Call
  archives unarchives removes : ℕ → Call
  removes_all archives_closed marks_no_show : Call
  archives_old : (Job → ℕ) → Call
  inspects starts_checklist : ℕ → ℕ → ℕ → ℕ → ℕ → Call
  submits_checklist : ℕ → ℕ → ℕ → Call
  saves_checklist : ℕ → List QcResponseDto → Call
  reopens_checklist : ℕ → Call
  answers requests : ℕ → ℕ → Call
  imports : ℕ → ℕ → ℕ → Option ℕ → Option ℕ → Call
  books_deferred : ℕ → ℕ → ℕ → Option ℕ → Call

unfoldable pub step : Shop → Ctx × Call → Shop
step shop (ctx, creates id change dto user) = after shop (create id change ctx dto user shop)
step shop (ctx, updates change id dto user) = after shop (update change ctx id dto user shop)
step shop (ctx, transits change id to reason user) =
    after shop (transition change ctx id to reason user shop)
step shop (ctx, assigns id technician) = after shop (assign_technician ctx id technician shop)
step shop (ctx, archives id) = after shop (archive_job ctx id shop)
step shop (ctx, unarchives id) = after shop (unarchive_job id shop)
step shop (ctx, removes id) = after shop (remove id shop)
step shop (ctx, removes_all) = (remove_all shop).1
step shop (ctx, archives_closed) = archive_closed_jobs ctx.now shop
step shop (ctx, marks_no_show) = mark_booked_as_no_show shop
step shop (ctx, archives_old updated_at) = (archive_old_closed_jobs updated_at ctx.now shop).1
step shop (ctx, inspects id change job template user) =
    (start_inspection id change ctx job template user shop).1
step shop (ctx, starts_checklist id change job template user) =
    (start_checklist id change job template user shop).1
step shop (ctx, submits_checklist change id user) =
    after shop (submit_checklist change ctx id user shop)
step shop (ctx, saves_checklist id dtos) = after shop (save_qc_responses id dtos shop)
step shop (ctx, reopens_checklist id) = after shop (reopen_checklist id shop)
step shop (ctx, answers change id) = approve_job change (job_by_id id shop.jobs) shop
step shop (ctx, requests change id) = send_estimate change (job_by_id id shop.jobs) shop
step shop (ctx, imports id customer vehicle advisor promised) =
    import_booking id customer vehicle advisor promised shop
step shop (ctx, books_deferred id customer vehicle advisor) =
    book_deferred id customer vehicle advisor shop

unfoldable pub run : Shop → List (Ctx × Call) → Shop
run shop [] = shop
run shop (c ∷ calls) = run (step shop c) calls

-- Which calls a history may have: the updates that meet a condition, and whether the portal's and
-- the bookings from outside.
pub record Scope : Type 0 where
  pub may_update : UpdateJobDto → Bool
  pub with_portal : Bool
  pub with_outside : Bool

abbrev is_within : Scope → Ctx × Call → Bool
is_within p (_, updates _ _ dto _) = p.may_update dto
is_within p (_, answers _ _) = p.with_portal
is_within p (_, requests _ _) = p.with_portal
is_within p (_, imports _ _ _ _ _) = p.with_outside
is_within p (_, books_deferred _ _ _ _) = p.with_outside
is_within p (_, _) = true

abbrev pub all_within : Scope → List (Ctx × Call) → Bool
all_within p = all (is_within p)
