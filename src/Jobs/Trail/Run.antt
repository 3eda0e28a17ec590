-- ===== src/Jobs/Trail/Run.antt =====
-- Over a history of calls each job's rows lead to its status.
use superflow_api.Base.{◌≡◌, refl, Bool, true, false, not, ◌&&◌, List, [], ◌∷◌, arith, is_some}
use superflow_api.Jobs.Types.{Shop, Ctx}
use superflow_api.Jobs.Service.{job_by_id, remove_all}
use superflow_api.Jobs.Sweeps.{archive_closed_jobs, archive_old_closed_jobs}
use superflow_api.Jobs.Checks.{start_inspection, start_checklist}
use superflow_api.Jobs.Calls.{
  Call, creates, updates, transits, assigns, archives, unarchives, removes, removes_all,
  archives_closed, marks_no_show, archives_old, inspects, starts_checklist, submits_checklist,
  saves_checklist, reopens_checklist, answers, requests, imports, books_deferred, step, run,
}
use superflow_api.Jobs.Trail.{IsRecorded, kept-Recorded}
use superflow_api.Jobs.Trail.Calls.{
  approve_job-IsRecorded, send_estimate-IsRecorded, create-IsRecorded, transition-IsRecorded,
  assign_technician-IsRecorded, archive_job-IsRecorded, unarchive_job-IsRecorded, remove-IsRecorded,
  update-IsRecorded,
}
use superflow_api.Jobs.Quality.{save_qc_responses-Keeps, reopen_checklist-Keeps}
use superflow_api.Jobs.Trail.Checks.{
  inspect_if_new-IsRecorded, check_if_new-IsRecorded, submit_checklist-IsRecorded,
}

-- A call that creates a job gets an id that no job has; the sweep of missed bookings and the
-- bookings from outside, which write no row, are left out.
abbrev pub tells : Shop → Ctx × Call → Bool
tells shop (_, creates id _ _ _) = not (is_some (job_by_id id shop.jobs))
tells shop (_, marks_no_show) = false
tells shop (_, imports _ _ _ _ _) = false
tells shop (_, books_deferred _ _ _ _) = false
tells shop _ = true

unfoldable pub all_tell : Shop → List (Ctx × Call) → Bool
all_tell shop [] = true
all_tell shop (c ∷ calls) = tells shop c && all_tell (step shop c) calls

step-IsRecorded :
    (c : Ctx × Call) (shop : Shop)
    → tells shop c ≡ true
    → IsRecorded shop
    → IsRecorded (step shop c)
unfolding step start_inspection start_checklist remove_all archive_closed_jobs
    archive_old_closed_jobs
step-IsRecorded (ctx, creates id ch dto u) shop h t =
    (create-IsRecorded id ch ctx dto u shop (ground arith) t).holds
step-IsRecorded (ctx, updates ch id dto u) shop h t =
    (update-IsRecorded ch ctx id dto u shop t).holds
step-IsRecorded (ctx, transits ch id to r u) shop h t =
    (transition-IsRecorded ch ctx id to r u shop t).holds
step-IsRecorded (ctx, assigns id technician) shop h t =
    (assign_technician-IsRecorded ctx id technician shop t).holds
step-IsRecorded (ctx, archives id) shop h t = (archive_job-IsRecorded ctx id shop t).holds
step-IsRecorded (ctx, unarchives id) shop h t = (unarchive_job-IsRecorded id shop t).holds
step-IsRecorded (ctx, removes id) shop h t = (remove-IsRecorded id shop t).holds
step-IsRecorded (ctx, removes_all) shop h t =
    kept-Recorded shop.jobs shop.history t _ _ (λ _. refl) (λ _ _ _. refl)
step-IsRecorded (ctx, archives_closed) shop h t =
    kept-Recorded shop.jobs shop.history t _ _ (λ _. refl) (λ _ _ _. refl)
step-IsRecorded (ctx, archives_old at) shop h t =
    kept-Recorded shop.jobs shop.history t _ _ (λ _. refl) (λ _ _ _. refl)
step-IsRecorded (ctx, marks_no_show) shop h t = cc
step-IsRecorded (ctx, inspects id ch job template u) shop h t =
    inspect_if_new-IsRecorded _ id ch ctx job template u shop t
step-IsRecorded (ctx, starts_checklist id ch job template u) shop h t =
    check_if_new-IsRecorded _ id ch job template u shop t
step-IsRecorded (ctx, submits_checklist ch id u) shop h t =
    (submit_checklist-IsRecorded ch ctx id u shop t).holds
step-IsRecorded (ctx, saves_checklist id dtos) shop h t =
    (save_qc_responses-Keeps IsRecorded shop t id dtos (λ _. t)).holds
step-IsRecorded (ctx, reopens_checklist id) shop h t =
    (reopen_checklist-Keeps IsRecorded shop t id (λ _. t)).holds
step-IsRecorded (ctx, answers ch id) shop h t = approve_job-IsRecorded ch id shop t
step-IsRecorded (ctx, requests ch id) shop h t = send_estimate-IsRecorded ch id shop t
step-IsRecorded (ctx, imports id c v a at) shop h t = cc
step-IsRecorded (ctx, books_deferred id c v a) shop h t = cc

-- Over any history of the program's calls on jobs other than the nightly sweep of missed
-- bookings, the import of bookings and the booking of deferred work, in which new jobs get new
-- ids, each job's rows of `job_status_history` lead to its status: the newest row ends at the
-- status that the job has, each row starts at the status where the one before it ended, and the
-- first starts from none; an id that no job has has no rows. So it is at the end if it is so at
-- the start (with no jobs and no rows, say), whatever updates, transitions, inspections,
-- checklists, links and answers the history has and whether they succeed or throw.
pub run-IsRecorded :
    (calls : List (Ctx × Call)) (shop : Shop)
    → all_tell shop calls ≡ true
    → IsRecorded shop
    → IsRecorded (run shop calls)
unfolding run all_tell
run-IsRecorded [] shop h t = t
run-IsRecorded (c ∷ calls) shop h t =
    run-IsRecorded calls (step shop c) (ground arith) (step-IsRecorded c shop (ground arith) t)
