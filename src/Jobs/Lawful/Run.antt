-- ===== src/Jobs/Lawful/Run.antt =====
-- Over a history of calls every row that is added is a lawful move.
use superflow_api.Base.{◌≡◌, true, List, [], ◌∷◌, arith}
use superflow_api.Jobs.Types.{Shop, Ctx}
use superflow_api.Jobs.Service.{remove_all}
use superflow_api.Jobs.Sweeps.{archive_closed_jobs, archive_old_closed_jobs, mark_booked_as_no_show}
use superflow_api.Jobs.Outside.{import_booking, book_deferred}
use superflow_api.Jobs.Checks.{start_inspection, start_checklist}
use superflow_api.Jobs.Calls.{
  Call, creates, updates, transits, assigns, archives, unarchives, removes, removes_all,
  archives_closed, marks_no_show, archives_old, inspects, starts_checklist, submits_checklist,
  saves_checklist, reopens_checklist, answers, requests, imports, books_deferred, step, run,
  all_within,
}
use superflow_api.Jobs.Lawful.{IsLawful, lawful_scope}
use superflow_api.Jobs.Lawful.Calls.{
  create-IsLawful, transition-IsLawful, update-IsLawful, assign_technician-IsLawful,
  archive_job-IsLawful, unarchive_job-IsLawful, remove-IsLawful,
}
use superflow_api.Jobs.Quality.{save_qc_responses-Keeps, reopen_checklist-Keeps}
use superflow_api.Jobs.Lawful.Checks.{
  inspect_if_new-IsLawful, check_if_new-IsLawful, submit_checklist-IsLawful,
}

step-IsLawful :
    (c : Ctx × Call) (shop : Shop)
    → all_within lawful_scope (c ∷ []) ≡ true
    → IsLawful shop
    → IsLawful (step shop c)
unfolding step start_inspection start_checklist remove_all archive_closed_jobs
    archive_old_closed_jobs mark_booked_as_no_show import_booking book_deferred
step-IsLawful (ctx, creates id ch dto u) shop h l = (create-IsLawful id ch ctx dto u shop l).holds
step-IsLawful (ctx, updates ch id dto u) shop h l =
    (update-IsLawful ch ctx id dto u shop (ground arith) l).holds
step-IsLawful (ctx, transits ch id to r u) shop h l =
    (transition-IsLawful ch ctx id to r u shop l).holds
step-IsLawful (ctx, assigns id technician) shop h l =
    (assign_technician-IsLawful ctx id technician shop l).holds
step-IsLawful (ctx, archives id) shop h l = (archive_job-IsLawful ctx id shop l).holds
step-IsLawful (ctx, unarchives id) shop h l = (unarchive_job-IsLawful id shop l).holds
step-IsLawful (ctx, removes id) shop h l = (remove-IsLawful id shop l).holds
step-IsLawful (ctx, removes_all) shop h l = l
step-IsLawful (ctx, archives_closed) shop h l = l
step-IsLawful (ctx, archives_old at) shop h l = l
step-IsLawful (ctx, marks_no_show) shop h l = l
step-IsLawful (ctx, inspects id ch job template u) shop h l =
    inspect_if_new-IsLawful _ id ch ctx job template u shop l
step-IsLawful (ctx, starts_checklist id ch job template u) shop h l =
    check_if_new-IsLawful _ id ch job template u shop l
step-IsLawful (ctx, submits_checklist ch id u) shop h l =
    (submit_checklist-IsLawful ch ctx id u shop l).holds
step-IsLawful (ctx, saves_checklist id dtos) shop h l =
    (save_qc_responses-Keeps IsLawful shop l id dtos (λ _. l)).holds
step-IsLawful (ctx, reopens_checklist id) shop h l =
    (reopen_checklist-Keeps IsLawful shop l id (λ _. l)).holds
step-IsLawful (ctx, answers ch id) shop h l = cc
step-IsLawful (ctx, requests ch id) shop h l = cc
step-IsLawful (ctx, imports id c v a at) shop h l = l
step-IsLawful (ctx, books_deferred id c v a) shop h l = l

-- Over any history of the program's calls on jobs, other than the portal's moves, whose updates
-- name neither a workflow stage nor a lane of the workshop's board, and which starts with lawful
-- rows of `job_status_history` (with none, say), every row at the end is the creation of a job as
-- booked, a transition that the state machine allows, or the move from `waiting_parts` to
-- `quality_check` that the start of a quality checklist makes. The portal's moves are those by
-- which a link is sent or answered.
pub run-IsLawful :
    (calls : List (Ctx × Call)) (shop : Shop)
    → all_within lawful_scope calls ≡ true
    → IsLawful shop
    → IsLawful (run shop calls)
unfolding run
run-IsLawful [] shop h l = l
run-IsLawful (c ∷ calls) shop h l =
    run-IsLawful calls (step shop c) (ground arith) (step-IsLawful c shop (ground arith) l)
