-- ===== src/Jobs/Keep/Run.antt =====
-- A history of calls keeps what the laws keep.
use superflow_api.Base.{◌≡◌, true, List, [], ◌∷◌, arith}
use superflow_api.Jobs.Types.{Shop, Ctx, Job}
use superflow_api.Jobs.Checks.{start_inspection, start_checklist}
use superflow_api.Jobs.Calls.{
  Call, creates, updates, transits, assigns, archives, unarchives, removes, removes_all,
  archives_closed, marks_no_show, archives_old, inspects, starts_checklist, submits_checklist,
  saves_checklist, reopens_checklist, answers, requests, imports, books_deferred, step, run, Scope,
  all_within,
}
use superflow_api.Jobs.Rows.{Found}
use superflow_api.Jobs.Keep.{RowLaws}
use superflow_api.Jobs.Keep.Service.{
  create-Ok, transition-Ok, assign_technician-Ok, archive_job-Ok, unarchive_job-Ok, remove-Ok,
  remove_all-Ok, archive_closed_jobs-Ok, archive_old_closed_jobs-Ok, mark_booked_as_no_show-Ok,
  update-Ok,
}
use superflow_api.Jobs.Quality.{save_qc_responses-Keeps, reopen_checklist-Keeps}
use superflow_api.Jobs.Keep.Outside.{
  approve_job-Ok, send_estimate-Ok, import_booking-Ok, book_deferred-Ok,
}
use superflow_api.Jobs.Keep.Checks.{inspect_if_new-Ok, check_if_new-Ok, submit_checklist-Ok}

module _ (P : Job → Type 0) (allowed : Scope) (laws : RowLaws P allowed) where
  abbrev Ok : Shop → Type 0
  Ok shop = Found P shop.jobs

  step-Ok :
      (c : Ctx × Call) (shop : Shop)
      → all_within allowed (c ∷ []) ≡ true
      → Ok shop
      → Ok (step shop c)
  unfolding step start_inspection start_checklist
  step-Ok (ctx, creates id ch dto u) shop h f =
      (create-Ok P allowed laws id ch ctx dto u shop f).holds
  step-Ok (ctx, updates ch id dto u) shop h f =
      (update-Ok P allowed laws ch ctx id dto u shop (ground arith) f).holds
  step-Ok (ctx, transits ch id to r u) shop h f =
      (transition-Ok P allowed laws ch ctx id to r u shop f).holds
  step-Ok (ctx, assigns id t) shop h f = (assign_technician-Ok P allowed laws ctx id t shop f).holds
  step-Ok (ctx, archives id) shop h f = (archive_job-Ok P allowed laws ctx id shop f).holds
  step-Ok (ctx, unarchives id) shop h f = (unarchive_job-Ok P allowed laws id shop f).holds
  step-Ok (ctx, removes id) shop h f = (remove-Ok P allowed laws id shop f).holds
  step-Ok (ctx, removes_all) shop h f = remove_all-Ok P allowed laws shop f
  step-Ok (ctx, archives_closed) shop h f = archive_closed_jobs-Ok P allowed laws ctx.now shop f
  step-Ok (ctx, marks_no_show) shop h f = mark_booked_as_no_show-Ok P allowed laws shop f
  step-Ok (ctx, archives_old at) shop h f =
      archive_old_closed_jobs-Ok P allowed laws at ctx.now shop f
  step-Ok (ctx, inspects id ch job t u) shop h f =
      inspect_if_new-Ok P allowed laws _ id ch ctx job t u shop f
  step-Ok (ctx, starts_checklist id ch job t u) shop h f =
      check_if_new-Ok P allowed laws _ id ch job t u shop f
  step-Ok (ctx, submits_checklist ch id u) shop h f =
      (submit_checklist-Ok P allowed laws ch ctx id u shop f).holds
  step-Ok (ctx, saves_checklist id dtos) shop h f =
      (save_qc_responses-Keeps Ok shop f id dtos (λ _. f)).holds
  step-Ok (ctx, reopens_checklist id) shop h f =
      (reopen_checklist-Keeps Ok shop f id (λ _. f)).holds
  step-Ok (ctx, answers ch id) shop h f = approve_job-Ok P allowed laws ch id shop (ground arith) f
  step-Ok (ctx, requests ch id) shop h f =
      send_estimate-Ok P allowed laws ch id shop (ground arith) f
  step-Ok (ctx, imports id c v a at) shop h f =
      import_booking-Ok P allowed laws id c v a at shop (ground arith) f
  step-Ok (ctx, books_deferred id c v a) shop h f =
      book_deferred-Ok P allowed laws id c v a shop (ground arith) f

  pub run-Found :
      (calls : List (Ctx × Call)) (shop : Shop)
      → all_within allowed calls ≡ true
      → Found P shop.jobs
      → Found P (run shop calls).jobs
  unfolding run
  run-Found [] shop h f = f
  run-Found (c ∷ calls) shop h f =
      run-Found calls (step shop c) (ground arith) (step-Ok c shop (ground arith) f)
