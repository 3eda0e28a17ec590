-- ===== src/Jobs/Keep/Service.antt =====
-- The calls of `JobsService` and the sweeps keep what the laws keep.
use superflow_api.Base.{
  ℕ, String, ◌≡◌, refl, subst, inl, inr, true, Option, none, some, ◌∷◌, arith, ◌==◌, Bool-cases,
  Keeps, Keeps-bind, or_throw-eq-ok, throw_if-eq-ok,
}
use superflow_api.Jobs.Status.{JobStatus, closed, same_status, same_status-eq}
use superflow_api.Jobs.Types.{Shop, Ctx, Job}
use superflow_api.Jobs.Move.{moved}
use superflow_api.Jobs.Service.{
  CreateJobDto, new_job, job_by_id, create, transition, transition_job, assign_technician,
  archive_job, unarchive_job, remove, remove_all, set_deleted, is_live_booking,
}
use superflow_api.Jobs.Update.{UpdateJobDto, update, patched}
use superflow_api.Jobs.Sweeps.{
  archive_closed_jobs, mark_booked_as_no_show, archive_old_closed_jobs, is_unarchived, is_missed,
  missed, is_old,
}
use superflow_api.Jobs.Rows.{Found, update_where-Found, write_job-Found, job_by_id-own, found_job}
use superflow_api.Jobs.Calls.{Scope}
use superflow_api.Jobs.Keep.{RowLaws}

module _ (P : Job → Type 0) (allowed : Scope) (laws : RowLaws P allowed) where
  abbrev Ok : Shop → Type 0
  Ok shop = Found P shop.jobs

  pub create-Ok :
      (id change : ℕ) (ctx : Ctx) (dto : CreateJobDto) (user : ℕ) (shop : Shop)
      → Ok shop
      → Keeps Ok shop (create id change ctx dto user shop)
  unfolding create
  create-Ok id change ctx dto user shop found =
      Keeps-bind _ _ found λ _ _. Keeps-bind _ _ found λ _ _. record { holds = in_new }
    where
      in_new : Found P (new_job id dto user ∷ shop.jobs)
      in_new i j at = elim (Bool-cases (id == i)) [
        | inl new ↦ subst P (ground arith) (laws.on_create id dto user)
        | inr old ↦ found i j (ground arith)
      ]

  pub transition_job-Ok :
      (change : ℕ) (ctx : Ctx) (j : Job) (to : JobStatus) (reason : Option String) (user : ℕ)
      (shop : Shop)
      → job_by_id j.id shop.jobs ≡ some j
      → Ok shop
      → Keeps Ok shop (transition_job change ctx j to reason user shop)
  unfolding transition_job moved
  transition_job-Ok change ctx j to reason user shop at found = Keeps-bind _ _ found λ _ e. record {
    holds =
        write_job-Found P shop.jobs found j.id _ j (λ _. refl) at
          (laws.on_move j to _ ctx.now (ground (arith, throw_if-eq-ok _ _ e)));
  }

  pub transition-Ok :
      (change : ℕ) (ctx : Ctx) (id : ℕ) (to : JobStatus) (reason : Option String) (user : ℕ)
      (shop : Shop)
      → Ok shop
      → Keeps Ok shop (transition change ctx id to reason user shop)
  unfolding transition
  transition-Ok change ctx id to reason user shop found = Keeps-bind _ _ found λ j e.
      elim (Bool-cases (same_status j.status to)) [
        | inl same ↦ rw same (record { holds = found })
        | inr other ↦ rw other (
            transition_job-Ok change ctx j to reason user shop
              (job_by_id-own id shop.jobs j (found_job id shop e)) found)
      ]

  pub assign_technician-Ok :
      (ctx : Ctx) (id : ℕ) (technician : Option ℕ) (shop : Shop)
      → Ok shop
      → Keeps Ok shop (assign_technician ctx id technician shop)
  unfolding assign_technician
  assign_technician-Ok ctx id none shop found = Keeps-bind _ _ found λ j e. record {
    holds =
        write_job-Found P shop.jobs found id _ j (λ _. refl) (found_job id shop e)
          (laws.on_unassign j);
  }
  assign_technician-Ok ctx id (some technician) shop found = Keeps-bind _ _ found λ j e.
      Keeps-bind _ _ found λ _ _. record {
        holds =
            write_job-Found P shop.jobs found id _ j (λ _. refl) (found_job id shop e)
              (laws.on_assign j technician);
      }

  pub archive_job-Ok :
      (ctx : Ctx) (id : ℕ) (shop : Shop) → Ok shop → Keeps Ok shop (archive_job ctx id shop)
  unfolding archive_job
  archive_job-Ok ctx id shop found = Keeps-bind _ _ found λ j e. Keeps-bind _ _ found λ _ g.
      record {
        holds =
            write_job-Found P shop.jobs found id _ j (λ _. refl) (found_job id shop e)
              (laws.on_archive j ctx.now
                (same_status-eq j.status closed (ground (arith, throw_if-eq-ok _ _ g))));
      }

  pub unarchive_job-Ok : (id : ℕ) (shop : Shop) → Ok shop → Keeps Ok shop (unarchive_job id shop)
  unfolding unarchive_job
  unarchive_job-Ok id shop found = Keeps-bind _ _ found λ j e. Keeps-bind _ _ found λ _ _. record {
    holds =
        write_job-Found P shop.jobs found id _ j (λ _. refl) (or_throw-eq-ok _ _ e)
          (laws.on_unarchive j);
  }

  pub remove-Ok : (id : ℕ) (shop : Shop) → Ok shop → Keeps Ok shop (remove id shop)
  unfolding remove
  remove-Ok id shop found = Keeps-bind _ _ found λ j e. record {
    holds =
        write_job-Found P shop.jobs found id _ j (λ _. refl) (found_job id shop e)
          (laws.on_delete j);
  }

  pub remove_all-Ok : (shop : Shop) → Ok shop → Ok (remove_all shop).1
  unfolding remove_all
  remove_all-Ok shop found =
      update_where-Found P shop.jobs found is_live_booking set_deleted (λ _. refl)
        λ j _ _. laws.on_delete j

  pub archive_closed_jobs-Ok : (now : ℕ) (shop : Shop) → Ok shop → Ok (archive_closed_jobs now shop)
  unfolding archive_closed_jobs
  archive_closed_jobs-Ok now shop found =
      update_where-Found P shop.jobs found is_unarchived _ (λ _. refl)
        λ j _ closed. laws.on_archive j now (same_status-eq j.status _ (ground arith))

  pub archive_old_closed_jobs-Ok :
      (updated_at : Job → ℕ) (now : ℕ) (shop : Shop)
      → Ok shop
      → Ok (archive_old_closed_jobs updated_at now shop).1
  unfolding archive_old_closed_jobs
  archive_old_closed_jobs-Ok updated_at now shop found =
      update_where-Found P shop.jobs found (is_old updated_at now) _ (λ _. refl)
        λ j _ old. laws.on_archive j now (same_status-eq j.status _ (ground arith))

  pub mark_booked_as_no_show-Ok : (shop : Shop) → Ok shop → Ok (mark_booked_as_no_show shop)
  unfolding mark_booked_as_no_show
  mark_booked_as_no_show-Ok shop found =
      update_where-Found P shop.jobs found is_missed missed (λ _. refl) λ j _. laws.on_miss j

  pub update-Ok :
      (change : ℕ) (ctx : Ctx) (id : ℕ) (dto : UpdateJobDto) (user : Option ℕ) (shop : Shop)
      → allowed.may_update dto ≡ true
      → Ok shop
      → Keeps Ok shop (update change ctx id dto user shop)
  unfolding update
  update-Ok change ctx id dto user shop ok' found = Keeps-bind _ _ found λ j e.
      Keeps-bind _ _ found λ d made. Keeps-bind _ _ found λ _ _. Keeps-bind _ _ found λ _ _.
        Keeps-bind _ _ found λ _ _. record {
          holds =
              write_job-Found P shop.jobs found j.id (patched d) j (λ _. refl)
                (job_by_id-own id shop.jobs j (found_job id shop e))
                (laws.on_update dto j shop.stages d ok' made);
        }
