-- ===== src/Jobs/Lawful/Calls.antt =====
-- The calls of `JobsService` record lawful moves.
use superflow_api.Base.{
  ℕ, String, ◌≡◌, ap, inl, inr, true, Option, none, some, List, arith, all, Bool-cases, ok, ok_inj,
  Keeps, Keeps-bind, throw_if-eq-ok, >>=-eq-ok,
}
use superflow_api.Jobs.Status.{JobStatus, same_status}
use superflow_api.Jobs.Types.{Shop, Ctx, Job, Change, Stage}
use superflow_api.Jobs.Service.{
  CreateJobDto, create, transition, transition_job, assign_technician, archive_job, unarchive_job,
  remove,
}
use superflow_api.Jobs.Update.{
  UpdateJobDto, JobData, update, update_data, recorded, status_guard, by_parts, by_workshop_stage,
}
use superflow_api.Jobs.Data.{by_informed-SameLane, by_workflow_stage-none, by_parts-status}
use superflow_api.Jobs.Lawful.{is_lawful, IsLawful, is_checked_update}

-- The status that such an update writes is the one that was checked.
update_data-checked :
    (dto : UpdateJobDto) (j : Job) (stages : List Stage) (d : JobData)
    → is_checked_update dto ≡ true
    → update_data dto j stages ≡ ok d
    → status_guard j.status d.status ≡ true
unfolding update_data
update_data-checked dto j stages d plain made =
    let (_, guard, made') = >>=-eq-ok _ _ made in
    let (d', staged, done) = >>=-eq-ok _ _ made' in
    let lane = by_workshop_stage dto.workshop_stage d' in
    let same = by_workflow_stage-none _ stages _ d' (ground arith) staged in
    ground (
      arith,
      throw_if-eq-ok _ _ guard,
      ap (λ x. x.status) (ok_inj done),
      (by_informed-SameLane dto.customer_informed j.status (by_parts dto.parts_status lane)).0,
      by_parts-status dto.parts_status lane,
      ap (λ x. x.status) same,
    )

recorded-lawful :
    (change : ℕ) (j : Job) (status : Option JobStatus) (user : Option ℕ) (history : List Change)
    → status_guard j.status status ≡ true
    → all is_lawful history ≡ true
    → all is_lawful (recorded change j status user history) ≡ true
recorded-lawful change j none user history guard lawful = lawful
recorded-lawful change j (some to) user history guard lawful = ground arith

pub create-IsLawful :
    (id change : ℕ) (ctx : Ctx) (dto : CreateJobDto) (user : ℕ) (shop : Shop)
    → IsLawful shop
    → Keeps IsLawful shop (create id change ctx dto user shop)
unfolding create
create-IsLawful id change ctx dto user shop lawful =
    Keeps-bind _ _ lawful λ _ _. Keeps-bind _ _ lawful λ _ _. record { holds = lawful }

pub transition-IsLawful :
    (change : ℕ) (ctx : Ctx) (id : ℕ) (to : JobStatus) (reason : Option String) (user : ℕ)
    (shop : Shop)
    → IsLawful shop
    → Keeps IsLawful shop (transition change ctx id to reason user shop)
unfolding transition transition_job
transition-IsLawful change ctx id to reason user shop lawful = Keeps-bind _ _ lawful λ j e.
    elim (Bool-cases (same_status j.status to)) [
      | inl same ↦ rw same (record { holds = lawful })
      | inr other ↦
          rw other
            (Keeps-bind _ _ lawful λ _ g. record { holds = ground (arith, throw_if-eq-ok _ _ g) })
    ]

pub update-IsLawful :
    (change : ℕ) (ctx : Ctx) (id : ℕ) (dto : UpdateJobDto) (user : Option ℕ) (shop : Shop)
    → is_checked_update dto ≡ true
    → IsLawful shop
    → Keeps IsLawful shop (update change ctx id dto user shop)
unfolding update
update-IsLawful change ctx id dto user shop plain lawful = Keeps-bind _ _ lawful λ j e.
    Keeps-bind _ _ lawful λ d made. Keeps-bind _ _ lawful λ _ _. Keeps-bind _ _ lawful λ _ _.
      Keeps-bind _ _ lawful λ _ _. record {
        holds =
            recorded-lawful change j d.status user shop.history
              (update_data-checked dto j shop.stages d plain made) lawful;
      }

-- The calls that write no history.
pub assign_technician-IsLawful :
    (ctx : Ctx) (id : ℕ) (technician : Option ℕ) (shop : Shop)
    → IsLawful shop
    → Keeps IsLawful shop (assign_technician ctx id technician shop)
unfolding assign_technician
assign_technician-IsLawful ctx id none shop l = Keeps-bind _ _ l λ _ _. record { holds = l }
assign_technician-IsLawful ctx id (some _) shop l =
    Keeps-bind _ _ l λ _ _. Keeps-bind _ _ l λ _ _. record { holds = l }

pub archive_job-IsLawful :
    (ctx : Ctx) (id : ℕ) (shop : Shop)
    → IsLawful shop
    → Keeps IsLawful shop (archive_job ctx id shop)
unfolding archive_job
archive_job-IsLawful ctx id shop l =
    Keeps-bind _ _ l λ _ _. Keeps-bind _ _ l λ _ _. record { holds = l }

pub unarchive_job-IsLawful :
    (id : ℕ) (shop : Shop) → IsLawful shop → Keeps IsLawful shop (unarchive_job id shop)
unfolding unarchive_job
unarchive_job-IsLawful id shop l =
    Keeps-bind _ _ l λ _ _. Keeps-bind _ _ l λ _ _. record { holds = l }

pub remove-IsLawful : (id : ℕ) (shop : Shop) → IsLawful shop → Keeps IsLawful shop (remove id shop)
unfolding remove
remove-IsLawful id shop l = Keeps-bind _ _ l λ _ _. record { holds = l }
