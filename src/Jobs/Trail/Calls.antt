-- ===== src/Jobs/Trail/Calls.antt =====
-- Every call of `JobsService` and of the portal that writes a job's status writes the history row with it.
use superflow_api.Base.{
  ℕ, String, ◌≡◌, refl, subst, inl, inr, Option, none, some, arith, ==_iff, ◌||◌, Option-cases,
  Bool-cases, Keeps, Keeps-bind,
}
use superflow_api.Jobs.Status.{JobStatus, estimate_sent, approved, same_status, same_status-eq}
use superflow_api.Jobs.Types.{Shop, Ctx, Job}
use superflow_api.Jobs.Move.{moved}
use superflow_api.Jobs.Service.{
  CreateJobDto, job_by_id, write_job, create, transition, transition_job, assign_technician,
  archive_job, unarchive_job, remove,
}
use superflow_api.Jobs.Update.{UpdateJobDto, JobData, update, patched, recorded}
use superflow_api.Jobs.Outside.{moved_by_portal, approve_job, send_estimate}
use superflow_api.Jobs.Stages.{default_stage_key}
use superflow_api.Portal.Service.{is_over}
use superflow_api.Jobs.Rows.{found_job, job_by_id-own}
use superflow_api.Jobs.Trail.{
  IsRecorded, Recorded, kept-Recorded, changed-Recorded, created-Recorded,
}

pub create-IsRecorded :
    (id change : ℕ) (ctx : Ctx) (dto : CreateJobDto) (user : ℕ) (shop : Shop)
    → job_by_id id shop.jobs ≡ none
    → IsRecorded shop
    → Keeps IsRecorded shop (create id change ctx dto user shop)
unfolding create
create-IsRecorded id change ctx dto user shop fresh told = Keeps-bind _ _ told λ _ _.
    Keeps-bind _ _ told λ _ _. record {
      holds = created-Recorded shop.jobs shop.history told _ _ fresh refl refl refl;
    }

pub transition_job-IsRecorded :
    (change : ℕ) (ctx : Ctx) (j : Job) (to : JobStatus) (reason : Option String) (user : ℕ)
    (shop : Shop)
    → job_by_id j.id shop.jobs ≡ some j
    → IsRecorded shop
    → Keeps IsRecorded shop (transition_job change ctx j to reason user shop)
unfolding transition_job moved
transition_job-IsRecorded change ctx j to reason user shop at told = Keeps-bind _ _ told λ _ _.
    record {
      holds = changed-Recorded shop.jobs shop.history told j _ to change _ _ at (λ _. refl) refl;
    }

pub transition-IsRecorded :
    (change : ℕ) (ctx : Ctx) (id : ℕ) (to : JobStatus) (reason : Option String) (user : ℕ)
    (shop : Shop)
    → IsRecorded shop
    → Keeps IsRecorded shop (transition change ctx id to reason user shop)
unfolding transition
transition-IsRecorded change ctx id to reason user shop told = Keeps-bind _ _ told λ j e.
    elim (Bool-cases (same_status j.status to)) [
      | inl same ↦ rw same (record { holds = told })
      | inr other ↦ rw other (
          transition_job-IsRecorded change ctx j to reason user shop
            (job_by_id-own id shop.jobs j (found_job id shop e)) told)
    ]

pub assign_technician-IsRecorded :
    (ctx : Ctx) (id : ℕ) (technician : Option ℕ) (shop : Shop)
    → IsRecorded shop
    → Keeps IsRecorded shop (assign_technician ctx id technician shop)
unfolding assign_technician write_job
assign_technician-IsRecorded ctx id none shop told = Keeps-bind _ _ told λ j _. record {
  holds = kept-Recorded shop.jobs shop.history told _ _ (λ _. refl) (λ _ _ _. refl);
}
assign_technician-IsRecorded ctx id (some technician) shop told = Keeps-bind _ _ told λ j _.
    Keeps-bind _ _ told λ _ _. record {
      holds = kept-Recorded shop.jobs shop.history told _ _ (λ _. refl) (λ _ _ _. refl);
    }

pub archive_job-IsRecorded :
    (ctx : Ctx) (id : ℕ) (shop : Shop)
    → IsRecorded shop
    → Keeps IsRecorded shop (archive_job ctx id shop)
unfolding archive_job write_job
archive_job-IsRecorded ctx id shop told = Keeps-bind _ _ told λ j _. Keeps-bind _ _ told λ _ _.
    record { holds = kept-Recorded shop.jobs shop.history told _ _ (λ _. refl) (λ _ _ _. refl) }

pub unarchive_job-IsRecorded :
    (id : ℕ) (shop : Shop) → IsRecorded shop → Keeps IsRecorded shop (unarchive_job id shop)
unfolding unarchive_job write_job
unarchive_job-IsRecorded id shop told = Keeps-bind _ _ told λ j _. Keeps-bind _ _ told λ _ _.
    record { holds = kept-Recorded shop.jobs shop.history told _ _ (λ _. refl) (λ _ _ _. refl) }

pub remove-IsRecorded :
    (id : ℕ) (shop : Shop) → IsRecorded shop → Keeps IsRecorded shop (remove id shop)
unfolding remove write_job
remove-IsRecorded id shop told = Keeps-bind _ _ told λ j _. record {
  holds = kept-Recorded shop.jobs shop.history told _ _ (λ _. refl) (λ _ _ _. refl);
}

-- The update of the row, and the history with the row that `recorded` adds to it.
pub recorded-IsRecorded :
    (change : ℕ) (j : Job) (d : JobData) (status : Option JobStatus) (user : Option ℕ) (shop : Shop)
    → d.status ≡ status
    → job_by_id j.id shop.jobs ≡ some j
    → IsRecorded shop
    → Recorded (write_job j.id (patched d) shop.jobs) (recorded change j status user shop.history)
unfolding write_job
recorded-IsRecorded change j d none user shop e at told =
    kept-Recorded shop.jobs shop.history told _ _ (λ _. refl) (λ k _ _. ground (arith, e))
recorded-IsRecorded change j d (some to) user shop e at told =
    elim (Bool-cases (same_status to j.status)) [
      | inl same ↦ rw same (
          kept-Recorded shop.jobs shop.history told _ _ (λ _. refl)
            λ k found own. ground (
              arith,
              e,
              same_status-eq to j.status same,
              found,
              at,
              subst (λ n. job_by_id n shop.jobs ≡ some k) ((==_iff k.id j.id).0 own) found,
            ))
      | inr other ↦ rw other (
          changed-Recorded shop.jobs shop.history told j (patched d) to change user _ at (λ _. refl)
            (ground (arith, e)))
    ]

pub update-IsRecorded :
    (change : ℕ) (ctx : Ctx) (id : ℕ) (dto : UpdateJobDto) (user : Option ℕ) (shop : Shop)
    → IsRecorded shop
    → Keeps IsRecorded shop (update change ctx id dto user shop)
unfolding update
update-IsRecorded change ctx id dto user shop told = Keeps-bind _ _ told λ j e.
    Keeps-bind _ _ told λ d made. Keeps-bind _ _ told λ _ _. Keeps-bind _ _ told λ _ _.
      Keeps-bind _ _ told λ _ _. record {
        holds =
            recorded-IsRecorded change j d d.status user shop refl
              (job_by_id-own id shop.jobs j (found_job id shop e)) told;
      }

pub approve_job-IsRecorded :
    (change id : ℕ) (shop : Shop)
    → IsRecorded shop
    → IsRecorded (approve_job change (job_by_id id shop.jobs) shop)
unfolding approve_job write_job
approve_job-IsRecorded change id shop told = elim (Option-cases (job_by_id id shop.jobs)) [
  | inl missing ↦ rw missing told
  | inr (j, at) ↦ rw at (elim (Bool-cases (is_over j.status)) [
    | inl over ↦ rw over told
    | inr on ↦ rw on (
        let own = job_by_id-own id shop.jobs j at in
        elim (Bool-cases (same_status j.status approved)) [
          | inl same ↦ rw same (
              kept-Recorded shop.jobs shop.history told _ _ (λ _. refl)
                λ k found here. ground (
                  arith,
                  same_status-eq j.status approved same,
                  found,
                  own,
                  subst (λ n. job_by_id n shop.jobs ≡ some k) ((==_iff k.id j.id).0 here) found,
                ))
          | inr other ↦ rw other (
              changed-Recorded shop.jobs shop.history told j
                (moved_by_portal approved (default_stage_key approved shop.stages)) approved change
                _ _ own (λ _. refl) refl)
        ])
  ])
]

pub send_estimate-IsRecorded :
    (change id : ℕ) (shop : Shop)
    → IsRecorded shop
    → IsRecorded (send_estimate change (job_by_id id shop.jobs) shop)
unfolding send_estimate
send_estimate-IsRecorded change id shop told = elim (Option-cases (job_by_id id shop.jobs)) [
  | inl missing ↦ rw missing told
  | inr (j, at) ↦
      rw at (elim (Bool-cases (same_status j.status estimate_sent || is_over j.status)) [
        | inl stays ↦ rw stays told
        | inr moves ↦ rw moves (
            changed-Recorded shop.jobs shop.history told j
              (moved_by_portal estimate_sent (default_stage_key estimate_sent shop.stages))
              estimate_sent change _ _ (job_by_id-own id shop.jobs j at) (λ _. refl) refl)
      ])
]
