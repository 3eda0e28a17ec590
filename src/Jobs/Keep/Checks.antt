-- ===== src/Jobs/Keep/Checks.antt =====
-- Inspections and quality checklists keep what the laws keep.
use superflow_api.Base.{
  ℕ, String, refl, inl, inr, Option, none, some, Option-cases, Bool-cases, Keeps, Keeps-bind,
}
use superflow_api.Jobs.Status.{booked, quality_check, same_status, same_status-eq}
use superflow_api.Jobs.Types.{Shop, Ctx, Job, QcResult, pass, fail, na, Inspection, Checklist}
use superflow_api.Jobs.Service.{job_by_id}
use superflow_api.Jobs.Checks.{
  inspect_if_new, check_if_new, submit_checklist, check_in, to_quality_check, from_quality_check,
  checked, is_worked_on, job_if,
}
use superflow_api.Jobs.Rows.{Found, KeepsId, write_job-Found, job_by_id-own}
use superflow_api.Jobs.Calls.{Scope}
use superflow_api.Jobs.Keep.{RowLaws}

module _ (P : Job → Type 0) (allowed : Scope) (laws : RowLaws P allowed) where
  abbrev Ok : Shop → Type 0
  Ok shop = Found P shop.jobs

  pub check_in-Ok :
      (change : ℕ) (ctx : Ctx) (user job : ℕ) (shop : Shop)
      → Ok shop
      → Ok (check_in change ctx user (job_by_id job shop.jobs) shop)
  unfolding check_in
  check_in-Ok change ctx user job shop found = elim (Option-cases (job_by_id job shop.jobs)) [
    | inl missing ↦ rw missing found
    | inr (j, at) ↦ rw at (elim (Bool-cases (same_status j.status booked)) [
      | inl here ↦ rw here (
          write_job-Found P shop.jobs found j.id _ j (λ _. refl) (job_by_id-own job shop.jobs j at)
            (laws.on_arrival j _ ctx.now (same_status-eq _ _ here)))
      | inr other ↦ rw other found
    ])
  ]

  pub inspect_if_new-Ok :
      (o : Option Inspection) (id change : ℕ) (ctx : Ctx) (job template user : ℕ) (shop : Shop)
      → Ok shop
      → Ok (inspect_if_new o id change ctx job template user shop).1
  unfolding inspect_if_new
  inspect_if_new-Ok none id change ctx job template user shop found =
      check_in-Ok change ctx user job shop found
  inspect_if_new-Ok (some _) id change ctx job template user shop found = found

  pub to_quality_check-Ok :
      (change user job : ℕ) (shop : Shop)
      → Ok shop
      → Ok (to_quality_check change user (job_by_id job shop.jobs) shop)
  unfolding to_quality_check
  to_quality_check-Ok change user job shop found = elim (Option-cases (job_by_id job shop.jobs)) [
    | inl missing ↦ rw missing found
    | inr (j, at) ↦ rw at (elim (Bool-cases (is_worked_on j.status)) [
      | inl here ↦ rw here (
          write_job-Found P shop.jobs found j.id _ j (λ _. refl) (job_by_id-own job shop.jobs j at)
            (laws.on_qc_start j _ here))
      | inr other ↦ rw other found
    ])
  ]

  pub check_if_new-Ok :
      (o : Option Checklist) (id change job template user : ℕ) (shop : Shop)
      → Ok shop
      → Ok (check_if_new o id change job template user shop).1
  unfolding check_if_new
  check_if_new-Ok none id change job template user shop found =
      to_quality_check-Ok change user job shop found
  check_if_new-Ok (some _) id change job template user shop found = found

  pub from_quality_check-Ok :
      (change : ℕ) (ctx : Ctx) (result : QcResult) (user : ℕ) (job : Option ℕ) (shop : Shop)
      → Ok shop
      → Ok (from_quality_check change ctx result user (job_if job shop.jobs) shop)
  unfolding from_quality_check
  from_quality_check-Ok change ctx result user none shop found = found
  from_quality_check-Ok change ctx result user (some job) shop found =
      elim (Option-cases (job_by_id job shop.jobs)) [
        | inl missing ↦ rw missing found
        | inr (j, at) ↦ rw at (elim (Bool-cases (same_status j.status quality_check)) [
          | inl here ↦ rw here (
              write_job-Found P shop.jobs found j.id _ j (checked-id _ ctx.now result)
                (job_by_id-own job shop.jobs j at)
                (laws.on_qc_end j _ ctx.now result (same_status-eq _ _ here)))
          | inr other ↦ rw other found
        ])
      ]
    where
      checked-id :
          (key : Option String) (now : ℕ) (result : QcResult) → KeepsId (checked key now result)
      checked-id key now pass j = refl
      checked-id key now fail j = refl
      checked-id key now na j = refl

  pub submit_checklist-Ok :
      (change : ℕ) (ctx : Ctx) (id user : ℕ) (shop : Shop)
      → Ok shop
      → Keeps Ok shop (submit_checklist change ctx id user shop)
  unfolding submit_checklist
  submit_checklist-Ok change ctx id user shop found = Keeps-bind _ _ found λ c _.
      Keeps-bind _ _ found λ _ _.
        Keeps-bind _ _ found
          λ _ _. record { holds = from_quality_check-Ok change ctx _ user c.job_id _ found }
