-- ===== src/Jobs/Trail/Checks.antt =====
-- Inspections and quality checklists write the history rows of their moves.
use superflow_api.Base.{
  ℕ, String, ◌≡◌, refl, inl, inr, Option, none, some, Option-cases, Bool-cases, Keeps, Keeps-bind,
}
use superflow_api.Jobs.Status.{booked, quality_check, same_status}
use superflow_api.Jobs.Types.{Shop, Ctx, Job, QcResult, pass, fail, na, Inspection, Checklist}
use superflow_api.Jobs.Service.{job_by_id}
use superflow_api.Jobs.Checks.{
  submit_checklist, inspect_if_new, check_if_new, check_in, to_quality_check, from_quality_check,
  checked, result_status, is_worked_on, job_if,
}
use superflow_api.Jobs.Rows.{KeepsId, job_by_id-own}
use superflow_api.Jobs.Trail.{IsRecorded, changed-Recorded}

pub check_in-IsRecorded :
    (change : ℕ) (ctx : Ctx) (user job : ℕ) (shop : Shop)
    → IsRecorded shop
    → IsRecorded (check_in change ctx user (job_by_id job shop.jobs) shop)
unfolding check_in
check_in-IsRecorded change ctx user job shop told = elim (Option-cases (job_by_id job shop.jobs)) [
  | inl missing ↦ rw missing told
  | inr (j, at) ↦ rw at (elim (Bool-cases (same_status j.status booked)) [
    | inl here ↦ rw here (
        changed-Recorded shop.jobs shop.history told j _ _ change _ _
          (job_by_id-own job shop.jobs j at) (λ _. refl) refl)
    | inr other ↦ rw other told
  ])
]

pub inspect_if_new-IsRecorded :
    (o : Option Inspection) (id change : ℕ) (ctx : Ctx) (job template user : ℕ) (shop : Shop)
    → IsRecorded shop
    → IsRecorded (inspect_if_new o id change ctx job template user shop).1
unfolding inspect_if_new
inspect_if_new-IsRecorded none id change ctx job template user shop told =
    check_in-IsRecorded change ctx user job shop told
inspect_if_new-IsRecorded (some _) id change ctx job template user shop told = told

pub to_quality_check-IsRecorded :
    (change user job : ℕ) (shop : Shop)
    → IsRecorded shop
    → IsRecorded (to_quality_check change user (job_by_id job shop.jobs) shop)
unfolding to_quality_check
to_quality_check-IsRecorded change user job shop told =
    elim (Option-cases (job_by_id job shop.jobs)) [
      | inl missing ↦ rw missing told
      | inr (j, at) ↦ rw at (elim (Bool-cases (is_worked_on j.status)) [
        | inl here ↦ rw here (
            changed-Recorded shop.jobs shop.history told j _ _ change _ _
              (job_by_id-own job shop.jobs j at) (λ _. refl) refl)
        | inr other ↦ rw other told
      ])
    ]

pub check_if_new-IsRecorded :
    (o : Option Checklist) (id change job template user : ℕ) (shop : Shop)
    → IsRecorded shop
    → IsRecorded (check_if_new o id change job template user shop).1
unfolding check_if_new
check_if_new-IsRecorded none id change job template user shop told =
    to_quality_check-IsRecorded change user job shop told
check_if_new-IsRecorded (some _) id change job template user shop told = told

checked-id : (key : Option String) (now : ℕ) (result : QcResult) → KeepsId (checked key now result)
checked-id key now pass j = refl
checked-id key now fail j = refl
checked-id key now na j = refl

checked-status :
    (key : Option String) (now : ℕ) (result : QcResult) (j : Job)
    → (checked key now result j).status ≡ result_status result
checked-status key now pass j = refl
checked-status key now fail j = refl
checked-status key now na j = refl

pub from_quality_check-IsRecorded :
    (change : ℕ) (ctx : Ctx) (result : QcResult) (user : ℕ) (job : Option ℕ) (shop : Shop)
    → IsRecorded shop
    → IsRecorded (from_quality_check change ctx result user (job_if job shop.jobs) shop)
unfolding from_quality_check
from_quality_check-IsRecorded change ctx result user none shop told = told
from_quality_check-IsRecorded change ctx result user (some job) shop told =
    elim (Option-cases (job_by_id job shop.jobs)) [
      | inl missing ↦ rw missing told
      | inr (j, at) ↦ rw at (elim (Bool-cases (same_status j.status quality_check)) [
        | inl here ↦ rw here (
            changed-Recorded shop.jobs shop.history told j _ _ change _ _
              (job_by_id-own job shop.jobs j at) (checked-id _ ctx.now result)
              (checked-status _ ctx.now result j))
        | inr other ↦ rw other told
      ])
    ]

pub submit_checklist-IsRecorded :
    (change : ℕ) (ctx : Ctx) (id user : ℕ) (shop : Shop)
    → IsRecorded shop
    → Keeps IsRecorded shop (submit_checklist change ctx id user shop)
unfolding submit_checklist
submit_checklist-IsRecorded change ctx id user shop told = Keeps-bind _ _ told λ c _.
    Keeps-bind _ _ told λ _ _.
      Keeps-bind _ _ told
        λ _ _. record { holds = from_quality_check-IsRecorded change ctx _ user c.job_id _ told }
