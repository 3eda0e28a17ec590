-- ===== src/Jobs/Lawful/Checks.antt =====
-- Inspections and quality checklists record lawful moves.
use superflow_api.Base.{
  ℕ, ◌≡◌, refl, inl, inr, true, ◌||◌, Option, none, some, arith, Bool-cases, Keeps, Keeps-bind,
}
use superflow_api.Jobs.Status.{
  JobStatus, booked, in_progress, waiting_parts, quality_check, same_status, same_status-eq,
  can_transition, transitions,
}
use superflow_api.Jobs.Types.{Shop, Ctx, Job, QcResult, pass, fail, na, Inspection, Checklist}
use superflow_api.Jobs.Checks.{
  submit_checklist, inspect_if_new, check_if_new, check_in, to_quality_check, from_quality_check,
  is_worked_on, result_status,
}
use superflow_api.Jobs.Lawful.{is_check_of_waiting, IsLawful}

pub check_in-IsLawful :
    (change : ℕ) (ctx : Ctx) (user : ℕ) (o : Option Job) (shop : Shop)
    → IsLawful shop
    → IsLawful (check_in change ctx user o shop)
unfolding check_in can_transition transitions
check_in-IsLawful change ctx user none shop lawful = lawful
check_in-IsLawful change ctx user (some j) shop lawful =
    elim (Bool-cases (same_status j.status booked)) [
      | inl here ↦ rw here (ground (arith, same_status-eq j.status booked here))
      | inr other ↦ rw other lawful
    ]

pub inspect_if_new-IsLawful :
    (o : Option Inspection) (id change : ℕ) (ctx : Ctx) (job template user : ℕ) (shop : Shop)
    → IsLawful shop
    → IsLawful (inspect_if_new o id change ctx job template user shop).1
unfolding inspect_if_new
inspect_if_new-IsLawful none id change ctx job template user shop lawful =
    check_in-IsLawful change ctx user _ shop lawful
inspect_if_new-IsLawful (some _) id change ctx job template user shop lawful = lawful

worked_on-lawful :
    (s : JobStatus)
    → is_worked_on s ≡ true
    → (can_transition s quality_check || is_check_of_waiting s quality_check) ≡ true
unfolding can_transition transitions
worked_on-lawful in_progress h = refl
worked_on-lawful waiting_parts h = refl
worked_on-lawful _ h = cc

pub to_quality_check-IsLawful :
    (change user : ℕ) (o : Option Job) (shop : Shop)
    → IsLawful shop
    → IsLawful (to_quality_check change user o shop)
unfolding to_quality_check
to_quality_check-IsLawful change user none shop lawful = lawful
to_quality_check-IsLawful change user (some j) shop lawful =
    elim (Bool-cases (is_worked_on j.status)) [
      | inl here ↦ rw here (ground (arith, worked_on-lawful j.status here))
      | inr other ↦ rw other lawful
    ]

pub check_if_new-IsLawful :
    (o : Option Checklist) (id change job template user : ℕ) (shop : Shop)
    → IsLawful shop
    → IsLawful (check_if_new o id change job template user shop).1
unfolding check_if_new
check_if_new-IsLawful none id change job template user shop lawful =
    to_quality_check-IsLawful change user _ shop lawful
check_if_new-IsLawful (some _) id change job template user shop lawful = lawful

result-lawful : (r : QcResult) → can_transition quality_check (result_status r) ≡ true
unfolding can_transition transitions
result-lawful pass = refl
result-lawful fail = refl
result-lawful na = refl

pub from_quality_check-IsLawful :
    (change : ℕ) (ctx : Ctx) (result : QcResult) (user : ℕ) (o : Option Job) (shop : Shop)
    → IsLawful shop
    → IsLawful (from_quality_check change ctx result user o shop)
unfolding from_quality_check
from_quality_check-IsLawful change ctx result user none shop lawful = lawful
from_quality_check-IsLawful change ctx result user (some j) shop lawful =
    elim (Bool-cases (same_status j.status quality_check)) [
      | inl here ↦
          rw here (ground (arith, same_status-eq j.status quality_check here, result-lawful result))
      | inr other ↦ rw other lawful
    ]

pub submit_checklist-IsLawful :
    (change : ℕ) (ctx : Ctx) (id user : ℕ) (shop : Shop)
    → IsLawful shop
    → Keeps IsLawful shop (submit_checklist change ctx id user shop)
unfolding submit_checklist
submit_checklist-IsLawful change ctx id user shop lawful = Keeps-bind _ _ lawful λ c _.
    Keeps-bind _ _ lawful λ _ _.
      Keeps-bind _ _ lawful
        λ _ _. record { holds = from_quality_check-IsLawful change ctx _ user _ _ lawful }
