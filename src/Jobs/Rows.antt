-- ===== src/Jobs/Rows.antt =====
-- A property of every job that can be found, and what keeps it over a history of calls.
use superflow_api.Base.{
  ok, or_throw-eq-ok, ℕ, ◌≡◌, refl, sym, subst, inl, inr, Bool, true, Option, none, some, List, [],
  ◌∷◌, arith, ◌==◌, ==_iff, if◌then◌else◌, update_where, Option-cases, Bool-cases,
}
use superflow_api.Jobs.Types.{Job, Shop}
use superflow_api.Jobs.Service.{find_one, job_by_id, write_job, live}

abbrev pub KeepsId : (Job → Job) → Type 0
KeepsId f = (j : Job) → (f j).id ≡ j.id

abbrev pub if_meets : (Job → Bool) → (Job → Job) → Job → Job
if_meets p f j = if p j then f j else j

abbrev pub map_job : (Job → Job) → Option Job → Option Job
map_job f none = none
map_job f (some j) = some (f j)

-- The job found after an update is the one found before it, updated if it meets the condition.
pub job_by_id-update_where :
    (p : Job → Bool) (f : Job → Job)
    → KeepsId f
    → (i : ℕ) (jobs : List Job)
    → job_by_id i (update_where p f jobs) ≡ map_job (if_meets p f) (job_by_id i jobs)
job_by_id-update_where p f keeps i [] = refl
job_by_id-update_where p f keeps i (j ∷ jobs) =
    ground (arith, keeps j, job_by_id-update_where p f keeps i jobs)

pub job_by_id-id : (i : ℕ) (jobs : List Job) (j : Job) → job_by_id i jobs ≡ some j → j.id ≡ i
job_by_id-id i [] j e = cc
job_by_id-id i (x ∷ jobs) j e = ground (arith, job_by_id-id i jobs j)

pub job_by_id-own :
    (i : ℕ) (jobs : List Job) (j : Job) → job_by_id i jobs ≡ some j → job_by_id j.id jobs ≡ some j
job_by_id-own i jobs j at =
    subst (λ n. job_by_id n jobs ≡ some j) (sym (job_by_id-id i jobs j at)) at

-- The job that `findOne` reads is the job of the id.
live-eq-some : (o : Option Job) (j : Job) → live o ≡ some j → o ≡ some j
live-eq-some none j e = cc
live-eq-some (some k) j e = ground arith

pub found_job :
    (id : ℕ) (shop : Shop) {j : Job} → find_one id shop ≡ ok j → job_by_id id shop.jobs ≡ some j
found_job id shop e = live-eq-some _ _ (or_throw-eq-ok _ _ e)

abbrev pub Found : (Job → Type 0) → List Job → Type 0
Found P jobs = (i : ℕ) (j : Job) → job_by_id i jobs ≡ some j → P j

module _ (P : Job → Type 0) (jobs : List Job) (found : Found P jobs) where
  pub update_where-Found :
      (p : Job → Bool) (f : Job → Job)
      → KeepsId f
      → ((j : Job) → job_by_id j.id jobs ≡ some j → p j ≡ true → P j → P (f j))
      → Found P (update_where p f jobs)
  update_where-Found p f keeps step i k e = elim (Option-cases (job_by_id i jobs)) [
    | inl missing ↦ cc (job_by_id-update_where p f keeps i jobs, missing)
    | inr (j, at) ↦ elim (Bool-cases (p j)) [
      | inl meets ↦
          subst P (same j at meets) (step j (job_by_id-own i jobs j at) meets (found i j at))
      | inr fails ↦ subst P (ground (arith, job_by_id-update_where p f keeps i jobs)) (found i j at)
    ]
  ]
    where
      same : (j : Job) → job_by_id i jobs ≡ some j → p j ≡ true → f j ≡ k
      same j at meets = ground (arith, job_by_id-update_where p f keeps i jobs)

  -- A write by id changes the job that was read, and no other.
  pub write_job-Found :
      (id : ℕ) (f : Job → Job) (j : Job)
      → KeepsId f
      → job_by_id id jobs ≡ some j
      → (P j → P (f j))
      → Found P (write_job id f jobs)
  unfolding write_job
  write_job-Found id f j keeps at step =
      update_where-Found (λ k. k.id == id) f keeps
        λ k ek same.
          subst (λ k. P k → P (f k))
            (ground (arith, subst (λ i. job_by_id i jobs ≡ some k) ((==_iff k.id id).0 same) ek))
            step
