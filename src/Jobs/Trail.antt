-- ===== src/Jobs/Trail.antt =====
-- The history of a job's statuses (`job_status_history`) tells how the job came to its status.
pub mod Calls
pub mod Checks
pub mod Run
use superflow_api.Base.{
  ℕ, String, ◌≡◌, refl, sym, subst, inl, inr, Bool, true, false, not, ◌&&◌, Option, none, some,
  List, [], ◌∷◌, arith, ◌==◌, ==_iff, if◌then◌else◌, keep_if, update_where, Option-cases,
  Bool-cases, is_some, or_else,
}
use superflow_api.Jobs.Status.{JobStatus, same_status, same_status-eq}
use superflow_api.Jobs.Types.{Shop, Ctx, Job, Change, ChangeReason}
use superflow_api.Jobs.Service.{job_by_id, write_job, change_of}
use superflow_api.Jobs.Rows.{KeepsId, job_by_id-update_where, job_by_id-id, job_by_id-own}

-- The history rows of a job, newest first.
abbrev pub trail : ℕ → List Change → List Change
trail id = keep_if (λ c. c.job_id == id)

-- The newest row leads to the status, each row starts where the one before it leads to, and the
-- first starts from nothing.
unfoldable pub is_chain : Option JobStatus → List Change → Bool
is_chain none [] = true
is_chain none (c ∷ rows) = false
is_chain (some s) [] = false
is_chain (some s) (c ∷ rows) = same_status c.to_status s && is_chain c.from_status rows

abbrev pub status_of : Option Job → Option JobStatus
status_of none = none
status_of (some j) = some j.status

-- Every job's history leads to its status.
abbrev pub Recorded : List Job → List Change → Type 0
Recorded jobs history =
    (id : ℕ) → is_chain (status_of (job_by_id id jobs)) (trail id history) ≡ true

pub write_job_elsewhere :
    (id i : ℕ) (f : Job → Job) (jobs : List Job)
    → KeepsId f
    → (i == id) ≡ false
    → job_by_id i (write_job id f jobs) ≡ job_by_id i jobs
unfolding write_job
write_job_elsewhere id i f jobs keeps apart = elim (Option-cases (job_by_id i jobs)) [
  | inl missing ↦ ground (arith, job_by_id-update_where (λ k. k.id == id) f keeps i jobs)
  | inr (j, at) ↦
      ground
        (arith, job_by_id-update_where (λ k. k.id == id) f keeps i jobs, job_by_id-id i jobs j at)
]

abbrev pub IsRecorded : Shop → Type 0
IsRecorded shop = Recorded shop.jobs shop.history

module _ (jobs : List Job) (history : List Change) (recorded : Recorded jobs history) where
  -- A write of columns other than the status needs no row.
  pub kept-Recorded :
      (p : Job → Bool) (f : Job → Job)
      → KeepsId f
      → ((j : Job) → job_by_id j.id jobs ≡ some j → p j ≡ true → (f j).status ≡ j.status)
      → Recorded (update_where p f jobs) history
  kept-Recorded p f keeps same id = elim (Option-cases (job_by_id id jobs)) [
    | inl missing ↦ ground (arith, recorded id, job_by_id-update_where p f keeps id jobs, missing)
    | inr (j, at) ↦ ground (
      arith,
      recorded id,
      job_by_id-update_where p f keeps id jobs,
      at,
      same j (job_by_id-own id jobs j at),
    )
  ]

  -- A write of the status with the row that says so.
  pub changed-Recorded :
      (j : Job) (f : Job → Job) (to : JobStatus) (change : ℕ) (user : Option ℕ)
      (reason : ChangeReason)
      → job_by_id j.id jobs ≡ some j
      → KeepsId f
      → (f j).status ≡ to
      → Recorded (write_job j.id f jobs) (change_of change j to user reason ∷ history)
  unfolding write_job is_chain
  changed-Recorded j f to change user reason at keeps moves id = elim (Bool-cases (j.id == id)) [
    | inl here ↦ ground (
      arith,
      recorded id,
      subst (λ n. job_by_id n jobs ≡ some j) ((==_iff j.id id).0 here) at,
      job_by_id-update_where (λ k. k.id == j.id) f keeps id jobs,
    )
    | inr elsewhere ↦
        ground (arith, recorded id, write_job_elsewhere j.id id f jobs keeps (ground arith))
  ]

  -- A new job with its first row.
  pub created-Recorded :
      (j : Job) (c : Change)
      → job_by_id j.id jobs ≡ none
      → c.job_id ≡ j.id
      → c.from_status ≡ none
      → c.to_status ≡ j.status
      → Recorded (j ∷ jobs) (c ∷ history)
  unfolding is_chain
  created-Recorded j c missing own first to id = elim (Bool-cases (j.id == id)) [
    | inl here ↦ ground (arith, recorded id, recorded j.id)
    | inr elsewhere ↦ ground (arith, recorded id)
  ]
