-- ===== src/Blockers/Grouping.antt =====
-- How the summary groups the blockers by job (src/blockers/blockers.service.ts).
use superflow_api.Base.{
  ℕ, ◌+◌, ◌≡◌, refl, subst, Bool, true, false, ◌||◌, List, [], ◌∷◌, ◌++◌, arith, ◌==◌, ==_iff,
  update_where, length, is_some, Option-cases, Option, none, some, if◌then◌else◌, inl, inr,
  Bool-cases,
}
use superflow_api.Blockers.Service.{Blocker}
use superflow_api.Blockers.Summary.{BlockedJob, find_blocked, push, add_blocker}

-- How many blockers the jobs of a summary have together, and where a job stands once
abbrev pub shown : List BlockedJob → ℕ
shown [] = 0
shown (j ∷ jobs) = length j.blockers + shown jobs

abbrev has_job : ℕ → List BlockedJob → Bool
has_job id jobs = is_some (find_blocked id jobs)

abbrev pub AreDistinct : List BlockedJob → Type 0
AreDistinct [] = Unit
AreDistinct (j ∷ jobs) = (has_job j.job_id jobs ≡ false) × AreDistinct jobs

length-push : (b : Blocker) (l : List Blocker) → length (l ++ (b ∷ [])) ≡ length l + 1
length-push b [] = ground arith
length-push b (x ∷ l) = ground (arith, length-push b l)

shown-append :
    (jobs : List BlockedJob) (j : BlockedJob)
    → shown (jobs ++ (j ∷ [])) ≡ shown jobs + length j.blockers
shown-append [] j = ground arith
shown-append (k ∷ jobs) j = ground (arith, shown-append jobs j)

-- An update of a job that is not there, and of one that stands once
shown-absent :
    (b : Blocker) (jobs : List BlockedJob)
    → has_job b.job_id jobs ≡ false
    → shown (update_where (λ j. j.job_id == b.job_id) (push b) jobs) ≡ shown jobs
shown-absent b [] h = refl
shown-absent b (j ∷ jobs) h = ground (arith, shown-absent b jobs)

shown-present :
    (b : Blocker) (jobs : List BlockedJob)
    → AreDistinct jobs
    → has_job b.job_id jobs ≡ true
    → shown (update_where (λ j. j.job_id == b.job_id) (push b) jobs) ≡ shown jobs + 1
shown-present b [] d h = cc
shown-present b (j ∷ jobs) d h = elim (Bool-cases (j.job_id == b.job_id)) [
  | inl here ↦
      let absent = subst (λ n. has_job n jobs ≡ false) ((==_iff j.job_id b.job_id).0 here) d.0 in
      ground (arith, here, length-push b j.blockers, shown-absent b jobs absent)
  | inr there ↦ ground (arith, there, shown-present b jobs d.1)
]

has_job-push :
    (id : ℕ) (b : Blocker) (jobs : List BlockedJob)
    → has_job id (update_where (λ j. j.job_id == b.job_id) (push b) jobs) ≡ has_job id jobs
has_job-push id b [] = refl
has_job-push id b (j ∷ jobs) = ground (arith, has_job-push id b jobs)

has_job-append :
    (id : ℕ) (jobs : List BlockedJob) (k : BlockedJob)
    → has_job id (jobs ++ (k ∷ [])) ≡ (has_job id jobs || k.job_id == id)
has_job-append id [] k = ground arith
has_job-append id (j ∷ jobs) k = ground (arith, has_job-append id jobs k)

push-AreDistinct :
    (b : Blocker) (jobs : List BlockedJob)
    → AreDistinct jobs
    → AreDistinct (update_where (λ j. j.job_id == b.job_id) (push b) jobs)
push-AreDistinct b [] d = tt
push-AreDistinct b (j ∷ jobs) d =
    (ground (arith, has_job-push j.job_id b jobs, d.0), push-AreDistinct b jobs d.1)

append-AreDistinct :
    (jobs : List BlockedJob) (k : BlockedJob)
    → AreDistinct jobs
    → has_job k.job_id jobs ≡ false
    → AreDistinct (jobs ++ (k ∷ []))
append-AreDistinct [] k d h = (refl, tt)
append-AreDistinct (j ∷ jobs) k d h = (
  ground (arith, has_job-append j.job_id jobs k, d.0),
  append-AreDistinct jobs k d.1 (ground arith),
)

pub add_blocker-shown :
    (b : Blocker) (jobs : List BlockedJob)
    → AreDistinct jobs
    → (shown (add_blocker b jobs) ≡ shown jobs + 1) × AreDistinct (add_blocker b jobs)
unfolding add_blocker
add_blocker-shown b jobs d = elim (Option-cases (find_blocked b.job_id jobs)) [
  | inl none' ↦ rw none' (
    ground (arith, shown-append jobs (record { job_id = b.job_id; blockers = b ∷ [] })),
    append-AreDistinct jobs (record { job_id = b.job_id; blockers = b ∷ [] }) d
        (ground (arith, none')),
  )
  | inr (j, at) ↦ rw at (shown-present b jobs d (ground (arith, at)), push-AreDistinct b jobs d)
]

-- The blockers that the summary shows for a job
abbrev blockers_in : Option BlockedJob → List Blocker
blockers_in none = []
blockers_in (some j) = j.blockers

abbrev pub blockers_of : ℕ → List BlockedJob → List Blocker
blockers_of id jobs = blockers_in (find_blocked id jobs)

abbrev pub is_of : ℕ → Blocker → Bool
is_of id b = b.job_id == id

push_if : Blocker → Option BlockedJob → Option BlockedJob
push_if b none = none
push_if b (some j) = some (if j.job_id == b.job_id then push b j else j)

find_blocked-push :
    (id : ℕ) (b : Blocker) (jobs : List BlockedJob)
    → find_blocked id (update_where (λ j. j.job_id == b.job_id) (push b) jobs)
      ≡ push_if b (find_blocked id jobs)
unfolding push_if
find_blocked-push id b [] = refl
find_blocked-push id b (j ∷ jobs) = ground (arith, find_blocked-push id b jobs)

find_blocked-append :
    (id : ℕ) (k : BlockedJob) (jobs : List BlockedJob)
    → blockers_of id (jobs ++ (k ∷ []))
      ≡ (if has_job id jobs then blockers_of id jobs else if k.job_id == id then k.blockers else [])
find_blocked-append id k [] = ground arith
find_blocked-append id k (j ∷ jobs) = ground (arith, find_blocked-append id k jobs)

find_blocked-id :
    (id : ℕ) (jobs : List BlockedJob) (j : BlockedJob)
    → find_blocked id jobs ≡ some j
    → j.job_id ≡ id
find_blocked-id id [] j e = cc
find_blocked-id id (x ∷ jobs) j e = ground (arith, find_blocked-id id jobs j)

-- A blocker is listed last under its own job, and nowhere else.
pub add_blocker-own :
    (b : Blocker) (jobs : List BlockedJob)
    → blockers_of b.job_id (add_blocker b jobs) ≡ blockers_of b.job_id jobs ++ (b ∷ [])
unfolding add_blocker push_if
add_blocker-own b jobs = elim (Option-cases (find_blocked b.job_id jobs)) [
  | inl missing ↦
      let new : BlockedJob = record { job_id = b.job_id; blockers = b ∷ [] } in
      rw missing (ground (arith, missing, find_blocked-append b.job_id new jobs))
  | inr (j, at) ↦
      rw at
        (ground (arith, at, find_blocked-push b.job_id b jobs, find_blocked-id b.job_id jobs j at))
]

pub add_blocker-other :
    (id : ℕ) (b : Blocker) (jobs : List BlockedJob)
    → (b.job_id == id) ≡ false
    → blockers_of id (add_blocker b jobs) ≡ blockers_of id jobs
unfolding add_blocker push_if
add_blocker-other id b jobs other = elim (Option-cases (find_blocked b.job_id jobs)) [
  | inl missing ↦
      let new : BlockedJob = record { job_id = b.job_id; blockers = b ∷ [] } in
      let appended = find_blocked-append id new jobs in
      rw missing (elim (Option-cases (find_blocked id jobs)) [
        | inl nothing ↦ ground (arith, nothing, appended)
        | inr (k, here) ↦ ground (arith, here, appended)
      ])
  | inr (j, at) ↦ rw at (elim (Option-cases (find_blocked id jobs)) [
    | inl nothing ↦ ground (arith, nothing, find_blocked-push id b jobs)
    | inr (k, here) ↦
        ground (arith, here, find_blocked-push id b jobs, find_blocked-id id jobs k here)
  ])
]
