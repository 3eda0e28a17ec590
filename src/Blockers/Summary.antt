-- ===== src/Blockers/Summary.antt =====
-- `getBlockedJobsSummary` (src/blockers/blockers.service.ts)
use superflow_api.Base.{
  ℕ, ◌+◌, if◌then◌else◌, Bool, Option, none, some, List, [], ◌∷◌, ◌++◌, ◌==◌, find_first, keep_if,
  update_where, length,
}
use superflow_api.Blockers.Service.{
  BlockerType, parts, customer_approval, workshop_approval, technician_unavailable,
  customer_decision, another, Severity, low, medium, high, critical, Blocker, is_active,
}

abbrev severity_place : Severity → ℕ
severity_place low = 0
severity_place medium = 1
severity_place high = 2
severity_place critical = 3

abbrev pub has_severity : Severity → Blocker → Bool
has_severity s b = severity_place b.severity == severity_place s

abbrev type_place : BlockerType → ℕ
type_place parts = 0
type_place customer_approval = 1
type_place workshop_approval = 2
type_place technician_unavailable = 3
type_place customer_decision = 4
type_place another = 5

abbrev pub has_type : BlockerType → Blocker → Bool
has_type t b = type_place b.kind == type_place t

-- A job of the summary, with its blockers in the order in which they were read
pub record BlockedJob : Type 0 where
  pub job_id : ℕ
  pub blockers : List Blocker

abbrev pub find_blocked : ℕ → List BlockedJob → Option BlockedJob
find_blocked id = find_first (λ j. j.job_id == id)

abbrev pub push : Blocker → BlockedJob → BlockedJob
push b j = record j { blockers = j.blockers ++ (b ∷ []) }

-- The map keeps the order in which jobs were added.
abbrev pushed : Blocker → List BlockedJob → Option BlockedJob → List BlockedJob
pushed b jobs none = jobs ++ (record { job_id = b.job_id; blockers = b ∷ [] } ∷ [])
pushed b jobs (some _) = update_where (λ j. j.job_id == b.job_id) (push b) jobs

unfoldable pub add_blocker : Blocker → List BlockedJob → List BlockedJob
add_blocker b jobs = pushed b jobs (find_blocked b.job_id jobs)

pub record BlockedSummary : Type 0 where
  pub total_blocked : ℕ
  pub by_severity : Severity → ℕ
  pub by_type : BlockerType → ℕ
  pub jobs : List BlockedJob

abbrev pub active_blockers : List Blocker → List Blocker
active_blockers = keep_if (λ b. is_active b.status)

-- `counts[key] = (counts[key] || 0) + 1`
abbrev count_one {ℓ} : {A : Type ℓ} → (A → Bool) → (A → ℕ) → A → ℕ
count_one is_key counts a = if is_key a then counts a + 1 else counts a

-- A round of the loop
abbrev pub count_blocker : Blocker → BlockedSummary → BlockedSummary
count_blocker b s = record s {
  by_severity = count_one (λ k. has_severity k b) s.by_severity;
  by_type = count_one (λ k. has_type k b) s.by_type;
  jobs = add_blocker b s.jobs;
}

unfoldable pub summed : List Blocker → BlockedSummary → BlockedSummary
summed [] s = s
summed (b ∷ bs) s = summed bs (count_blocker b s)

unfoldable pub blocked_jobs_summary : List Blocker → BlockedSummary
blocked_jobs_summary blockers =
    let found = active_blockers blockers in
    summed found
      (record { total_blocked = length found; by_severity = λ _. 0; by_type = λ _. 0; jobs = [] })
