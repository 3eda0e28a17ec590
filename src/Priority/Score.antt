-- ===== src/Priority/Score.antt =====
-- `computeForJob` (src/priority/priority.service.ts): the factors in the order in which the engine
-- adds them, the score, and its level.
use superflow_api.Base.{ℕ, ◌+◌, Bool, Option, none, some, List, [], ◌∷◌, ◌++◌, leb, if◌then◌else◌}
use superflow_api.Priority.Factors.{
  FactorKey, Addition, PriorityJob, is_overdue, promise_factor, no_promise_factor, waiting_factor,
  sensitivity_factor, decision_factor, parts_factor, idle_factor, stage_factor, inform_factor,
  value_factor,
}
use superflow_api.Priority.Action.{Action, next_best_action}

pub data PriorityLevel : Type 0 where
  low normal high critical : PriorityLevel

-- `scoreToLevel`
unfoldable pub score_to_level : ℕ → PriorityLevel
score_to_level score =
    if leb 60 score
    then critical
    else if leb 40 score
    then high
    else if leb 22 score
    then normal
    else low

-- `score` and `factors` of the engine
pub record Scoring : Type 0 where
  pub score : ℕ
  pub factors : List FactorKey

-- The writes of the branch that a chain takes
abbrev pub add : Option Addition → Scoring → Scoring
add none s = s
add (some a) s = record { score = s.score + a.points; factors = s.factors ++ (a.key ∷ []) }

abbrev pub base : Scoring
base = record { score = 10; factors = [] }

abbrev pub add_all : List (Option Addition) → Scoring → Scoring
add_all [] s = s
add_all (o ∷ os) s = add_all os (add o s)

-- The engine's chains of tests, in their order
unfoldable pub engine : ℕ → PriorityJob → List (Option Addition)
engine now j =
    promise_factor now j
    ∷ no_promise_factor j
    ∷ waiting_factor j
    ∷ sensitivity_factor j.sensitivity
    ∷ decision_factor j
    ∷ parts_factor j
    ∷ idle_factor now j
    ∷ stage_factor j
    ∷ inform_factor j
    ∷ value_factor j
    ∷ []

-- The engine, up to the cap
unfoldable pub scoring : ℕ → PriorityJob → Scoring
scoring now j = add_all (engine now j) base

abbrev pub min : ℕ → ℕ → ℕ
min a b = if leb a b then a else b

pub record PriorityResult : Type 0 where
  pub job_id : ℕ
  pub score : ℕ
  pub level : PriorityLevel
  pub factors : List FactorKey
  pub promised_at : Option ℕ
  pub is_overdue : Bool
  pub next_action : Action

unfoldable pub compute_for_job : ℕ → PriorityJob → PriorityResult
compute_for_job now j =
    let s = scoring now j in
    let score = min 100 s.score in
    record {
      job_id = j.id;
      score = score;
      level = score_to_level score;
      factors = s.factors;
      promised_at = j.promised_at;
      is_overdue = is_overdue now j;
      next_action = next_best_action j;
    }
