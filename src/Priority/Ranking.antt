-- ===== src/Priority/Ranking.antt =====
-- The order of the results, and what the dashboard counts (src/priority/priority.service.ts).
use mathlib.Core.List.{Perm}
use mathlib.Core.List.Perm
use superflow_api.Base.{
  ℕ, ◌+◌, ◌≤◌, ◌≡◌, refl, Bool, true, ◌&&◌, List, [], ◌∷◌, map, arith, leb, ltb, ◌==◌, all, length,
  keep_if, Bool-cases, inl, inr,
}
use superflow_api.Jobs.Status.{estimate_sent, same_status}
use superflow_api.Priority.Factors.{PriorityJob}
use superflow_api.Priority.Score.{PriorityResult, score_to_level, compute_for_job}
use superflow_api.Priority.Dashboard.{
  Options, selected, insert, sort_by_score, compute_all, is_pending, is_critical, is_high,
  is_urgent, dashboard_options, advisor_dashboard,
}
use superflow_api.Priority.Signals.{compute_for_job-signals}

-- No result is followed by one with a higher score.
abbrev pub IsRanked : List PriorityResult → Type 0
IsRanked [] = Unit
IsRanked (r ∷ rest) = (all (λ s. leb s.score r.score) rest ≡ true) × IsRanked rest

-- The results of one score, in their order
abbrev pub with_score : ℕ → List PriorityResult → List PriorityResult
with_score n = keep_if (λ r. r.score == n)

insert-Perm : (r : PriorityResult) (l : List PriorityResult) → Perm (insert r l) (r ∷ l)
unfolding insert
insert-Perm r [] = Perm.rfl
insert-Perm r (s ∷ rest) = elim (Bool-cases (ltb r.score s.score)) [
  | inl below ↦ simp below (Perm.trans (Perm.cons s (insert-Perm r rest)) (Perm.swap r s rest))
  | inr above ↦ simp above Perm.rfl
]

all-insert :
    (p : PriorityResult → Bool) (r : PriorityResult) (l : List PriorityResult)
    → all p (insert r l) ≡ (p r && all p l)
unfolding insert
all-insert p r [] = refl
all-insert p r (s ∷ rest) = ground (arith, all-insert p r rest)

all-weaken :
    (a b : ℕ) (l : List PriorityResult)
    → a ≤ b
    → all (λ s. leb s.score a) l ≡ true
    → all (λ s. leb s.score b) l ≡ true
all-weaken a b [] le h = refl
all-weaken a b (s ∷ l) le h = ground (arith, all-weaken a b l le)

insert-IsRanked :
    (r : PriorityResult) (l : List PriorityResult) → IsRanked l → IsRanked (insert r l)
unfolding insert
insert-IsRanked r [] h = (refl, tt)
insert-IsRanked r (s ∷ rest) h = elim (Bool-cases (ltb r.score s.score)) [
  | inl below ↦
      simp below
        (ground (arith, all-insert (λ t. leb t.score s.score) r rest), insert-IsRanked r rest h.1)
  | inr above ↦ simp above (ground (arith, all-weaken s.score r.score rest (ground arith) h.0), h)
]

with_score-insert :
    (n : ℕ) (r : PriorityResult) (l : List PriorityResult)
    → with_score n (insert r l) ≡ with_score n (r ∷ l)
unfolding insert
with_score-insert n r [] = refl
with_score-insert n r (s ∷ rest) = ground (arith, with_score-insert n r rest)

sort-Perm : (l : List PriorityResult) → Perm (sort_by_score l) l
unfolding sort_by_score
sort-Perm [] = Perm.rfl
sort-Perm (r ∷ l) = Perm.trans (insert-Perm r (sort_by_score l)) (Perm.cons r (sort-Perm l))

sort-IsRanked : (l : List PriorityResult) → IsRanked (sort_by_score l)
unfolding sort_by_score
sort-IsRanked [] = tt
sort-IsRanked (r ∷ l) = insert-IsRanked r (sort_by_score l) (sort-IsRanked l)

with_score-sort :
    (n : ℕ) (l : List PriorityResult) → with_score n (sort_by_score l) ≡ with_score n l
unfolding sort_by_score
with_score-sort n [] = refl
with_score-sort n (r ∷ l) =
    ground (arith, with_score-insert n r (sort_by_score l), with_score-sort n l)

-- The results of `computeAll` are one for each job that the query returns, none before one of a
-- higher score, and those of one score in the order of the query.
pub compute_all-ranking :
    (now : ℕ) (opts : Options) (jobs : List PriorityJob)
    → let results = compute_all now opts jobs in
      let rows = map (compute_for_job now) (selected opts jobs) in
      Perm results rows × IsRanked results × ((n : ℕ) → with_score n results ≡ with_score n rows)
unfolding compute_all
compute_all-ranking now opts jobs =
    let rows = map (compute_for_job now) (selected opts jobs) in
    (sort-Perm rows, sort-IsRanked rows, λ n. with_score-sort n rows)

-- How many meet a test does not depend on the order.
count-insert :
    (p : PriorityResult → Bool) (r : PriorityResult) (l : List PriorityResult)
    → length (keep_if p (insert r l)) ≡ length (keep_if p (r ∷ l))
unfolding insert
count-insert p r [] = refl
count-insert p r (s ∷ rest) = ground (arith, count-insert p r rest)

count-sort :
    (p : PriorityResult → Bool) (l : List PriorityResult)
    → length (keep_if p (sort_by_score l)) ≡ length (keep_if p l)
unfolding sort_by_score
count-sort p [] = refl
count-sort p (r ∷ l) = ground (arith, count-insert p r (sort_by_score l), count-sort p l)

pending-jobs :
    (now : ℕ) (jobs : List PriorityJob)
    → length (keep_if is_pending (map (compute_for_job now) jobs))
      ≡ length (keep_if (λ j. same_status j.status estimate_sent) jobs)
pending-jobs now [] = refl
pending-jobs now (j ∷ jobs) =
    ground (arith, (compute_for_job-signals now j).1, pending-jobs now jobs)

abbrev IsLeveled : PriorityResult → Type 0
IsLeveled r = r.level ≡ score_to_level r.score

urgent-counts :
    (now : ℕ) (jobs : List PriorityJob)
    → let results = map (compute_for_job now) jobs in
      length (keep_if is_critical results) + length (keep_if is_high results)
      ≡ length (keep_if is_urgent results)
unfolding compute_for_job score_to_level
urgent-counts now [] = ground arith
urgent-counts now (j ∷ jobs) = ground (arith, urgent-counts now jobs)

-- On the dashboard, the jobs that await an approval are as many as the jobs of the query whose
-- estimate was sent, and the critical and the high ones together are all that count as urgent.
pub dashboard-counts :
    (now user : ℕ) (is_admin : Bool) (jobs : List PriorityJob)
    → let d = advisor_dashboard now user is_admin jobs in
      let opts = dashboard_options user is_admin in
      (d.awaiting_approval
        ≡ length (keep_if (λ j. same_status j.status estimate_sent) (selected opts jobs)))
      × (d.critical_count + d.high_count ≡ length (keep_if is_urgent (compute_all now opts jobs)))
unfolding advisor_dashboard compute_all
dashboard-counts now user is_admin jobs =
    let rows = selected (dashboard_options user is_admin) jobs in
    let results = map (compute_for_job now) rows in
    (
      ground (arith, count-sort is_pending results, pending-jobs now rows),
      ground (
        arith,
        count-sort is_critical results,
        count-sort is_high results,
        count-sort is_urgent results,
        urgent-counts now rows,
      ),
    )
