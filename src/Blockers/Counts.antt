-- ===== src/Blockers/Counts.antt =====
-- The summary of blocked jobs shows each active blocker once (src/blockers/blockers.service.ts).
use superflow_api.Base.{
  ℕ, ◌+◌, ◌≡◌, refl, sym, subst, List, [], ◌∷◌, ◌++◌, arith, ◌==◌, ==_iff, keep_if, length, ap, inl,
  inr, Bool-cases,
}
use superflow_api.Blockers.Service.{low, medium, high, critical, Severity, BlockerType, Blocker}
use superflow_api.Blockers.Summary.{
  has_severity, add_blocker, summed, count_blocker, has_type, BlockedSummary, active_blockers,
  blocked_jobs_summary,
}
use superflow_api.Blockers.Grouping.{
  shown, AreDistinct, add_blocker-shown, blockers_of, is_of, add_blocker-own, add_blocker-other,
}

++-nil : (l : List Blocker) → l ++ [] ≡ l
++-nil [] = refl
++-nil (x ∷ l) = ap (λ r. x ∷ r) (++-nil l)

++-one : (l : List Blocker) (a : Blocker) (m : List Blocker) → (l ++ (a ∷ [])) ++ m ≡ l ++ (a ∷ m)
++-one [] a m = refl
++-one (x ∷ l) a m = ap (λ r. x ∷ r) (++-one l a m)

summed-of :
    (id : ℕ) (bs : List Blocker) (s : BlockedSummary)
    → blockers_of id (summed bs s).jobs ≡ blockers_of id s.jobs ++ keep_if (is_of id) bs
unfolding summed
summed-of id [] s = sym (++-nil (blockers_of id s.jobs))
summed-of id (b ∷ bs) s =
    let rest = summed-of id bs (count_blocker b s) in
    elim (Bool-cases (b.job_id == id)) [
      | inl own ↦
          let added =
            subst (λ n. blockers_of n (add_blocker b s.jobs) ≡ blockers_of n s.jobs ++ (b ∷ []))
              ((==_iff b.job_id id).0 own) (add_blocker-own b s.jobs) in
          rw own (cc (rest, added, ++-one (blockers_of id s.jobs) b (keep_if (is_of id) bs)))
      | inr other ↦ rw other (cc (rest, add_blocker-other id b s.jobs other))
    ]

summed-counts :
    (bs : List Blocker) (s : BlockedSummary)
    → ((k : Severity)
        → (summed bs s).by_severity k ≡ s.by_severity k + length (keep_if (has_severity k) bs))
      × ((k : BlockerType)
          → (summed bs s).by_type k ≡ s.by_type k + length (keep_if (has_type k) bs))
unfolding summed
summed-counts [] s = ((λ k. ground arith), λ k. ground arith)
summed-counts (b ∷ bs) s =
    let rest = summed-counts bs (count_blocker b s) in
    ((λ k. ground (arith, rest.0 k)), λ k. ground (arith, rest.1 k))

summed-shown :
    (bs : List Blocker) (s : BlockedSummary)
    → AreDistinct s.jobs
    → (shown (summed bs s).jobs ≡ shown s.jobs + length bs)
      × AreDistinct (summed bs s).jobs
      × ((summed bs s).total_blocked ≡ s.total_blocked)
unfolding summed
summed-shown [] s d = (ground arith, d, refl)
summed-shown (b ∷ bs) s d =
    let (added, distinct) = add_blocker-shown b s.jobs d in
    let (more, distinct', total) = summed-shown bs (count_blocker b s) distinct in
    (ground (arith, added, more), distinct', total)

severities :
    (bs : List Blocker)
    → length (keep_if (has_severity low) bs)
        + length (keep_if (has_severity medium) bs)
        + length (keep_if (has_severity high) bs)
        + length (keep_if (has_severity critical) bs)
      ≡ length bs
severities [] = ground arith
severities (b ∷ bs) = ground (arith, severities bs)

-- The summary of blocked jobs shows every active blocker once, under its own job: the blockers of
-- a job in it are the active blockers with that job's id, in the order in which they were read,
-- and each job stands in it once. The blockers of its jobs are together as many as the total,
-- which is the number of active blockers; the count of each severity and of each type is the
-- number of active blockers that have it, and the counts by severity add up to the total.
pub blocked_jobs_summary-counts :
    (blockers : List Blocker)
    → let s = blocked_jobs_summary blockers in
      let found = active_blockers blockers in
      ((id : ℕ) → blockers_of id s.jobs ≡ keep_if (is_of id) found)
      × AreDistinct s.jobs
      × (shown s.jobs ≡ s.total_blocked)
      × (s.total_blocked ≡ length found)
      × ((k : Severity) → s.by_severity k ≡ length (keep_if (has_severity k) found))
      × ((k : BlockerType) → s.by_type k ≡ length (keep_if (has_type k) found))
      × (s.by_severity low + s.by_severity medium + s.by_severity high + s.by_severity critical
          ≡ s.total_blocked)
unfolding blocked_jobs_summary
blocked_jobs_summary-counts blockers =
    let found = active_blockers blockers in
    let start : BlockedSummary = record {
      total_blocked = length found;
      by_severity = λ _. 0;
      by_type = λ _. 0;
      jobs = [];
    } in
    let (all_shown, distinct, total) = summed-shown found start tt in
    let (by_severity, by_type) = summed-counts found start in
    (
      (λ id. summed-of id found start),
      distinct,
      ground (arith, all_shown, total),
      total,
      (λ k. ground (arith, by_severity k)),
      (λ k. ground (arith, by_type k)),
      ground (
        arith,
        by_severity low,
        by_severity medium,
        by_severity high,
        by_severity critical,
        severities found,
        total,
      ),
    )
