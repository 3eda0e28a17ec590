-- ===== src/Blockers/Tests.antt =====
-- Blockers.
use superflow_api.Base.{ℕ, ◌+◌, ◌≡◌, refl, none, some, List, [], ◌∷◌, ◌>>=◌, length, keep_if}
use superflow_api.Blockers.Service.{
  Blocker, Board, Severity, BlockerType, parts, low, critical, active, resolved, medium, high,
  find_blocker, resolves, dismisses, resolve, dismiss, step, run,
}
use superflow_api.Blockers.Summary.{
  blocked_jobs_summary, add_blocker, summed, active_blockers, has_severity, has_type,
}
use superflow_api.Blockers.Grouping.{shown, AreDistinct, blockers_of, is_of}
use superflow_api.Blockers.Counts.{blocked_jobs_summary-counts}
use superflow_api.Blockers.Once.{all_anew, run-settled}

abbrev waits_for_parts : ℕ → ℕ → Blocker
waits_for_parts id job_id = record {
  id = id;
  job_id = job_id;
  kind = parts;
  description = "no brake pads";
  severity = critical;
  status = active;
  blocked_by = 9;
  resolved_by = none;
  resolved_at = none;
  resolution_note = none;
}

abbrev settled : Blocker
settled = record (waits_for_parts 2 20) {
  status = resolved;
  resolved_by = some 9;
  resolved_at = some 100;
  resolution_note = some "arrived";
}

abbrev blockers : List Blocker
blockers = waits_for_parts 4 10 ∷ waits_for_parts 3 20 ∷ settled ∷ waits_for_parts 1 10 ∷ []

three_blocked : length (blocked_jobs_summary blockers).jobs ≡ 2
unfolding blocked_jobs_summary add_blocker summed
three_blocked = refl

blocked_jobs_summary-counts_example :
    let s = blocked_jobs_summary blockers in
    let found = active_blockers blockers in
    ((id : ℕ) → blockers_of id s.jobs ≡ keep_if (is_of id) found)
    × AreDistinct s.jobs
    × (shown s.jobs ≡ s.total_blocked)
    × (s.total_blocked ≡ length found)
    × ((k : Severity) → s.by_severity k ≡ length (keep_if (has_severity k) found))
    × ((k : BlockerType) → s.by_type k ≡ length (keep_if (has_type k) found))
    × (s.by_severity low + s.by_severity medium + s.by_severity high + s.by_severity critical
        ≡ s.total_blocked)
blocked_jobs_summary-counts_example = blocked_jobs_summary-counts blockers

abbrev board : Board
board = record { jobs = 10 ∷ 20 ∷ []; blockers = blockers }

-- One is resolved and another dismissed, and the one that is settled already is asked for again.
run-settled_example :
    find_blocker 2
      (run board (
        resolves 1 8 200 none
        ∷ resolves 2 8 300 (some "again")
        ∷ dismisses 2
        ∷ dismisses 3
        ∷ [])).blockers
    ≡ some settled
unfolding step resolve dismiss all_anew ◌>>=◌
run-settled_example =
    run-settled settled
      (resolves 1 8 200 none ∷ resolves 2 8 300 (some "again") ∷ dismisses 2 ∷ dismisses 3 ∷ [])
      board refl refl refl
