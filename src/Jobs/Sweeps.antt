-- ===== src/Jobs/Sweeps.antt =====
-- The nightly writes: `archiveOldClosedJobs` and `markBookedAsNoShow` of src/scheduler/scheduler.service.ts
-- for one workshop, and `archiveOldClosedJobs` of src/jobs/jobs.service.ts.
use superflow_api.Base.{
  ℕ, Bool, not, ◌&&◌, none, some, ◌*◌, ◌-◌, ltb, is_some, length, keep_if, update_where, none, some,
}
use superflow_api.Jobs.Status.{booked, closed, no_show, same_status}
use superflow_api.Jobs.Types.{Shop, Job}
use superflow_api.Jobs.Service.{with_jobs, set_archived}

abbrev pub is_unarchived : Job → Bool
is_unarchived j = same_status j.status closed && not (is_some j.archived_at)

unfoldable pub archive_closed_jobs : ℕ → Shop → Shop
archive_closed_jobs now shop =
    with_jobs (update_where is_unarchived (set_archived (some now)) shop.jobs) shop

-- A job that was booked and did not arrive. Deleted jobs are not left out.
abbrev pub is_missed : Job → Bool
is_missed j = same_status j.status booked && not (is_some j.arrived_at)

abbrev pub missed : Job → Job
missed j = record j { status = no_show; workshop_stage = none }

unfoldable pub mark_booked_as_no_show : Shop → Shop
mark_booked_as_no_show shop = with_jobs (update_where is_missed missed shop.jobs) shop

-- The time of a job's last write is the database's to keep (`updated_at`); times are milliseconds.
abbrev pub is_old : (Job → ℕ) → ℕ → Job → Bool
is_old updated_at now j = is_unarchived j && ltb (updated_at j) (now - 24 * 60 * 60 * 1000)

unfoldable pub archive_old_closed_jobs : (Job → ℕ) → ℕ → Shop → ℕ × Shop
archive_old_closed_jobs updated_at now shop = (
  length (keep_if (is_old updated_at now) shop.jobs),
  with_jobs (update_where (is_old updated_at now) (set_archived (some now)) shop.jobs) shop,
)
