-- ===== src/Jobs/Move.antt =====
-- What a transition writes on a job (`transitionData` in src/jobs/jobs.service.ts).
use superflow_api.Base.{
  ℕ, String, Bool, true, false, not, ◌&&◌, Option, none, some, if◌then◌else◌, or_else,
}
use superflow_api.Jobs.Status.{
  JobStatus, booked, checking, in_progress, waiting_parts, ready, closed, same_status,
}
use superflow_api.Jobs.Types.{Job, PartsStatus, no_parts, order_parts, parts_ready}
use superflow_api.Jobs.Stages.{stage_of_status}

abbrev needs_order : Option PartsStatus → Bool
needs_order none = true
needs_order (some no_parts) = true
needs_order (some parts_ready) = true
needs_order _ = false

abbrev is_parts_ready : Option PartsStatus → Bool
is_parts_ready (some parts_ready) = true
is_parts_ready _ = false

-- `transitionData.parts_status`
abbrev moved_parts : JobStatus → Option PartsStatus → Option PartsStatus
moved_parts waiting_parts parts = if needs_order parts then some order_parts else parts
moved_parts in_progress parts = if is_parts_ready parts then some no_parts else parts
moved_parts _ parts = parts

abbrev moved_arrival : JobStatus → ℕ → Option ℕ → Option ℕ
moved_arrival checking now arrived = some (or_else arrived now)
moved_arrival booked now arrived = none
moved_arrival _ now arrived = arrived

-- Moving on from `ready` to anything but `closed` clears the time, moving to `ready` sets it.
abbrev moved_completion : JobStatus → JobStatus → ℕ → Option ℕ → Option ℕ
moved_completion from to now completed =
    if same_status to ready
    then some now
    else if same_status from ready && not (same_status to closed)
    then none
    else completed

abbrev moved_invoicing : JobStatus → JobStatus → ℕ → Option ℕ → Option ℕ
moved_invoicing from to now invoiced =
    if same_status to closed then some now else if same_status from closed then none else invoiced

abbrev moved_archive : JobStatus → JobStatus → Option ℕ → Option ℕ
moved_archive from to archived =
    if same_status from closed && not (same_status to closed) then none else archived

-- `transitionData`, written on the job
unfoldable pub moved : JobStatus → Option String → ℕ → Job → Job
moved to key now j = record j {
  status = to;
  workflow_stage_key = key;
  workshop_stage = stage_of_status to;
  parts_status = moved_parts to j.parts_status;
  arrived_at = moved_arrival to now j.arrived_at;
  completed_at = moved_completion j.status to now j.completed_at;
  invoiced_at = moved_invoicing j.status to now j.invoiced_at;
  archived_at = moved_archive j.status to j.archived_at;
}
