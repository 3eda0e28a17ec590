-- ===== src/Jobs/Times.antt =====
-- The times that a job carries agree with its status (src/jobs/jobs.service.ts): invoicing and
-- archiving go by them.
use superflow_api.Base.{
  ℕ, String, ◌≡◌, refl, Bool, true, false, not, ◌&&◌, ◌||◌, Option, List, arith, is_some, ok,
}
use superflow_api.Jobs.Status.{
  JobStatus, booked, quality_check, ready, closed, no_show, transitions, same_status,
  can_transition,
}
use superflow_api.Jobs.Types.{Shop, Ctx, Job, Stage, QcResult, pass, fail, na}
use superflow_api.Jobs.Move.{moved}
use superflow_api.Jobs.Update.{UpdateJobDto, JobData, update_data, patched}
use superflow_api.Jobs.Checks.{checked}
use superflow_api.Jobs.Calls.{Call, run, Scope, all_within}
use superflow_api.Jobs.Rows.{Found}
use superflow_api.Jobs.Keep.{RowLaws}
use superflow_api.Jobs.Keep.Run.{run-Found}
use superflow_api.Jobs.Data.{keeps_status, update_data-status}

-- The car is in the workshop.
abbrev pub is_on_floor : JobStatus → Bool
is_on_floor booked = false
is_on_floor closed = false
is_on_floor no_show = false
is_on_floor _ = true

abbrev implies : Bool → Bool → Bool
implies a b = not a || b

abbrev pub is_timely : JobStatus → Bool → Bool → Bool → Bool → Bool
is_timely status arrived completed invoiced archived =
    implies (is_on_floor status) arrived
    && implies (same_status status booked) (not arrived)
    && implies (same_status status ready) completed
    && implies completed (same_status status ready || same_status status closed)
    && implies (same_status status closed) invoiced
    && implies invoiced (same_status status closed)
    && implies archived (same_status status closed)

abbrev pub IsTimely : Job → Type 0
IsTimely j =
    is_timely j.status (is_some j.arrived_at) (is_some j.completed_at) (is_some j.invoiced_at)
      (is_some j.archived_at)
    ≡ true

moved-IsTimely :
    (j : Job) (to : JobStatus) (key : Option String) (now : ℕ)
    → can_transition j.status to ≡ true
    → IsTimely j
    → IsTimely (moved to key now j)
unfolding moved can_transition transitions
moved-IsTimely j to key now e h = ground arith

update-IsTimely :
    (dto : UpdateJobDto) (j : Job) (stages : List Stage) (d : JobData)
    → keeps_status dto ≡ true
    → update_data dto j stages ≡ ok d
    → IsTimely j
    → IsTimely (patched d j)
update-IsTimely dto j stages d keeps made h =
    ground (arith, update_data-status dto j stages d keeps made)

checked-IsTimely :
    (result : QcResult) (j : Job) (key : Option String) (now : ℕ)
    → j.status ≡ quality_check
    → IsTimely j
    → IsTimely (checked key now result j)
checked-IsTimely pass j key now e h = ground arith
checked-IsTimely fail j key now e h = ground arith
checked-IsTimely na j key now e h = ground arith

-- The history's updates keep the status, and the portal's moves are left out.
abbrev pub time_scope : Scope
time_scope = record { may_update = keeps_status; with_portal = false; with_outside = true }

time_laws : RowLaws IsTimely time_scope
time_laws = record {
  on_create = λ id dto user. refl;
  on_move = moved-IsTimely;
  on_update = update-IsTimely;
  on_unassign = λ j h. h;
  on_assign = λ j user h. h;
  on_archive = λ j now e h. ground arith;
  on_unarchive = λ j h. ground arith;
  on_delete = λ j h. h;
  on_miss = λ j e h. ground arith;
  on_arrival = λ j key now e h. ground arith;
  on_qc_start = λ j key e h. ground arith;
  on_qc_end = λ j key now result e h. checked-IsTimely result j key now e h;
  on_approval = λ j key e h. cc;
  on_request = λ j key e h. cc;
  on_booking = λ id customer vehicle advisor promised h. refl;
}

-- After any history of the program's calls on jobs, other than the portal's moves, whose updates
-- name no status, no workflow stage and no lane, the times of each job that can be found agree
-- with its status: it has arrived if it is in the workshop and has not if it is booked, it was
-- completed if it is ready and only if it is ready or closed, it was invoiced exactly if it is
-- closed, and it is archived only if it is closed. The portal moves a job when a link is sent or
-- answered, and leaves its times. The history starts from jobs of which this is so (from no jobs,
-- say).
pub run-IsTimely :
    (calls : List (Ctx × Call)) (shop : Shop)
    → all_within time_scope calls ≡ true
    → Found IsTimely shop.jobs
    → Found IsTimely (run shop calls).jobs
run-IsTimely = run-Found IsTimely time_scope time_laws
