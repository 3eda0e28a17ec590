-- ===== src/Jobs/Outside.antt =====
-- The writers of the jobs table outside the job services: the customer portal
-- (src/authorisation/authorisation.service.ts), the import of bookings
-- (src/booking-import/booking-import.service.ts) and deferred work
-- (src/deferred/deferred.service.ts). A call that one of their own guards stops writes no job.
use superflow_api.Base.{ℕ, String, false, Option, none, some, ◌∷◌, ◌||◌, if◌then◌else◌}
use superflow_api.Jobs.Status.{JobStatus, booked, estimate_sent, approved, same_status}
use superflow_api.Jobs.Types.{
  Shop, Job, ChangeReason, link_generated, portal_response, no_parts, waiting_technician,
}
use superflow_api.Jobs.Stages.{default_stage_key}
use superflow_api.Jobs.Service.{write_job, change_of, with_change, with_jobs}
use superflow_api.Portal.Service.{is_over}

-- The columns that both moves write; the times of the job stay as they are.
abbrev pub moved_by_portal : JobStatus → Option String → Job → Job
moved_by_portal to key j = record j { status = to; workflow_stage_key = key; workshop_stage = none }

abbrev portal_move : ℕ → Job → JobStatus → ChangeReason → Shop → Shop
portal_move change j to reason shop =
    with_change (change_of change j to none reason)
      (write_job j.id (moved_by_portal to (default_stage_key to shop.stages)) shop.jobs) shop

-- `moveJobToApproved` with the test before it: a row is added only if the status changes.
unfoldable pub approve_job : ℕ → Option Job → Shop → Shop
approve_job change none shop = shop
approve_job change (some j) shop =
    if is_over j.status
    then shop
    else if same_status j.status approved
    then with_jobs
        (write_job j.id (moved_by_portal approved (default_stage_key approved shop.stages))
          shop.jobs)
        shop
    else portal_move change j approved portal_response shop

-- `shouldMoveToEstimateSent` and `moveJobToEstimateSent`
unfoldable pub send_estimate : ℕ → Option Job → Shop → Shop
send_estimate change none shop = shop
send_estimate change (some j) shop =
    if same_status j.status estimate_sent || is_over j.status
    then shop
    else portal_move change j estimate_sent link_generated shop

-- A booking from outside: the customer, the vehicle, the advisor and the promised time. The other
-- columns have their defaults, of which the lane is `waiting_technician`.
abbrev pub outside_booking : ℕ → ℕ → ℕ → Option ℕ → Option ℕ → Job
outside_booking id customer vehicle advisor promised = record {
  id = id;
  customer_id = customer;
  vehicle_id = vehicle;
  advisor_id = advisor;
  technician_id = none;
  status = booked;
  workshop_stage = some waiting_technician;
  workflow_stage_key = none;
  parts_status = some no_parts;
  customer_informed = false;
  is_customer_waiting = false;
  promised_at = promised;
  arrived_at = none;
  completed_at = none;
  invoiced_at = none;
  archived_at = none;
  is_deleted = false;
}

-- The insert of the import of a booking
unfoldable pub import_booking : ℕ → ℕ → ℕ → Option ℕ → Option ℕ → Shop → Shop
import_booking id customer vehicle advisor promised shop =
    with_jobs (outside_booking id customer vehicle advisor promised ∷ shop.jobs) shop

-- The insert of `book` of a deferred item
unfoldable pub book_deferred : ℕ → ℕ → ℕ → Option ℕ → Shop → Shop
book_deferred id customer vehicle advisor shop =
    with_jobs (outside_booking id customer vehicle advisor none ∷ shop.jobs) shop
