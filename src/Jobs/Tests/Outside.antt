-- ===== src/Jobs/Tests/Outside.antt =====
-- Where the portal, the bookings from outside and a lane of null break what the job services keep.
use superflow_api.Base.{◌≡◌, refl, Bool, false, none, some, List, [], ◌∷◌, all, is_some}
use superflow_api.Jobs.Status.{booked}
use superflow_api.Jobs.Types.{Job}
use superflow_api.Jobs.Calls.{Call, updates, requests, step, run}
use superflow_api.Jobs.Board.{in_lane}
use superflow_api.Jobs.Times.{is_timely}
use superflow_api.Jobs.Trail.{is_chain, trail}
use superflow_api.Jobs.Lawful.{is_lawful}
use superflow_api.Jobs.Tests.{opening, at_hour, booking, board_visit, portal, outside, after_visit}

abbrev lanes : List Job → List Bool
lanes [] = []
lanes (j ∷ jobs) = in_lane j.status j.workshop_stage ∷ lanes jobs

abbrev timely : Job → Bool
timely j =
    is_timely j.status (is_some j.arrived_at) (is_some j.completed_at) (is_some j.invoiced_at)
      (is_some j.archived_at)

-- A booked job whose estimate is sent has not arrived.
sent_unarrived :
    all timely (run opening ((at_hour 10, booking) ∷ (at_hour 20, requests 96 50) ∷ [])).jobs
    ≡ false
unfolding after_visit
sent_unarrived = refl

-- The portal moves a job from in_progress to estimate_sent and on.
portal_unlawful : all is_lawful (run (run opening board_visit) portal).history ≡ false
unfolding after_visit
portal_unlawful = refl

-- A booking from outside is booked without a row, and stands in the lane of a waiting technician.
imported_untold : is_chain (some booked) (trail 51 (run opening outside).history) ≡ false
unfolding after_visit
imported_untold = refl

imported_lane : lanes (run opening outside).jobs ≡ false ∷ false ∷ []
unfolding after_visit
imported_lane = refl

-- An update whose lane is null takes a job in progress off the workshop's board.
abbrev lane_null : Call
lane_null =
    updates 92 50
      (record {
        status = none;
        advisor_id = none;
        technician_id = none;
        promised_at = none;
        workshop_stage = some none;
        workflow_stage_key = none;
        parts_status = none;
        customer_informed = none;
        is_customer_waiting = none;
      })
      (some 7)

off_the_board : lanes (step (run opening board_visit) (at_hour 12, lane_null)).jobs ≡ false ∷ []
unfolding after_visit
off_the_board = refl
