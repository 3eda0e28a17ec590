-- ===== src/Jobs/Tests.antt =====
-- The jobs of a small workshop, and the theorems at concrete inputs.
mod Outside
use superflow_api.Base.{ℕ, ◌≡◌, refl, true, false, none, some, List, [], ◌∷◌, ◌++◌, all, ◌>>=◌}
use superflow_api.Jobs.Status.{
  JobStatus, booked, checking, in_progress, waiting_parts, ready, closed, no_show, can_transition,
  transitions, same_status,
}
use superflow_api.Jobs.Graph.{Reaches, stays, moves, visits, no_dead_end, work_comes_first}
use superflow_api.Jobs.Types.{Shop, Ctx, Job, as_booked, as_active, work_in_progress}
use superflow_api.Jobs.Stages.{
  resolve_stage, category_for_status, default_stage_key, legacy_workshop_stage, stage_of_status,
}
use superflow_api.Jobs.Move.{moved}
use superflow_api.Jobs.Service.{
  assert_customer, assert_vehicle, assert_user, assert_job_relations, create, write_job,
  transition_job, transition, assign_technician, archive_job,
}
use superflow_api.Jobs.Update.{by_workflow_stage, lane_status, update_data, update}
use superflow_api.Jobs.Outside.{approve_job, send_estimate, import_booking, book_deferred}
use superflow_api.Jobs.Sweeps.{mark_booked_as_no_show}
use superflow_api.Jobs.Checks.{
  check_in, inspect_if_new, start_inspection, to_quality_check, check_if_new, start_checklist,
  overall_result, from_quality_check, submit_checklist,
}
use superflow_api.Jobs.Calls.{
  Call, creates, updates, transits, assigns, archives, inspects, starts_checklist,
  submits_checklist, saves_checklist, reopens_checklist, marks_no_show, answers, requests, imports,
  books_deferred, step, run,
}
use superflow_api.Jobs.Rows.{Found}
use superflow_api.Jobs.Board.{IsAligned, run-IsAligned}
use superflow_api.Jobs.Times.{IsTimely, run-IsTimely}
use superflow_api.Jobs.Trail.{is_chain, trail, IsRecorded}
use superflow_api.Jobs.Trail.Run.{all_tell, run-IsRecorded}
use superflow_api.Jobs.Lawful.{IsLawful}
use superflow_api.Jobs.Quality.{save_qc_responses, save_replies, reopen_checklist}
use superflow_api.Jobs.Concerns.{
  left_out, null, text, undecided, decided, deferred, ConcernDto, ConcernDb, create_concern,
  update_concern,
}
use superflow_api.Jobs.Noted.{
  ConcernCall, creates_concern, updates_concern, is_noted, answer_concern, answer_concerns,
  answer_concerns-is_noted,
}
use superflow_api.Jobs.Lawful.Run.{run-IsLawful}

-- One customer with a car, an advisor and a technician of workshop 1.
abbrev pub opening : Shop
opening = record {
  customers = record { id = 1; is_active = true } ∷ [];
  vehicles = record { id = 2; customer_id = some 1; is_deleted = false } ∷ [];
  users = record { id = 7; is_active = true } ∷ record { id = 8; is_active = true } ∷ [];
  access = record { user_id = 7; workshop_id = 1 } ∷ record { user_id = 8; workshop_id = 1 } ∷ [];
  stages =
      record {
        key = "booked";
        system_status = booked;
        system_category = as_booked;
        is_active = true;
      }
      ∷ record {
        key = "in_progress";
        system_status = in_progress;
        system_category = as_active;
        is_active = true;
      }
      ∷ [];
  jobs = [];
  history = [];
  inspections = [];
  checklists = [];
  responses = record { checklist_id = 70; item_id = 1; value = some "no" } ∷ [];
  qc_items = record { id = 1; template_id = 4 } ∷ [];
}

abbrev pub at_hour : ℕ → Ctx
at_hour n = record { workshop_id = some 1; now = n }

abbrev pub booking : Call
booking =
    creates 50 90
      (record {
        customer_id = 1;
        vehicle_id = 2;
        advisor_id = none;
        technician_id = some 8;
        promised_at = some 40;
      })
      7

-- The update that moves the job to a lane of the workshop's board.
abbrev pub lane_move : ℕ → Call
lane_move change =
    updates change 50
      (record {
        status = none;
        advisor_id = none;
        technician_id = none;
        promised_at = none;
        workshop_stage = some (some work_in_progress);
        workflow_stage_key = none;
        parts_status = none;
        customer_informed = none;
        is_customer_waiting = none;
      })
      (some 7)

-- Booked, inspected, worked on, checked for quality, and closed.
abbrev visit : List (Ctx × Call)
visit =
    (at_hour 10, booking)
    ∷ (at_hour 11, inspects 60 91 50 3 8)
    ∷ (at_hour 12, transits 92 50 in_progress none 7)
    ∷ (at_hour 13, assigns 50 (some 8))
    ∷ (at_hour 14, starts_checklist 70 93 50 4 8)
    ∷ (at_hour 15, submits_checklist 94 70 8)
    ∷ (at_hour 15, reopens_checklist 70)
    ∷ (at_hour 15, saves_checklist 70 (record { item_id = 1; value = some "yes" } ∷ []))
    ∷ (at_hour 15, submits_checklist 96 70 8)
    ∷ (at_hour 16, transits 95 50 closed (some "paid") 7)
    ∷ (at_hour 17, archives 50)
    ∷ []

-- An imported booking and one of deferred work
abbrev pub outside : List (Ctx × Call)
outside =
    (at_hour 18, imports 51 1 2 none (some 60)) ∷ (at_hour 19, books_deferred 52 1 2 (some 7)) ∷ []

-- The customer is asked, answers, and answers again through another link.
abbrev pub portal : List (Ctx × Call)
portal =
    (at_hour 20, requests 96 50) ∷ (at_hour 21, answers 97 50) ∷ (at_hour 22, answers 98 50) ∷ []

abbrev pub board_visit : List (Ctx × Call)
board_visit = (at_hour 10, booking) ∷ (at_hour 11, lane_move 91) ∷ []

-- What a run computes with.
unfoldable after_visit : Shop
unfolding run step assert_customer assert_vehicle assert_user assert_job_relations create write_job
    transition_job transition assign_technician archive_job moved stage_of_status default_stage_key
    category_for_status can_transition transitions check_in inspect_if_new start_inspection
    to_quality_check check_if_new start_checklist overall_result from_quality_check submit_checklist
    save_qc_responses save_replies reopen_checklist resolve_stage by_workflow_stage lane_status
    update_data update approve_job send_estimate import_booking book_deferred legacy_workshop_stage
    is_chain all_tell ◌>>=◌
after_visit = run opening visit

abbrev pub statuses : List Job → List JobStatus
statuses [] = []
statuses (j ∷ jobs) = j.status ∷ statuses jobs

run-visit : statuses after_visit.jobs ≡ closed ∷ []
unfolding after_visit
run-visit = refl

run-IsAligned_example : Found IsAligned (run opening (board_visit ++ portal)).jobs
unfolding after_visit
run-IsAligned_example = run-IsAligned (board_visit ++ portal) opening refl (λ i j at. cc)

run-IsTimely_example : Found IsTimely (run opening (visit ++ outside)).jobs
unfolding after_visit
run-IsTimely_example = run-IsTimely (visit ++ outside) opening refl (λ i j at. cc)

run-IsRecorded_example : IsRecorded (run opening (board_visit ++ portal))
unfolding after_visit
run-IsRecorded_example = run-IsRecorded (board_visit ++ portal) opening refl (λ id. refl)

run-IsLawful_example : IsLawful (run opening (visit ++ outside))
unfolding after_visit
run-IsLawful_example = run-IsLawful (visit ++ outside) opening refl refl

-- The booked job that did not arrive: its history still ends at `booked`.
missed-trail :
    is_chain
      (some no_show)
      (trail 50 (run opening ((at_hour 10, booking) ∷ (at_hour 17, marks_no_show) ∷ [])).history)
    ≡ false
unfolding after_visit mark_booked_as_no_show
missed-trail = refl

-- A lane of the board reopens a closed job, which stays invoiced and archived.
reopened : statuses (step after_visit (at_hour 18, lane_move 96)).jobs ≡ in_progress ∷ []
unfolding after_visit
reopened = refl

-- Parts are waited for only after the work has begun.
abbrev to_parts : Reaches booked waiting_parts
unfolding can_transition transitions
to_parts =
    moves booked checking refl
      (moves checking in_progress refl (moves in_progress waiting_parts refl (stays waiting_parts)))

work_comes_first_example : visits in_progress to_parts ≡ true
work_comes_first_example = work_comes_first to_parts refl refl

no_dead_end_example :
    Reaches booked ready × (same_status ready no_show ≡ false → Reaches ready closed)
no_dead_end_example = no_dead_end ready

abbrev no_fields : ConcernDto
no_fields = record {
  code = left_out;
  title = left_out;
  description = left_out;
  status = left_out;
  technician_finding = left_out;
  work_note = left_out;
  qc_note = left_out;
  advisor_decision = undecided;
  advisor_decision_note = left_out;
  sort_order = none;
  inspection_response_id = left_out;
}

abbrev no_concerns : ConcernDb
no_concerns = record { job_ids = 50 ∷ []; concerns = []; lines = [] }

-- The advisor defers a concern with a note, and edits the note.
abbrev concern_calls : List ConcernCall
concern_calls =
    creates_concern 80 50 no_fields
    ∷ updates_concern 50 80
        (record no_fields { advisor_decision = decided deferred; advisor_decision_note = text 9 })
    ∷ updates_concern 50 80 (record no_fields { advisor_decision_note = text 10 })
    ∷ []

answer_concerns-is_noted_example :
    all is_noted (answer_concerns concern_calls no_concerns).concerns ≡ true
answer_concerns-is_noted_example = answer_concerns-is_noted concern_calls no_concerns refl refl

-- A request that takes the note away alone is not refused.
note_taken :
    all is_noted
      (answer_concerns
        (concern_calls
          ++ (updates_concern 50 80 (record no_fields { advisor_decision_note = null }) ∷ []))
        no_concerns).concerns
    ≡ false
unfolding answer_concerns answer_concern create_concern update_concern ◌>>=◌
note_taken = refl
