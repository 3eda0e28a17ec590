-- ===== src/Inspections/Tests.antt =====
-- An inspection of job 7 with three items (src/inspections/inspections.service.ts).
use superflow_api.Base.{
  ℕ, String, ◌+◌, ◌≡◌, refl, true, none, some, List, [], ◌∷◌, all, ok, after, ◌>>=◌,
}
use superflow_api.Base.Text.{codes, trim, trim_by}
use superflow_api.Inspections.Types.{
  ok_warn_fail, pass_fail, odometer, in_progress, submitted, InspectionRow, ResponseDto, Concern,
  Odometer, Findings, described,
}
use superflow_api.Inspections.Light.{traffic_light}
use superflow_api.Inspections.Service.{save_responses, reopen, upsert_responses, inspection_by_id}
use superflow_api.Inspections.Submit.{submit, sync_concerns, sync_responses, actionable}
use superflow_api.Inspections.Single.{
  InspectionCall, save_of, submit_of, reopen_of, AreSingle, perform, perform_all,
  perform_all-AreSingle,
}
use superflow_api.Inspections.Concerns.{handed_over, submit-hands_over}

abbrev inspection : InspectionRow
inspection = record {
  id = 1;
  job_id = some 7;
  template_id = some 2;
  status = in_progress;
  started_at = some 10;
  submitted_at = none;
  offline_draft = none;
}

abbrev started : Findings
started = record {
  inspections = inspection ∷ [];
  items =
      record { id = 21; template_id = 2; label = some 31; input_type = ok_warn_fail }
      ∷ record { id = 22; template_id = 2; label = none; input_type = pass_fail }
      ∷ record { id = 23; template_id = 2; label = some 33; input_type = odometer }
      ∷ [];
  responses = [];
  concerns = [];
  media = [];
  jobs = record { job_id = 7; odometer_in = none } ∷ [];
}

abbrev reply : ℕ → ℕ → String → ResponseDto
reply fresh item value = record {
  fresh = fresh;
  item_id = item;
  value = some (codes value);
  urgency = none;
  tech_notes = none;
  media_count = none;
}

abbrev replies : List ResponseDto
replies = reply 51 21 " Warn" ∷ reply 52 22 "pass" ∷ reply 53 23 "84 500 km" ∷ []

abbrev answered : Findings
answered = after started (save_responses 20 1 replies none started)

-- The batch is sent twice, the inspection submitted, reopened and submitted again.
abbrev history : List InspectionCall
history =
    save_of 20 1 replies none
    ∷ save_of 21 1 (reply 54 21 "fail" ∷ []) none
    ∷ submit_of (λ r. 60 + r) 22 1
    ∷ reopen_of 23 1
    ∷ submit_of (λ r. 70 + r) 24 1
    ∷ []

perform_all-AreSingle_example : AreSingle (perform_all history started)
perform_all-AreSingle_example = perform_all-AreSingle history started ((λ i t. refl), λ j r. refl)

submit-hands_over_example :
    let after = submit (λ r. 60 + r) 22 1 answered in
    (after.0 ≡ ok tt)
    × (inspection_by_id 1 after.1.inspections
        ≡ some (record inspection { status = submitted; submitted_at = some 22 }))
    × (all (handed_over 7 after.1.concerns) (actionable 1 answered) ≡ true)
unfolding save_responses ◌>>=◌
submit-hands_over_example =
    submit-hands_over (λ r. 60 + r) 22 1 answered inspection 7 refl refl refl

-- One concern is made, for the item that warns, and it is updated.
abbrev the_concern : Concern
the_concern = record {
  id = 111;
  job_id = 7;
  code = 1;
  title = 31;
  description = some (record { result = some (codes "fail"); urgent = none });
  technician_finding = described (record { result = some (codes "fail"); urgent = none });
  is_finding_ready = true;
  sort_order = 0;
  inspection_response_id = some 51;
}

one_concern : (perform_all history started).concerns ≡ the_concern ∷ []
unfolding perform_all perform save_responses reopen upsert_responses submit sync_concerns
    sync_responses traffic_light trim trim_by ◌>>=◌
one_concern = refl

-- The reading of the odometer is read to the first character that is no digit.
abbrev arrived_jobs : List Odometer
arrived_jobs = record { job_id = 7; odometer_in = some 84 } ∷ []

reading : answered.jobs ≡ arrived_jobs
unfolding save_responses ◌>>=◌
reading = refl
