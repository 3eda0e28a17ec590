-- ===== src/Inspections/Submit.antt =====
-- `submit` of src/inspections/inspections.service.ts, without the notification and the audit log.
use superflow_api.Base.{
  ℕ, suc, Bool, true, false, not, ◌&&◌, Option, none, some, List, [], ◌∷◌, ◌==◌, if◌then◌else◌,
  find_first, keep_if, update_where, is_some, same_option, or_else, length, Result, ok, err,
  not_found, bad_request,
}
use superflow_api.Base.Trim.{is_none}
use superflow_api.Base.Text.{Text}
use superflow_api.Inspections.Types.{
  InputType, pass_fail, Urgency, no_urgency, InspectionStatus, submitted, reviewed, approved, Item,
  InspectionRow, Response, Description, Finding, noted, described, no_finding, Concern, MediaFile,
  Findings, Reason, inspection_missing, already_submitted, already_finalized, job_not_linked,
}
use superflow_api.Inspections.Light.{Light, amber, red, traffic_light}
use superflow_api.Inspections.Service.{inspection_by_id}

abbrev pub item_of : ℕ → List Item → Option Item
item_of id = find_first (λ i. i.id == id)

abbrev is_warning : Light → Bool
is_warning amber = true
is_warning red = true
is_warning _ = false

abbrev input_of : Option Item → InputType
input_of none = pass_fail
input_of (some i) = i.input_type

-- A finding that needs a decision: amber or red
abbrev pub is_actionable : List Item → Response → Bool
is_actionable items r =
    is_warning (traffic_light r.value r.urgency (input_of (item_of r.item_id items)))

abbrev pub actionable : ℕ → Findings → List Response
actionable id db = keep_if (λ r. r.inspection_id == id && is_actionable db.items r) db.responses

-- The label of the item; 0 is "Inspection finding".
abbrev pub title_of : List Item → Response → ℕ
title_of items r = elim (item_of r.item_id items) [ none ↦ 0 | some i ↦ or_else i.label 0 ]

abbrev given : Option Text → Option Text
given none = none
given (some s) = if is_none s then none else some s

abbrev urgent : Urgency → Option Urgency
urgent no_urgency = none
urgent u = some u

abbrev describe : Option Text → Option Urgency → Option Description
describe none none = none
describe value u = some (record { result = value; urgent = u })

abbrev pub description_of : Response → Option Description
description_of r = describe (given r.value) (urgent r.urgency)

abbrev noted_or : Option ℕ → Option Description → Finding
noted_or (some notes) _ = noted notes
noted_or none (some d) = described d
noted_or none none = no_finding

abbrev pub finding_of : Response → Finding
finding_of r = noted_or r.tech_notes (description_of r)

abbrev pub is_for : ℕ → ℕ → Concern → Bool
is_for job response c = c.job_id == job && same_option c.inspection_response_id (some response)

abbrev pub concern_for : ℕ → ℕ → List Concern → Option Concern
concern_for job response = find_first (is_for job response)

abbrev pub as_found : List Item → Response → Concern → Concern
as_found items r c = record c {
  title = title_of items r;
  description = description_of r;
  technician_finding = finding_of r;
  is_finding_ready = true;
}

abbrev pub new_concern : ℕ → ℕ → ℕ → List Item → Response → Concern
new_concern id job place items r = record {
  id = id;
  job_id = job;
  code = suc place;
  title = title_of items r;
  description = description_of r;
  technician_finding = finding_of r;
  is_finding_ready = true;
  sort_order = place;
  inspection_response_id = some r.id;
}

abbrev attach_media : ℕ → ℕ → List MediaFile → List MediaFile
attach_media response concern =
    update_where (λ m. same_option m.inspection_response_id (some response) && not m.is_deleted)
      (λ m. record m { concern_id = some concern })

abbrev pub with_concern : Option Concern → ℕ → ℕ → ℕ → Response → Findings → Findings
with_concern (some c) id job place r db = record db {
  concerns = update_where (λ x. x.id == c.id) (as_found db.items r) db.concerns;
  media = attach_media r.id c.id db.media;
}
with_concern none id job place r db = record db {
  concerns = new_concern id job place db.items r ∷ db.concerns;
  media = attach_media r.id id db.media;
}

-- The loop over the actionable responses; `fresh` gives the ids of new concerns.
unfoldable pub sync_responses : (ℕ → ℕ) → ℕ → ℕ → List Response → Findings → Findings
sync_responses fresh job place [] db = db
sync_responses fresh job place (r ∷ rs) db =
    let existing = concern_for job r.id db.concerns in
    sync_responses fresh job (if is_some existing then place else suc place) rs
      (with_concern existing (fresh r.id) job place r db)

-- `syncActionableResponsesToConcerns`
unfoldable pub sync_concerns : (ℕ → ℕ) → ℕ → ℕ → Findings → Findings
sync_concerns fresh id job db =
    sync_responses fresh job (length (keep_if (λ c. c.job_id == job) db.concerns))
      (actionable id db) db

abbrev pub is_submitted : InspectionStatus → Bool
is_submitted submitted = true
is_submitted _ = false

abbrev pub is_final : InspectionStatus → Bool
is_final reviewed = true
is_final approved = true
is_final _ = false

abbrev pub as_submitted : ℕ → InspectionRow → InspectionRow
as_submitted now i = record i { status = submitted; submitted_at = some now }

abbrev pub with_submitted : ℕ → ℕ → Findings → Findings
with_submitted now id db = record db {
  inspections = update_where (λ x. x.id == id) (as_submitted now) db.inspections;
}

abbrev pub finish : (ℕ → ℕ) → ℕ → Option ℕ → Findings → Result Reason (Unit {0}) × Findings
finish fresh id none db = (err (bad_request job_not_linked), db)
finish fresh id (some job) db = (ok tt, sync_concerns fresh id job db)

abbrev pub submit_open :
    (ℕ → ℕ) → ℕ → InspectionRow → Findings → Result Reason (Unit {0}) × Findings
submit_open fresh now i db =
    if is_submitted i.status
    then (err (bad_request already_submitted), db)
    else if is_final i.status
    then (err (bad_request already_finalized), db)
    else finish fresh i.id i.job_id (with_submitted now i.id db)

abbrev pub submit_found :
    (ℕ → ℕ) → ℕ → Option InspectionRow → Findings → Result Reason (Unit {0}) × Findings
submit_found fresh now none db = (err (not_found inspection_missing), db)
submit_found fresh now (some i) db = submit_open fresh now i db

-- `submit`: the status is written before the job is missed.
unfoldable pub submit : (ℕ → ℕ) → ℕ → ℕ → Findings → Result Reason (Unit {0}) × Findings
submit fresh now id db = submit_found fresh now (inspection_by_id id db.inspections) db
