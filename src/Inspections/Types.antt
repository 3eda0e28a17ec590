-- ===== src/Inspections/Types.antt =====
-- The rows of src/inspections/inspections.service.ts. Labels and notes are only compared and copied,
-- so they are numbers.
use superflow_api.Base.{ℕ, Bool, Option, List}
use superflow_api.Base.Text.{Text}

pub data InputType : Type 0 where
  pass_fail yes_no ok_warn_fail number free_text toggle photo odometer fuel_level : InputType

pub data Urgency : Type 0 where
  no_urgency low medium high critical : Urgency

pub data InspectionStatus : Type 0 where
  drafted in_progress submitted reviewed approved : InspectionStatus

-- An item of a template; the sections between are left out.
pub record Item : Type 0 where
  pub id : ℕ
  pub template_id : ℕ
  pub label : Option ℕ
  pub input_type : InputType

pub record InspectionRow : Type 0 where
  pub id : ℕ
  pub job_id : Option ℕ
  pub template_id : Option ℕ
  pub status : InspectionStatus
  pub started_at : Option ℕ
  pub submitted_at : Option ℕ
  pub offline_draft : Option ℕ

pub record Response : Type 0 where
  pub id : ℕ
  pub inspection_id : ℕ
  pub item_id : ℕ
  pub value : Option Text
  pub urgency : Urgency
  pub tech_notes : Option ℕ
  pub media_count : ℕ
  pub recorded_at : ℕ

-- `InspectionResponseItemDto`; `fresh` is the id that a new response gets.
pub record ResponseDto : Type 0 where
  pub fresh : ℕ
  pub item_id : ℕ
  pub value : Option Text
  pub urgency : Option Urgency
  pub tech_notes : Option ℕ
  pub media_count : Option ℕ

-- "Result: …" and "Urgency: …", each where there is one
pub record Description : Type 0 where
  pub result : Option Text
  pub urgent : Option Urgency

pub data Finding : Type 0 where
  noted : ℕ → Finding
  described : Description → Finding
  no_finding : Finding

-- The status is true where it is `finding_ready`; the code is the number after the C.
pub record Concern : Type 0 where
  pub id : ℕ
  pub job_id : ℕ
  pub code : ℕ
  pub title : ℕ
  pub description : Option Description
  pub technician_finding : Finding
  pub is_finding_ready : Bool
  pub sort_order : ℕ
  pub inspection_response_id : Option ℕ

pub record MediaFile : Type 0 where
  pub id : ℕ
  pub inspection_response_id : Option ℕ
  pub concern_id : Option ℕ
  pub is_deleted : Bool

-- Of the jobs, the reading of the odometer on arrival
pub record Odometer : Type 0 where
  pub job_id : ℕ
  pub odometer_in : Option ℕ

pub record Findings : Type 0 where
  pub inspections : List InspectionRow
  pub items : List Item
  pub responses : List Response
  pub concerns : List Concern
  pub media : List MediaFile
  pub jobs : List Odometer

pub data Reason : Type 0 where
  inspection_missing is_locked item_of_another already_submitted already_finalized : Reason
  job_not_linked not_locked : Reason
