-- ===== src/Workflow/Types.antt =====
-- The stages of src/admin/workflow-templates.ts, as they are sent or stored and as they are kept. In a
-- text the empty one stands for one that is missing, since the code takes them alike.
use superflow_api.Base.{Bool, Option, List, [], ◌∷◌, find_first}
use superflow_api.Base.Int.{ℤ}
use superflow_api.Base.Text.{Text, codes, same_text}
use superflow_api.Jobs.Status.{
  JobStatus, booked, checking, estimate_sent, approved, in_progress, waiting_parts, quality_check,
  ready, closed, no_show,
}
use superflow_api.Jobs.Types.{Category, as_booked, as_active, as_ready, as_closed, as_cancelled}

-- An item of the input; its place is none where it is no number.
pub record RawStage : Type 0 where
  pub key : Text
  pub label : Text
  pub description : Text
  pub system_status : Text
  pub system_category : Text
  pub color : Text
  pub sort_order : Option ℤ
  pub is_required : Bool
  pub is_active : Bool

pub data Input : Type 0 where
  not_array : Input
  items : List RawStage → Input

-- `WorkflowStageConfig`
pub record StageConfig : Type 0 where
  pub key : Text
  pub label : Text
  pub description : Text
  pub system_status : JobStatus
  pub system_category : Category
  pub color : Text
  pub sort_order : ℤ
  pub is_required : Bool
  pub is_active : Bool

pub record Template : Type 0 where
  pub key : Text
  pub label : Text
  pub description : Text
  pub stages : List StageConfig

pub data Reason : Type 0 where
  not_an_array key_missing duplicate_key bad_status bad_category category_missing : Reason
  unknown_template : Reason

abbrev pub status_name : JobStatus → Text
status_name booked = codes "booked"
status_name checking = codes "checking"
status_name estimate_sent = codes "estimate_sent"
status_name approved = codes "approved"
status_name in_progress = codes "in_progress"
status_name waiting_parts = codes "waiting_parts"
status_name quality_check = codes "quality_check"
status_name ready = codes "ready"
status_name closed = codes "closed"
status_name no_show = codes "no_show"

abbrev pub category_name : Category → Text
category_name as_booked = codes "booked"
category_name as_active = codes "active"
category_name as_ready = codes "ready"
category_name as_closed = codes "closed"
category_name as_cancelled = codes "cancelled"

abbrev all_statuses : List JobStatus
all_statuses =
    booked ∷ checking ∷ estimate_sent ∷ approved ∷ in_progress ∷ waiting_parts ∷ quality_check
    ∷ ready ∷ closed ∷ no_show ∷ []

abbrev all_categories : List Category
all_categories = as_booked ∷ as_active ∷ as_ready ∷ as_closed ∷ as_cancelled ∷ []

-- The status or category of that name
abbrev pub status_of : Text → Option JobStatus
status_of name = find_first (λ s. same_text (status_name s) name) all_statuses

abbrev pub category_of : Text → Option Category
category_of name = find_first (λ c. same_text (category_name c) name) all_categories
