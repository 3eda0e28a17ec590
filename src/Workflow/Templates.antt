-- ===== src/Workflow/Templates.antt =====
-- The templates of src/admin/workflow-templates.ts.
use superflow_api.Base.{Bool, true, false, List, [], ◌∷◌, String, ℕ}
use superflow_api.Base.Int.{pos}
use superflow_api.Base.Text.{codes}
use superflow_api.Jobs.Status.{
  JobStatus, booked, checking, estimate_sent, approved, in_progress, waiting_parts, quality_check,
  ready, closed, no_show,
}
use superflow_api.Jobs.Types.{Category, as_booked, as_active, as_ready, as_closed, as_cancelled}
use superflow_api.Workflow.Types.{StageConfig, Template}

abbrev pub required_workflow_categories : List Category
required_workflow_categories = as_booked ∷ as_active ∷ as_ready ∷ as_closed ∷ []

-- `stage`
abbrev template_stage :
    String → String → String → JobStatus → Category → String → ℕ → Bool → StageConfig
template_stage key label description status category color order required = record {
  key = codes key;
  label = codes label;
  description = codes description;
  system_status = status;
  system_category = category;
  color = codes color;
  sort_order = pos order;
  is_required = required;
  is_active = true;
}

abbrev small_template : Template
small_template = record {
  key = codes "small";
  label = codes "Small Workshop";
  description = codes "Lean flow for teams that move cars through a simple board.";
  stages =
      template_stage "booked" "Booked" "Customer is booked in or vehicle is received." booked
        as_booked "slate" 10 true
      ∷ template_stage "in_progress" "In Progress"
          "Technician or advisor is actively moving the job." in_progress as_active "blue" 20 true
      ∷ template_stage "ready" "Ready" "Work is finished and the customer can be contacted." ready
          as_ready "emerald" 30 true
      ∷ template_stage "delivered" "Delivered" "Vehicle handed over and job closed." closed
          as_closed "zinc" 40 true
      ∷ template_stage "cancelled" "Cancelled / No Show"
          "Booking cancelled or customer did not arrive." no_show as_cancelled "stone" 50 true
      ∷ [];
}

abbrev large_template : Template
large_template = record {
  key = codes "large";
  label = codes "Large Workshop";
  description = codes "Original full board with approved, parts, QC, ready, and closed lanes.";
  stages =
      template_stage "booked" "Booked" "Customer is booked in or vehicle is received." booked
        as_booked "slate" 10 true
      ∷ template_stage "checking" "Checking" "Initial checking, diagnosis, and inspection." checking
          as_active "amber" 20 false
      ∷ template_stage "estimate_sent" "Estimate Sent" "Estimate is with the customer for review."
          estimate_sent as_active "rose" 30 false
      ∷ template_stage "approved" "Approved" "Customer has approved the work." approved as_active
          "pink" 40 false
      ∷ template_stage "in_progress" "In Progress" "Workshop production is active." in_progress
          as_active "blue" 50 true
      ∷ template_stage "waiting_parts" "Waiting Parts" "Job is blocked or waiting for parts."
          waiting_parts as_active "purple" 60 false
      ∷ template_stage "quality_check" "Quality Check" "Final quality checks before delivery."
          quality_check as_active "cyan" 70 false
      ∷ template_stage "ready" "Ready" "Vehicle is ready for pickup." ready as_ready "emerald" 80
          true
      ∷ template_stage "closed" "Closed" "Vehicle handed over and job closed." closed as_closed
          "zinc" 90 true
      ∷ record (template_stage "no_show_cancelled" "No Show / Cancelled"
          "Booking cancelled or customer did not arrive." no_show as_cancelled "stone" 100 false) {
            is_active = false;
          }
      ∷ [];
}

abbrev bodyshop_template : Template
bodyshop_template = record {
  key = codes "bodyshop";
  label = codes "Body Shop";
  description =
      codes "Repair flow for assessment, insurance approval, parts, paint, QC, and delivery.";
  stages =
      template_stage "booked" "Booked" "Customer is booked in or vehicle is received." booked
        as_booked "slate" 10 true
      ∷ template_stage "damage_assessment" "Damage Assessment" "Damage inspection and repair scope."
          checking as_active "amber" 20 false
      ∷ template_stage "insurance_approval" "Insurance Approval"
          "Waiting on insurer or customer approval." estimate_sent as_active "rose" 30 false
      ∷ template_stage "parts_waiting" "Parts Waiting" "Waiting for repair parts." waiting_parts
          as_active "purple" 40 false
      ∷ template_stage "repair" "Repair" "Body repair work is active." in_progress as_active "blue"
          50 true
      ∷ template_stage "paint" "Paint" "Paint preparation or paint booth stage." in_progress
          as_active "indigo" 60 false
      ∷ template_stage "quality_control" "Quality Control" "Fit, finish, and final checks."
          quality_check as_active "cyan" 70 false
      ∷ template_stage "ready" "Ready" "Vehicle is ready for pickup." ready as_ready "emerald" 80
          true
      ∷ template_stage "delivered" "Delivered" "Vehicle handed over and job closed." closed
          as_closed "zinc" 90 true
      ∷ template_stage "cancelled" "Cancelled / No Show"
          "Booking cancelled or customer did not arrive." no_show as_cancelled "stone" 100 true
      ∷ [];
}

abbrev pub workflow_templates : List Template
workflow_templates = small_template ∷ large_template ∷ bodyshop_template ∷ []

-- The second template's
abbrev pub default_workflow_stages : List StageConfig
default_workflow_stages = large_template.stages
