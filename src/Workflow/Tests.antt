-- ===== src/Workflow/Tests.antt =====
-- A board of four stages, and the templates (src/admin/workflow.service.ts).
use mathlib.Core.List.{map}
use superflow_api.Base.{
  ℕ, zero, suc, String, ◌≡◌, refl, Bool, true, none, some, List, [], ◌∷◌, ok, ◌>>=◌, all,
}
use superflow_api.Base.Int.{pos}
use superflow_api.Base.Text.{Text, codes, trim, trim_by, key_text}
use superflow_api.Jobs.Status.{booked, in_progress, waiting_parts, ready, closed}
use superflow_api.Jobs.Stages.{category_for_status, default_stage_key, resolve_stage}
use superflow_api.Jobs.Types.{Stage, as_booked, as_active, as_ready, as_closed}
use superflow_api.Workflow.Types.{RawStage, Input, items, StageConfig, Template}
use superflow_api.Workflow.Templates.{workflow_templates}
use superflow_api.Workflow.Service.{
  normalize_key, normalize_item, normalize_items, normalize_stages, get_stages, save_stages,
  update_stages,
}
use superflow_api.Workflow.Fixed.{is_settled}
use superflow_api.Workflow.Board.{board_stage, default_stage_key-found}
use superflow_api.Workflow.Reload.{update_stages-get_stages, get_stages-lawful, is_lawful}

abbrev sent : String → String → String → ℕ → RawStage
sent key label status place = record {
  key = codes key;
  label = codes label;
  description = [];
  system_status = codes status;
  system_category = [];
  color = codes "Blue!";
  sort_order = some (pos place);
  is_required = true;
  is_active = true;
}

abbrev four_sent : Input
four_sent = items (
    sent "" " Work & wait " "" 20
    ∷ sent "Booked" "" "booked" 10
    ∷ sent "ready" "Ready" "ready" 30
    ∷ sent "closed" "Closed" "closed" 40
    ∷ [])

abbrev blue : String → String → ℕ → StageConfig
blue key label place = record {
  key = codes key;
  label = codes label;
  description = [];
  system_status = booked;
  system_category = as_booked;
  color = codes "Blue";
  sort_order = pos place;
  is_required = true;
  is_active = true;
}

abbrev four_stages : List StageConfig
four_stages =
    blue "booked" "booked" 10
    ∷ record (blue "work_wait" "Work & wait" 20) {
      system_status = in_progress;
      system_category = as_active;
    }
    ∷ record (blue "ready" "Ready" 30) { system_status = ready; system_category = as_ready }
    ∷ record (blue "closed" "Closed" 40) { system_status = closed; system_category = as_closed }
    ∷ []

four_updated : update_stages four_sent none ≡ ok (four_stages, save_stages four_stages none)
unfolding update_stages normalize_stages normalize_items normalize_item category_for_status key_text
    trim trim_by ◌>>=◌
four_updated = refl

update_stages-get_stages_example : get_stages (save_stages four_stages none) ≡ four_stages
update_stages-get_stages_example =
    update_stages-get_stages four_sent none four_stages (save_stages four_stages none) four_updated
      refl

get_stages-lawful_example : is_lawful (get_stages (save_stages four_stages none)) ≡ true
get_stages-lawful_example = get_stages-lawful (save_stages four_stages none)

-- The stages of a template are stored and read as they are written.
abbrev all_settled : Template → Bool
all_settled t = all is_settled t.stages

templates_settled : all all_settled workflow_templates ≡ true
templates_settled = refl

abbrev repeated : ℕ → Text → Text
repeated zero s = s
repeated (suc n) s = b'a' ∷ repeated n s

-- A key that is cut off after an underscore is another key when it is read again.
key_cut : normalize_key (repeated 79 (codes " b")) ≡ repeated 79 (codes "_")
unfolding key_text trim trim_by
key_cut = refl

key_read : normalize_key (repeated 79 (codes "_")) ≡ repeated 79 []
unfolding key_text trim trim_by
key_read = refl

abbrev any_name : Text → String
any_name [] = "nameless"
any_name (c ∷ s) = "named"

-- A job that waits for parts goes to the stage of the work.
default_stage_key-found_example :
    let stages = map (board_stage any_name) (get_stages (save_stages four_stages none)) in
    (key : String) × (default_stage_key waiting_parts stages ≡ some key)
    × (stage : Stage) × (resolve_stage key stages ≡ ok stage)
default_stage_key-found_example =
    default_stage_key-found any_name (save_stages four_stages none) waiting_parts refl
