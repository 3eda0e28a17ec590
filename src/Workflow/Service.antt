-- ===== src/Workflow/Service.antt =====
-- `WorkflowService` (src/admin/workflow.service.ts). Only the row of the stages is kept of the
-- settings: none where it is missing, empty or no JSON.
use mathlib.Core.List.{map}
use superflow_api.Base.{
  ℕ, ◌+◌, ◌*◌, Bool, not, ◌&&◌, ◌||◌, Option, none, some, List, [], ◌∷◌, ◌==◌, if◌then◌else◌, any,
  all, keep_if, find_first, or_else, take, Result, ok, err, bad_request, ◌>>=◌, ◌>>◌, throw_if,
  or_throw,
}
use superflow_api.Base.Int.{pos, leb_ℤ}
use superflow_api.Base.Text.{Text, codes, same_text, trim, lower, is_alnum, key_text}
use superflow_api.Base.Trim.{is_none}
use superflow_api.Jobs.Types.{Category}
use superflow_api.Jobs.Stages.{category_for_status, same_category}
use superflow_api.Workflow.Types.{
  RawStage, Input, not_array, items, StageConfig, Reason, not_an_array, key_missing, duplicate_key,
  bad_status, bad_category, category_missing, unknown_template, status_name, category_name,
  status_of, category_of,
}
use superflow_api.Workflow.Templates.{
  workflow_templates, default_workflow_stages, required_workflow_categories,
}

abbrev pub text_or : Text → Text → Text
text_or [] t = t
text_or (c ∷ s) t = c ∷ s

-- `normalizeKey`
abbrev pub normalize_key : Text → Text
normalize_key = key_text b'_' 80

-- `key.replace(/_/g, ' ')`
abbrev pub spaced : Text → Text
spaced = map (λ c. if c == b'_' then b' ' else c)

abbrev pub is_color_char : ℕ → Bool
is_color_char c = is_alnum (lower c) || c == b'_' || c == b'-'

abbrev pub color_of : Text → Text
color_of color =
    text_or (take 24 (keep_if is_color_char (text_or color (codes "slate")))) (codes "slate")

abbrev pub has_key : Text → List Text → Bool
has_key key = any (same_text key)

-- One round of the loop of `normalizeStages`, for the item at place `index`
unfoldable pub normalize_item : ℕ → List Text → RawStage → Result Reason StageConfig
normalize_item index seen item = do
  let key = normalize_key (text_or item.key item.label)
  throw_if (is_none key) (bad_request key_missing)
  throw_if (has_key key seen) (bad_request duplicate_key)
  status ←
      or_throw (status_of (text_or item.system_status (codes "in_progress")))
        (bad_request bad_status)
  let category_text = text_or item.system_category (category_name (category_for_status status))
  category ← or_throw (category_of category_text) (bad_request bad_category)
  ok (record {
    key = key;
    label = take 80 (trim (text_or item.label (spaced key)));
    description = take 240 item.description;
    system_status = status;
    system_category = category;
    color = color_of item.color;
    sort_order = or_else item.sort_order (pos ((index + 1) * 10));
    is_required = item.is_required;
    is_active = item.is_active;
  })

unfoldable pub normalize_items : ℕ → List Text → List RawStage → Result Reason (List StageConfig)
normalize_items index seen [] = ok []
normalize_items index seen (item ∷ raws) = do
  stage ← normalize_item index seen item
  stages ← normalize_items (index + 1) (stage.key ∷ seen) raws
  ok (stage ∷ stages)

-- `sort` by `sortOrder`, which keeps the order of stages at one place
abbrev pub insert_stage : StageConfig → List StageConfig → List StageConfig
insert_stage s [] = s ∷ []
insert_stage s (t ∷ stages) =
    let rest = insert_stage s stages in
    if leb_ℤ s.sort_order t.sort_order then s ∷ t ∷ stages else t ∷ rest

abbrev pub sort_stages : List StageConfig → List StageConfig
sort_stages [] = []
sort_stages (s ∷ stages) = insert_stage s (sort_stages stages)

-- One active required stage of the category
abbrev pub serves : Category → StageConfig → Bool
serves category s = same_category s.system_category category && s.is_required && s.is_active

abbrev pub covers : List StageConfig → Bool
covers stages = all (λ category. any (serves category) stages) required_workflow_categories

-- `normalizeStages`
unfoldable pub normalize_stages : Input → Result Reason (List StageConfig)
normalize_stages not_array = err (bad_request not_an_array)
normalize_stages (items raws) = do
  stages ← normalize_items 0 [] raws
  throw_if (not (covers (sort_stages stages))) (bad_request category_missing)
  ok (sort_stages stages)

abbrev ok_or : Result Reason (List StageConfig) → List StageConfig → List StageConfig
ok_or (ok stages) default = stages
ok_or (err e) default = default

-- `getStages`
unfoldable pub get_stages : Option Input → List StageConfig
get_stages none = default_workflow_stages
get_stages (some input) = ok_or (normalize_stages input) default_workflow_stages

-- A stage as JSON has it
abbrev pub raw_of : StageConfig → RawStage
raw_of s = record {
  key = s.key;
  label = s.label;
  description = s.description;
  system_status = status_name s.system_status;
  system_category = category_name s.system_category;
  color = s.color;
  sort_order = some s.sort_order;
  is_required = s.is_required;
  is_active = s.is_active;
}

-- `saveStages`
unfoldable pub save_stages : List StageConfig → Option Input → Option Input
save_stages stages setting = some (items (map raw_of stages))

-- `updateStages`
unfoldable pub update_stages :
    Input → Option Input → Result Reason (List StageConfig × Option Input)
update_stages input setting = do
  stages ← normalize_stages input
  ok (stages, save_stages stages setting)

-- `applyTemplate`
unfoldable pub apply_template :
    Text → Option Input → Result Reason (List StageConfig × Option Input)
apply_template key setting = do
  template ←
      or_throw (find_first (λ t. same_text t.key key) workflow_templates)
        (bad_request unknown_template)
  stages ← normalize_stages (items (map raw_of template.stages))
  ok (stages, save_stages stages setting)
