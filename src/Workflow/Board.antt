-- ===== src/Workflow/Board.antt =====
-- The stages of a workshop (src/admin/workflow.service.ts) as its jobs use them
-- (`defaultWorkflowStageKeyForStatus` of src/jobs/jobs.service.ts, and `resolveStage`).
use mathlib.Core.List.{map}
use text.Mathlib.Text.{◌==◌ as str_eq}
use text.Mathlib.TextPositions.{eq_refl}
use superflow_api.Base.{
  String, ◌≡◌, refl, sym, ap, ◌∙◌, subst, Bool, true, false, ◌&&◌, Option, some, List, [], ◌∷◌,
  arith, find_first, any, is_some, Bool-cases, Option-cases, inl, inr, ok,
}
use superflow_api.Base.Text.{Text}
use superflow_api.Base.Rows.{find-holds}
use superflow_api.Jobs.Status.{JobStatus, no_show, same_status}
use superflow_api.Jobs.Types.{Stage, Category}
use superflow_api.Jobs.Stages.{category_for_status, same_category, default_stage_key, resolve_stage}
use superflow_api.Workflow.Types.{Input, StageConfig}
use superflow_api.Workflow.Service.{serves, covers, get_stages}
use superflow_api.Workflow.Reload.{get_stages-lawful}

-- A stage as the jobs have it; `name` writes a text as a string.
abbrev pub board_stage : (Text → String) → StageConfig → Stage
board_stage name s = record {
  key = name s.key;
  system_status = s.system_status;
  system_category = s.system_category;
  is_active = s.is_active;
}

-- A row that meets the test is found, or one before it.
found_by {ℓ} :
    {A : Type ℓ}
    → (p q : A → Bool) (l : List A) (a : A) → find_first q l ≡ some a
    → p a ≡ true
    → is_some (find_first p l) ≡ true
found_by p q [] a found h = cc
found_by p q (x ∷ l) a found h = elim (Bool-cases (q x)) [
  | inl here ↦
      let same : x ≡ a = ground (arith, here, found) in
      rw (subst (λ y. p y ≡ true) (sym same) h) refl
  | inr there ↦ elim (Bool-cases (p x)) [
    | inl sooner ↦ rw sooner refl
    | inr later ↦ rw later (found_by p q l a (ground (arith, there, found)) h)
  ]
]

-- A category that is served has an active stage on the board.
served-find :
    (name : Text → String) (category : Category) (stages : List StageConfig)
    → any (serves category) stages ≡ true
    → is_some (
        find_first
          (λ s. s.is_active && same_category s.system_category category)
          (map (board_stage name) stages))
      ≡ true
served-find name category [] h = h
served-find name category (s ∷ stages) h =
    elim (Bool-cases (s.is_active && same_category s.system_category category)) [
      | inl here ↦ rw here refl
      | inr there ↦ rw there (served-find name category stages (ground (arith, h, there)))
    ]

required-served :
    (stages : List StageConfig) (status : JobStatus)
    → covers stages ≡ true
    → same_status status no_show ≡ false
    → any (serves (category_for_status status)) stages ≡ true
unfolding category_for_status
required-served stages no_show c h = cc
required-served stages status c h = ground (arith, c)

resolve_stage-found :
    (stages : List Stage) (q : Stage → Bool) (s : Stage)
    → find_first q stages ≡ some s
    → s.is_active ≡ true
    → (stage : Stage) × (resolve_stage s.key stages ≡ ok stage)
unfolding resolve_stage
resolve_stage-found stages q s found active =
    let here =
      found_by (λ x. str_eq x.key s.key && x.is_active) q stages s found
        (rw (eq_refl s.key, active) refl) in
    elim (Option-cases (find_first (λ x. str_eq x.key s.key && x.is_active) stages)) [
      | inl absent ↦ cc (sym here ∙ ap is_some absent)
      | inr (stage, at) ↦ (stage, rw at refl)
    ]

-- Whatever the setting of a workshop holds, a job of any status but `no_show` has a stage on its
-- board: the lookup of the default stage gives a key, and a move to that key finds an active
-- stage. Keys are written as strings in any way.
pub default_stage_key-found :
    (name : Text → String) (setting : Option Input) (status : JobStatus)
    → same_status status no_show ≡ false
    → let stages = map (board_stage name) (get_stages setting) in
      (key : String) × (default_stage_key status stages ≡ some key)
      × (stage : Stage) × (resolve_stage key stages ≡ ok stage)
unfolding default_stage_key
default_stage_key-found name setting status here =
    let stages = map (board_stage name) (get_stages setting) in
    let exact = λ (s : Stage). s.is_active && same_status s.system_status status in
    let alike =
      λ (s : Stage). s.is_active && same_category s.system_category (category_for_status status) in
    let covered : covers (get_stages setting) ≡ true = ground (arith, get_stages-lawful setting) in
    let served =
      served-find name (category_for_status status) (get_stages setting)
        (required-served (get_stages setting) status covered here) in
    elim (Option-cases (find_first exact stages)) [
      | inr (s, found) ↦
          let active : s.is_active ≡ true = ground (arith, find-holds exact stages s found) in
          let (stage, resolved) = resolve_stage-found stages exact s found active in
          (s.key, rw found refl, stage, resolved)
      | inl absent ↦ elim (Option-cases (find_first alike stages)) [
        | inl none_alike ↦ cc (sym served ∙ ap is_some none_alike)
        | inr (s, found) ↦
            let active : s.is_active ≡ true = ground (arith, find-holds alike stages s found) in
            let (stage, resolved) = resolve_stage-found stages alike s found active in
            (s.key, rw (absent, found) refl, stage, resolved)
      ]
    ]
