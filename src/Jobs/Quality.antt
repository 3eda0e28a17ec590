-- ===== src/Jobs/Quality.antt =====
-- The calls of src/qc-checklists/qc-checklists.service.ts that move no job: `saveResponses` and
-- `reopen`.
use superflow_api.Base.{
  ℕ, String, Bool, true, false, not, ◌&&◌, Option, none, some, List, [], ◌∷◌, ◌==◌, if◌then◌else◌,
  find_first, update_where, any, all, Result, ok, not_found, bad_request, ◌>>=◌, ◌>>◌, throw_if,
  or_throw, Keeps, Keeps-bind,
}
use superflow_api.Jobs.Types.{
  Shop, Checklist, ChecklistStatus, qc_in_progress, submitted, approved, QcItem, QcResponse, Reason,
  checklist_missing, checklist_locked, item_of_another, checklist_not_locked,
}

-- `QcResponseItemDto`
pub record QcResponseDto : Type 0 where
  pub item_id : ℕ
  pub value : Option String

abbrev is_locked : ChecklistStatus → Bool
is_locked submitted = true
is_locked approved = true
is_locked _ = false

abbrev is_reply : ℕ → ℕ → QcResponse → Bool
is_reply checklist item r = r.checklist_id == checklist && r.item_id == item

-- A value that is left out stays.
abbrev replied : QcResponseDto → QcResponse → QcResponse
replied dto r = record r { value = elim dto.value [ none ↦ r.value | some v ↦ some v ] }

abbrev new_reply : ℕ → QcResponseDto → QcResponse
new_reply checklist dto = record {
  checklist_id = checklist;
  item_id = dto.item_id;
  value = dto.value;
}

-- The loop: the response of the item is updated, or made.
unfoldable pub save_replies : ℕ → List QcResponseDto → List QcResponse → List QcResponse
save_replies id [] responses = responses
save_replies id (dto ∷ dtos) responses =
    let known = any (is_reply id dto.item_id) responses in
    save_replies id dtos (
      if known
      then update_where (is_reply id dto.item_id) (replied dto) responses
      else new_reply id dto ∷ responses)

-- The items are the checklist's template's.
abbrev of_template : ℕ → List QcItem → List QcResponseDto → Bool
of_template template items =
    all (λ d. any (λ i. i.id == d.item_id && i.template_id == template) items)

-- `saveResponses`
unfoldable pub save_qc_responses : ℕ → List QcResponseDto → Shop → Result Reason (Unit {0} × Shop)
save_qc_responses id dtos shop = do
  c ← or_throw (find_first (λ c. c.id == id) shop.checklists) (not_found checklist_missing)
  throw_if (is_locked c.status) (bad_request checklist_locked)
  throw_if (not (of_template c.template_id shop.qc_items dtos)) (bad_request item_of_another)
  ok (tt, record shop { responses = save_replies id dtos shop.responses })

abbrev set_reopened : ℕ → List Checklist → List Checklist
set_reopened id = update_where (λ c. c.id == id) (λ c. record c { status = qc_in_progress })

-- `reopen`: the result of the checklist stays noted.
unfoldable pub reopen_checklist : ℕ → Shop → Result Reason (Unit {0} × Shop)
reopen_checklist id shop = do
  c ← or_throw (find_first (λ c. c.id == id) shop.checklists) (not_found checklist_missing)
  throw_if (not (is_locked c.status)) (bad_request checklist_not_locked)
  ok (tt, record shop { checklists = set_reopened id shop.checklists })

module _ {μ} (P : Shop → Type μ) (shop : Shop) (here : P shop) where
  pub save_qc_responses-Keeps :
      (id : ℕ) (dtos : List QcResponseDto)
      → ((responses : List QcResponse) → P (record shop { responses = responses }))
      → Keeps P shop (save_qc_responses id dtos shop)
  unfolding save_qc_responses
  save_qc_responses-Keeps id dtos there =
      Keeps-bind _ _ here
        λ c _. Keeps-bind _ _ here λ _ _. Keeps-bind _ _ here λ _ _. record { holds = there _ }

  pub reopen_checklist-Keeps :
      (id : ℕ)
      → ((checklists : List Checklist) → P (record shop { checklists = checklists }))
      → Keeps P shop (reopen_checklist id shop)
  unfolding reopen_checklist
  reopen_checklist-Keeps id there =
      Keeps-bind _ _ here λ c _. Keeps-bind _ _ here λ _ _. record { holds = there _ }
