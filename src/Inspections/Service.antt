-- ===== src/Inspections/Service.antt =====
-- `saveResponses` and `reopen` of src/inspections/inspections.service.ts.
use superflow_api.Base.{
  ℕ, ◌+◌, ◌*◌, ◌-◌, Bool, true, false, not, ◌&&◌, Option, none, some, List, [], ◌∷◌, ◌==◌, leb, ltb,
  if◌then◌else◌, find_first, keep_if, update_where, any, all, or_else, Result, ok, not_found,
  bad_request, ◌>>=◌, ◌>>◌, throw_if, or_throw,
}
use superflow_api.Base.Text.{Text, is_space, drop_while}
use superflow_api.Base.Trim.{is_none}
use superflow_api.Inspections.Types.{
  InputType, odometer, no_urgency, InspectionStatus, in_progress, submitted, reviewed, approved,
  Item, InspectionRow, Response, ResponseDto, Odometer, Findings, Reason, inspection_missing,
  is_locked, item_of_another, not_locked,
}

abbrev pub locked : InspectionStatus → Bool
locked submitted = true
locked reviewed = true
locked approved = true
locked _ = false

abbrev pub inspection_by_id : ℕ → List InspectionRow → Option InspectionRow
inspection_by_id id = find_first (λ i. i.id == id)

abbrev pub is_at : ℕ → ℕ → Response → Bool
is_at inspection item r = r.inspection_id == inspection && r.item_id == item

abbrev pub response_at : ℕ → ℕ → List Response → Option Response
response_at inspection item = find_first (is_at inspection item)

abbrev pub first_of {ℓ} : {A : Type ℓ} → Option A → Option A → Option A
first_of none b = b
first_of (some a) _ = some a

-- A field that the request leaves out keeps its value.
abbrev pub answered : ℕ → ResponseDto → Response → Response
answered now dto r = record r {
  value = first_of dto.value r.value;
  urgency = or_else dto.urgency no_urgency;
  tech_notes = first_of dto.tech_notes r.tech_notes;
  media_count = or_else dto.media_count 0;
  recorded_at = now;
}

abbrev pub new_response : ℕ → ℕ → ResponseDto → Response
new_response now inspection dto = record {
  id = dto.fresh;
  inspection_id = inspection;
  item_id = dto.item_id;
  value = dto.value;
  urgency = or_else dto.urgency no_urgency;
  tech_notes = dto.tech_notes;
  media_count = or_else dto.media_count 0;
  recorded_at = now;
}

-- The response of the item, updated or made
abbrev pub upsert_response : ℕ → ℕ → ResponseDto → Option Response → List Response → List Response
upsert_response now inspection dto (some old) responses =
    update_where (λ r. r.id == old.id) (answered now dto) responses
upsert_response now inspection dto none responses = new_response now inspection dto ∷ responses

unfoldable pub upsert_responses : ℕ → ℕ → List ResponseDto → List Response → List Response
upsert_responses now inspection [] responses = responses
upsert_responses now inspection (dto ∷ dtos) responses =
    let old = response_at inspection dto.item_id responses in
    upsert_responses now inspection dtos (upsert_response now inspection dto old responses)

abbrev has_item : ℕ → List Item → Bool
has_item id = any (λ i. i.id == id)

abbrev of_template : Option ℕ → List Item → List Item
of_template none items = []
of_template (some template) items = keep_if (λ i. i.template_id == template) items

-- Every response is for an item of the template, where there is one.
abbrev pub all_belong : Option ℕ → List Item → List ResponseDto → Bool
all_belong none items dtos = true
all_belong (some template) items dtos =
    all (λ d. has_item d.item_id (of_template (some template) items)) dtos

abbrev is_odometer : InputType → Bool
is_odometer odometer = true
is_odometer _ = false

abbrev is_digit : ℕ → Bool
is_digit c = leb b'0' c && leb c b'9'

-- The number that the digits at the start make after `n`; none if there is no digit.
abbrev digits : Option ℕ → Text → Option ℕ
digits n [] = n
digits n (c ∷ s) =
    let more = digits (some (or_else n 0 * 10 + (c - b'0'))) s in if is_digit c then more else n

abbrev without_plus : Text → Text
without_plus [] = []
without_plus (c ∷ s) = if c == b'+' then s else c ∷ s

-- `parseInt(…, 10)`; a negative number is none, since only positive ones are used.
abbrev pub parse_int : Text → Option ℕ
parse_int s = digits none (without_plus (drop_while is_space s))

abbrev has_reading : List Item → ResponseDto → Bool
has_reading items d =
    has_item d.item_id (keep_if (λ i. is_odometer i.input_type) items)
    && not (is_none (or_else d.value []))

abbrev reading_of : Option ResponseDto → Option ℕ
reading_of none = none
reading_of (some d) = parse_int (or_else d.value [])

abbrev positive : Option ℕ → Option ℕ
positive none = none
positive (some n) = if ltb 0 n then some n else none

abbrev set_odometer : Option ℕ → Option ℕ → List Odometer → List Odometer
set_odometer (some job) (some n) jobs =
    update_where (λ j. j.job_id == job) (λ j. record j { odometer_in = some n }) jobs
set_odometer _ _ jobs = jobs

abbrev set_draft : ℕ → Option ℕ → List InspectionRow → List InspectionRow
set_draft id none rows = rows
set_draft id (some draft) rows =
    update_where (λ i. i.id == id) (λ i. record i { offline_draft = some draft }) rows

-- `saveResponses`
unfoldable pub save_responses :
    ℕ → ℕ → List ResponseDto → Option ℕ → Findings → Result Reason (Unit {0} × Findings)
save_responses now id dtos draft db = do
  i ← or_throw (inspection_by_id id db.inspections) (not_found inspection_missing)
  throw_if (locked i.status) (bad_request is_locked)
  throw_if (not (all_belong i.template_id db.items dtos)) (bad_request item_of_another)
  let read = find_first (has_reading (of_template i.template_id db.items)) dtos
  ok (
    tt,
    record db {
      responses = upsert_responses now id dtos db.responses;
      jobs = set_odometer i.job_id (positive (reading_of read)) db.jobs;
      inspections = set_draft id draft db.inspections;
    },
  )

abbrev reopened : ℕ → InspectionRow → InspectionRow
reopened now i = record i {
  status = in_progress;
  submitted_at = none;
  started_at = some (or_else i.started_at now);
}

-- `reopen`
unfoldable pub reopen : ℕ → ℕ → Findings → Result Reason (Unit {0} × Findings)
reopen now id db = do
  i ← or_throw (inspection_by_id id db.inspections) (not_found inspection_missing)
  throw_if (not (locked i.status)) (bad_request not_locked)
  ok (tt, record db { inspections = update_where (λ x. x.id == id) (reopened now) db.inspections })
