-- ===== src/Jobs/Concerns.antt =====
-- The concerns of a job: `createConcern`, `updateConcern` and `removeConcern` of
-- src/jobs/jobs.service.ts. Texts are numbers, and 0 is the empty text. A request names no other
-- columns than these, though the code writes whichever it names.
use superflow_api.Base.{
  ℕ, suc, Bool, true, false, not, ◌&&◌, Option, none, some, List, ◌∷◌, ◌==◌, if◌then◌else◌,
  find_first, keep_if, update_where, any, or_else, same_option, length, Result, ok, not_found,
  bad_request, failed, ◌>>=◌, ◌>>◌, throw_if, or_throw,
}

pub data AdvisorDecision : Type 0 where
  approved declined deferred : AdvisorDecision

pub data ConcernCode : Type 0 where
  chosen numbered : ℕ → ConcernCode

pub record JobConcern : Type 0 where
  pub id : ℕ
  pub job_id : ℕ
  pub code : Option ConcernCode
  pub title : ℕ
  pub description : Option ℕ
  pub status : Option ℕ
  pub technician_finding : Option ℕ
  pub work_note : Option ℕ
  pub qc_note : Option ℕ
  pub advisor_decision : Option AdvisorDecision
  pub advisor_decision_note : Option ℕ
  pub sort_order : ℕ
  pub inspection_response_id : Option ℕ

-- A field of a request: left out, null, or a text
pub data Field : Type 0 where
  left_out null : Field
  text : ℕ → Field

-- The decision that a request names: the empty text is like null, another text is none of the three.
pub data DecisionField : Type 0 where
  undecided cleared unknown : DecisionField
  decided : AdvisorDecision → DecisionField

pub record ConcernDto : Type 0 where
  pub code : Field
  pub title : Field
  pub description : Field
  pub status : Field
  pub technician_finding : Field
  pub work_note : Field
  pub qc_note : Field
  pub advisor_decision : DecisionField
  pub advisor_decision_note : Field
  pub sort_order : Option ℕ
  pub inspection_response_id : Field

-- Of an estimate line only its concern is read.
pub record ConcernLine : Type 0 where
  pub id : ℕ
  pub concern_id : Option ℕ

pub record ConcernDb : Type 0 where
  pub job_ids : List ℕ
  pub concerns : List JobConcern
  pub lines : List ConcernLine

pub data ConcernReason : Type 0 where
  job_missing concern_missing note_required bad_decision null_column : ConcernReason

-- `dto.x || null`
abbrev pub text_of : Field → Option ℕ
text_of (text n) = if n == 0 then none else some n
text_of _ = none

abbrev code_of : Field → ℕ → ConcernCode
code_of field count = elim (text_of field) [ none ↦ numbered (suc count) | some n ↦ chosen n ]

abbrev job_exists : ℕ → ConcernDb → Bool
job_exists job db = any (λ j. j == job) db.job_ids

-- `createConcern`; title 1 is "Customer concern", and status 1 "reviewing".
unfoldable pub create_concern :
    ℕ → ℕ → ConcernDto → ConcernDb → Result ConcernReason (Unit {0} × ConcernDb)
create_concern id job dto db = do
  throw_if (not (job_exists job db)) (not_found job_missing)
  let count = length (keep_if (λ c. c.job_id == job) db.concerns)
  ok (
    tt,
    record db {
      concerns =
          record {
            id = id;
            job_id = job;
            code = some (code_of dto.code count);
            title = or_else (text_of dto.title) 1;
            description = text_of dto.description;
            status = some (or_else (text_of dto.status) 1);
            technician_finding = text_of dto.technician_finding;
            work_note = text_of dto.work_note;
            qc_note = text_of dto.qc_note;
            advisor_decision = none;
            advisor_decision_note = none;
            sort_order = or_else dto.sort_order count;
            inspection_response_id = text_of dto.inspection_response_id;
          }
          ∷ db.concerns;
    },
  )

abbrev is_null : Field → Bool
is_null null = true
is_null _ = false

-- A column that becomes null where the text is empty
abbrev cleared_or : Field → Option ℕ → Option ℕ
cleared_or left_out old = old
cleared_or field old = text_of field

-- A column that takes the text as it is
abbrev written : Field → ℕ → ℕ
written (text n) old = n
written _ old = old

abbrev pub kept_or : Field → Option ℕ → Option ℕ
kept_or left_out old = old
kept_or null old = none
kept_or (text n) old = some n

abbrev pub names_decision : DecisionField → Bool
names_decision unknown = true
names_decision (decided _) = true
names_decision _ = false

abbrev pub is_unknown : DecisionField → Bool
is_unknown unknown = true
is_unknown _ = false

abbrev pub advisor_choice : DecisionField → Option AdvisorDecision → Option AdvisorDecision
advisor_choice (decided d) old = some d
advisor_choice cleared old = none
advisor_choice _ old = old

abbrev pub advisor_note : DecisionField → Field → Option ℕ → Option ℕ
advisor_note cleared field old = none
advisor_note _ field old = kept_or field old

abbrev code_patch : Field → Option ConcernCode → Option ConcernCode
code_patch (text n) old = some (chosen n)
code_patch null old = none
code_patch left_out old = old

-- `data`
abbrev pub with_concern_data : ConcernDto → JobConcern → JobConcern
with_concern_data dto c = record c {
  code = code_patch dto.code c.code;
  title = written dto.title c.title;
  description = cleared_or dto.description c.description;
  status = kept_or dto.status c.status;
  technician_finding = cleared_or dto.technician_finding c.technician_finding;
  work_note = cleared_or dto.work_note c.work_note;
  qc_note = cleared_or dto.qc_note c.qc_note;
  advisor_decision = advisor_choice dto.advisor_decision c.advisor_decision;
  advisor_decision_note =
      advisor_note dto.advisor_decision dto.advisor_decision_note c.advisor_decision_note;
  sort_order = or_else dto.sort_order c.sort_order;
  inspection_response_id = cleared_or dto.inspection_response_id c.inspection_response_id;
}

abbrev is_own : ℕ → ℕ → JobConcern → Bool
is_own job id c = c.id == id && c.job_id == job

abbrev pub has_text : Option ℕ → Bool
has_text none = false
has_text (some n) = not (n == 0)

-- `updateConcern`; a title cannot be null.
unfoldable pub update_concern :
    ℕ → ℕ → ConcernDto → ConcernDb → Result ConcernReason (Unit {0} × ConcernDb)
update_concern job id dto db = do
  throw_if (not (job_exists job db)) (not_found job_missing)
  existing ← or_throw (find_first (is_own job id) db.concerns) (not_found concern_missing)
  throw_if
      (names_decision dto.advisor_decision && not (has_text (text_of dto.advisor_decision_note)))
      (bad_request note_required)
  throw_if (is_unknown dto.advisor_decision) (bad_request bad_decision)
  throw_if (is_null dto.title) (failed null_column)
  ok (
    tt,
    record db { concerns = update_where (λ c. c.id == id) (with_concern_data dto) db.concerns },
  )

-- `removeConcern`
unfoldable pub remove_concern : ℕ → ℕ → ConcernDb → Result ConcernReason (Unit {0} × ConcernDb)
remove_concern job id db = do
  throw_if (not (job_exists job db)) (not_found job_missing)
  existing ← or_throw (find_first (is_own job id) db.concerns) (not_found concern_missing)
  ok (
    tt,
    record db {
      lines =
          update_where (λ l. same_option l.concern_id (some id))
            (λ l. record l { concern_id = none }) db.lines;
      concerns = keep_if (λ c. not (c.id == id)) db.concerns;
    },
  )
