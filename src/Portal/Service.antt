-- ===== src/Portal/Service.antt =====
-- `AuthorisationService` (src/authorisation/authorisation.service.ts): the calls that change rows.
use superflow_api.Base.{
  ℕ, ◌+◌, String, Bool, true, false, not, ◌&&◌, ◌||◌, Option, none, some, List, [], ◌∷◌, ◌++◌, ◌==◌,
  ltb, length, find_first, keep_if, update_where, any, all, is_some, same_option, if◌then◌else◌,
  Result, ok, not_found, bad_request, failed, ◌>>=◌, ◌>>◌, throw_if, or_throw,
}
use superflow_api.Jobs.Status.{JobStatus, estimate_sent, approved, closed, no_show, same_status}
use superflow_api.Jobs.Stages.{default_stage_key}
use superflow_api.Portal.Types.{
  Token, PortalJob, EstimateLine, DecisionKind, approves, DecisionItem, Decision, DeferredWork,
  Concern, StatusChange, Portal, Reason, link_missing, link_revoked, link_expired, no_decisions,
  foreign_line, already_decided, no_workshop, not_unique, job_missing, no_lines, concern_missing,
}

abbrev pub find_hash : ℕ → List Token → Option Token
find_hash hash = find_first (λ t. t.token_hash == hash)

abbrev pub find_token : ℕ → List Token → Option Token
find_token id = find_first (λ t. t.id == id)

abbrev is_past : ℕ → Option ℕ → Bool
is_past now none = false
is_past now (some at) = ltb at now

-- `getValidTokenByRaw`
unfoldable pub valid_token : ℕ → ℕ → Portal → Result Reason Token
valid_token now hash db = do
  t ← or_throw (find_hash hash db.tokens) (not_found link_missing)
  throw_if t.is_revoked (bad_request link_revoked)
  throw_if (is_past now t.expires_at) (bad_request link_expired)
  ok t

abbrev pub find_job : ℕ → List PortalJob → Option PortalJob
find_job id = find_first (λ j. j.id == id)

abbrev pub job_of : Option ℕ → Portal → Option PortalJob
job_of none db = none
job_of (some id) db = find_job id db.jobs

abbrev pub lines_of : Option PortalJob → Portal → List EstimateLine
lines_of none db = []
lines_of (some j) db = keep_if (λ l. l.job_id == j.id) db.lines

abbrev pub has_line : List EstimateLine → DecisionItem → Bool
has_line lines item = any (λ l. l.id == item.estimate_line_id) lines

-- The filter `approval_tokens: { job_id }` on a decision's token
abbrev pub is_of_job : Option ℕ → Option Token → Bool
is_of_job job none = false
is_of_job job (some t) = same_option t.job_id job

-- `existingLineDecision`
abbrev pub is_decided : Option ℕ → List Token → List DecisionItem → Decision → Bool
is_decided job tokens items d =
    any (λ i. d.estimate_line_id == i.estimate_line_id) items
    && is_of_job job (find_token d.token_id tokens)

abbrev has_deferred : ℕ → ℕ → Portal → Bool
has_deferred job line db =
    any (λ w. w.original_job_id == job && w.estimate_line_id == line) db.deferred

abbrev total_of : Option EstimateLine → Option ℕ
total_of none = none
total_of (some l) = l.line_total

abbrev pub is_put_off : DecisionKind → Bool
is_put_off approves = false
is_put_off _ = true

-- A declined or deferred line is followed up once.
unfoldable pub with_deferred : PortalJob → DecisionItem → Portal → List DeferredWork
with_deferred job item db =
    if is_put_off item.decision && not (has_deferred job.id item.estimate_line_id db)
    then record {
      original_job_id = job.id;
      estimate_line_id = item.estimate_line_id;
      customer_id = job.customer_id;
      vehicle_id = job.vehicle_id;
      estimated_value = total_of (find_first (λ l. l.id == item.estimate_line_id) db.lines);
    }
      ∷ db.deferred
    else db.deferred

-- The unique index of a decision's token and line
abbrev pub is_taken : ℕ → ℕ → List Decision → Bool
is_taken token line = any (λ d. d.token_id == token && d.estimate_line_id == line)

abbrev pub decision_of : Token → DecisionItem → Decision
decision_of t item = record {
  token_id = t.id;
  estimate_line_id = item.estimate_line_id;
  decision = item.decision;
  customer_comment = item.customer_comment;
}

unfoldable pub record_decisions :
    Token → PortalJob → List DecisionItem → Portal → Result Reason Portal
record_decisions t job [] db = ok db
record_decisions t job (item ∷ items) db = do
  throw_if (is_taken t.id item.estimate_line_id db.decisions) (failed not_unique)
  record_decisions t job items (record db {
    decisions = decision_of t item ∷ db.decisions;
    deferred = with_deferred job item db;
  })

abbrev pub as_used : ℕ → Token → Token
as_used now t = record t { used_at = some now }

abbrev pub at_status : JobStatus → Portal → PortalJob → PortalJob
at_status s db j = record j {
  status = s;
  workflow_stage_key = default_stage_key s db.stages;
  workshop_stage = none;
}

abbrev changed : ℕ → JobStatus → JobStatus → StatusChange
changed job from to = record { job_id = job; from_status = from; to_status = to }

-- `moveJobToApproved`
unfoldable pub move_to_approved : ℕ → JobStatus → Portal → Portal
move_to_approved job current db = record db {
  jobs = update_where (λ j. j.id == job) (at_status approved db) db.jobs;
  history =
      if same_status current approved
      then db.history
      else changed job current approved ∷ db.history;
}

abbrev pub is_over : JobStatus → Bool
is_over closed = true
is_over no_show = true
is_over _ = false

abbrev pub is_empty : List DecisionItem → Bool
is_empty [] = true
is_empty (_ ∷ _) = false

-- The link is used, and the job is approved.
abbrev pub with_answer : ℕ → Token → PortalJob → Portal → Portal
with_answer now t job decided =
    let used = record decided {
      tokens = update_where (λ x. x.id == t.id) (as_used now) decided.tokens;
    } in
    if is_over job.status then used else move_to_approved job.id job.status used

-- `decideFromPortal`. A call whose token has no job ends at one of the guards.
unfoldable pub decide_from_portal :
    ℕ → ℕ → List DecisionItem → Portal → Result Reason (Unit {0} × Portal)
decide_from_portal now hash items db = do
  t ← valid_token now hash db
  throw_if (is_empty items) (bad_request no_decisions)
  throw_if (not (all (has_line (lines_of (job_of t.job_id db) db)) items))
      (bad_request foreign_line)
  throw_if (any (is_decided t.job_id db.tokens items) db.decisions) (bad_request already_decided)
  job ← or_throw (job_of t.job_id db) (bad_request no_workshop)
  throw_if (not (is_some job.workshop_id)) (bad_request no_workshop)
  decided ← record_decisions t job items db
  ok (tt, with_answer now t job decided)

-- `moveJobToEstimateSent`
unfoldable pub move_to_estimate_sent : ℕ → JobStatus → Portal → Portal
move_to_estimate_sent job current db = record db {
  jobs = update_where (λ j. j.id == job) (at_status estimate_sent db) db.jobs;
  history = changed job current estimate_sent ∷ db.history;
}

abbrev new_token : ℕ → ℕ → ℕ → ℕ → Token
new_token now id hash job = record {
  id = id;
  job_id = some job;
  token_hash = hash;
  expires_at = some (now + 604800000);
  used_at = none;
  is_revoked = false;
}

abbrev has_lines : ℕ → Portal → Bool
has_lines job db = any (λ l. l.job_id == job) db.lines

-- `requestAuthorisation`; times are in milliseconds, and a link lasts 7 days.
unfoldable pub request_authorisation : ℕ → ℕ → ℕ → ℕ → Portal → Result Reason (Unit {0} × Portal)
request_authorisation now id hash job_id db = do
  job ← or_throw (find_job job_id db.jobs) (not_found job_missing)
  throw_if (not (has_lines job_id db)) (bad_request no_lines)
  ok (
    tt,
    let sent = record db { tokens = db.tokens ++ (new_token now id hash job_id ∷ []) } in
        if same_status job.status estimate_sent || is_over job.status
        then sent
        else move_to_estimate_sent job.id job.status sent,
  )

abbrev pub is_cleared : ℕ → List EstimateLine → Decision → Bool
is_cleared concern lines d =
    any (λ l. l.id == d.estimate_line_id && same_option l.concern_id (some concern)) lines

abbrev reset_concern : Concern → Concern
reset_concern c = record c { advisor_decision = none; advisor_decision_note = none }

-- `resetConcernApproval`
unfoldable pub reset_concern_approval :
    ℕ → ℕ → ℕ → String → Portal → Result Reason (Unit {0} × Portal)
reset_concern_approval job concern user reason db = do
  c ←
      or_throw (find_first (λ c. c.id == concern && c.job_id == job) db.concerns)
        (not_found concern_missing)
  ok (
    tt,
    record db {
      decisions = keep_if (λ d. not (is_cleared concern db.lines d)) db.decisions;
      concerns = update_where (λ c. c.id == concern) reset_concern db.concerns;
      audits =
          record {
            concern_id = concern;
            job_id = job;
            reset_by = user;
            reason = reason;
            lines_cleared = length (keep_if (is_cleared concern db.lines) db.decisions);
          }
          ∷ db.audits;
    },
  )
