-- ===== src/Portal/Types.antt =====
-- The rows that the customer portal reads and writes. A raw token is known by its hash, which is a
-- number; so are ids, times and amounts.
use superflow_api.Base.{ℕ, String, Bool, Option, List}
use superflow_api.Jobs.Status.{JobStatus}
use superflow_api.Jobs.Types.{WorkshopStage, Stage}

pub record Token : Type 0 where
  pub id : ℕ
  pub job_id : Option ℕ
  pub token_hash : ℕ
  pub expires_at : Option ℕ
  pub used_at : Option ℕ
  pub is_revoked : Bool

pub record PortalJob : Type 0 where
  pub id : ℕ
  pub workshop_id : Option ℕ
  pub customer_id : ℕ
  pub vehicle_id : ℕ
  pub status : JobStatus
  pub workshop_stage : Option WorkshopStage
  pub workflow_stage_key : Option String

pub record EstimateLine : Type 0 where
  pub id : ℕ
  pub job_id : ℕ
  pub concern_id : Option ℕ
  pub line_total : Option ℕ

pub data DecisionKind : Type 0 where
  approves declines defers : DecisionKind

-- An item of `DecideDto`
pub record DecisionItem : Type 0 where
  pub estimate_line_id : ℕ
  pub decision : DecisionKind
  pub customer_comment : Option String

pub record Decision : Type 0 where
  pub token_id : ℕ
  pub estimate_line_id : ℕ
  pub decision : DecisionKind
  pub customer_comment : Option String

-- Its `status` is `pending` and its `urgency` is `none`.
pub record DeferredWork : Type 0 where
  pub original_job_id : ℕ
  pub estimate_line_id : ℕ
  pub customer_id : ℕ
  pub vehicle_id : ℕ
  pub estimated_value : Option ℕ

pub record Concern : Type 0 where
  pub id : ℕ
  pub job_id : ℕ
  pub advisor_decision : Option ℕ
  pub advisor_decision_note : Option String

pub record StatusChange : Type 0 where
  pub job_id : ℕ
  pub from_status : JobStatus
  pub to_status : JobStatus

pub record ResetAudit : Type 0 where
  pub concern_id : ℕ
  pub job_id : ℕ
  pub reset_by : ℕ
  pub reason : String
  pub lines_cleared : ℕ

-- The stages are the workshop's workflow. New tokens stand last.
pub record Portal : Type 0 where
  pub tokens : List Token
  pub jobs : List PortalJob
  pub lines : List EstimateLine
  pub decisions : List Decision
  pub deferred : List DeferredWork
  pub concerns : List Concern
  pub history : List StatusChange
  pub audits : List ResetAudit
  pub stages : List Stage

pub data Reason : Type 0 where
  link_missing link_revoked link_expired : Reason
  no_decisions foreign_line already_decided no_workshop not_unique : Reason
  job_missing no_lines concern_missing : Reason
