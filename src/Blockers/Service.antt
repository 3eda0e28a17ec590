-- ===== src/Blockers/Service.antt =====
-- `BlockersService` (src/blockers/blockers.service.ts): a blocker is created, resolved or dismissed.
use text.Mathlib.Text.{◌==◌ as str_eq}
use superflow_api.Base.{
  ℕ, String, Bool, true, false, not, Option, none, some, List, [], ◌∷◌, ◌==◌, find_first,
  update_where, or_else, after, if◌then◌else◌, Result, ok, not_found, forbidden, ◌>>=◌, ◌>>◌,
  throw_if, or_throw,
}

pub data BlockerType : Type 0 where
  parts customer_approval workshop_approval technician_unavailable customer_decision : BlockerType
  another : BlockerType

pub data Severity : Type 0 where
  low medium high critical : Severity

pub data BlockerStatus : Type 0 where
  active resolved dismissed : BlockerStatus

pub record Blocker : Type 0 where
  pub id : ℕ
  pub job_id : ℕ
  pub kind : BlockerType
  pub description : String
  pub severity : Severity
  pub status : BlockerStatus
  pub blocked_by : ℕ
  pub resolved_by : Option ℕ
  pub resolved_at : Option ℕ
  pub resolution_note : Option String

-- The jobs are known by their ids.
pub record Board : Type 0 where
  pub jobs : List ℕ
  pub blockers : List Blocker

pub data Reason : Type 0 where
  job_missing blocker_missing not_active : Reason

pub record CreateBlockerDto : Type 0 where
  pub job_id : ℕ
  pub kind : BlockerType
  pub description : String
  pub severity : Option Severity

abbrev pub is_active : BlockerStatus → Bool
is_active active = true
is_active _ = false

abbrev pub find_blocker : ℕ → List Blocker → Option Blocker
find_blocker id = find_first (λ b. b.id == id)

abbrev pub new_blocker : ℕ → CreateBlockerDto → ℕ → Blocker
new_blocker id dto user = record {
  id = id;
  job_id = dto.job_id;
  kind = dto.kind;
  description = dto.description;
  severity = or_else dto.severity medium;
  status = active;
  blocked_by = user;
  resolved_by = none;
  resolved_at = none;
  resolution_note = none;
}

-- `create`
unfoldable pub create_blocker : ℕ → CreateBlockerDto → ℕ → Board → Result Reason (Unit {0} × Board)
create_blocker id dto user board = do
  job ← or_throw (find_first (λ j. j == dto.job_id) board.jobs) (not_found job_missing)
  ok (tt, record board { blockers = new_blocker id dto user ∷ board.blockers })

-- `dto.resolution_note || null`
abbrev note_of : Option String → Option String
note_of none = none
note_of (some s) = if str_eq s "" then none else some s

abbrev pub as_resolved : ℕ → ℕ → Option String → Blocker → Blocker
as_resolved user now note b = record b {
  status = resolved;
  resolved_by = some user;
  resolved_at = some now;
  resolution_note = note_of note;
}

abbrev pub as_dismissed : Blocker → Blocker
as_dismissed b = record b { status = dismissed }

abbrev pub write_blocker : ℕ → (Blocker → Blocker) → Board → Board
write_blocker id f board = record board {
  blockers = update_where (λ b. b.id == id) f board.blockers;
}

-- `resolve`
unfoldable pub resolve : ℕ → ℕ → ℕ → Option String → Board → Result Reason (Unit {0} × Board)
resolve id user now note board = do
  b ← or_throw (find_blocker id board.blockers) (not_found blocker_missing)
  throw_if (not (is_active b.status)) (forbidden not_active)
  ok (tt, write_blocker id (as_resolved user now note) board)

-- `dismiss`
unfoldable pub dismiss : ℕ → Board → Result Reason (Unit {0} × Board)
dismiss id board = do
  b ← or_throw (find_blocker id board.blockers) (not_found blocker_missing)
  throw_if (not (is_active b.status)) (forbidden not_active)
  ok (tt, write_blocker id as_dismissed board)

pub data Call : Type 0 where
  creates : ℕ → CreateBlockerDto → ℕ → Call
  resolves : ℕ → ℕ → ℕ → Option String → Call
  dismisses : ℕ → Call

unfoldable pub step : Board → Call → Board
step board (creates id dto user) = after board (create_blocker id dto user board)
step board (resolves id user now note) = after board (resolve id user now note board)
step board (dismisses id) = after board (dismiss id board)

unfoldable pub run : Board → List Call → Board
run board [] = board
run board (c ∷ calls) = run (step board c) calls
