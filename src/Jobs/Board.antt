-- ===== src/Jobs/Board.antt =====
-- The workshop's board agrees with the overall board: a job stands in a lane of the workshop only
-- while its status is one that is worked on, and in the lane of that status
-- (src/jobs/jobs.service.ts).
use superflow_api.Base.{
  ℕ, String, ◌≡◌, refl, sym, subst, ok_inj, inl, inr, Bool, true, false, not, ◌&&◌, Option, none,
  some, List, arith, is_some, ok, Bool-cases, >>=-eq-ok,
}
use superflow_api.Jobs.Status.{
  JobStatus, in_progress, quality_check, ready, same_status, same_status-eq,
}
use superflow_api.Jobs.Types.{
  Shop, Ctx, Job, Stage, WorkshopStage, at_quality_check, ready_handover, PartsStatus, parts_ready,
  QcResult, pass, fail, na,
}
use superflow_api.Jobs.Stages.{stage_of_status}
use superflow_api.Jobs.Move.{moved}
use superflow_api.Jobs.Update.{
  UpdateJobDto, JobData, update_data, lane_status, asked_key, by_workflow_stage, by_parts,
  by_workshop_stage, by_informed, flat, is_null, data_of, patched,
}
use superflow_api.Jobs.Service.{unassigned}
use superflow_api.Jobs.Checks.{checked}
use superflow_api.Jobs.Data.{SameLane, by_informed-SameLane, by_workflow_stage-none}
use superflow_api.Jobs.Calls.{Call, run, Scope, all_within}
use superflow_api.Jobs.Rows.{Found}
use superflow_api.Jobs.Keep.{RowLaws}
use superflow_api.Jobs.Keep.Run.{run-Found}

-- The lanes that a status may stand in.
abbrev pub in_lane : JobStatus → Option WorkshopStage → Bool
in_lane in_progress (some stage) = same_status (lane_status stage) in_progress
in_lane quality_check (some stage) = same_status (lane_status stage) quality_check
in_lane ready (some stage) = same_status (lane_status stage) ready
in_lane in_progress none = false
in_lane quality_check none = false
in_lane ready none = false
in_lane _ stage = not (is_some stage)

abbrev pub IsAligned : Job → Type 0
IsAligned j = in_lane j.status j.workshop_stage ≡ true

abbrev is_ready_parts : Option (Option PartsStatus) → Bool
is_ready_parts (some (some parts_ready)) = true
is_ready_parts _ = false

-- An update that leaves the status and the workflow stage to the workshop's board, and does not
-- take the job off it.
abbrev pub moves_on_board : UpdateJobDto → Bool
moves_on_board dto =
    not (is_some (flat dto.status))
    && not (is_some (asked_key (flat dto.workflow_stage_key)))
    && not (is_null dto.workshop_stage)
    && not (is_ready_parts dto.parts_status)

move-in_lane : (to : JobStatus) → in_lane to (stage_of_status to) ≡ true
unfolding stage_of_status lane_status
move-in_lane in_progress = refl
move-in_lane quality_check = refl
move-in_lane ready = refl
move-in_lane _ = refl

lane-in_lane : (stage : WorkshopStage) → in_lane (lane_status stage) (some stage) ≡ true
unfolding lane_status
lane-in_lane at_quality_check = refl
lane-in_lane ready_handover = refl
lane-in_lane _ = refl

by_parts-eq :
    (parts : Option (Option PartsStatus)) (d : JobData)
    → is_ready_parts parts ≡ false
    → by_parts parts d ≡ d
by_parts-eq (some (some parts_ready)) d h = cc
by_parts-eq (some (some _)) d h = refl
by_parts-eq (some none) d h = refl
by_parts-eq none d h = refl

-- The history moves jobs on the workshop's board; bookings from outside are left out.
abbrev pub board_scope : Scope
board_scope = record { may_update = moves_on_board; with_portal = true; with_outside = false }

-- What the workshop's board makes of a request.
lane-IsAligned :
    (stage : Option (Option WorkshopStage)) (d : JobData) (j : Job)
    → is_null stage ≡ false
    → d.status ≡ none
    → d.workshop_stage ≡ stage
    → IsAligned j
    → IsAligned (patched (by_workshop_stage stage d) j)
lane-IsAligned none d j given s w aligned = ground arith
lane-IsAligned (some none) d j given s w aligned = cc
lane-IsAligned (some (some stage)) d j given s w aligned = ground (arith, lane-in_lane stage)

SameLane-IsAligned :
    (d e : JobData) (j : Job) → SameLane d e → IsAligned (patched e j) → IsAligned (patched d j)
SameLane-IsAligned d e j same h = ground (arith, same.0, same.1)

update-IsAligned :
    (dto : UpdateJobDto) (j : Job) (stages : List Stage) (d : JobData)
    → moves_on_board dto ≡ true
    → update_data dto j stages ≡ ok d
    → IsAligned j
    → IsAligned (patched d j)
unfolding update_data by_workflow_stage
update-IsAligned dto j stages d on_board made aligned =
    let (_, _, made') = >>=-eq-ok _ _ made in
    let (d', staged, done) = >>=-eq-ok _ _ made' in
    let lane =
      lane-IsAligned dto.workshop_stage (data_of dto) j (ground arith) (ground arith) refl
        aligned in
    let lane' =
      subst (λ e. IsAligned (patched (by_workshop_stage dto.workshop_stage e) j))
        (by_workflow_stage-none _ stages _ d' (ground arith) staged) lane in
    let made_of = by_parts dto.parts_status (by_workshop_stage dto.workshop_stage d') in
    subst (λ d. IsAligned (patched d j)) (ok_inj done)
      (SameLane-IsAligned (by_informed dto.customer_informed j.status made_of) made_of j
        (by_informed-SameLane dto.customer_informed j.status made_of)
        (subst (λ d. IsAligned (patched d j)) (sym (by_parts-eq dto.parts_status _ (ground arith)))
          lane'))

unassigned-IsAligned : (j : Job) → IsAligned j → IsAligned (unassigned j)
unfolding lane_status
unassigned-IsAligned j h = elim (Bool-cases (same_status j.status in_progress)) [
  | inl at ↦ rw (same_status-eq j.status in_progress at) refl
  | inr off ↦ rw off h
]

checked-IsAligned :
    (result : QcResult) (j : Job) (key : Option String) (now : ℕ)
    → IsAligned (checked key now result j)
unfolding lane_status
checked-IsAligned pass j key now = refl
checked-IsAligned fail j key now = refl
checked-IsAligned na j key now = refl

board_laws : RowLaws IsAligned board_scope
unfolding moved stage_of_status lane_status
board_laws = record {
  on_create = λ id dto user. refl;
  on_move = λ j to key now e h. move-in_lane to;
  on_update = update-IsAligned;
  on_unassign = unassigned-IsAligned;
  on_assign = λ j user h. h;
  on_archive = λ j now e h. h;
  on_unarchive = λ j h. h;
  on_delete = λ j h. h;
  on_miss = λ j e h. refl;
  on_arrival = λ j key now e h. refl;
  on_qc_start = λ j key e h. refl;
  on_qc_end = λ j key now result e h. checked-IsAligned result j key now;
  on_approval = λ j key e h. refl;
  on_request = λ j key e h. refl;
  on_booking = λ id customer vehicle advisor promised h. cc;
}

-- After any history of the program's calls on jobs, other than the import of bookings and the
-- booking of deferred work, each job that can be found stands in a lane of its status: a job in
-- progress in one of the working lanes, one in quality control or ready in the lane of that name,
-- and any other in none. The history starts from jobs that do so (from no jobs, say), and its
-- updates name neither a status nor a workflow stage, report no parts as ready, and do not send
-- null for the lane; they may move the job on the workshop's board.
pub run-IsAligned :
    (calls : List (Ctx × Call)) (shop : Shop)
    → all_within board_scope calls ≡ true
    → Found IsAligned shop.jobs
    → Found IsAligned (run shop calls).jobs
run-IsAligned = run-Found IsAligned board_scope board_laws
