-- ===== src/Jobs/Data.antt =====
-- What `JobsService.update` makes of a request (src/jobs/jobs.service.ts).
use superflow_api.Base.{
  String, ◌≡◌, refl, ap, ok_inj, Bool, true, false, not, ◌&&◌, Option, none, some, List, arith,
  is_some, ok, >>=-eq-ok,
}
use superflow_api.Jobs.Status.{JobStatus}
use superflow_api.Jobs.Types.{Job, Stage, PartsStatus, parts_ready}
use superflow_api.Jobs.Update.{
  UpdateJobDto, JobData, update_data, asked_key, by_workflow_stage, by_informed, by_parts,
  by_workshop_stage, flat,
}

-- Two objects of data that write the same status and lane.
abbrev pub SameLane : JobData → JobData → Type 0
SameLane d e = (d.status ≡ e.status) × (d.workshop_stage ≡ e.workshop_stage)

pub by_informed-SameLane :
    (told : Option Bool) (now : JobStatus) (d : JobData) → SameLane (by_informed told now d) d
by_informed-SameLane none now d = (refl, refl)
by_informed-SameLane (some false) now d = (refl, refl)
by_informed-SameLane (some true) now d = ground arith

pub by_workflow_stage-none :
    (key : Option String) (stages : List Stage) (d e : JobData)
    → is_some key ≡ false
    → by_workflow_stage key stages d ≡ ok e
    → d ≡ e
unfolding by_workflow_stage
by_workflow_stage-none none stages d e h made = ok_inj made
by_workflow_stage-none (some key) stages d e h made = cc

-- An update that names no status, no workflow stage and no lane.
abbrev pub keeps_status : UpdateJobDto → Bool
keeps_status dto =
    not (is_some (flat dto.status))
    && not (is_some (asked_key (flat dto.workflow_stage_key)))
    && not (is_some (flat dto.workshop_stage))

pub by_parts-status :
    (parts : Option (Option PartsStatus)) (d : JobData) → (by_parts parts d).status ≡ d.status
by_parts-status (some (some parts_ready)) d = refl
by_parts-status (some (some _)) d = refl
by_parts-status (some none) d = refl
by_parts-status none d = refl

pub update_data-status :
    (dto : UpdateJobDto) (j : Job) (stages : List Stage) (d : JobData)
    → keeps_status dto ≡ true
    → update_data dto j stages ≡ ok d
    → d.status ≡ none
unfolding update_data
update_data-status dto j stages d keeps made =
    let (_, _, made') = >>=-eq-ok _ _ made in
    let (d', staged, done) = >>=-eq-ok _ _ made' in
    let lane = by_workshop_stage dto.workshop_stage d' in
    let same = by_workflow_stage-none _ stages _ d' (ground arith) staged in
    ground (
      arith,
      ap (λ x. x.status) (ok_inj done),
      (by_informed-SameLane dto.customer_informed j.status (by_parts dto.parts_status lane)).0,
      by_parts-status dto.parts_status lane,
      ap (λ x. x.status) same,
    )
