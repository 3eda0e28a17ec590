-- ===== src/Portal/Tests.antt =====
-- The portal.
use superflow_api.Base.{◌≡◌, refl, none, some, List, [], ◌∷◌, ◌>>=◌, arith, ok, all, true, false}
use superflow_api.Jobs.Status.{estimate_sent, approved}
use superflow_api.Portal.Types.{Token, PortalJob, DecisionItem, approves, declines, Portal}
use superflow_api.Portal.Service.{
  find_job, valid_token, with_deferred, record_decisions, move_to_approved, decide_from_portal,
  move_to_estimate_sent, request_authorisation, reset_concern_approval,
}
use superflow_api.Portal.Calls.{decides, requests, resets, Call, step, run}
use superflow_api.Portal.Decided.{IsOnce, times_decided}
use superflow_api.Portal.Recorded.{is_recorded, is_followed}
use superflow_api.Portal.Answer.{status_at, decide_from_portal-records}
use superflow_api.Portal.Once.{all_anew, run-IsOnce}

abbrev portal : Portal
portal = record {
  tokens = [];
  jobs =
      record {
        id = 10;
        workshop_id = some 1;
        customer_id = 5;
        vehicle_id = 6;
        status = estimate_sent;
        workshop_stage = none;
        workflow_stage_key = none;
      }
      ∷ [];
  lines =
      record { id = 100; job_id = 10; concern_id = some 70; line_total = some 250 }
      ∷ record { id = 101; job_id = 10; concern_id = none; line_total = some 80 }
      ∷ [];
  decisions = [];
  deferred = [];
  concerns =
      record { id = 70; job_id = 10; advisor_decision = none; advisor_decision_note = none } ∷ [];
  history = [];
  audits = [];
  stages = [];
}

abbrev approval : DecisionItem
approval = record { estimate_line_id = 100; decision = approves; customer_comment = none }

abbrev refusal : DecisionItem
refusal = record { estimate_line_id = 101; decision = declines; customer_comment = some "later" }

-- Two links are sent. A line is decided by the first and again by the second, which is refused; after
-- a reset it is decided by the second.
abbrev calls : List Call
calls =
    requests 50 1 777 10
    ∷ requests 60 2 778 10
    ∷ decides 70 777 (approval ∷ refusal ∷ [])
    ∷ decides 80 778 (approval ∷ [])
    ∷ resets 10 70 9 "wrong price"
    ∷ decides 90 778 (approval ∷ [])
    ∷ []

no_decisions_yet : IsOnce portal
no_decisions_yet = ((λ hash t h. cc h), λ job line. omega arith)

run-IsOnce_example : IsOnce (run portal calls)
unfolding step decide_from_portal request_authorisation reset_concern_approval record_decisions
    with_deferred valid_token move_to_approved move_to_estimate_sent all_anew ◌>>=◌
run-IsOnce_example = run-IsOnce calls portal no_decisions_yet refl

decided_again : times_decided (run portal calls).tokens 10 100 (run portal calls).decisions ≡ 1
unfolding run step decide_from_portal request_authorisation reset_concern_approval record_decisions
    with_deferred valid_token move_to_approved move_to_estimate_sent ◌>>=◌
decided_again = refl

abbrev link : Token
link = record {
  id = 1;
  job_id = some 10;
  token_hash = 777;
  expires_at = some 604800050;
  used_at = none;
  is_revoked = false;
}

abbrev sent : Portal
sent = record portal { tokens = link ∷ [] }

abbrev card : PortalJob
card = record {
  id = 10;
  workshop_id = some 1;
  customer_id = 5;
  vehicle_id = 6;
  status = estimate_sent;
  workshop_stage = none;
  workflow_stage_key = none;
}

decide_from_portal-records_example :
    (db' : Portal) × (decide_from_portal 70 777 (approval ∷ refusal ∷ []) sent ≡ ok (tt, db'))
    × (all (is_recorded link db'.decisions) (approval ∷ refusal ∷ []) ≡ true)
    × (all (is_followed 10 db'.deferred) (approval ∷ refusal ∷ []) ≡ true)
    × (status_at (find_job 10 db'.jobs) ≡ some approved)
unfolding valid_token ◌>>=◌
decide_from_portal-records_example =
    decide_from_portal-records 70 777 (approval ∷ refusal ∷ []) sent link card refl refl refl refl
      refl refl refl refl refl
