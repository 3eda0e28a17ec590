-- ===== src/Portal/Calls.antt =====
-- A history of the portal's calls (src/authorisation/authorisation.service.ts). A call that throws
-- leaves the rows as they were.
use superflow_api.Base.{ℕ, String, List, [], ◌∷◌, after}
use superflow_api.Portal.Types.{DecisionItem, Portal}
use superflow_api.Portal.Service.{decide_from_portal, request_authorisation, reset_concern_approval}

pub data Call : Type 0 where
  decides : ℕ → ℕ → List DecisionItem → Call
  requests : ℕ → ℕ → ℕ → ℕ → Call
  resets : ℕ → ℕ → ℕ → String → Call

unfoldable pub step : Portal → Call → Portal
step db (decides now hash items) = after db (decide_from_portal now hash items db)
step db (requests now id hash job) = after db (request_authorisation now id hash job db)
step db (resets job concern user reason) =
    after db (reset_concern_approval job concern user reason db)

unfoldable pub run : Portal → List Call → Portal
run db [] = db
run db (c ∷ calls) = run (step db c) calls
