-- ===== src/Portal/Once.antt =====
-- A customer decides a line of an estimate once (src/authorisation/authorisation.service.ts).
use superflow_api.Base.{
  ℕ, String, ◌≤◌, ◌≡◌, sym, ap, ◌∙◌, subst, Bool, true, false, not, ◌&&◌, some, List, [], ◌∷◌, ◌++◌,
  arith, ◌==◌, update_where, any, if◌then◌else◌, ok, Keeps, Keeps-bind, >>=-eq-ok, ok_inj,
  or_throw-eq-ok, throw_if-eq-ok,
}
use superflow_api.Jobs.Status.{JobStatus}
use superflow_api.Portal.Types.{Token, PortalJob, DecisionItem, Portal}
use superflow_api.Portal.Service.{
  find_hash, find_token, valid_token, is_decided, record_decisions, as_used, move_to_approved,
  decide_from_portal, move_to_estimate_sent, request_authorisation, is_cleared,
  reset_concern_approval,
}
use superflow_api.Portal.Calls.{Call, decides, requests, resets, step, run}
use superflow_api.Portal.Decided.{
  times_decided, IsKeyed, IsOnce, record_decisions-Goes, none_decided,
}
use superflow_api.Portal.Links.{
  times_decided-as_used, as_used-IsKeyed, append-IsKeyed, times_decided-append, times_decided-keep,
  is_new_id,
}

valid_token-found :
    (now hash : ℕ) (db : Portal) (t : Token)
    → valid_token now hash db ≡ ok t
    → find_hash hash db.tokens ≡ some t
unfolding valid_token
valid_token-found now hash db t h =
    let (u, found, rest) = >>=-eq-ok _ _ h in
    let (_, _, rest') = >>=-eq-ok _ _ rest in
    let (_, _, same) = >>=-eq-ok _ _ rest' in or_throw-eq-ok _ _ found ∙ ap some (ok_inj same)

-- The move of the job changes neither links nor decisions.
move_to_approved-IsOnce :
    (job : ℕ) (db : Portal) (s : JobStatus) → IsOnce db → IsOnce (move_to_approved job s db)
unfolding move_to_approved
move_to_approved-IsOnce job db s h = h

if-IsOnce : (b : Bool) (db db' : Portal) → IsOnce db → IsOnce db' → IsOnce (if b then db else db')
if-IsOnce true db db' h h' = h
if-IsOnce false db db' h h' = h'

recorded-IsOnce :
    (t : Token) (j : PortalJob) (items : List DecisionItem) (db : Portal) {db' : Portal}
    → find_token t.id db.tokens ≡ some t
    → IsOnce db
    → any (is_decided t.job_id db.tokens items) db.decisions ≡ false
    → record_decisions t j items db ≡ ok db'
    → IsOnce db'
recorded-IsOnce t j items db {db'} found (keyed, once) undecided recorded = (
  subst IsKeyed (sym (goes 0 0).1) keyed,
  λ job line.
      subst (λ ts. times_decided ts job line db'.decisions ≤ 1) (sym (goes job line).1)
        (goes job line).0,
)
  where
    goes :
        (job line : ℕ)
        → (times_decided db.tokens job line db'.decisions ≤ 1) × (db'.tokens ≡ db.tokens)
    goes job line =
        record_decisions-Goes job line t j items db found
          (
            once job line,
            λ mine coming _.
                none_decided db.tokens job line t items db.decisions mine coming undecided,
          )
          recorded

used-IsOnce :
    (id now : ℕ) (db : Portal)
    → IsOnce db
    → IsOnce (record db { tokens = update_where (λ x. x.id == id) (as_used now) db.tokens })
used-IsOnce id now db (keyed, once) = (
  as_used-IsKeyed id now db.tokens keyed,
  λ job line.
      omega (arith, once job line, times_decided-as_used id now job line db.tokens db.decisions),
)

sent-IsOnce :
    (n : Token) (db : Portal)
    → any (λ t. t.id == n.id) db.tokens ≡ false
    → any (λ d. d.token_id == n.id) db.decisions ≡ false
    → IsOnce db
    → IsOnce (record db { tokens = db.tokens ++ (n ∷ []) })
sent-IsOnce n db no_link no_decision (keyed, once) = (
  append-IsKeyed db.tokens n no_link keyed,
  λ job line.
      omega
        (arith, once job line, times_decided-append job line db.tokens n db.decisions no_decision),
)

decide_from_portal-IsOnce :
    (now hash : ℕ) (items : List DecisionItem) (db : Portal)
    → IsOnce db
    → Keeps IsOnce db (decide_from_portal now hash items db)
unfolding decide_from_portal
decide_from_portal-IsOnce now hash items db (keyed, once) =
    Keeps-bind _ _ (keyed, once)
      λ t valid.
        Keeps-bind _ _ (keyed, once)
          λ _ _.
            Keeps-bind _ _ (keyed, once)
              λ _ _.
                Keeps-bind _ _ (keyed, once)
                  λ _ undecided.
                    Keeps-bind _ _ (keyed, once)
                      λ job _.
                        Keeps-bind _ _ (keyed, once)
                          λ _ _.
                            Keeps-bind _ _ (keyed, once)
                              λ db' recorded. record {
                                holds =
                                    let keyed_t =
                                      keyed hash t (valid_token-found now hash db t valid) in
                                    let settled =
                                      recorded-IsOnce t job items db keyed_t (keyed, once)
                                        (throw_if-eq-ok _ _ undecided) recorded in
                                    let used = used-IsOnce t.id now db' settled in
                                    if-IsOnce _ _ _ used
                                      (move_to_approved-IsOnce job.id _ job.status used);
                              }

move_to_estimate_sent-IsOnce :
    (job : ℕ) (db : Portal) (s : JobStatus) → IsOnce db → IsOnce (move_to_estimate_sent job s db)
unfolding move_to_estimate_sent
move_to_estimate_sent-IsOnce job db s h = h

request_authorisation-IsOnce :
    (now id hash job : ℕ) (db : Portal)
    → is_new_id id db ≡ true
    → IsOnce db
    → Keeps IsOnce db (request_authorisation now id hash job db)
unfolding request_authorisation
request_authorisation-IsOnce now id hash job db anew (keyed, once) =
    Keeps-bind _ _ (keyed, once)
      λ job _.
        Keeps-bind _ _ (keyed, once)
          λ _ _. record {
            holds =
                let sent = sent-IsOnce _ db (ground arith) (ground arith) (keyed, once) in
                if-IsOnce _ _ _ sent (move_to_estimate_sent-IsOnce job.id _ job.status sent);
          }

reset_concern_approval-IsOnce :
    (job concern user : ℕ) (reason : String) (db : Portal)
    → IsOnce db
    → Keeps IsOnce db (reset_concern_approval job concern user reason db)
unfolding reset_concern_approval
reset_concern_approval-IsOnce job concern user reason db (keyed, once) =
    Keeps-bind _ _ (keyed, once)
      λ _ _. record {
        holds = (
          keyed,
          λ job' line. omega (
            arith,
            once job' line,
            times_decided-keep (λ d. not (is_cleared concern db.lines d)) db.tokens job' line
                db.decisions,
          ),
        );
      }

-- A call that makes a link gives it a new id.
abbrev pub is_anew : Portal → Call → Bool
is_anew db (requests _ id _ _) = is_new_id id db
is_anew db _ = true

unfoldable pub all_anew : Portal → List Call → Bool
all_anew db [] = true
all_anew db (c ∷ calls) = is_anew db c && all_anew (step db c) calls

step-IsOnce : (c : Call) (db : Portal) → is_anew db c ≡ true → IsOnce db → IsOnce (step db c)
unfolding step
step-IsOnce (decides now hash items) db h once =
    (decide_from_portal-IsOnce now hash items db once).holds
step-IsOnce (requests now id hash job) db h once =
    (request_authorisation-IsOnce now id hash job db h once).holds
step-IsOnce (resets job concern user reason) db h once =
    (reset_concern_approval-IsOnce job concern user reason db once).holds

-- A customer decides each line of a job once: over any history in which links are sent, decisions
-- are submitted through them and a concern's decisions are reset, a line has at most one decision
-- by the links of a job. The code does not refuse a link that was used, as the documents say it
-- does, so a used link may submit again; a request may name a line twice, and new links may be
-- sent at any time. At the start the decisions are so, a link that is found by its hash is found
-- by its id, and links get new ids.
pub run-IsOnce :
    (calls : List Call) (db : Portal) → IsOnce db → all_anew db calls ≡ true → IsOnce (run db calls)
unfolding run all_anew
run-IsOnce [] db once h = once
run-IsOnce (c ∷ calls) db once h =
    run-IsOnce calls (step db c) (step-IsOnce c db (ground arith) once) (ground arith)
