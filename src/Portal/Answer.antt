-- ===== src/Portal/Answer.antt =====
-- A complete request of a customer is recorded (`decideFromPortal` of
-- src/authorisation/authorisation.service.ts).
use superflow_api.Base.{
  ℕ, ◌≡◌, refl, ap, subst, true, false, not, ◌&&◌, Option, none, some, List, [], ◌∷◌, arith, ◌==◌,
  any, all, update_where, is_some, same_option, if◌then◌else◌, Bool-cases, inl, inr, ok, ◌>>=◌,
}
use superflow_api.Jobs.Status.{JobStatus, approved}
use superflow_api.Portal.Types.{Token, PortalJob, DecisionItem, Decision, Portal}
use superflow_api.Portal.Service.{
  find_token, valid_token, job_of, lines_of, has_line, find_job, is_over, is_empty, is_decided,
  is_taken, at_status, with_answer, move_to_approved, decide_from_portal,
}
use superflow_api.Portal.Recorded.{
  names_line, all_distinct, is_recorded, is_followed, is_named, record_decisions-Recorded,
}

own_decision-is_decided :
    (tokens : List Token) (t : Token) (items : List DecisionItem) (d : Decision) (line : ℕ)
    → find_token t.id tokens ≡ some t
    → any (names_line line) items ≡ true
    → (d.token_id == t.id && d.estimate_line_id == line) ≡ true
    → is_decided t.job_id tokens items d ≡ true
own_decision-is_decided tokens t items d line found named h =
    let named' : any (names_line d.estimate_line_id) items ≡ true =
      subst (λ n. any (names_line n) items ≡ true) (ground arith) named in
    let its : find_token d.token_id tokens ≡ some t =
      subst (λ n. find_token n tokens ≡ some t) (ground arith) found in
    rw named' (rw its (its_own t.job_id))
  where
    its_own : (o : Option ℕ) → same_option o o ≡ true
    its_own none = refl
    its_own (some n) = ground arith

-- A line of a request that passes the guard is free: a decision by the link itself would count.
undecided-is_taken :
    (tokens : List Token) (t : Token) (items : List DecisionItem) (ds : List Decision) (line : ℕ)
    → find_token t.id tokens ≡ some t
    → any (names_line line) items ≡ true
    → any (is_decided t.job_id tokens items) ds ≡ false
    → is_taken t.id line ds ≡ false
undecided-is_taken tokens t items [] line found named h = refl
undecided-is_taken tokens t items (d ∷ ds) line found named h =
    elim (Bool-cases (d.token_id == t.id && d.estimate_line_id == line)) [
      | inl own ↦ cc (h, own_decision-is_decided tokens t items d line found named own)
      | inr other ↦
          ground
            (arith, other, undecided-is_taken tokens t items ds line found named (ground arith))
    ]

all_free :
    (db : Portal) (t : Token) (items rest : List DecisionItem)
    → find_token t.id db.tokens ≡ some t
    → any (is_decided t.job_id db.tokens items) db.decisions ≡ false
    → ((line : ℕ) → any (names_line line) rest ≡ true → any (names_line line) items ≡ true)
    → all (λ i. not (is_named t db.decisions i)) rest ≡ true
all_free db t items [] found h among = refl
all_free db t items (i ∷ rest) found h among =
    let named = among i.estimate_line_id (ground arith) in
    let free = undecided-is_taken db.tokens t items db.decisions i.estimate_line_id found named h in
    ground
      (arith, free, all_free db t items rest found h λ line more. among line (ground (arith, more)))

find_job-write :
    (id : ℕ) (f : PortalJob → PortalJob) (jobs : List PortalJob) (j : PortalJob)
    → ((x : PortalJob) → (f x).id ≡ x.id)
    → find_job id jobs ≡ some j
    → find_job id (update_where (λ x. x.id == id) f jobs) ≡ some (f j)
find_job-write id f [] j keeps h = cc
find_job-write id f (x ∷ jobs) j keeps h = ground (arith, keeps x, find_job-write id f jobs j keeps)

abbrev pub status_at : Option PortalJob → Option JobStatus
status_at none = none
status_at (some j) = some j.status

-- The link's mark and the job's move write neither decisions nor deferred work.
with_answer-keeps :
    (now : ℕ) (t : Token) (j : PortalJob) (db : Portal)
    → let db' = with_answer now t j db in
      (db'.decisions ≡ db.decisions) × (db'.deferred ≡ db.deferred)
unfolding move_to_approved
with_answer-keeps now t j db = elim (Bool-cases (is_over j.status)) [
  | inl over ↦ rw over (refl, refl)
  | inr on ↦ rw on (refl, refl)
]

with_answer-status :
    (now : ℕ) (t : Token) (j : PortalJob) (db : Portal)
    → find_job j.id db.jobs ≡ some j
    → status_at (find_job j.id (with_answer now t j db).jobs)
      ≡ some (if is_over j.status then j.status else approved)
unfolding move_to_approved
with_answer-status now t j db h = elim (Bool-cases (is_over j.status)) [
  | inl over ↦ rw over (ap status_at h)
  | inr on ↦
      rw on (ap status_at (find_job-write j.id (at_status approved db) db.jobs j (λ _. refl) h))
]

-- A complete request is recorded: the link is valid and finds its own job, which has a workshop;
-- the request is not empty, names lines of that job, none twice, and none that has been decided
-- by a link of the job. Then the call returns; each item has a row with the link, its line, what
-- the customer decided and the comment; each line that is declined or deferred is in the deferred
-- work of the job; and the job is approved, unless it is closed or a no-show. That it is approved
-- whatever the customer decided is the code's, not the documents'.
pub decide_from_portal-records :
    (now hash : ℕ) (items : List DecisionItem) (db : Portal) (t : Token) (j : PortalJob)
    → valid_token now hash db ≡ ok t
    → find_token t.id db.tokens ≡ some t
    → t.job_id ≡ some j.id
    → find_job j.id db.jobs ≡ some j
    → is_some j.workshop_id ≡ true
    → is_empty items ≡ false
    → all (has_line (lines_of (some j) db)) items ≡ true
    → any (is_decided t.job_id db.tokens items) db.decisions ≡ false
    → all_distinct items ≡ true
    → (db' : Portal) × (decide_from_portal now hash items db ≡ ok (tt, db'))
      × (all (is_recorded t db'.decisions) items ≡ true)
      × (all (is_followed j.id db'.deferred) items ≡ true)
      × (status_at (find_job j.id db'.jobs)
          ≡ some (if is_over j.status then j.status else approved))
unfolding decide_from_portal move_to_approved ◌>>=◌
decide_from_portal-records now hash items db t j valid keyed own found workshop some_items lines
      undecided distinct =
    let free = all_free db t items items keyed undecided (λ line h. h) in
    let (db', done, kept) = record_decisions-Recorded t j items db distinct free in
    let job : job_of t.job_id db ≡ some j = ground (arith, own, found) in
    (
      with_answer now t j db',
      rw valid (rw some_items (rw job (rw lines (rw undecided (rw workshop (rw done refl)))))),
      rw (with_answer-keeps now t j db').0 kept.all_there,
      rw (with_answer-keeps now t j db').1 kept.all_followed,
      with_answer-status now t j db' (rw kept.same_jobs found),
    )
