-- ===== src/Inspections/Concerns.antt =====
-- A submission hands every finding over: `submit` of src/inspections/inspections.service.ts makes or
-- updates the concern of each response that is amber or red.
use superflow_api.Base.{
  ℕ, suc, ◌≡◌, refl, sym, ap, ◌∙◌, subst, Bool, true, false, ◌||◌, Option, none, some, List, [],
  ◌∷◌, arith, ◌==◌, ==_iff, if◌then◌else◌, keep_if, all, is_some, length, Bool-cases, Option-cases,
  inl, inr, Result, ok,
}
use superflow_api.Base.Rows.{find-update, find-update_own, find-holds}
use superflow_api.Inspections.Types.{
  submitted, InspectionRow, Item, Response, Concern, Findings, Reason,
}
use superflow_api.Inspections.Service.{inspection_by_id}
use superflow_api.Inspections.Submit.{
  is_for, concern_for, as_found, new_concern, with_concern, sync_responses, sync_concerns,
  with_submitted, as_submitted, actionable, submit, submit_found, is_submitted, is_final,
}

-- The job has a concern for the response, and its finding is ready.
abbrev pub is_ready : Option Concern → Bool
is_ready none = false
is_ready (some c) = c.is_finding_ready

abbrev pub handed_over : ℕ → List Concern → Response → Bool
handed_over job concerns r = is_ready (concern_for job r.id concerns)

if_ready :
    (b : Bool) (items : List Item) (r : Response) (c : Concern)
    → c.is_finding_ready ≡ true
    → (if b then as_found items r c else c).is_finding_ready ≡ true
if_ready true items r c h = refl
if_ready false items r c h = h

-- The concern of the response itself
with_concern-own :
    (old : Option Concern) (id job place : ℕ) (r : Response) (db : Findings)
    → concern_for job r.id db.concerns ≡ old
    → handed_over job (with_concern old id job place r db).concerns r ≡ true
with_concern-own none id job place r db absent =
    let self : is_for job r.id (new_concern id job place db.items r) ≡ true = ground arith in
    rw self refl
with_concern-own (some c) id job place r db found =
    ap is_ready (
      find-update (is_for job r.id) (λ x. x.id == c.id) (as_found db.items r) db.concerns c
        (λ x. refl) found)
    ∙ (let same : (c.id == c.id) ≡ true = ground arith in rw same refl)

-- A concern that is ready stays so.
with_concern-other :
    (old : Option Concern) (id job place : ℕ) (r s : Response) (db : Findings)
    → handed_over job db.concerns s ≡ true
    → handed_over job (with_concern old id job place r db).concerns s ≡ true
with_concern-other none id job place r s db ready =
    elim (Bool-cases (is_for job s.id (new_concern id job place db.items r))) [
      | inl here ↦ rw here refl
      | inr other ↦ rw other ready
    ]
with_concern-other (some c) id job place r s db ready =
    elim (Option-cases (concern_for job s.id db.concerns)) [
      | inl absent ↦ cc (sym ready ∙ ap is_ready absent)
      | inr (x, found) ↦
          ap is_ready (
            find-update (is_for job s.id) (λ x. x.id == c.id) (as_found db.items r) db.concerns x
              (λ x. refl) found)
          ∙ if_ready (x.id == c.id) db.items r x (sym (ap is_ready found) ∙ ready)
    ]

sync_responses-kept :
    (fresh : ℕ → ℕ) (job : ℕ) (rs : List Response) (place : ℕ) (s : Response) (db : Findings)
    → handed_over job db.concerns s ≡ true
    → handed_over job (sync_responses fresh job place rs db).concerns s ≡ true
unfolding sync_responses
sync_responses-kept fresh job [] place s db ready = ready
sync_responses-kept fresh job (r ∷ rs) place s db ready =
    sync_responses-kept fresh job rs _ s _
      (with_concern-other (concern_for job r.id db.concerns) (fresh r.id) job place r s db ready)

sync_responses-all :
    (fresh : ℕ → ℕ) (job : ℕ) (rs : List Response) (place : ℕ) (db : Findings)
    → all (handed_over job (sync_responses fresh job place rs db).concerns) rs ≡ true
unfolding sync_responses
sync_responses-all fresh job [] place db = refl
sync_responses-all fresh job (r ∷ rs) place db =
    let old = concern_for job r.id db.concerns in
    let place' = if is_some old then place else suc place in
    let db' = with_concern old (fresh r.id) job place r db in
    let first =
      sync_responses-kept fresh job rs place' r db'
        (with_concern-own old (fresh r.id) job place r db refl) in
    rw first (sync_responses-all fresh job rs place' db')

with_concern-inspections :
    (old : Option Concern) (id job place : ℕ) (r : Response) (db : Findings)
    → (with_concern old id job place r db).inspections ≡ db.inspections
with_concern-inspections (some c) id job place r db = refl
with_concern-inspections none id job place r db = refl

sync_responses-inspections :
    (fresh : ℕ → ℕ) (job : ℕ) (rs : List Response) (place : ℕ) (db : Findings)
    → (sync_responses fresh job place rs db).inspections ≡ db.inspections
unfolding sync_responses
sync_responses-inspections fresh job [] place db = refl
sync_responses-inspections fresh job (r ∷ rs) place db =
    sync_responses-inspections fresh job rs _ _
    ∙ with_concern-inspections (concern_for job r.id db.concerns) (fresh r.id) job place r db

-- A submission that goes through
submit_found-open :
    (fresh : ℕ → ℕ) (now id : ℕ) (db : Findings) (i : InspectionRow) (job : ℕ)
    → i.id ≡ id
    → (is_submitted i.status || is_final i.status) ≡ false
    → i.job_id ≡ some job
    → submit_found fresh now (some i) db
      ≡ (ok tt, sync_concerns fresh id job (with_submitted now id db))
submit_found-open fresh now id db i job same unlocked linked =
    let unsent : is_submitted i.status ≡ false = ground (arith, unlocked) in
    let not_final : is_final i.status ≡ false = ground (arith, unlocked) in
    rw (unsent, not_final, linked)
      (ap (λ k. (ok tt, sync_concerns fresh k job (with_submitted now k db))) same)

-- A submission hands every finding over: an inspection that is not locked and belongs to a job is
-- submitted, the call returns, and for each of its responses that is amber or red the job has a
-- concern whose finding is ready. The time of the submission is noted.
pub submit-hands_over :
    (fresh : ℕ → ℕ) (now id : ℕ) (db : Findings) (i : InspectionRow) (job : ℕ)
    → inspection_by_id id db.inspections ≡ some i
    → (is_submitted i.status || is_final i.status) ≡ false
    → i.job_id ≡ some job
    → let after = submit fresh now id db in
      (after.0 ≡ ok tt)
      × (inspection_by_id id after.1.inspections
          ≡ some (record i { status = submitted; submitted_at = some now }))
      × (all (handed_over job after.1.concerns) (actionable id db) ≡ true)
unfolding submit sync_concerns
submit-hands_over fresh now id db i job found unlocked linked =
    let own = find-holds (λ x. x.id == id) db.inspections i found in
    let done =
      ap (λ o. submit_found fresh now o db) found
      ∙ submit_found-open fresh now id db i job ((==_iff i.id id).0 own) unlocked linked in
    let sent = with_submitted now id db in
    let place = length (keep_if (λ c. c.job_id == job) db.concerns) in
    subst
      (λ (x : Result Reason (Unit {0}) × Findings).
        (x.0 ≡ ok tt)
        × (inspection_by_id id x.1.inspections ≡ some (as_submitted now i))
        × (all (handed_over job x.1.concerns) (actionable id db) ≡ true))
      (sym done)
      (
        refl,
        ap (inspection_by_id id)
              (sync_responses-inspections fresh job (actionable id db) place sent)
            ∙ find-update_own (λ x. x.id == id) (λ x. x.id == id) (as_submitted now) db.inspections
                i (λ x. refl) found own,
        sync_responses-all fresh job (actionable id db) place sent,
      )
