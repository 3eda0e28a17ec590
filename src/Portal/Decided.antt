-- ===== src/Portal/Decided.antt =====
-- How often a line is decided, and what a request's decisions add (`decideFromPortal` of
-- src/authorisation/authorisation.service.ts).
use superflow_api.Base.{
  ℕ, ◌+◌, ◌≤◌, ◌≡◌, refl, sym, ap, subst, Bool, true, false, ◌&&◌, some, List, [], ◌∷◌, arith, ◌==◌,
  ==_iff, any, if◌then◌else◌, Bool-cases, inl, inr, ok, >>=-eq-ok, ok_inj, throw_if-eq-ok,
}
use superflow_api.Portal.Types.{Token, PortalJob, DecisionItem, Decision, Portal}
use superflow_api.Portal.Service.{
  find_hash, find_token, is_of_job, is_decided, is_taken, decision_of, record_decisions,
}

-- Is this a decision on the line, by a link of the job?
abbrev pub is_on : List Token → ℕ → ℕ → Decision → Bool
is_on tokens job line d =
    d.estimate_line_id == line && is_of_job (some job) (find_token d.token_id tokens)

abbrev pub times_decided : List Token → ℕ → ℕ → List Decision → ℕ
times_decided tokens job line [] = 0
times_decided tokens job line (d ∷ ds) =
    (if is_on tokens job line d then 1 else 0) + times_decided tokens job line ds

-- A token that is found by its hash is found by its id.
abbrev pub IsKeyed : List Token → Type 0
IsKeyed tokens =
    (hash : ℕ) (t : Token) → find_hash hash tokens ≡ some t → find_token t.id tokens ≡ some t

abbrev pub IsOnce : Portal → Type 0
IsOnce db = IsKeyed db.tokens × ((job line : ℕ) → times_decided db.tokens job line db.decisions ≤ 1)

abbrev pub on_item : ℕ → DecisionItem → Bool
on_item line i = line == i.estimate_line_id

-- While the items of a request are recorded: the lines that are still to come have been decided, if
-- at all, by this request.
abbrev pub Goes : List Token → ℕ → ℕ → Token → List DecisionItem → List Decision → Type 0
Goes tokens job line t items ds =
    (times_decided tokens job line ds ≤ 1)
    × (is_of_job (some job) (some t) ≡ true
        → any (on_item line) items ≡ true
        → is_taken t.id line ds ≡ false
        → times_decided tokens job line ds ≡ 0)

Goes-record :
    (tokens : List Token) (job line : ℕ) (t : Token) (item : DecisionItem)
    (items : List DecisionItem) (ds : List Decision)
    → find_token t.id tokens ≡ some t
    → is_taken t.id item.estimate_line_id ds ≡ false
    → Goes tokens job line t (item ∷ items) ds
    → Goes tokens job line t items (decision_of t item ∷ ds)
Goes-record tokens job line t item items ds keyed free (once, fresh) =
    elim (Bool-cases (line == item.estimate_line_id)) [
      | inr elsewhere ↦ (
        ground (arith, once, elsewhere),
        λ mine coming free'. ground (arith, elsewhere, fresh mine (ground arith) (ground arith)),
      )
      | inl here ↦
          let same = (==_iff line item.estimate_line_id).0 here in
          let free' = subst (λ n. is_taken t.id n ds ≡ false) (sym same) free in
          elim (Bool-cases (is_of_job (some job) (some t))) [
            | inl mine ↦ (
              ground (arith, keyed, mine, fresh mine (ground arith) free'),
              λ _ _ not_taken. ground (arith, here),
            )
            | inr other ↦ (ground (arith, keyed, other, once), λ mine. cc (mine, other))
          ]
    ]

pub record_decisions-Goes :
    (job line : ℕ) (t : Token) (j : PortalJob) (items : List DecisionItem) (db : Portal)
    {db' : Portal}
    → find_token t.id db.tokens ≡ some t
    → Goes db.tokens job line t items db.decisions
    → record_decisions t j items db ≡ ok db'
    → (times_decided db.tokens job line db'.decisions ≤ 1) × (db'.tokens ≡ db.tokens)
unfolding record_decisions
record_decisions-Goes job line t j [] db keyed goes done =
    let same = ok_inj done in
    (
      subst (λ x. times_decided db.tokens job line x.decisions ≤ 1) same goes.0,
      ap (λ x. x.tokens) (sym same),
    )
record_decisions-Goes job line t j (item ∷ items) db keyed goes done =
    let (_, guard, rest) = >>=-eq-ok _ _ done in
    record_decisions-Goes job line t j items _ keyed
      (Goes-record db.tokens job line t item items db.decisions keyed (throw_if-eq-ok _ _ guard)
        goes)
      rest

its_job : (job : ℕ) (t : Token) → is_of_job (some job) (some t) ≡ true → t.job_id ≡ some job
its_job job t h = ground arith

on-is_decided :
    (tokens : List Token) (job line : ℕ) (t : Token) (items : List DecisionItem) (d : Decision)
    → is_of_job (some job) (some t) ≡ true
    → any (on_item line) items ≡ true
    → is_on tokens job line d ≡ true
    → is_decided t.job_id tokens items d ≡ true
on-is_decided tokens job line t items d mine coming h =
    let same : d.estimate_line_id ≡ line = ground arith in
    let found = subst (λ n. any (on_item n) items ≡ true) (sym same) coming in
    let of_job : is_of_job (some job) (find_token d.token_id tokens) ≡ true = ground arith in
    let of_its_job =
      subst (λ o. is_of_job o (find_token d.token_id tokens) ≡ true) (sym (its_job job t mine))
        of_job in
    rw found of_its_job

-- No line of the request has been decided before.
pub none_decided :
    (tokens : List Token) (job line : ℕ) (t : Token) (items : List DecisionItem)
    (ds : List Decision)
    → is_of_job (some job) (some t) ≡ true
    → any (on_item line) items ≡ true
    → any (is_decided t.job_id tokens items) ds ≡ false
    → times_decided tokens job line ds ≡ 0
none_decided tokens job line t items [] mine coming h = refl
none_decided tokens job line t items (d ∷ ds) mine coming h =
    elim (Bool-cases (is_on tokens job line d)) [
      | inl on ↦ cc (h, on-is_decided tokens job line t items d mine coming on)
      | inr off ↦
          ground (arith, off, none_decided tokens job line t items ds mine coming (ground arith))
    ]
