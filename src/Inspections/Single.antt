-- ===== src/Inspections/Single.antt =====
-- The calls of src/inspections/inspections.service.ts that write responses and concerns make none a
-- second time.
use superflow_api.Base.{
  ℕ, suc, ◌≡◌, refl, sym, ap, ◌∙◌, subst, Bool, true, Option, none, some, List, [], ◌∷◌, arith,
  ◌==◌, ==_iff, leb, find_first, keep_if, update_where, length, Bool-cases, inl, inr, after,
  Keeps-bind,
}
use superflow_api.Inspections.Types.{InspectionRow, Response, ResponseDto, Concern, Findings}
use superflow_api.Inspections.Service.{
  is_at, response_at, upsert_response, upsert_responses, answered, new_response, save_responses,
  reopen, inspection_by_id,
}
use superflow_api.Inspections.Submit.{
  is_for, concern_for, as_found, new_concern, with_concern, sync_responses, sync_concerns,
  with_submitted, actionable, submit, submit_found, finish, is_submitted, is_final,
}

abbrev pub count {ℓ} : {A : Type ℓ} → (A → Bool) → List A → ℕ
count p l = length (keep_if p l)

count-head {ℓ} :
    {A : Type ℓ}
    → (p : A → Bool) (b a : A) (k l : List A) → p b ≡ p a
    → count p k ≡ count p l
    → count p (b ∷ k) ≡ count p (a ∷ l)
count-head p b a k l same rest = elim (Bool-cases (p a)) [
  | inl here ↦ rw (same, here) (ap suc rest)
  | inr other ↦ rw (same, other) rest
]

count-update {ℓ} :
    {A : Type ℓ}
    → (p q : A → Bool) (f : A → A) (l : List A) → ((a : A) → p (f a) ≡ p a)
    → count p (update_where q f l) ≡ count p l
count-update p q f [] same = refl
count-update p q f (a ∷ l) same = elim (Bool-cases (q a)) [
  | inl written ↦ rw written (count-head p (f a) a _ l (same a) (count-update p q f l same))
  | inr left ↦ rw left (count-head p a a _ l refl (count-update p q f l same))
]

count-absent {ℓ} :
    {A : Type ℓ} → (p : A → Bool) (l : List A) → find_first p l ≡ none → count p l ≡ 0
count-absent p [] absent = refl
count-absent p (a ∷ l) absent = ground (arith, count-absent p l)

-- A row that is added where the query that it answers has found none
count-cons {ℓ} :
    {A : Type ℓ}
    → (p : A → Bool) (a : A) (l : List A) → (p a ≡ true → find_first p l ≡ none)
    → leb (count p l) 1 ≡ true
    → leb (count p (a ∷ l)) 1 ≡ true
count-cons p a l new few = elim (Bool-cases (p a)) [
  | inl here ↦ rw (here, count-absent p l (new here)) refl
  | inr other ↦ rw other few
]

-- An inspection has one response to an item at most, and a job one concern for a response.
abbrev pub OneEach : List Response → Type 0
OneEach responses = (inspection item : ℕ) → leb (count (is_at inspection item) responses) 1 ≡ true

abbrev pub OneConcern : List Concern → Type 0
OneConcern concerns = (job response : ℕ) → leb (count (is_for job response) concerns) 1 ≡ true

abbrev pub AreSingle : Findings → Type 0
AreSingle db = OneEach db.responses × OneConcern db.concerns

upsert_responses-OneEach :
    (now inspection : ℕ) (dtos : List ResponseDto) (responses : List Response)
    → OneEach responses
    → OneEach (upsert_responses now inspection dtos responses)
unfolding upsert_responses
upsert_responses-OneEach now inspection [] responses one = one
upsert_responses-OneEach now inspection (dto ∷ dtos) responses one =
    upsert_responses-OneEach now inspection dtos _
      (upserted (response_at inspection dto.item_id responses) refl)
  where
    upserted :
        (old : Option Response)
        → response_at inspection dto.item_id responses ≡ old
        → OneEach (upsert_response now inspection dto old responses)
    upserted (some old) found i t =
        subst (λ n. leb n 1 ≡ true)
          (sym (
            count-update (is_at i t) (λ r. r.id == old.id) (answered now dto) responses
              (λ r. refl)))
          (one i t)
    upserted none absent i t =
        count-cons (is_at i t) (new_response now inspection dto) responses
          (λ here.
            subst (λ n. response_at n t responses ≡ none)
              ((==_iff inspection i).0 (ground (arith, here)))
              (subst (λ n. response_at inspection n responses ≡ none)
                ((==_iff dto.item_id t).0 (ground (arith, here))) absent))
          (one i t)

sync_responses-OneConcern :
    (fresh : ℕ → ℕ) (job : ℕ) (rs : List Response) (place : ℕ) (db : Findings)
    → OneConcern db.concerns
    → OneConcern (sync_responses fresh job place rs db).concerns
unfolding sync_responses
sync_responses-OneConcern fresh job [] place db one = one
sync_responses-OneConcern fresh job (r ∷ rs) place db one =
    sync_responses-OneConcern fresh job rs _ _ (synced (concern_for job r.id db.concerns) refl)
  where
    synced :
        (old : Option Concern)
        → concern_for job r.id db.concerns ≡ old
        → OneConcern (with_concern old (fresh r.id) job place r db).concerns
    synced (some old) found j k =
        subst (λ n. leb n 1 ≡ true)
          (sym (
            count-update (is_for j k) (λ x. x.id == old.id) (as_found db.items r) db.concerns
              (λ c. refl)))
          (one j k)
    synced none absent j k =
        count-cons (is_for j k) (new_concern (fresh r.id) job place db.items r) db.concerns
          (λ here.
            subst (λ n. concern_for n k db.concerns ≡ none)
              ((==_iff job j).0 (ground (arith, here)))
              (subst (λ n. concern_for job n db.concerns ≡ none)
                ((==_iff r.id k).0 (ground (arith, here))) absent))
          (one j k)

with_concern-responses :
    (old : Option Concern) (id job place : ℕ) (r : Response) (db : Findings)
    → (with_concern old id job place r db).responses ≡ db.responses
with_concern-responses (some c) id job place r db = refl
with_concern-responses none id job place r db = refl

sync_responses-responses :
    (fresh : ℕ → ℕ) (job : ℕ) (rs : List Response) (place : ℕ) (db : Findings)
    → (sync_responses fresh job place rs db).responses ≡ db.responses
unfolding sync_responses
sync_responses-responses fresh job [] place db = refl
sync_responses-responses fresh job (r ∷ rs) place db =
    sync_responses-responses fresh job rs _ _
    ∙ with_concern-responses (concern_for job r.id db.concerns) (fresh r.id) job place r db

sync_concerns-AreSingle :
    (fresh : ℕ → ℕ) (id job : ℕ) (db : Findings)
    → AreSingle db
    → AreSingle (sync_concerns fresh id job db)
unfolding sync_concerns
sync_concerns-AreSingle fresh id job db (one, concerns) =
    let rs = actionable id db in
    let place = length (keep_if (λ c. c.job_id == job) db.concerns) in
    (
      subst OneEach (sym (sync_responses-responses fresh job rs place db)) one,
      sync_responses-OneConcern fresh job rs place db concerns,
    )

-- The calls, with their time and what they draw
pub data InspectionCall : Type 0 where
  save_of : ℕ → ℕ → List ResponseDto → Option ℕ → InspectionCall
  submit_of : (ℕ → ℕ) → ℕ → ℕ → InspectionCall
  reopen_of : ℕ → ℕ → InspectionCall

unfoldable pub perform : InspectionCall → Findings → Findings
perform (save_of now id dtos draft) db = after db (save_responses now id dtos draft db)
perform (submit_of fresh now id) db = (submit fresh now id db).1
perform (reopen_of now id) db = after db (reopen now id db)

finish-AreSingle :
    (fresh : ℕ → ℕ) (id : ℕ) (job : Option ℕ) (db : Findings)
    → AreSingle db
    → AreSingle (finish fresh id job db).1
finish-AreSingle fresh id none db single = single
finish-AreSingle fresh id (some job) db single = sync_concerns-AreSingle fresh id job db single

submit_found-AreSingle :
    (fresh : ℕ → ℕ) (now : ℕ) (o : Option InspectionRow) (db : Findings)
    → AreSingle db
    → AreSingle (submit_found fresh now o db).1
submit_found-AreSingle fresh now none db single = single
submit_found-AreSingle fresh now (some i) db single = elim (Bool-cases (is_submitted i.status)) [
  | inl sent ↦ rw sent single
  | inr unsent ↦ elim (Bool-cases (is_final i.status)) [
    | inl final ↦ rw (unsent, final) single
    | inr open_yet ↦
        rw (unsent, open_yet)
          (finish-AreSingle fresh i.id i.job_id (with_submitted now i.id db) single)
  ]
]

submit-AreSingle :
    (fresh : ℕ → ℕ) (now id : ℕ) (db : Findings)
    → AreSingle db
    → AreSingle (submit fresh now id db).1
unfolding submit
submit-AreSingle fresh now id db single =
    submit_found-AreSingle fresh now (inspection_by_id id db.inspections) db single

perform-AreSingle :
    (call : InspectionCall) (db : Findings) → AreSingle db → AreSingle (perform call db)
unfolding perform save_responses reopen
perform-AreSingle (save_of now id dtos draft) db single =
    (Keeps-bind {P = AreSingle} _ _ single λ i _. Keeps-bind _ _ single λ _ _.
      Keeps-bind _ _ single λ _ _. record {
        holds = (upsert_responses-OneEach now id dtos db.responses single.0, single.1);
      }).holds
perform-AreSingle (submit_of fresh now id) db single = submit-AreSingle fresh now id db single
perform-AreSingle (reopen_of now id) db single =
    (Keeps-bind {P = AreSingle} _ _ single
      λ i _. Keeps-bind _ _ single λ _ _. record { holds = single }).holds

-- What a history of calls leaves
unfoldable pub perform_all : List InspectionCall → Findings → Findings
perform_all [] db = db
perform_all (call ∷ calls) db = perform_all calls (perform call db)

-- However often responses are sent again and inspections are submitted and reopened, an
-- inspection has one response to an item at most, and a job one concern for a response, if it is
-- so at first.
pub perform_all-AreSingle :
    (calls : List InspectionCall) (db : Findings) → AreSingle db → AreSingle (perform_all calls db)
unfolding perform_all
perform_all-AreSingle [] db single = single
perform_all-AreSingle (call ∷ calls) db single =
    perform_all-AreSingle calls (perform call db) (perform-AreSingle call db single)
