-- ===== src/Portal/Recorded.antt =====
-- What a request of a customer leaves in the tables, item by item (`decideFromPortal` of
-- src/authorisation/authorisation.service.ts).
use superflow_api.Base.{
  ℕ, ◌≡◌, refl, Bool, true, false, not, ◌&&◌, Option, none, some, List, [], ◌∷◌, arith, ◌==◌, any,
  all, String, ◌||◌, Bool-cases, inl, inr, ok, ◌>>=◌,
}
use text.Mathlib.Text.{◌==◌ as str_eq}
use text.Mathlib.TextPositions.{eq_refl}
use superflow_api.Portal.Types.{
  Token, PortalJob, DecisionItem, DecisionKind, approves, declines, defers, Decision, DeferredWork,
  Portal,
}
use superflow_api.Portal.Service.{
  is_taken, is_put_off, decision_of, record_decisions, with_deferred,
}

abbrev pub names_line : ℕ → DecisionItem → Bool
names_line line i = line == i.estimate_line_id

-- No line is named twice.
abbrev pub all_distinct : List DecisionItem → Bool
all_distinct [] = true
all_distinct (i ∷ items) = not (any (names_line i.estimate_line_id) items) && all_distinct items

-- The row of an item: the link, the line, what the customer decided and the comment.
abbrev kind_place : DecisionKind → ℕ
kind_place approves = 0
kind_place declines = 1
kind_place defers = 2

abbrev same_comment : Option String → Option String → Bool
same_comment none none = true
same_comment (some a) (some b) = str_eq a b
same_comment _ _ = false

abbrev is_row_of : Token → DecisionItem → Decision → Bool
is_row_of t i d =
    d.token_id == t.id
    && d.estimate_line_id == i.estimate_line_id
    && kind_place d.decision == kind_place i.decision
    && same_comment d.customer_comment i.customer_comment

abbrev pub is_recorded : Token → List Decision → DecisionItem → Bool
is_recorded t ds i = any (is_row_of t i) ds

-- A line that is declined or deferred is followed up for its job.
abbrev is_follow_up : ℕ → DecisionItem → DeferredWork → Bool
is_follow_up job i w = w.original_job_id == job && w.estimate_line_id == i.estimate_line_id

abbrev pub is_followed : ℕ → List DeferredWork → DecisionItem → Bool
is_followed job works i = not (is_put_off i.decision) || any (is_follow_up job i) works

abbrev pub is_named : Token → List Decision → DecisionItem → Bool
is_named t ds i = is_taken t.id i.estimate_line_id ds

own_row : (t : Token) (i : DecisionItem) → is_row_of t i (decision_of t i) ≡ true
own_row t i = ground (arith, same i.customer_comment)
  where
    same : (o : Option String) → same_comment o o ≡ true
    same none = refl
    same (some s) = eq_refl s

-- The items that are still to come stay free.
stays_free :
    (t : Token) (i : DecisionItem) (items : List DecisionItem) (ds : List Decision)
    → any (names_line i.estimate_line_id) items ≡ false
    → all (λ k. not (is_named t ds k)) items ≡ true
    → all (λ k. not (is_named t (decision_of t i ∷ ds) k)) items ≡ true
stays_free t i [] ds apart free = refl
stays_free t i (k ∷ items) ds apart free = ground (arith, stays_free t i items ds)

pub record Recorded (t : Token) (job : ℕ) (items : List DecisionItem) (db db' : Portal)
    : Type 0 where
  pub all_there : all (is_recorded t db'.decisions) items ≡ true
  pub all_followed : all (is_followed job db'.deferred) items ≡ true
  pub grows : (p : Decision → Bool) → any p db.decisions ≡ true → any p db'.decisions ≡ true
  pub grows_deferred :
      (p : DeferredWork → Bool) → any p db.deferred ≡ true → any p db'.deferred ≡ true
  pub same_jobs : db'.jobs ≡ db.jobs

abbrev with_item : Token → PortalJob → DecisionItem → Portal → Portal
with_item t j i db = record db {
  decisions = decision_of t i ∷ db.decisions;
  deferred = with_deferred j i db;
}

with_deferred-followed :
    (j : PortalJob) (i : DecisionItem) (db : Portal)
    → is_followed j.id (with_deferred j i db) i ≡ true
unfolding with_deferred
with_deferred-followed j i db = ground arith

with_deferred-grows :
    (j : PortalJob) (i : DecisionItem) (db : Portal) (p : DeferredWork → Bool)
    → any p db.deferred ≡ true
    → any p (with_deferred j i db) ≡ true
unfolding with_deferred
with_deferred-grows j i db p h = ground arith

is_followed-grows :
    (job : ℕ) (i : DecisionItem) (db : Portal) (works : List DeferredWork)
    → is_followed job works i ≡ true
    → (any (is_follow_up job i) works ≡ true → any (is_follow_up job i) db.deferred ≡ true)
    → is_followed job db.deferred i ≡ true
is_followed-grows job i db works h grows = elim (Bool-cases (is_put_off i.decision)) [
  | inl off ↦ ground (arith, grows (ground arith))
  | inr done ↦ ground arith
]

pub record_decisions-Recorded :
    (t : Token) (j : PortalJob) (items : List DecisionItem) (db : Portal)
    → all_distinct items ≡ true
    → all (λ i. not (is_named t db.decisions i)) items ≡ true
    → (db' : Portal) × (record_decisions t j items db ≡ ok db') × Recorded t j.id items db db'
unfolding record_decisions ◌>>=◌
record_decisions-Recorded t j [] db distinct free = (
  db,
  refl,
  record {
    all_there = refl;
    all_followed = refl;
    grows = λ p h. h;
    grows_deferred = λ p h. h;
    same_jobs = refl;
  },
)
record_decisions-Recorded t j (i ∷ items) db distinct free =
    let untaken : is_taken t.id i.estimate_line_id db.decisions ≡ false = ground arith in
    let (db', done, kept) =
      record_decisions-Recorded t j items (with_item t j i db) (ground arith)
        (stays_free t i items db.decisions (ground arith) (ground arith)) in
    (
      db',
      rw untaken done,
      record {
        all_there =
            ground
              (arith, kept.grows (is_row_of t i) (ground (arith, own_row t i)), kept.all_there);
        all_followed = ground (
          arith,
          is_followed-grows j.id i db' _ (with_deferred-followed j i db)
              (kept.grows_deferred (is_follow_up j.id i)),
          kept.all_followed,
        );
        grows = λ p h. kept.grows p (ground (arith, h));
        grows_deferred = λ p h. kept.grows_deferred p (with_deferred-grows j i db p h);
        same_jobs = kept.same_jobs;
      },
    )
