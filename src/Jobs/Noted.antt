-- ===== src/Jobs/Noted.antt =====
-- The advisor's decisions on concerns and their notes (`updateConcern` of src/jobs/jobs.service.ts).
use superflow_api.Base.{
  ℕ, ◌≡◌, refl, Bool, true, false, not, ◌&&◌, Option, none, some, List, [], ◌∷◌, arith, ◌==◌, all,
  throw_if-eq-ok, after, Keeps-bind,
}
use superflow_api.Base.Rows.{all-update, all-keep}
use superflow_api.Jobs.Concerns.{
  AdvisorDecision, Field, left_out, null, text, DecisionField, undecided, cleared, unknown, decided,
  JobConcern, ConcernDto, ConcernDb, create_concern, update_concern, remove_concern, names_decision,
  is_unknown, has_text, text_of, advisor_choice, advisor_note, with_concern_data,
}

pub data ConcernCall : Type 0 where
  creates_concern : ℕ → ℕ → ConcernDto → ConcernCall
  updates_concern : ℕ → ℕ → ConcernDto → ConcernCall
  removes_concern : ℕ → ℕ → ConcernCall

unfoldable pub answer_concern : ConcernCall → ConcernDb → ConcernDb
answer_concern (creates_concern id job dto) db = after db (create_concern id job dto db)
answer_concern (updates_concern job id dto) db = after db (update_concern job id dto db)
answer_concern (removes_concern job id) db = after db (remove_concern job id db)

unfoldable pub answer_concerns : List ConcernCall → ConcernDb → ConcernDb
answer_concerns [] db = db
answer_concerns (call ∷ calls) db = answer_concerns calls (answer_concern call db)

-- A request that names no decision does not take the note away.
abbrev pub leaves_note : DecisionField → Field → Bool
leaves_note undecided null = false
leaves_note undecided (text n) = not (n == 0)
leaves_note _ _ = true

abbrev pub call_leaves_note : ConcernCall → Bool
call_leaves_note (updates_concern job id dto) =
    leaves_note dto.advisor_decision dto.advisor_decision_note
call_leaves_note _ = true

abbrev noted_with : Option AdvisorDecision → Option ℕ → Bool
noted_with none words = true
noted_with (some d) words = has_text words

-- A decision of the advisor stands with a note.
abbrev pub is_noted : JobConcern → Bool
is_noted c = noted_with c.advisor_decision c.advisor_decision_note

advisor_choice-noted_with :
    (d : DecisionField) (n : Field) (decision : Option AdvisorDecision) (words : Option ℕ)
    → (names_decision d && not (has_text (text_of n))) ≡ false
    → is_unknown d ≡ false
    → leaves_note d n ≡ true
    → noted_with decision words ≡ true
    → noted_with (advisor_choice d decision) (advisor_note d n words) ≡ true
advisor_choice-noted_with undecided left_out decision words g u l h = h
advisor_choice-noted_with undecided null decision words g u l h = cc
advisor_choice-noted_with undecided (text n) none words g u l h = refl
advisor_choice-noted_with undecided (text n) (some d) words g u l h = l
advisor_choice-noted_with cleared n decision words g u l h = refl
advisor_choice-noted_with unknown n decision words g u l h = cc
advisor_choice-noted_with (decided d) left_out decision words g u l h = cc
advisor_choice-noted_with (decided d) null decision words g u l h = cc
advisor_choice-noted_with (decided d) (text n) decision words g u l h = ground (arith, g)

abbrev AllNoted : ConcernDb → Type 0
AllNoted db = all is_noted db.concerns ≡ true

answer_concern-AllNoted :
    (call : ConcernCall) (db : ConcernDb)
    → call_leaves_note call ≡ true
    → AllNoted db
    → AllNoted (answer_concern call db)
unfolding answer_concern create_concern update_concern remove_concern
answer_concern-AllNoted (creates_concern id job dto) db l h =
    (Keeps-bind {P = AllNoted} _ _ h λ _ _. record { holds = h }).holds
answer_concern-AllNoted (updates_concern job id dto) db l h =
    (Keeps-bind {P = AllNoted} _ _ h λ _ _. Keeps-bind _ _ h λ _ _. Keeps-bind _ _ h λ _ given.
      Keeps-bind _ _ h λ _ known. Keeps-bind _ _ h λ _ _. record {
        holds =
            all-update is_noted (λ c. c.id == id) (with_concern_data dto) db.concerns
              (λ c.
                advisor_choice-noted_with dto.advisor_decision dto.advisor_decision_note
                  c.advisor_decision c.advisor_decision_note (throw_if-eq-ok _ _ given)
                  (throw_if-eq-ok _ _ known) l)
              h;
      }).holds
answer_concern-AllNoted (removes_concern job id) db l h =
    (Keeps-bind {P = AllNoted} _ _ h λ _ _.
      Keeps-bind _ _ h
        λ _ _. record { holds = all-keep is_noted (λ c. not (c.id == id)) db.concerns h }).holds

-- A decision of the advisor on a concern always stands with a note, after any history in which
-- concerns are created, updated and removed and in which no update takes a note away or empties
-- it without naming the decision, if it is so at first. The updates name only columns of the
-- model.
pub answer_concerns-is_noted :
    (calls : List ConcernCall) (db : ConcernDb)
    → all call_leaves_note calls ≡ true
    → all is_noted db.concerns ≡ true
    → all is_noted (answer_concerns calls db).concerns ≡ true
unfolding answer_concerns
answer_concerns-is_noted [] db l h = h
answer_concerns-is_noted (call ∷ calls) db l h =
    answer_concerns-is_noted calls (answer_concern call db) (ground (arith, l))
      (answer_concern-AllNoted call db (ground (arith, l)) h)
