-- ===== src/Jobs/Graph.antt =====
-- The paths of a job through its statuses (src/jobs/jobs.state-machine.ts).
use superflow_api.Base.{subst, Bool-cases, inl, inr, ◌≡◌, refl, Bool, true, false, ◌||◌, arith}
use superflow_api.Jobs.Status.{
  JobStatus, booked, checking, estimate_sent, approved, in_progress, waiting_parts, quality_check,
  ready, closed, no_show, same_status, transitions, can_transition, same_status-eq,
}

pub data Reaches : JobStatus → JobStatus → Type 0 where
  stays : (s : JobStatus) → Reaches s s
  moves : {u : JobStatus} (s t : JobStatus) → can_transition s t ≡ true → Reaches t u → Reaches s u

-- Does the path pass the status?
unfoldable pub visits : {s t : JobStatus} → JobStatus → Reaches s t → Bool
visits x (stays s) = same_status s x
visits x (moves s t _ rest) = same_status s x || visits x rest

-- The statuses before the work on the car.
abbrev pub is_early : JobStatus → Bool
is_early booked = true
is_early checking = true
is_early estimate_sent = true
is_early approved = true
is_early _ = false

-- The statuses that only a car that is worked on comes to.
abbrev pub is_late : JobStatus → Bool
is_late waiting_parts = true
is_late quality_check = true
is_late ready = true
is_late _ = false

abbrev pub is_final : JobStatus → Bool
is_final closed = true
is_final no_show = true
is_final _ = false

final_next : (s t : JobStatus) → is_final s ≡ true → can_transition s t ≡ false
unfolding can_transition transitions
final_next closed t h = ground arith
final_next no_show t h = ground arith
final_next _ t h = cc

-- A closed job and one that did not show are never moved: whatever path of allowed transitions
-- starts at such a status ends there.
pub final-Reaches : {s t : JobStatus} → is_final s ≡ true → Reaches s t → t ≡ s
final-Reaches h (stays s) = refl
final-Reaches h (moves s u e rest) = cc (final_next s u h)

pub and_then :
    {s u : JobStatus} (t : JobStatus) → Reaches s t → can_transition t u ≡ true → Reaches s u
and_then t (stays s) e = moves s _ e (stays _)
and_then t (moves s v f rest) e = moves s v f (and_then t rest e)

pub Reaches-closed : (s : JobStatus) → same_status s no_show ≡ false → Reaches s closed
unfolding can_transition transitions
Reaches-closed closed h = stays closed
Reaches-closed no_show h = cc
Reaches-closed quality_check h =
    moves quality_check ready refl (moves ready closed refl (stays closed))
Reaches-closed s h = moves s closed refl (stays closed)

to_checking : Reaches booked checking
unfolding can_transition transitions
to_checking = moves booked checking refl (stays checking)

to_work : Reaches booked in_progress
unfolding can_transition transitions
to_work = and_then checking to_checking refl

pub booked-Reaches : (t : JobStatus) → Reaches booked t
unfolding can_transition transitions
booked-Reaches booked = stays booked
booked-Reaches checking = to_checking
booked-Reaches no_show = moves booked no_show refl (stays no_show)
booked-Reaches closed = moves booked closed refl (stays closed)
booked-Reaches estimate_sent = and_then checking to_checking refl
booked-Reaches approved = and_then checking to_checking refl
booked-Reaches in_progress = to_work
booked-Reaches t = and_then in_progress to_work refl

-- Every status can be reached from `booked` by allowed transitions, and from every status but
-- `no_show` a job can still be closed.
pub no_dead_end :
    (s : JobStatus) → Reaches booked s × (same_status s no_show ≡ false → Reaches s closed)
no_dead_end s = (booked-Reaches s, Reaches-closed s)

early_next :
    (s t : JobStatus)
    → is_early s ≡ true
    → can_transition s t ≡ true
    → (is_early t || same_status t in_progress || is_final t) ≡ true
unfolding can_transition transitions
early_next booked t h e = ground arith
early_next checking t h e = ground arith
early_next s t h e = ground arith

visits_first : {s t : JobStatus} (r : Reaches s t) → visits s r ≡ true
unfolding visits
visits_first (stays s) = ground arith
visits_first (moves s u e rest) = ground arith

not_both : (s : JobStatus) → is_early s ≡ true → is_late s ≡ true → ⊥
not_both waiting_parts h late = cc
not_both quality_check h late = cc
not_both ready h late = cc
not_both _ h late = cc

final-late : {s t : JobStatus} → is_final s ≡ true → is_late t ≡ true → Reaches s t → ⊥
final-late {s} h late r = not_late s h (subst (λ t. is_late t ≡ true) (final-Reaches h r) late)
  where
    not_late : (s : JobStatus) → is_final s ≡ true → is_late s ≡ true → ⊥
    not_late closed h late = cc
    not_late no_show h late = cc
    not_late _ h late = cc

-- A job whose work has not begun cannot wait for parts, be checked for quality or be ready
-- without having been in progress: every path of allowed transitions from a status before the
-- work to one of those three passes `in_progress`.
pub work_comes_first :
    {s t : JobStatus} (r : Reaches s t)
    → is_early s ≡ true
    → is_late t ≡ true
    → visits in_progress r ≡ true
unfolding visits
work_comes_first (stays s) h late = absurd (not_both s h late)
work_comes_first (moves s u e rest) h late = elim (Bool-cases (is_early u)) [
  | inl early ↦ ground (arith, work_comes_first rest early late)
  | inr later ↦ elim (Bool-cases (is_final u)) [
    | inl final ↦ absurd (final-late final late rest)
    | inr going ↦ after_work (ground (arith, early_next s u h e))
  ]
]
  where
    after_work :
        same_status u in_progress ≡ true
        → (same_status s in_progress || visits in_progress rest) ≡ true
    after_work at =
        let begins =
          subst (λ x. visits x rest ≡ true) (same_status-eq u in_progress at) (visits_first rest) in
        ground arith
