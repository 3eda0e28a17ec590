-- ===== src/Jobs/Status.antt =====
-- The status of a job and the moves between statuses (src/jobs/jobs.state-machine.ts).
use mathlib.Core.Option.{map}
use superflow_api.Base.{
  ℕ, suc, ◌≡◌, refl, ap, sym, ◌∙◌, Bool, true, false, List, [], ◌∷◌, ◌==◌, ==_iff, leb, take,
  Option, none, some, if◌then◌else◌, any,
}

pub data JobStatus : Type 0 where
  booked checking estimate_sent approved in_progress : JobStatus
  waiting_parts quality_check ready closed no_show : JobStatus

-- The place of a status in its type, by which `===` is decided.
abbrev pub place : JobStatus → ℕ
place booked = 0
place checking = 1
place estimate_sent = 2
place approved = 3
place in_progress = 4
place waiting_parts = 5
place quality_check = 6
place ready = 7
place closed = 8
place no_show = 9

abbrev pub same_status : JobStatus → JobStatus → Bool
same_status s t = place s == place t

abbrev at_place : ℕ → JobStatus
at_place n =
    if n == 0
    then booked
    else if n == 1
    then checking
    else if n == 2
    then estimate_sent
    else if n == 3
    then approved
    else if n == 4
    then in_progress
    else if n == 5
    then waiting_parts
    else if n == 6
    then quality_check
    else if n == 7
    then ready
    else if n == 8
    then closed
    else no_show

at_place-place : (s : JobStatus) → at_place (place s) ≡ s
at_place-place booked = refl
at_place-place checking = refl
at_place-place estimate_sent = refl
at_place-place approved = refl
at_place-place in_progress = refl
at_place-place waiting_parts = refl
at_place-place quality_check = refl
at_place-place ready = refl
at_place-place closed = refl
at_place-place no_show = refl

pub same_status-eq : (s t : JobStatus) → same_status s t ≡ true → s ≡ t
same_status-eq s t e =
    sym (at_place-place s) ∙ ap at_place ((==_iff (place s) (place t)).0 e) ∙ at_place-place t

-- `FLOW_ORDER`
abbrev pub flow_order : List JobStatus
flow_order =
    booked ∷ checking ∷ estimate_sent ∷ approved ∷ in_progress ∷ waiting_parts ∷ quality_check
    ∷ ready ∷ closed ∷ []

-- `TRANSITIONS`
unfoldable pub transitions : JobStatus → List JobStatus
transitions booked = checking ∷ closed ∷ no_show ∷ []
transitions checking = estimate_sent ∷ approved ∷ in_progress ∷ closed ∷ []
transitions estimate_sent = checking ∷ approved ∷ closed ∷ []
transitions approved = estimate_sent ∷ in_progress ∷ closed ∷ []
transitions in_progress = waiting_parts ∷ quality_check ∷ ready ∷ closed ∷ []
transitions waiting_parts = in_progress ∷ closed ∷ []
transitions quality_check = in_progress ∷ ready ∷ []
transitions ready = quality_check ∷ closed ∷ []
transitions closed = []
transitions no_show = []

-- `canTransition`
unfoldable pub can_transition : JobStatus → JobStatus → Bool
can_transition from to =
    if same_status from to then false else any (same_status to) (transitions from)

-- `FLOW_ORDER.indexOf(s)`, with none for -1
abbrev index_of : JobStatus → List JobStatus → Option ℕ
index_of s [] = none
index_of s (t ∷ rest) = if same_status s t then some 0 else map suc (index_of s rest)

abbrev stages_before : Option ℕ → List JobStatus
stages_before none = []
stages_before (some n) = if leb n 0 then [] else take n flow_order

-- `getCompletedStages`
unfoldable pub get_completed_stages : JobStatus → List JobStatus
get_completed_stages current = stages_before (index_of current flow_order)
