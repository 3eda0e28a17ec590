-- ===== src/Priority/Signals.antt =====
-- What the factors say of the job (src/priority/priority.service.ts).
use superflow_api.Base.{
  ℕ, ◌≡◌, refl, Bool, true, false, ◌||◌, Option, none, some, List, [], ◌∷◌, ◌++◌, arith, any,
}
use superflow_api.Jobs.Types.{PartsStatus, order_parts, waiting_warehouse, backorder}
use superflow_api.Jobs.Status.{JobStatus, estimate_sent, same_status}
use superflow_api.Priority.Factors.{
  FactorKey, Addition, promise_overdue, PriorityJob, Sensitivity, normal, angry, vip, comeback,
  is_overdue, informed_ready, promise_factor, no_promise_factor, waiting_factor, sensitivity_factor,
  decision_factor, parts_factor, parts_risk, idle_factor, stage_factor, inform_factor, value_factor,
}
use superflow_api.Priority.Score.{Scoring, add, add_all, engine, base, scoring, compute_for_job}
use superflow_api.Priority.Dashboard.{is_decision, is_pending}

abbrev pub is_overdue_factor : FactorKey → Bool
is_overdue_factor promise_overdue = true
is_overdue_factor _ = false

abbrev picks : (FactorKey → Bool) → Option Addition → Bool
picks p none = false
picks p (some a) = p a.key

any-++ :
    (p : FactorKey → Bool) (keys more : List FactorKey)
    → any p (keys ++ more) ≡ (any p keys || any p more)
any-++ p [] more = refl
any-++ p (key ∷ keys) more = ground (arith, any-++ p keys more)

any-add :
    (p : FactorKey → Bool) (o : Option Addition) (s : Scoring)
    → any p (add o s).factors ≡ (any p s.factors || picks p o)
any-add p none s = ground arith
any-add p (some a) s = ground (arith, any-++ p s.factors (a.key ∷ []))

any-add_all :
    (p : FactorKey → Bool) (os : List (Option Addition)) (s : Scoring)
    → any p (add_all os s).factors ≡ (any p s.factors || any (picks p) os)
any-add_all p [] s = ground arith
any-add_all p (o ∷ os) s = ground (arith, any-add p o s, any-add_all p os (add o s))

-- The chains that add neither the factor of an overdue promise nor that of a decision.
abbrev is_signal : FactorKey → Bool
is_signal key = is_overdue_factor key || is_decision key

quiet_sensitivity : (s : Sensitivity) → picks is_signal (sensitivity_factor s) ≡ false
unfolding sensitivity_factor
quiet_sensitivity normal = refl
quiet_sensitivity angry = refl
quiet_sensitivity vip = refl
quiet_sensitivity comeback = refl

quiet_risk : (o : Option PartsStatus) (s : JobStatus) → picks is_signal (parts_risk o s) ≡ false
quiet_risk (some backorder) s = refl
quiet_risk (some waiting_warehouse) s = refl
quiet_risk (some order_parts) s = refl
quiet_risk (some _) s = ground arith
quiet_risk none s = ground arith

-- A chain that adds no signal adds neither of the two.
quiet :
    (o : Option Addition)
    → picks is_signal o ≡ false
    → (picks is_overdue_factor o ≡ false) × (picks is_decision o ≡ false)
quiet none h = (refl, refl)
quiet (some a) h = (ground arith, ground arith)

module _ (now : ℕ) (j : PriorityJob) where
  quiet_parts : picks is_signal (parts_factor j) ≡ false
  unfolding parts_factor
  quiet_parts = ground (arith, quiet_risk j.parts_status j.status)

  quiet_no_promise : picks is_signal (no_promise_factor j) ≡ false
  unfolding no_promise_factor
  quiet_no_promise = ground arith

  quiet_waiting : picks is_signal (waiting_factor j) ≡ false
  unfolding waiting_factor
  quiet_waiting = ground arith

  quiet_idle : picks is_signal (idle_factor now j) ≡ false
  unfolding idle_factor
  quiet_idle = ground arith

  quiet_stage : picks is_signal (stage_factor j) ≡ false
  unfolding stage_factor
  quiet_stage = ground arith

  quiet_inform : picks is_signal (inform_factor j) ≡ false
  unfolding inform_factor
  quiet_inform = ground arith

  quiet_value : picks is_signal (value_factor j) ≡ false
  unfolding value_factor
  quiet_value = ground arith

  signal_of_promise :
      (picks is_overdue_factor (promise_factor now j) ≡ is_overdue now j)
      × (picks is_decision (promise_factor now j) ≡ false)
  unfolding promise_factor is_overdue informed_ready
  signal_of_promise = (ground arith, ground arith)

  signal_of_decision :
      (picks is_overdue_factor (decision_factor j) ≡ false)
      × (picks is_decision (decision_factor j) ≡ same_status j.status estimate_sent)
  unfolding decision_factor informed_ready
  signal_of_decision = (ground arith, ground arith)

  -- A job is shown as overdue exactly if its factors have the one for an overdue promise, and it
  -- awaits the customer's decision, by its factors, exactly if its estimate was sent.
  pub compute_for_job-signals :
      let r = compute_for_job now j in
      (any is_overdue_factor r.factors ≡ r.is_overdue)
      × (is_pending r ≡ same_status j.status estimate_sent)
  unfolding compute_for_job scoring engine
  compute_for_job-signals = (
    ground (
      arith,
      any-add_all is_overdue_factor (engine now j) base,
      signal_of_promise.0,
      signal_of_decision.0,
      (quiet _ quiet_no_promise).0,
      (quiet _ quiet_waiting).0,
      (quiet _ (quiet_sensitivity j.sensitivity)).0,
      (quiet _ quiet_parts).0,
      (quiet _ quiet_idle).0,
      (quiet _ quiet_stage).0,
      (quiet _ quiet_inform).0,
      (quiet _ quiet_value).0,
    ),
    ground (
      arith,
      any-add_all is_decision (engine now j) base,
      signal_of_promise.1,
      signal_of_decision.1,
      (quiet _ quiet_no_promise).1,
      (quiet _ quiet_waiting).1,
      (quiet _ (quiet_sensitivity j.sensitivity)).1,
      (quiet _ quiet_parts).1,
      (quiet _ quiet_idle).1,
      (quiet _ quiet_stage).1,
      (quiet _ quiet_inform).1,
      (quiet _ quiet_value).1,
    ),
  )
