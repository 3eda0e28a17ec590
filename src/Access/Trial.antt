-- ===== src/Access/Trial.antt =====
-- Which requests of a workshop's staff are let through (src/common/guards/permissions.guard.ts).
use superflow_api.Base.{
  ℕ, ◌<◌, ◌≡◌, ◌↔◌, ◌⊎◌, inl, inr, refl, sym, subst, Bool, true, false, ◌&&◌, ◌||◌, Option, none,
  some, List, [], ◌∷◌, arith, ◌==◌, ==_iff, any, find_first, ok, ◌>>=◌,
}
use superflow_api.Access.Accounts.{
  Role, staff, User, Accounts, Subscription, Workshop, SubscriptionStatus, active, paid,
  manual_active, trialing, comped, lapsed, is_active_status,
}
use superflow_api.Access.Guards.{
  permissions_guard, permissions_of_user, assert_trial, trial_of, trial_runs, holds_one, is_empty,
  is_administrator, is_platform_admin, first_of, workshop_trial, expiry_of, is_running, is_granted,
}

-- The permission stands in the list.
abbrev pub IsIn : ℕ → List ℕ → Type 0
IsIn p [] = ⊥
IsIn p (q ∷ ps) = (q ≡ p) ⊎ IsIn p ps

-- A subscription that is paid for or given
abbrev Grants : SubscriptionStatus → Type 0
Grants active = Unit
Grants paid = Unit
Grants manual_active = Unit
Grants comped = Unit
Grants trialing = ⊥
Grants (lapsed _) = ⊥

-- The first of two dates that is set is to come; without a date nothing ends.
abbrev RunsUntil : ℕ → Option ℕ → Option ℕ → Type 0
RunsUntil now (some at) _ = now < at
RunsUntil now none (some at) = now < at
RunsUntil now none none = Unit

-- The subscription counts, and without one the workshop's own trial.
abbrev IsPaidUp : ℕ → Option Subscription → Option Workshop → Type 0
IsPaidUp now (some s) _ = Grants s.status ⊎ RunsUntil now s.trial_ends_at s.current_period_ends_at
IsPaidUp now none (some w) = RunsUntil now w.trial_ends_at none
IsPaidUp now none none = Unit

abbrev pub MayWrite : ℕ → Option ℕ → Accounts → Type 0
MayWrite now none db = Unit
MayWrite now (some w) db =
    IsPaidUp now (find_first (λ s. s.workshop_id == w) db.subscriptions)
      (find_first (λ x. x.id == w) db.workshops)

either_iff : (a b : Bool) → ((a || b) ≡ true) ↔ ((a ≡ true) ⊎ (b ≡ true))
either_iff true b = ((λ h. inl refl), λ h. refl)
either_iff false b = ((λ h. inr h), λ h. elim h [ inl l ↦ cc l | inr r ↦ r ])

includes-IsIn : (p : ℕ) (ps : List ℕ) → (any (λ q. q == p) ps ≡ true) ↔ IsIn p ps
includes-IsIn p [] = ((λ h. cc h), λ h. elim h [ ])
includes-IsIn p (q ∷ ps) = (
  λ h. elim ((either_iff (q == p) _).0 h) [
    | inl here ↦ inl ((==_iff q p).0 here)
    | inr there ↦ inr ((includes-IsIn p ps).0 there)
  ],
  λ h. (either_iff (q == p) _).1 (elim h [
    | inl here ↦ inl ((==_iff q p).1 here)
    | inr there ↦ inr ((includes-IsIn p ps).1 there)
  ]),
)

holds_one_iff :
    (required held : List ℕ)
    → (holds_one required held ≡ true) ↔ ((p : ℕ) × IsIn p required × IsIn p held)
holds_one_iff [] held = ((λ h. cc h), λ h. elim h.1 [ ])
holds_one_iff (p ∷ required) held = (
  λ h. elim ((either_iff (any (λ q. q == p) held) _).0 h) [
    | inl here ↦ (p, inl refl, (includes-IsIn p held).0 here)
    | inr there ↦ let (r, asked, has) = (holds_one_iff required held).0 there in (r, inr asked, has)
  ],
  λ (r, asked, has). (either_iff (any (λ q. q == p) held) _).1 (elim asked [
    | inl same ↦
        inl (subst (λ n. any (λ q. q == n) held ≡ true) (sym same) ((includes-IsIn r held).1 has))
    | inr later ↦ inr ((holds_one_iff required held).1 (r, later, has))
  ]),
)

granted_iff : (s : SubscriptionStatus) → (is_active_status s ≡ true) ↔ Grants s
granted_iff active = ((λ h. tt), λ h. refl)
granted_iff paid = ((λ h. tt), λ h. refl)
granted_iff manual_active = ((λ h. tt), λ h. refl)
granted_iff comped = ((λ h. tt), λ h. refl)
granted_iff trialing = ((λ h. cc h), λ h. elim h [ ])
granted_iff (lapsed n) = ((λ h. cc h), λ h. elim h [ ])

running_iff :
    (now : ℕ) (a b : Option ℕ) → (is_running now (first_of a b) ≡ true) ↔ RunsUntil now a b
running_iff now (some at) b = ((λ h. ground (arith, h)), λ h. ground (arith, h))
running_iff now none (some at) = ((λ h. ground (arith, h)), λ h. ground (arith, h))
running_iff now none none = ((λ h. tt), λ h. refl)

trial_of_iff :
    (now : ℕ) (w : Option ℕ) (db : Accounts) → (trial_of now w db ≡ true) ↔ MayWrite now w db
unfolding trial_runs
trial_of_iff now none db = ((λ h. tt), λ h. refl)
trial_of_iff now (some w) db = paid_up (find_first (λ s. s.workshop_id == w) db.subscriptions)
  where
    by_workshop :
        (o : Option Workshop) → (is_running now (workshop_trial o) ≡ true) ↔ IsPaidUp now none o
    by_workshop none = ((λ h. tt), λ h. refl)
    by_workshop (some x) = by_trial x.trial_ends_at
      where
        by_trial : (t : Option ℕ) → (is_running now t ≡ true) ↔ RunsUntil now t none
        by_trial (some at) = running_iff now (some at) none
        by_trial none = running_iff now none none

    paid_up :
        (s : Option Subscription)
        → ((is_granted s || is_running now (expiry_of w s db)) ≡ true)
          ↔ IsPaidUp now s (find_first (λ x. x.id == w) db.workshops)
    paid_up (some s) = (
      λ h. elim ((either_iff (is_active_status s.status) _).0 h) [
        | inl granted ↦ inl ((granted_iff s.status).0 granted)
        | inr runs ↦ inr ((running_iff now s.trial_ends_at s.current_period_ends_at).0 runs)
      ],
      λ h. (either_iff (is_active_status s.status) _).1 (elim h [
        | inl granted ↦ inl ((granted_iff s.status).1 granted)
        | inr runs ↦ inr ((running_iff now s.trial_ends_at s.current_period_ends_at).1 runs)
      ]),
    )
    paid_up none = by_workshop (find_first (λ x. x.id == w) db.workshops)

-- The guard as a Boolean
passes :
    (now : ℕ) (required : List ℕ) (user : User) (is_get : Bool) (db : Accounts)
    → is_empty required ≡ false
    → is_administrator user.role ≡ false
    → (permissions_guard now required (some user) is_get db ≡ ok tt) ↔ (
        (holds_one required user.permissions && (is_get || trial_of now user.workshop_id db))
        ≡ true)
unfolding permissions_guard permissions_of_user assert_trial ◌>>=◌
passes now required user is_get db asked ordinary = ground (arith, not_platform user.role ordinary)
  where
    not_platform : (r : Role) → is_administrator r ≡ false → is_platform_admin r ≡ false
    not_platform (staff n) h = refl
    not_platform _ h = cc

-- A request to a route that requires permissions, of a user who is no administrator, is let
-- through exactly if one of the required permissions is among the user's, and the request is a
-- read, or the user has no workshop, or the workshop's subscription is active, paid, manually
-- active or given, or the time is before the end of its trial, where that is set, and else of its
-- period, or, without a subscription, before the end of the workshop's own trial; a trial without
-- an end runs on.
pub permissions_guard-staff :
    (now : ℕ) (required : List ℕ) (user : User) (is_get : Bool) (db : Accounts)
    → is_empty required ≡ false
    → is_administrator user.role ≡ false
    → (permissions_guard now required (some user) is_get db ≡ ok tt) ↔ (
        ((p : ℕ) × IsIn p required × IsIn p user.permissions)
        × ((is_get ≡ true) ⊎ MayWrite now user.workshop_id db))
permissions_guard-staff now required user is_get db asked ordinary =
    let guard = passes now required user is_get db asked ordinary in
    let holds = holds_one_iff required user.permissions in
    let open' = trial_of_iff now user.workshop_id db in
    (
      λ h.
          let both = guard.0 h in
          (
            holds.0 (ground (arith, both)),
            elim ((either_iff is_get _).0 (ground (arith, both))) [
              | inl get ↦ inl get
              | inr runs ↦ inr (open'.0 runs)
            ],
          ),
      λ (has, may).
          let held = holds.1 has in
          let allowed =
            (either_iff is_get (trial_of now user.workshop_id db)).1
              (elim may [ inl get ↦ inl get | inr runs ↦ inr (open'.1 runs) ]) in
          guard.1 (rw (held, allowed) refl),
    )
