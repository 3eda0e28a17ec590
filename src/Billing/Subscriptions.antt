-- ===== src/Billing/Subscriptions.antt =====
-- A workshop has one subscription that grants a plan (src/billing/billing.service.ts).
use superflow_api.Base.{
  ℕ, ◌+◌, ◌≤◌, ◌≡◌, refl, sym, subst, false, Option, List, [], ◌∷◌, arith, ◌==◌, ==_iff,
  update_where, Bool-cases, inl, inr, if◌then◌else◌, Keeps, Keeps-bind,
}
use superflow_api.Billing.Types.{BilledSubscription, Billing, ActivateOptions}
use superflow_api.Billing.Service.{
  is_granting, as_replaced, activate_subscription, create_invoice, mark_invoice_paid, Call,
  activates, invoices, pays, step, run,
}

abbrev pub granting : ℕ → List BilledSubscription → ℕ
granting w [] = 0
granting w (s ∷ ss) = (if is_granting w s then 1 else 0) + granting w ss

granting-replaced :
    (w : ℕ) (ss : List BilledSubscription)
    → granting w (update_where (is_granting w) as_replaced ss) ≡ 0
granting-replaced w [] = refl
granting-replaced w (s ∷ ss) = elim (Bool-cases (is_granting w s)) [
  | inl grants ↦ rw grants (ground (arith, granting-replaced w ss))
  | inr other ↦ rw other (ground (arith, other, granting-replaced w ss))
]

granting-elsewhere :
    (w v : ℕ) (ss : List BilledSubscription)
    → (v == w) ≡ false
    → granting v (update_where (is_granting w) as_replaced ss) ≡ granting v ss
granting-elsewhere w v [] h = refl
granting-elsewhere w v (s ∷ ss) h = elim (Bool-cases (is_granting w s)) [
  | inl grants ↦ rw grants (ground (arith, grants, granting-elsewhere w v ss h))
  | inr other ↦ rw other (ground (arith, granting-elsewhere w v ss h))
]

abbrev pub IsSingle : Billing → Type 0
IsSingle db = (w : ℕ) → granting w db.subscriptions ≤ 1

activate_subscription-IsSingle :
    (now id w plan_id region : ℕ) (opts : ActivateOptions) (db : Billing)
    → IsSingle db
    → Keeps IsSingle db (activate_subscription now id w plan_id region opts db)
unfolding activate_subscription
activate_subscription-IsSingle now id w plan_id region opts db single = Keeps-bind _ _ single λ _ _.
    Keeps-bind _ _ single λ _ _. record {
      holds = λ v. elim (Bool-cases (v == w)) [
        | inl here ↦
            let same = (==_iff v w).0 here in
            ground (
              arith,
              same,
              subst
                  (λ n. granting n (update_where (is_granting w) as_replaced db.subscriptions) ≡ 0)
                  (sym same) (granting-replaced w db.subscriptions),
            )
        | inr elsewhere ↦
            ground (arith, elsewhere, single v, granting-elsewhere w v db.subscriptions elsewhere)
      ];
    }

create_invoice-IsSingle :
    (now id w plan_id region : ℕ) (start : Option ℕ) (db : Billing)
    → IsSingle db
    → Keeps IsSingle db (create_invoice now id w plan_id region start db)
unfolding create_invoice
create_invoice-IsSingle now id w plan_id region start db single =
    Keeps-bind _ _ single λ _ _. Keeps-bind _ _ single λ _ _. record { holds = single }

mark_invoice_paid-IsSingle :
    (now id method : ℕ) (db : Billing)
    → IsSingle db
    → Keeps IsSingle db (mark_invoice_paid now id method db)
unfolding mark_invoice_paid
mark_invoice_paid-IsSingle now id method db single =
    Keeps-bind _ _ single λ _ _. Keeps-bind _ _ single λ _ _. record { holds = single }

-- A workshop has at most one subscription that grants a plan, after any history of calls, if it
-- is so at the start: an activation replaces the ones that did, whatever their plan.
pub run-IsSingle : (calls : List Call) (db : Billing) → IsSingle db → IsSingle (run db calls)
unfolding run step
run-IsSingle [] db single = single
run-IsSingle (activates now id w plan_id region opts ∷ calls) db single =
    run-IsSingle calls _
      (activate_subscription-IsSingle now id w plan_id region opts db single).holds
run-IsSingle (invoices now id w plan_id region start ∷ calls) db single =
    run-IsSingle calls _ (create_invoice-IsSingle now id w plan_id region start db single).holds
run-IsSingle (pays now id method ∷ calls) db single =
    run-IsSingle calls _ (mark_invoice_paid-IsSingle now id method db single).holds
