-- ===== src/Billing/Tests.antt =====
-- Billing.
use superflow_api.Base.{◌*◌, ◌+◌, ◌≤◌, ◌≡◌, refl, none, some, List, [], ◌∷◌, ◌>>=◌, arith, length}
use superflow_api.Base.Int.{pos, ◌-ℤ◌}
use superflow_api.Billing.Types.{Billing}
use superflow_api.Billing.Service.{
  activate_subscription, create_invoice, invoice_items, mark_invoice_paid, discount_of, Call,
  activates, invoices, pays, step, run,
}
use superflow_api.Billing.Invoices.{total_of, invoice_items-total}
use superflow_api.Billing.Payments.{IsSettled, all_anew, run-IsSettled}
use superflow_api.Billing.Subscriptions.{IsSingle, run-IsSingle}

abbrev books : Billing
books = record {
  workshops = record { id = 1; plan_id = 0 } ∷ [];
  plans = 30 ∷ 31 ∷ [];
  plan_regions = record { plan_id = 31; region = 4; currency = 5; price_monthly_cents = 9900 } ∷ [];
  subscriptions = [];
  invoices = [];
  items = [];
  payments = [];
}

-- A workshop is put on one plan and then, with a discount, on another; an invoice of it is paid, and
-- the second payment is refused.
abbrev calls : List Call
calls =
    activates 10 100 1 30 4
      (record { price_override_cents = none; discount_pct = none; status = none })
    ∷ activates 20 101 1 31 4
        (record { price_override_cents = none; discount_pct = some 15; status = none })
    ∷ invoices 30 200 1 31 4 none
    ∷ pays 40 200 7
    ∷ pays 50 200 7
    ∷ []

run-IsSingle_example : IsSingle (run books calls)
run-IsSingle_example = run-IsSingle calls books (λ w. omega arith)

no_invoices : IsSettled books
no_invoices id i h = cc h

run-IsSettled_example : IsSettled (run books calls)
unfolding step activate_subscription create_invoice mark_invoice_paid invoice_items all_anew ◌>>=◌
    ◌-ℤ◌
run-IsSettled_example = run-IsSettled calls books no_invoices refl

one_payment : length (run books calls).payments ≡ 1
unfolding run step activate_subscription create_invoice mark_invoice_paid invoice_items ◌>>=◌ ◌-ℤ◌
one_payment = refl

invoice_items-total_example :
    let cents = discount_of 9900 15 in
    (cents ≤ 9900)
    × (200 * cents ≤ 2 * (9900 * 15) + 100)
    × (2 * (9900 * 15) ≤ 200 * cents + 99)
    × (total_of (invoice_items 200 9900 cents) ≡ (pos 9900 -ℤ pos cents) -ℤ pos cents)
invoice_items-total_example = invoice_items-total 200 9900 15 (omega arith)
