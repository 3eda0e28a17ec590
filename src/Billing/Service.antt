-- ===== src/Billing/Service.antt =====
-- `BillingService` (src/billing/billing.service.ts): the calls of an administrator that change rows.
use superflow_api.Base.{
  ℕ, ◌+◌, ◌*◌, ◌/◌, Bool, true, false, ◌&&◌, Option, none, some, List, [], ◌∷◌, ◌++◌, ◌==◌, ltb,
  find_first, update_where, or_else, after, if◌then◌else◌, Result, ok, not_found, bad_request,
  ◌>>=◌, ◌>>◌, throw_if, or_throw,
}
use superflow_api.Base.Int.{ℤ, pos, ◌-ℤ◌}
use superflow_api.Access.Accounts.{SubscriptionStatus, manual_active, lapsed, grants_plan}
use superflow_api.Billing.Types.{
  BilledWorkshop, BilledSubscription, InvoiceStatus, Invoice, ItemKind, InvoiceItem, Payment,
  Billing, Reason, ActivateOptions, draft, paid, plan, discount, workshop_missing, plan_missing,
  no_pricing, invoice_missing, already_paid,
}

-- 30 days, and 7 days, in milliseconds
abbrev month : ℕ
month = 2592000000

abbrev week : ℕ
week = 604800000

abbrev pub find_workshop : ℕ → List BilledWorkshop → Option BilledWorkshop
find_workshop id = find_first (λ w. w.id == id)

-- The status `replaced`, which grants nothing.
abbrev pub replaced : SubscriptionStatus
replaced = lapsed 0

abbrev pub is_granting : ℕ → BilledSubscription → Bool
is_granting w s = s.workshop_id == w && grants_plan s.status

abbrev pub as_replaced : BilledSubscription → BilledSubscription
as_replaced s = record s { status = replaced }

abbrev pub new_subscription : ℕ → ℕ → ℕ → ℕ → ℕ → ActivateOptions → BilledSubscription
new_subscription now id w plan_id region opts = record {
  id = id;
  workshop_id = w;
  plan_id = plan_id;
  region = region;
  status = or_else opts.status manual_active;
  current_period_starts_at = some now;
  current_period_ends_at = some (now + month);
  price_override_cents = opts.price_override_cents;
  discount_pct = opts.discount_pct;
}

abbrev on_plan : ℕ → BilledWorkshop → BilledWorkshop
on_plan p w = record w { plan_id = p }

-- `activateSubscription`
unfoldable pub activate_subscription :
    ℕ → ℕ → ℕ → ℕ → ℕ → ActivateOptions → Billing → Result Reason (Unit {0} × Billing)
activate_subscription now id w plan_id region opts db = do
  workshop ← or_throw (find_workshop w db.workshops) (not_found workshop_missing)
  found ← or_throw (find_first (λ p. p == plan_id) db.plans) (not_found plan_missing)
  ok (
    tt,
    record db {
      subscriptions =
          new_subscription now id w plan_id region opts
          ∷ update_where (is_granting w) as_replaced db.subscriptions;
      workshops = update_where (λ x. x.id == w) (on_plan plan_id) db.workshops;
    },
  )

abbrev override_of : Option BilledSubscription → Option ℕ
override_of none = none
override_of (some s) = s.price_override_cents

abbrev pct_of : Option BilledSubscription → ℕ
pct_of none = 0
pct_of (some s) = or_else s.discount_pct 0

abbrev id_of : Option BilledSubscription → Option ℕ
id_of none = none
id_of (some s) = some s.id

-- `Math.round(basePrice * discountPct / 100)`
abbrev pub discount_of : ℕ → ℕ → ℕ
discount_of base pct = (2 * (base * pct) + 100) / 200

abbrev pub item : ℕ → ItemKind → ℤ → ℤ → InvoiceItem
item id kind unit total = record {
  invoice_id = id;
  kind = kind;
  unit_amount_cents = unit;
  total_cents = total;
}

-- The lines of an invoice, newest first
unfoldable pub invoice_items : ℕ → ℕ → ℕ → List InvoiceItem
invoice_items id base discount_cents =
    let total = pos base -ℤ pos discount_cents in
    let plan_item = item id plan (pos base) total in
    let minus = pos 0 -ℤ pos discount_cents in
    if ltb 0 discount_cents then item id discount minus minus ∷ plan_item ∷ [] else plan_item ∷ []

abbrev pub new_invoice : ℕ → ℕ → ℕ → ℕ → ℕ → ℕ → ℕ → Option ℕ → Invoice
new_invoice now start id w currency base discount_cents subscription = record {
  id = id;
  workshop_id = w;
  subscription_id = subscription;
  status = draft;
  currency = currency;
  subtotal_cents = base;
  total_cents = pos base -ℤ pos discount_cents;
  amount_paid_cents = pos 0;
  due_at = start + week;
  issued_at = now;
  paid_at = none;
}

-- `createInvoice`; `start` is `periodStart`. The subscription is the newest of those that may be found.
unfoldable pub create_invoice :
    ℕ → ℕ → ℕ → ℕ → ℕ → Option ℕ → Billing → Result Reason (Unit {0} × Billing)
create_invoice now id w plan_id region start db = do
  workshop ← or_throw (find_workshop w db.workshops) (not_found workshop_missing)
  price ←
      or_throw (find_first (λ r. r.plan_id == plan_id && r.region == region) db.plan_regions)
        (bad_request no_pricing)
  ok (
    tt,
    let s = find_first (λ s. is_granting w s && s.plan_id == plan_id) db.subscriptions in
        let base = or_else (override_of s) price.price_monthly_cents in
        let cents = discount_of base (pct_of s) in
        record db {
          invoices =
              new_invoice now (or_else start now) id w price.currency base cents (id_of s)
              ∷ db.invoices;
          items = invoice_items id base cents ++ db.items;
        },
  )

abbrev pub find_invoice : ℕ → List Invoice → Option Invoice
find_invoice id = find_first (λ i. i.id == id)

abbrev pub is_paid : InvoiceStatus → Bool
is_paid draft = false
is_paid paid = true

abbrev pub as_paid : ℕ → ℤ → Invoice → Invoice
as_paid now amount i = record i { status = paid; amount_paid_cents = amount; paid_at = some now }

abbrev pub payment_of : ℕ → ℕ → Invoice → Payment
payment_of now method i = record {
  invoice_id = i.id;
  workshop_id = i.workshop_id;
  amount_cents = i.total_cents;
  currency = i.currency;
  method = method;
  paid_at = now;
}

-- `markInvoicePaid`
unfoldable pub mark_invoice_paid : ℕ → ℕ → ℕ → Billing → Result Reason (Unit {0} × Billing)
mark_invoice_paid now id method db = do
  i ← or_throw (find_invoice id db.invoices) (not_found invoice_missing)
  throw_if (is_paid i.status) (bad_request already_paid)
  ok (
    tt,
    record db {
      invoices = update_where (λ x. x.id == id) (as_paid now i.total_cents) db.invoices;
      payments = payment_of now method i ∷ db.payments;
    },
  )

pub data Call : Type 0 where
  activates : ℕ → ℕ → ℕ → ℕ → ℕ → ActivateOptions → Call
  invoices : ℕ → ℕ → ℕ → ℕ → ℕ → Option ℕ → Call
  pays : ℕ → ℕ → ℕ → Call

unfoldable pub step : Billing → Call → Billing
step db (activates now id w plan_id region opts) =
    after db (activate_subscription now id w plan_id region opts db)
step db (invoices now id w plan_id region start) =
    after db (create_invoice now id w plan_id region start db)
step db (pays now id method) = after db (mark_invoice_paid now id method db)

unfoldable pub run : Billing → List Call → Billing
run db [] = db
run db (c ∷ calls) = run (step db c) calls
