-- ===== src/Billing/Types.antt =====
-- The rows of src/billing/billing.service.ts. Plans, regions, currencies and methods are only
-- compared, so they are numbers; money is in cents, and a price or a percentage is not negative.
use superflow_api.Base.{ℕ, Option, List}
use superflow_api.Base.Int.{ℤ}
use superflow_api.Access.Accounts.{SubscriptionStatus}

pub record BilledWorkshop : Type 0 where
  pub id : ℕ
  pub plan_id : ℕ

pub record PlanRegion : Type 0 where
  pub plan_id : ℕ
  pub region : ℕ
  pub currency : ℕ
  pub price_monthly_cents : ℕ

pub record BilledSubscription : Type 0 where
  pub id : ℕ
  pub workshop_id : ℕ
  pub plan_id : ℕ
  pub region : ℕ
  pub status : SubscriptionStatus
  pub current_period_starts_at : Option ℕ
  pub current_period_ends_at : Option ℕ
  pub price_override_cents : Option ℕ
  pub discount_pct : Option ℕ

pub data InvoiceStatus : Type 0 where
  draft paid : InvoiceStatus

pub record Invoice : Type 0 where
  pub id : ℕ
  pub workshop_id : ℕ
  pub subscription_id : Option ℕ
  pub status : InvoiceStatus
  pub currency : ℕ
  pub subtotal_cents : ℕ
  pub total_cents : ℤ
  pub amount_paid_cents : ℤ
  pub due_at : ℕ
  pub issued_at : ℕ
  pub paid_at : Option ℕ

pub data ItemKind : Type 0 where
  plan discount : ItemKind

-- Its `quantity` is 1.
pub record InvoiceItem : Type 0 where
  pub invoice_id : ℕ
  pub kind : ItemKind
  pub unit_amount_cents : ℤ
  pub total_cents : ℤ

-- Its `status` is `succeeded`.
pub record Payment : Type 0 where
  pub invoice_id : ℕ
  pub workshop_id : ℕ
  pub amount_cents : ℤ
  pub currency : ℕ
  pub method : ℕ
  pub paid_at : ℕ

pub record Billing : Type 0 where
  pub workshops : List BilledWorkshop
  pub plans : List ℕ
  pub plan_regions : List PlanRegion
  pub subscriptions : List BilledSubscription
  pub invoices : List Invoice
  pub items : List InvoiceItem
  pub payments : List Payment

pub data Reason : Type 0 where
  workshop_missing plan_missing no_pricing invoice_missing already_paid : Reason

-- `opts`
pub record ActivateOptions : Type 0 where
  pub price_override_cents : Option ℕ
  pub discount_pct : Option ℕ
  pub status : Option SubscriptionStatus
