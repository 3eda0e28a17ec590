-- ===== src/Billing/Invoices.antt =====
-- The amounts of an invoice (`createInvoice` of src/billing/billing.service.ts).
use superflow_api.Base.{
  ℕ, zero, suc, ◌+◌, ◌*◌, ◌≤◌, ◌≡◌, List, [], ◌∷◌, arith, ltb, Bool-cases, inl, inr,
}
use superflow_api.Base.Int.{ℤ, pos, ◌+ℤ◌, ◌-ℤ◌}
use superflow_api.Billing.Types.{InvoiceItem}
use superflow_api.Billing.Service.{discount_of, invoice_items}

abbrev pub total_of : List InvoiceItem → ℤ
total_of [] = pos 0
total_of (i ∷ items) = i.total_cents +ℤ total_of items

items_total : (id base c : ℕ) → total_of (invoice_items id base c) ≡ (pos base -ℤ pos c) -ℤ pos c
unfolding invoice_items ◌+ℤ◌ ◌-ℤ◌
items_total id base c = elim (Bool-cases (ltb 0 c)) [
  | inl some_discount ↦ rw some_discount (ground arith)
  | inr none' ↦ rw none' (ground arith)
]

share_le : (base pct : ℕ) → pct ≤ 100 → base * pct ≤ base * 100
share_le zero pct h = omega arith
share_le (suc base) pct h = omega (arith, share_le base pct h)

-- The discount of an invoice is within the price, if it is at most 100 percent, and is the exact
-- one rounded to the nearest cent; and the items of the invoice together are the invoice's total
-- less the discount once more, since the plan's item is already discounted.
pub invoice_items-total :
    (id base pct : ℕ)
    → pct ≤ 100
    → let cents = discount_of base pct in
      (cents ≤ base)
      × (200 * cents ≤ 2 * (base * pct) + 100)
      × (2 * (base * pct) ≤ 200 * cents + 99)
      × (total_of (invoice_items id base cents) ≡ (pos base -ℤ pos cents) -ℤ pos cents)
invoice_items-total id base pct h =
    let whole : base * pct ≤ base * 100 = share_le base pct h in
    (omega (arith, whole), omega arith, omega arith, items_total id base (discount_of base pct))
