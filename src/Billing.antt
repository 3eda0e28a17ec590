-- ===== src/Billing.antt =====
-- Subscriptions, invoices and payments of workshops (src/billing/billing.service.ts).
pub mod Types
pub mod Service
pub mod Invoices
pub mod Payments
pub mod Subscriptions
mod Tests
