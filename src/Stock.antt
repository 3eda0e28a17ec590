-- ===== src/Stock.antt =====
-- The stock of one workshop: inventory rows, job parts, purchase orders and the movement log
-- (src/inventory, src/job-parts, src/purchase-orders, src/stock-movements).
pub mod Types
pub mod Table
pub mod Movements
pub mod Adjust
pub mod JobParts
pub mod Purchase
pub mod Ledger
pub mod Calls
pub mod Reconcile
pub mod Moves
pub mod Orders
mod Tests
