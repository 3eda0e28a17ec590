-- ===== src/Access.antt =====
-- Who may make a request (src/common/guards, src/common/plan-features, src/common/product-modes).
pub mod Accounts
pub mod Usage
pub mod Guards
pub mod Modules
pub mod Trial
pub mod Ceilings
mod Tests
