-- ===== src/Portal.antt =====
-- The customer portal: approval links and the customer's decisions on the lines of an estimate
-- (src/authorisation/authorisation.service.ts).
pub mod Types
pub mod Service
pub mod Calls
pub mod Decided
pub mod Links
pub mod Once
pub mod Recorded
pub mod Answer
mod Tests
