-- ===== src/Estimates.antt =====
-- The lines of a job's estimate (src/estimates/estimates.service.ts).
pub mod Types
pub mod Service
pub mod Bulk
pub mod Rows
pub mod Quote
pub mod Dropping
pub mod Stale
pub mod Sent
pub mod Replacement
pub mod Kept
pub mod References
mod Tests
