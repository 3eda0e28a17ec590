-- ===== src/Priority.antt =====
-- The priority of jobs (src/priority/priority.service.ts).
pub mod Factors
pub mod Score
pub mod Action
pub mod Dashboard
pub mod Sum
pub mod Categories
pub mod Signals
pub mod Told
pub mod Ranking
mod Tests
