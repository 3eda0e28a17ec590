-- ===== src/Blockers.antt =====
-- What blocks a job (src/blockers/blockers.service.ts).
pub mod Service
pub mod Summary
pub mod Grouping
pub mod Counts
pub mod Once
mod Tests
