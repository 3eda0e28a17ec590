-- ===== src/Jobs.antt =====
-- The jobs of a workshop (src/jobs, src/admin/workflow.service.ts, src/scheduler), and the calls of
-- src/inspections and src/qc-checklists that move a job.
pub mod Status
pub mod Graph
pub mod Types
pub mod Stages
pub mod Move
pub mod Service
pub mod Update
pub mod Sweeps
pub mod Outside
pub mod Checks
pub mod Quality
pub mod Concerns
pub mod Noted
pub mod Calls
pub mod Rows
pub mod Keep
pub mod Board
pub mod Times
pub mod Data
pub mod Trail
pub mod Lawful
mod Tests
