-- ===== src/Workflow.antt =====
-- The stages of a workshop's board (src/admin/workflow.service.ts).
pub mod Types
pub mod Templates
pub mod Service
pub mod Order
pub mod Fixed
pub mod Reload
pub mod Board
mod Tests
