-- ===== src/Inspections.antt =====
-- What an inspection finds: the calls of src/inspections/inspections.service.ts that write responses
-- and concerns. The start of an inspection, which moves a job, is in Jobs/Checks.
pub mod Types
pub mod Light
pub mod Service
pub mod Submit
pub mod Single
pub mod Concerns
mod Tests
