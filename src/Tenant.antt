-- ===== src/Tenant.antt =====
-- The scoping of database calls to the workshop of a request (src/prisma/prisma-tenant.extension.ts,
-- src/prisma/workshop-context.ts).
pub mod Client
pub mod Extension
pub mod Isolation
mod Tests
