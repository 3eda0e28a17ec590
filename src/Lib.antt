-- ===== src/Lib.antt =====
-- SuperFlow API: a NestJS server for car workshops. This library models its core services and proves
-- what makes them correct.
--
-- The program. Each request goes through guards to the service of its module, which reads and writes
-- the database by the Prisma client; the calls on `prisma.tenant` are scoped to the workshop that
-- the request has selected (src/prisma/prisma-tenant.extension.ts). A job card moves through statuses
-- (src/jobs); inspections and quality checklists move it too, and so do the nightly sweeps of the
-- scheduler. Job parts reserve, consume and return stock; adjustments, transfers and receipts of
-- purchase orders change it; each change writes a row of the movement log. The priority engine scores
-- the jobs for the advisor's dashboard.
--
-- The files.
--   * Base: shared names, lists as tables (`find_first` for findFirst, `update_where` for update and
--     updateMany), signed integers, and `Result` for the exceptions of `@nestjs/common`. A call that
--     throws leaves the state as it was (`after`), as its transaction does; `Keeps` is the rule by
--     which a property goes through a call's steps. Texts (Base/Text) are lists of codes.
--   * Stock: src/inventory/inventory.service.ts (Stock/Adjust, Stock/Movements, Stock/Table),
--     src/job-parts/job-parts.service.ts (Stock/JobParts), src/purchase-orders/
--     purchase-orders.service.ts (Stock/Purchase). `Db` is the tables, `Call` a call of these
--     services, `run` a history of calls (Stock/Calls). Stock/Ledger says when the movement log
--     accounts for the inventory; Stock/Reconcile proves it of every call; Stock/Moves is about a
--     transfer and a reservation, Stock/Orders about purchase orders.
--   * Jobs: src/jobs/jobs.state-machine.ts (Jobs/Status, Jobs/Graph), src/jobs/jobs.service.ts
--     (Jobs/Service, Jobs/Move for the data of a transition, Jobs/Update for `update`), the lookups of
--     src/admin/workflow.service.ts (Jobs/Stages), src/scheduler/scheduler.service.ts (Jobs/Sweeps),
--     and the calls of src/inspections/inspections.service.ts and
--     src/qc-checklists/qc-checklists.service.ts that move a job (Jobs/Checks), with the rest of the
--     latter (Jobs/Quality). Jobs/Outside has the writes of a job by the other services: the portal's
--     moves (src/authorisation), the import of bookings (src/booking-import) and the booking of
--     deferred work (src/deferred). `Shop` is the tables, `Call` a call (Jobs/Calls), and a `Scope`
--     says which calls a history may have. Jobs/Keep is the
--     interface by which an invariant of a job's row is proved: a record of one law for each write,
--     filled by Jobs/Board and Jobs/Times. Jobs/Trail and Jobs/Lawful are about the history of
--     statuses, Jobs/Data about what an update writes, Jobs/Concerns and Jobs/Noted about concerns.
--   * Priority: src/priority/priority.service.ts. The factors of a job (Priority/Factors), the score
--     (Priority/Score), the next action (Priority/Action), `computeAll` and the dashboard
--     (Priority/Dashboard), and the proofs by what they prove.
--   * Access: the guards of src/common/guards, src/common/plan-features/usage.service.ts and
--     src/common/product-modes.
--   * Auth: src/auth/auth.service.ts over bcrypt and SHA-256 (`Crypto`): Auth/Login, Auth/Service and
--     Auth/Change are the calls, Auth/Spent a refresh token that has served and the calls that leave it
--     so, Auth/Slug the search for a workshop's address, on fuel. What a call wrote before an exception
--     stays written there.
--   * Billing: src/billing/billing.service.ts, without its overviews.
--   * Blockers: src/blockers/blockers.service.ts. Its table is not among the scoped ones, so the board
--     holds the blockers of every workshop.
--   * Estimates: the calls of src/estimates/estimates.service.ts that change rows. Estimates/Service has
--     the single lines and groups, Estimates/Bulk `bulkReplace`; Estimates/Replacement is what it does
--     to the abstract estimate, the line of each id, by way of Rows, Quote, Dropping, Stale
--     and Sent, which says what is saved of a line, field by field; and
--     Estimates/References is about the foreign keys. Money is exact there, in fractions of a cent.
--   * Inspections: src/inspections/inspections.service.ts but for the start of an inspection: the
--     traffic light (Inspections/Light, src/common/utils/traffic-light.ts), the responses
--     (Inspections/Service) and the submission with its concerns (Inspections/Submit), which writes the
--     status before it can throw.
--   * Portal: the calls of src/authorisation/authorisation.service.ts that change rows
--     (Portal/Service): links are sent, decisions submitted and a concern's decisions reset.
--     Portal/Decided counts the decisions on a line, Portal/Links is about the table of links.
--   * Tenant: src/prisma/prisma-tenant.extension.ts over any client (`Client`, a record of the
--     documented behaviour of its calls), with a client over a list of rows in Tenant/Tests.
--   * Workflow: the configuration of a workshop's stages in src/admin/workflow.service.ts
--     (Workflow/Service) and src/admin/workflow-templates.ts (Workflow/Templates), over texts of ASCII
--     (Base/Text, with the laws of Base/Trim and Base/Keys). The setting is what JSON reads in it.
--     Workflow/Fixed and Workflow/Reload are about a configuration that is read again, Workflow/Board
--     about the stages as the jobs use them.
--
-- The model. Ids, which are UUIDs, are only compared, so they are numbers; an id that the code
-- draws during a call is an argument of the call, and a theorem that needs it to be new says so. The
-- tables hold one workshop's rows, as the scoped client shows them, in the order in which a query
-- reads them; those of Access, Auth, Billing and Portal, which the code reads by the unscoped client,
-- hold all rows. Times are numbers (milliseconds where they are subtracted), money is in cents but in
-- the estimates, quantities are signed integers without a bound: the columns are 32-bit integers,
-- whose overflow the database refuses. Columns that no operation tests or derives are left out. Loops
-- are recursion on lists; only the search for an address runs on fuel, one round more than there are
-- addresses, which is proved to be enough.
--
-- Not modelled: the pages and snapshots of the portal, and the services that
-- only create, edit and list rows; input and output (mail, files, the advisory lock, sockets); the
-- framework's routing and validation; the web and mobile clients.
pub mod Base
pub mod Stock
pub mod Inspections
pub mod Jobs
pub mod Priority
pub mod Access
pub mod Auth
pub mod Billing
pub mod Blockers
pub mod Estimates
pub mod Portal
pub mod Tenant
pub mod Workflow
