-- ===== src/Tenant/Extension.antt =====
-- `workshopTenantExtension` (src/prisma/prisma-tenant.extension.ts).
use text.Mathlib.Text.{◌==◌ as str_eq}
use superflow_api.Base.{
  ℕ, String, Bool, true, not, ◌&&◌, ◌||◌, Option, none, some, List, [], ◌∷◌, map, keep_if, any,
  is_some, same_option, if◌then◌else◌,
}
use superflow_api.Tenant.Client.{
  Operation, find_many, find_first, count, aggregate, group_by, find_unique, create, create_many,
  update, update_many, delete, delete_many, other, Row, Args, Answer, rows, number, thrown, Query,
  is_read,
}

-- `TENANT_SCOPED_MODELS`
abbrev pub tenant_scoped_models : List String
tenant_scoped_models =
    "jobs" ∷ "job_concerns" ∷ "customer_portal_snapshots" ∷ "customers" ∷ "vehicles"
    ∷ "estimate_lines" ∷ "estimate_line_history" ∷ "quote_groups" ∷ "inspections"
    ∷ "inspection_sections" ∷ "inspection_items" ∷ "inspection_responses" ∷ "inspection_templates"
    ∷ "media_files" ∷ "deferred_work" ∷ "deferred_work_reminders" ∷ "notifications"
    ∷ "notification_templates" ∷ "audit_logs" ∷ "booking_import_templates" ∷ "settings"
    ∷ "labour_rates" ∷ "job_status_history" ∷ "vehicle_service_history" ∷ "approval_tokens"
    ∷ "authorisation_decisions" ∷ "integrations" ∷ "integration_events" ∷ "suppliers" ∷ "warehouses"
    ∷ "parts" ∷ "part_fitments" ∷ "inventory" ∷ "stock_movements" ∷ "job_parts" ∷ "purchase_orders"
    ∷ "purchase_order_items" ∷ "qc_checklists" ∷ "qc_checklist_sections" ∷ "qc_checklist_items"
    ∷ "qc_checklist_templates" ∷ "qc_checklist_responses" ∷ []

unfoldable pub is_scoped : String → Bool
is_scoped model = any (str_eq model) tenant_scoped_models

-- `WorkshopContext`
pub record Context : Type 0 where
  pub workshop_id : Option ℕ
  pub is_platform_admin : Bool

-- `READ_OR_UNIQUE_OPS`
abbrev pub is_read_or_unique : Operation → Bool
is_read_or_unique find_unique = true
is_read_or_unique op = is_read op

-- The answers to a read without a workshop. `aggregate` answers an object with the count zero.
abbrev empty_answer : Operation → Answer
empty_answer count = number 0
empty_answer aggregate = number 0
empty_answer _ = rows []

-- `where: { ...where, workshop_id }` and `data: { ...data, workshop_id }`
abbrev pub in_workshop : ℕ → Args → Args
in_workshop w args = record args { where_workshop = some w }

abbrev pub assigned : ℕ → Row → Row
assigned w r = record r { workshop_id = some w }

abbrev pub given_workshop : ℕ → Args → Args
given_workshop w args = record args { new_rows = map (assigned w) args.new_rows }

-- A row of another workshop is hidden; one of none is shown.
abbrev pub is_visible : ℕ → Row → Bool
is_visible w r = not (is_some r.workshop_id) || same_option r.workshop_id (some w)

abbrev pub visible : ℕ → Answer → Answer
visible w (rows r) = rows (keep_if (is_visible w) r)
visible w answer = answer

module _ (query : Query) where
  -- With no workshop a read answers nothing, a `findUnique` is let through, and a write throws.
  unfoldable pub without_workshop : Operation → Args → List Row → Answer × List Row
  without_workshop find_unique args db = query find_unique args db
  without_workshop op args db = if is_read op then (empty_answer op, db) else (thrown, db)

  unfoldable pub in_scope : ℕ → Operation → Args → List Row → Answer × List Row
  in_scope w find_unique args db =
      let answer = query find_unique args db in (visible w answer.0, answer.1)
  in_scope w find_many args db = query find_many (in_workshop w args) db
  in_scope w find_first args db = query find_first (in_workshop w args) db
  in_scope w count args db = query count (in_workshop w args) db
  in_scope w aggregate args db = query aggregate (in_workshop w args) db
  in_scope w group_by args db = query group_by (in_workshop w args) db
  in_scope w create args db = query create (given_workshop w args) db
  in_scope w create_many args db = query create_many (given_workshop w args) db
  in_scope w update args db = query update (in_workshop w args) db
  in_scope w update_many args db = query update_many (in_workshop w args) db
  in_scope w delete args db = query delete (in_workshop w args) db
  in_scope w delete_many args db = query delete_many (in_workshop w args) db
  in_scope w other args db = query other args db

  abbrev by_workshop : Option ℕ → Operation → Args → List Row → Answer × List Row
  by_workshop none op args db = without_workshop op args db
  by_workshop (some w) op args db = in_scope w op args db

  -- `$allOperations`
  unfoldable pub all_operations : Context → String → Operation → Args → List Row → Answer × List Row
  all_operations ctx model op args db =
      if not (is_scoped model)
        || ctx.is_platform_admin && not (is_some ctx.workshop_id) && is_read_or_unique op
      then query op args db
      else by_workshop ctx.workshop_id op args db
