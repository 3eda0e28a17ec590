-- ===== src/Jobs/Service.antt =====
-- `JobsService` (src/jobs/jobs.service.ts): creating a job, its transitions, its technician, its
-- archive and its removal. `update` is in Jobs/Update.
use superflow_api.Base.{
  ℕ, String, Bool, true, false, not, ◌&&◌, Option, none, some, List, ◌∷◌, ◌==◌, if◌then◌else◌,
  find_first, keep_if, update_where, length, is_some, or_else, Result, ok, not_found, bad_request,
  ◌>>=◌, ◌>>◌, throw_if, or_throw,
}
use superflow_api.Jobs.Status.{JobStatus, booked, in_progress, closed, same_status, can_transition}
use superflow_api.Jobs.Types.{
  Shop, Ctx, Job, Change, Access, ChangeReason, job_created, given, no_parts, waiting_technician,
  Reason, customer_missing, vehicle_missing, vehicle_of_another, user_inactive, user_not_assigned,
  job_missing, bad_transition, only_closed_is_archived, not_archived,
}
use superflow_api.Jobs.Stages.{default_stage_key}
use superflow_api.Jobs.Move.{moved}

-- `assertTenantCustomer`
unfoldable pub assert_customer : ℕ → Shop → Result Reason (Unit {0})
assert_customer id shop = do
  customer ← or_throw (find_first (λ c. c.id == id) shop.customers) (bad_request customer_missing)
  throw_if (not customer.is_active) (bad_request customer_missing)

abbrev owned_by_another : Option ℕ → ℕ → Bool
owned_by_another none customer = false
owned_by_another (some owner) customer = not (owner == customer)

-- `assertTenantVehicle`
unfoldable pub assert_vehicle : ℕ → ℕ → Shop → Result Reason (Unit {0})
assert_vehicle id customer_id shop = do
  vehicle ← or_throw (find_first (λ v. v.id == id) shop.vehicles) (bad_request vehicle_missing)
  throw_if vehicle.is_deleted (bad_request vehicle_missing)
  throw_if (owned_by_another vehicle.customer_id customer_id) (bad_request vehicle_of_another)

-- The access row of a user in the selected workshop; with none selected no row is asked for.
abbrev has_access : ℕ → Option ℕ → List Access → Bool
has_access user none access = true
has_access user (some workshop) access =
    is_some (find_first (λ a. a.user_id == user && a.workshop_id == workshop) access)

-- `assertWorkshopUser`
unfoldable pub assert_user : Ctx → ℕ → Shop → Result Reason (Unit {0})
assert_user ctx id shop = do
  user ← or_throw (find_first (λ u. u.id == id) shop.users) (bad_request user_inactive)
  throw_if (not user.is_active) (bad_request user_inactive)
  throw_if (not (has_access id ctx.workshop_id shop.access)) (bad_request user_not_assigned)

-- `if (id) await this.assertWorkshopUser(id, …)`
abbrev pub assert_user_if : Ctx → Option ℕ → Shop → Result Reason (Unit {0})
assert_user_if ctx none shop = ok tt
assert_user_if ctx (some id) shop = assert_user ctx id shop

pub record CreateJobDto : Type 0 where
  pub customer_id : ℕ
  pub vehicle_id : ℕ
  pub advisor_id : Option ℕ
  pub technician_id : Option ℕ
  pub promised_at : Option ℕ

-- `assertJobRelations`
unfoldable pub assert_job_relations : Ctx → CreateJobDto → Shop → Result Reason (Unit {0})
assert_job_relations ctx dto shop = do
  assert_customer dto.customer_id shop
  assert_vehicle dto.vehicle_id dto.customer_id shop
  assert_user_if ctx dto.advisor_id shop
  assert_user_if ctx dto.technician_id shop

-- The row that `create` inserts, with the columns' defaults.
abbrev pub new_job : ℕ → CreateJobDto → ℕ → Job
new_job id dto user = record {
  id = id;
  customer_id = dto.customer_id;
  vehicle_id = dto.vehicle_id;
  advisor_id = some (or_else dto.advisor_id user);
  technician_id = dto.technician_id;
  status = booked;
  workshop_stage = none;
  workflow_stage_key = some "booked";
  parts_status = some no_parts;
  customer_informed = false;
  is_customer_waiting = false;
  promised_at = dto.promised_at;
  arrived_at = none;
  completed_at = none;
  invoiced_at = none;
  archived_at = none;
  is_deleted = false;
}

-- The job and its history row are written in one transaction.
abbrev pub with_change : Change → List Job → Shop → Shop
with_change change jobs shop = record shop { jobs = jobs; history = change ∷ shop.history }

-- `create`
unfoldable pub create : ℕ → ℕ → Ctx → CreateJobDto → ℕ → Shop → Result Reason (Job × Shop)
create id change_id ctx dto user shop = do
  assert_job_relations ctx dto shop
  assert_user_if ctx (if is_some dto.advisor_id then none else some user) shop
  let job = new_job id dto user
  let change : Change = record {
    id = change_id;
    job_id = id;
    from_status = none;
    to_status = booked;
    changed_by = some user;
    reason = job_created;
  }
  ok (job, with_change change (job ∷ shop.jobs) shop)

abbrev pub job_by_id : ℕ → List Job → Option Job
job_by_id id = find_first (λ j. j.id == id)

abbrev pub live : Option Job → Option Job
live none = none
live (some j) = if j.is_deleted then none else some j

-- The job that `findOne` reads: one that is not deleted. `id` is the table's key.
abbrev pub find_one : ℕ → Shop → Result Reason Job
find_one id shop = or_throw (live (job_by_id id shop.jobs)) (not_found job_missing)

-- jobs.update({ where: { id }, data })
unfoldable pub write_job : ℕ → (Job → Job) → List Job → List Job
write_job id f = update_where (λ j. j.id == id) f

-- The history row of a move.
abbrev pub change_of : ℕ → Job → JobStatus → Option ℕ → ChangeReason → Change
change_of id j to user reason = record {
  id = id;
  job_id = j.id;
  from_status = some j.status;
  to_status = to;
  changed_by = user;
  reason = reason;
}

-- `transition`, past the return for a job that has the status already
unfoldable pub transition_job :
    ℕ → Ctx → Job → JobStatus → Option String → ℕ → Shop → Result Reason (Unit {0} × Shop)
transition_job change_id ctx j to reason user shop = do
  throw_if (not (can_transition j.status to)) (bad_request bad_transition)
  let key = default_stage_key to shop.stages
  let change = change_of change_id j to (some user) (given reason)
  ok (tt, with_change change (write_job j.id (moved to key ctx.now) shop.jobs) shop)

unfoldable pub transition :
    ℕ → Ctx → ℕ → JobStatus → Option String → ℕ → Shop → Result Reason (Unit {0} × Shop)
transition change_id ctx id to reason user shop = do
  j ← find_one id shop
  if same_status j.status to
      then ok (tt, shop)
      else transition_job change_id ctx j to reason user shop

-- `assignTechnician`; an empty id takes the technician off the job.
abbrev pub unassigned : Job → Job
unassigned j = record j {
  technician_id = none;
  workshop_stage =
      if same_status j.status in_progress then some waiting_technician else j.workshop_stage;
}

abbrev pub with_jobs : List Job → Shop → Shop
with_jobs jobs shop = record shop { jobs = jobs }

unfoldable pub assign_technician : Ctx → ℕ → Option ℕ → Shop → Result Reason (Unit {0} × Shop)
assign_technician ctx id none shop = do
  j ← find_one id shop
  ok (tt, with_jobs (write_job id unassigned shop.jobs) shop)
assign_technician ctx id (some technician) shop = do
  j ← find_one id shop
  assert_user ctx technician shop
  ok (
    tt,
    with_jobs (write_job id (λ row. record row { technician_id = some technician }) shop.jobs) shop,
  )

abbrev pub set_archived : Option ℕ → Job → Job
set_archived at j = record j { archived_at = at }

-- `archiveJob`
unfoldable pub archive_job : Ctx → ℕ → Shop → Result Reason (Unit {0} × Shop)
archive_job ctx id shop = do
  j ← find_one id shop
  throw_if (not (same_status j.status closed)) (bad_request only_closed_is_archived)
  ok (tt, with_jobs (write_job id (set_archived (some ctx.now)) shop.jobs) shop)

-- `unarchiveJob`, which also finds a deleted job
unfoldable pub unarchive_job : ℕ → Shop → Result Reason (Unit {0} × Shop)
unarchive_job id shop = do
  j ← or_throw (job_by_id id shop.jobs) (not_found job_missing)
  throw_if (not (is_some j.archived_at)) (bad_request not_archived)
  ok (tt, with_jobs (write_job id (set_archived none) shop.jobs) shop)

abbrev pub set_deleted : Job → Job
set_deleted j = record j { is_deleted = true }

-- `remove`
unfoldable pub remove : ℕ → Shop → Result Reason (Unit {0} × Shop)
remove id shop = do
  j ← find_one id shop
  ok (tt, with_jobs (write_job id set_deleted shop.jobs) shop)

-- `removeAll`, with the count of the deleted jobs
abbrev pub is_live_booking : Job → Bool
is_live_booking j = same_status j.status booked && not j.is_deleted

unfoldable pub remove_all : Shop → ℕ × Shop
remove_all shop = (
  length (keep_if is_live_booking shop.jobs),
  with_jobs (update_where is_live_booking set_deleted shop.jobs) shop,
)
